-- ===== src/Http.antt =====
-- The answers that a `fetch` gives: the status, and the body where it is JSON.
use dhf.Base.{ℕ, Option, none, Bool, ◌&&◌, leb, ltb, if◌then◌else◌}

pub record Answer {ℓ} (A : Type ℓ) : Type ℓ where
  pub status : ℕ
  pub body : Option A

-- `resp.ok`
unfoldable pub is_ok_status : ℕ → Bool
is_ok_status status = leb 200 status && ltb status 300

-- `if (!resp.ok) throw …; return resp.json()`
unfoldable pub accepted {ℓ} : {A : Type ℓ} → Answer A → Option A
unfolding is_ok_status
accepted r = if is_ok_status r.status then r.body else none
