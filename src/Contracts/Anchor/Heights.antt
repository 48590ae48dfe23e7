-- ===== src/Contracts/Anchor/Heights.antt =====
-- The anchors of the epochs rise with the chain of the Medulla.
use dhf.Base.{
  ℕ, ◌+◌, ◌==◌, ◌||◌, not, ◌≡◌, ◌<◌, ◌≤◌, sym, some, Bool, true, ltb, arith, some_inj,
  if◌then◌else◌,
}
use dhf.Contracts.{require-some}
use dhf.Contracts.Anchor.{
  Anchor, EpochAnchor, anchor_deployed, set_bridger, commit_anchor, verify_continuity,
}

-- The contract after any calls, each in a block whose time is not 0; the calls that revert leave no
-- trace.
pub data Reaches : EpochAnchor → Type 0 where
  started : (sender : ℕ) → Reaches (anchor_deployed sender)
  bridger_set :
      (sender b : ℕ) (ok : Bool) (c d : EpochAnchor)
      → set_bridger sender b ok c ≡ some d
      → Reaches c
      → Reaches d
  committed :
      (sender epoch : ℕ) (a : Anchor) (c d : EpochAnchor)
      → 0 < a.ts
      → commit_anchor sender epoch a c ≡ some d
      → Reaches c
      → Reaches d

-- An anchor that was committed is at most at the head, and not above the last height; of two, the
-- later epoch has the greater height.
pub record Rises (c : EpochAnchor) : Type 0 where
  pub below_head : (i : ℕ) → 0 < (c.by_epoch i).ts → i ≤ c.head
  pub below_height :
      (i : ℕ) → 0 < (c.by_epoch i).ts → (c.by_epoch i).medulla_height ≤ c.last_medulla_height
  pub ordered :
      (i j : ℕ)
      → i < j
      → 0 < (c.by_epoch i).ts
      → 0 < (c.by_epoch j).ts
      → (c.by_epoch i).medulla_height < (c.by_epoch j).medulla_height

deployed-Rises : (sender : ℕ) → Rises (anchor_deployed sender)
unfolding anchor_deployed
deployed-Rises sender = record {
  below_head = λ i h. absurd (ground (arith, h));
  below_height = λ i h. absurd (ground (arith, h));
  ordered = λ i j l h k. absurd (ground (arith, h));
}

set_bridger-Rises :
    (sender b : ℕ) (ok : Bool) (c d : EpochAnchor)
    → set_bridger sender b ok c ≡ some d
    → Rises c
    → Rises d
unfolding set_bridger
set_bridger-Rises sender b ok c d h w =
    let (allowed, e) = require-some (sender == c.owner) _ h in
    rw (sym (some_inj e))
      (record { below_head = w.below_head; below_height = w.below_height; ordered = w.ordered })

anchor_added : ℕ → Anchor → EpochAnchor → EpochAnchor
anchor_added epoch a c = record c {
  by_epoch = λ x. if x == epoch then a else c.by_epoch x;
  head = epoch;
  last_medulla_height = a.medulla_height;
}

anchor_added-Rises :
    (epoch : ℕ) (a : Anchor) (c : EpochAnchor)
    → (ltb c.head epoch || (c.head == 0)) ≡ true
    → ltb c.last_medulla_height a.medulla_height ≡ true
    → Rises c
    → Rises (anchor_added epoch a c)
unfolding anchor_added
anchor_added-Rises epoch a c later higher w = record {
  below_head = λ i h. ground (arith, w.below_head i, later, higher, h);
  below_height = λ i h. ground (arith, w.below_height i, later, higher, h);
  ordered = λ i j l h k. ground (
    arith,
    w.ordered i j,
    w.below_head i,
    w.below_head j,
    w.below_height i,
    w.below_height j,
    later,
    higher,
    l,
    h,
    k,
  );
}

commit_anchor-Rises :
    (sender epoch : ℕ) (a : Anchor) (c d : EpochAnchor)
    → commit_anchor sender epoch a c ≡ some d
    → Rises c
    → Rises d
unfolding commit_anchor anchor_added
commit_anchor-Rises sender epoch a c d h w =
    let (allowed, h0) = require-some (c.bridgers sender) _ h in
    let (later, h1) = require-some (ltb c.head epoch || (c.head == 0)) _ h0 in
    let (higher, h2) = require-some (ltb c.last_medulla_height a.medulla_height) _ h1 in
    rw (sym (some_inj h2)) (anchor_added-Rises epoch a c later higher w)

-- After any calls by anyone, in blocks whose time is not 0: every committed anchor has an epoch at
-- most at the head and a height not above the last, and of two the later epoch has the greater height.
pub Reaches-Rises : (c : EpochAnchor) → Reaches c → Rises c
Reaches-Rises _ (started sender) = deployed-Rises sender
Reaches-Rises _ (bridger_set sender b ok c d h before) =
    set_bridger-Rises sender b ok c d h (Reaches-Rises c before)
Reaches-Rises _ (committed sender epoch a c d now h before) =
    commit_anchor-Rises sender epoch a c d h (Reaches-Rises c before)

-- Two anchors of consecutive epochs that exist are continuous exactly when their roots differ: the
-- heights never fail the test.
verify_continuity-roots :
    (c : EpochAnchor) (epoch : ℕ)
    → Reaches c
    → 0 < (c.by_epoch epoch).ts
    → 0 < (c.by_epoch (epoch + 1)).ts
    → verify_continuity c (epoch + 1) ≡ (
      true,
      not ((c.by_epoch (epoch + 1)).synaptic_field_root == (c.by_epoch epoch).synaptic_field_root),
    )
unfolding verify_continuity
verify_continuity-roots c epoch reached h k =
    let w = Reaches-Rises c reached in
    ground (arith, w.ordered epoch (epoch + 1) (omega arith) h k, h, k)
