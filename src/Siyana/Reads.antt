-- ===== src/Siyana/Reads.antt =====
-- services/siyana-api/src/server.ts: the lists, the requests that are passed on to another service or
-- node, and the clients that follow the events.
use dhf.Base.{
  ℕ, ◌==◌, Option, none, some, Bool, List, [], ◌∷◌, ◌++◌, Text, text_eq, if◌then◌else◌, codes, take,
}
use dhf.Chain.Medulla.{Pow, CoherenceAnchor, get_info, mine_block}
use dhf.Registry.{Stack, Sleeve, Db, Reply, ok, thrown}
use dhf.Workers.{Residue}

unfoldable pub sleeves_of : Text → List Sleeve → List Sleeve
sleeves_of id [] = []
sleeves_of id (s ∷ rest) =
    let more = sleeves_of id rest in if text_eq s.stack_id id then s ∷ more else more

unfoldable pub with_sleeves : List Sleeve → List Stack → List (Stack × List Sleeve)
unfolding sleeves_of
with_sleeves sleeves [] = []
with_sleeves sleeves (s ∷ rest) = (s, sleeves_of s.id sleeves) ∷ with_sleeves sleeves rest

-- GET /v1/stacks
unfoldable pub list_stacks : Db → List (Stack × List Sleeve)
unfolding with_sleeves
list_stacks db = with_sleeves db.sleeves db.stacks

-- GET /v1/sleeves
unfoldable pub list_sleeves : List Sleeve → List Sleeve
list_sleeves [] = []
list_sleeves (s ∷ rest) = let more = list_sleeves rest in if s.alive then s ∷ more else more

-- What the gateway answers to a transfer: the router's own body, or that it failed.
pub data Forwarded {ℓ} (A : Type ℓ) : Type ℓ where
  passed_on : A → Forwarded A
  not_reached : Text → Forwarded A

-- POST /v1/needlecast; the router's answer is a body, or the text of an error. Its status is dropped.
unfoldable pub forward_needlecast {ℓ} :
    {A : Type ℓ} → (Text → Text → ℕ × Forwarded A) → Text → Text → ℕ × Forwarded A
forward_needlecast router source target = (200, (router source target).1)

pub record EpochInfo : Type 0 where
  pub epoch : ℕ
  pub height : ℕ
  pub tip : Option Text

-- GET /v1/epochs/current
unfoldable pub current_epoch : Pow → EpochInfo
unfolding get_info
current_epoch pow = elim (get_info pow) [
  | none ↦ record { epoch = 0; height = 0; tip = none }
  | some i ↦ record { epoch = i.epoch; height = i.height; tip = some i.tip }
]

-- POST /v1/mining/block
unfoldable pub mine : Pow → Reply CoherenceAnchor
unfolding mine_block
mine pow = elim (mine_block pow (codes "genesis-pool")) [ none ↦ thrown | some a ↦ ok a ]

-- GET /v1/coordination/residues; the residues are in the order of time.
abbrev latest_first : List Residue → List Residue → List Residue
latest_first found [] = found
latest_first found (r ∷ rest) = latest_first (r ∷ found) rest

unfoldable pub residues : List Residue → List Residue
residues all = take 50 (latest_first [] all)

-- GET /ws: a client by its number joins, leaves, and is sent every event; `sends` is whether its socket
-- takes it.
unfoldable pub join : ℕ → List ℕ → List ℕ
join client clients = clients ++ client ∷ []

unfoldable pub leave : ℕ → List ℕ → List ℕ
leave client [] = []
leave client (c ∷ rest) = let more = leave client rest in if c == client then rest else c ∷ more

unfoldable pub fan_out : (ℕ → Bool) → List ℕ → List ℕ
fan_out sends [] = []
fan_out sends (c ∷ rest) = let more = fan_out sends rest in if sends c then c ∷ more else more
