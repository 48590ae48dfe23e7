-- ===== src/Registry.antt =====
-- The registry of stacks and sleeves (packages/db/prisma/schema.prisma), as far as the services read
-- and write it, the events that they publish, and the outcomes of the calls that leave a service.
-- Token amounts are counted in halves: every amount that the services add or take is a multiple of
-- one half. A field of `tokens` may be missing. Drift is a natural number.
pub mod Profiles
pub mod Laws
use dhf.Base.{
  ℕ, ◌+◌, ◌*◌, ◌≡◌, ◌⊎◌, inl, inr, refl, Option, none, some, Bool, true, false, List, [], ◌∷◌, ◌++◌,
  Text, text_eq, if◌then◌else◌, or_else,
}

pub data EmbodimentType : Type 0 where
  human ai mining memory : EmbodimentType

pub record Tokens : Type 0 where
  pub compute : Option ℕ
  pub memory : Option ℕ
  pub sync : Option ℕ
  pub routing : Option ℕ
  pub residue : Option ℕ

-- The coefficients and the curve of a stack, in millionths.
pub record CoherenceProfile : Type 0 where
  pub compute_coeff : ℕ
  pub memory_coeff : ℕ
  pub sync_coeff : ℕ
  pub routing_coeff : ℕ
  pub residue_coeff : ℕ

pub record BindingCurve : Type 0 where
  pub decay_rate : ℕ
  pub floor : ℕ

pub record Stack : Type 0 where
  pub id : Text
  pub token_id : ℕ
  pub name : Text
  pub kind : Text
  pub pub_key : Text
  pub epoch : ℕ
  pub cpv : CoherenceProfile
  pub binding : BindingCurve
  pub episodic_head : Option Text

pub record Sleeve : Type 0 where
  pub id : Text
  pub stack_id : Text
  pub embodiment_type : EmbodimentType
  pub alive : Bool
  pub drift : ℕ
  pub sync_epoch : ℕ
  pub last_sync : ℕ
  pub tokens : Tokens
  pub hostname : Option Text

pub record Db : Type 0 where
  pub stacks : List Stack
  pub sleeves : List Sleeve

-- halves
abbrev pub whole : ℕ → ℕ
whole k = k * 2

-- `amount ?? 0`
abbrev pub amount : Option ℕ → ℕ
amount a = or_else a 0

-- db.stack.findUnique, db.sleeve.findUnique
unfoldable pub find_stack : Text → List Stack → Option Stack
find_stack k [] = none
find_stack k (s ∷ rest) = if text_eq s.id k then some s else find_stack k rest

unfoldable pub find_sleeve : Text → List Sleeve → Option Sleeve
find_sleeve k [] = none
find_sleeve k (s ∷ rest) = if text_eq s.id k then some s else find_sleeve k rest

-- db.stack.update, db.sleeve.update: the row with the key is changed; without one the call throws.
unfoldable pub change_stack : Text → (Stack → Stack) → List Stack → List Stack
change_stack k f [] = []
change_stack k f (s ∷ rest) = if text_eq s.id k then f s ∷ rest else s ∷ change_stack k f rest

unfoldable pub change_sleeve : Text → (Sleeve → Sleeve) → List Sleeve → List Sleeve
change_sleeve k f [] = []
change_sleeve k f (s ∷ rest) = if text_eq s.id k then f s ∷ rest else s ∷ change_sleeve k f rest

unfoldable pub update_stack : Text → (Stack → Stack) → Db → Option Db
unfolding find_stack change_stack
update_stack k f db = elim (find_stack k db.stacks) [
  | none ↦ none
  | some s ↦ some (record db { stacks = change_stack k f db.stacks })
]

unfoldable pub update_sleeve : Text → (Sleeve → Sleeve) → Db → Option Db
unfolding find_sleeve change_sleeve
update_sleeve k f db = elim (find_sleeve k db.sleeves) [
  | none ↦ none
  | some s ↦ some (record db { sleeves = change_sleeve k f db.sleeves })
]

-- `findMany({ where: { stackId, alive: true } })`
unfoldable pub alive_of : Text → List Sleeve → List Sleeve
alive_of k [] = []
alive_of k (s ∷ rest) =
    let more = alive_of k rest in
    if s.alive then (if text_eq s.stack_id k then s ∷ more else more) else more

-- What the services publish on the bus.
pub data Event : Type 0 where
  -- the stack, its name, its kind, its token's number, its key and the time
  stack_created : Text → Text → Text → ℕ → Text → ℕ → Event
  -- the sleeve, the stack, the kind of body and the time
  sleeve_spawned : Text → Text → EmbodimentType → ℕ → Event
  sleeve_decommissioned : Text → Text → Event
  -- the sleeve, the stack and the identifier of the memory
  sleeve_perceive : Text → Text → Text → Event
  -- the stack, the root, and the numbers of fragments and of broken links
  memory_recall : Text → Text → ℕ → ℕ → Event
  -- from, to, the stack and the shards
  needlecast_route : Text → Text → Text → List Text → Event
  sleeve_drift : Text → Text → ℕ → Event
  -- the sleeve, the stack, the drift and the time
  sleeve_desync : Text → Text → ℕ → ℕ → Event
  epoch_transition : ℕ → Text → Event
  residue_detected : Text → Text → Event

-- The registry beside the events published so far, the latest last.
pub record World : Type 0 where
  pub db : Db
  pub open db use *
  pub events : List Event

-- `bus.publish(…).catch(() => {})`: an event that the bus does not take is lost.
unfoldable pub publish_or_drop : Bool → Event → World → World
publish_or_drop up e w = if up then record w { events = w.events ++ e ∷ [] } else w

-- What a request is answered with: a result, an error with its status, or a 500 after an exception.
pub data Reply {ℓ} (A : Type ℓ) : Type ℓ where
  ok : A → Reply A
  error : ℕ → Text → Reply A
  thrown : Reply A

abbrev pub is_ok {ℓ} : {A : Type ℓ} → Reply A → Bool
is_ok (ok a) = true
is_ok (error status why) = false
is_ok thrown = false

pub Reply-cases {ℓ} : {A : Type ℓ} (r : Reply A) → ((a : A) × (r ≡ ok a)) ⊎ (is_ok r ≡ false)
Reply-cases (ok a) = inl (a, refl)
Reply-cases (error status why) = inr refl
Reply-cases thrown = inr refl
