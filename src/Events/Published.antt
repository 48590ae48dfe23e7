-- ===== src/Events/Published.antt =====
-- The registry and the events of services/siyana-api keep to the schemas.
pub mod Handlers
use dhf.Base.{
  ℕ, ◌+◌, ◌≡◌, refl, sym, ◌&&◌, ◌||◌, Option, none, some, Bool, if◌then◌else◌, true, false, List,
  [], ◌∷◌, ◌++◌, Text, codes, All, is_empty, text_eq, arith, inl, inr, Bool-cases, Option-cases,
  ltb, length, take, some_inj,
}
use dhf.Base.Decimal.{to_decimal}
use dhf.Crypto.{text, sha256hex}
use dhf.Crypto.Primitives.{Noble, HashLaws}
use dhf.Crypto.Cipher.{IdentityKeypair}
use dhf.Crypto.Cid.{HexLaws, each}
use dhf.Registry.{
  EmbodimentType, Db, Stack, Sleeve, World, Event, Reply, ok, error, thrown, find_stack,
  find_sleeve, update_sleeve, change_sleeve, publish_or_drop,
}
use dhf.Siyana.{embodiment_name}
use dhf.Siyana.Sleeves.{spawn, decommission, count_sleeves}
use dhf.Siyana.Stacks.{create_stack}
use dhf.Events.{EccaEvent, stack_created, sleeve_spawned, sleeve_decommissioned, accepts}
use dhf.Registry.Profiles.{accepts_profile, accepts_curve}
use dhf.Events.Patterns.{is_stack_id, is_sleeve_id, is_lower, is_int, natural}
use dhf.Events.Identifiers.{written_id}

-- The identifiers of the rows and the profiles and curves of the stacks match the schemas.
pub record IsTyped (w : World) : Type 0 where
  pub stacks_typed : All (λ s. is_stack_id s.id ≡ true) w.stacks
  pub profiles_typed : All (λ s. (accepts_profile s.cpv && accepts_curve s.binding) ≡ true) w.stacks
  pub sleeves_typed : All (λ s. (is_sleeve_id s.id && is_stack_id s.stack_id) ≡ true) w.sleeves

-- The events of the stacks' creation and the sleeves' spawning as they stand on the bus.
unfoldable pub wire : Event → Option (EccaEvent Text)
wire (Event.stack_created id name kind token_id pubkey ts) = some (
    stack_created (record {
      stack_id = id;
      name = name;
      kind = kind;
      token_id = natural token_id;
      pubkey = pubkey;
      ts = natural ts;
    }))
wire (Event.sleeve_spawned id stack_id kind ts) = some (
    sleeve_spawned
      (record { sleeve_id = id; stack_id = stack_id; embodiment_type = kind; ts = natural ts }))
wire _ = none

-- Whether the union accepts the event.
unfoldable pub is_accepted : Event → Bool
unfolding wire
is_accepted e = elim (wire e) [ none ↦ false | some x ↦ accepts x ]

-- What a handler has published: one event that the union accepts, if the bus takes it.
unfoldable pub PublishesOne : Bool → Event → List Event → List Event → Type 0
PublishesOne up e before after =
    (is_accepted e ≡ true) × (after ≡ (if up then before ++ e ∷ [] else before))

-- For a reply with a stack, the event of that stack; for an error, nothing.
unfoldable pub StackAccepted :
    IdentityKeypair → ℕ → Bool → List Event → Reply (Stack × Text) → List Event → Type 0
unfolding PublishesOne
StackAccepted kp ts up before (ok (s, priv)) after =
    PublishesOne up (Event.stack_created s.id s.name s.kind s.token_id kp.pub_hex ts) before after
StackAccepted kp ts up before (error status why) after = after ≡ before
StackAccepted kp ts up before thrown after = after ≡ before

unfoldable pub SleeveAccepted : ℕ → Bool → List Event → Reply Sleeve → List Event → Type 0
unfolding PublishesOne
SleeveAccepted ts up before (ok s) after =
    PublishesOne up (Event.sleeve_spawned s.id s.stack_id s.embodiment_type ts) before after
SleeveAccepted ts up before (error status why) after = after ≡ before
SleeveAccepted ts up before thrown after = after ≡ before

pub All-snoc {ℓ κ} :
    {A : Type ℓ} (P : A → Type κ) (xs : List A) (x : A) → All P xs → P x → All P (xs ++ x ∷ [])
All-snoc P [] x h p = (p, tt)
All-snoc P (y ∷ ys) x h p = (h.0, All-snoc P ys x h.1 p)

pub publish_or_drop-IsTyped :
    (up : Bool) (e : Event) (w : World) → IsTyped w → IsTyped (publish_or_drop up e w)
unfolding publish_or_drop
publish_or_drop-IsTyped true e w v = record {
  stacks_typed = v.stacks_typed;
  profiles_typed = v.profiles_typed;
  sleeves_typed = v.sleeves_typed;
}
publish_or_drop-IsTyped false e w v = v

pub found-typed :
    (k : Text) (stacks : List Stack) (s : Stack)
    → find_stack k stacks ≡ some s
    → All (λ s. is_stack_id s.id ≡ true) stacks
    → is_stack_id s.id ≡ true
unfolding find_stack
found-typed k [] s h v = absurd (ground (arith, h))
found-typed k (x ∷ rest) s h v = ground (arith, h, v.0, found-typed k rest s, v.1)

pub embodiment_name-is_lower :
    (k : EmbodimentType)
    → (is_empty (embodiment_name k) ≡ false) × (each is_lower (embodiment_name k) ≡ true)
unfolding embodiment_name each is_lower
embodiment_name-is_lower EmbodimentType.human = (refl, refl)
embodiment_name-is_lower EmbodimentType.ai = (refl, refl)
embodiment_name-is_lower EmbodimentType.mining = (refl, refl)
embodiment_name-is_lower EmbodimentType.memory = (refl, refl)

pub change_sleeve-typed :
    (k : Text) (f : Sleeve → Sleeve) (sleeves : List Sleeve)
    → ((s : Sleeve) → (f s).id ≡ s.id)
    → ((s : Sleeve) → (f s).stack_id ≡ s.stack_id)
    → All (λ s. (is_sleeve_id s.id && is_stack_id s.stack_id) ≡ true) sleeves
    → All (λ s. (is_sleeve_id s.id && is_stack_id s.stack_id) ≡ true) (change_sleeve k f sleeves)
unfolding change_sleeve
change_sleeve-typed k f [] keeps keeps' v = tt
change_sleeve-typed k f (s ∷ rest) keeps keeps' v = elim (Bool-cases (text_eq s.id k)) [
  | inl e ↦ rw e (rw (keeps s, keeps' s) v.0, v.1)
  | inr e ↦ rw e (v.0, change_sleeve-typed k f rest keeps keeps' v.1)
]

is_int-natural : (k : ℕ) → is_int (natural k) ≡ true
unfolding is_int
is_int-natural k = ground arith

pub publish_or_drop-PublishesOne :
    (up : Bool) (e : Event) (w : World)
    → is_accepted e ≡ true
    → PublishesOne up e w.events (publish_or_drop up e w).events
unfolding PublishesOne publish_or_drop
publish_or_drop-PublishesOne true e w h = (h, refl)
publish_or_drop-PublishesOne false e w h = (h, refl)

pub created-accepted :
    (id name kind pubkey : Text) (token_id ts : ℕ)
    → is_stack_id id ≡ true
    → is_accepted (Event.stack_created id name kind token_id pubkey ts) ≡ true
unfolding accepts is_accepted
created-accepted id name kind pubkey token_id ts h = rw (h, is_int-natural token_id) refl

pub both : {a b : Bool} → a ≡ true → b ≡ true → (a && b) ≡ true
both h k = rw (h, k) refl

pub spawned-accepted :
    (id stack_id : Text) (kind : EmbodimentType) (ts : ℕ)
    → is_sleeve_id id ≡ true
    → is_stack_id stack_id ≡ true
    → is_accepted (Event.sleeve_spawned id stack_id kind ts) ≡ true
unfolding accepts is_accepted
spawned-accepted id stack_id kind ts h k = both h k
