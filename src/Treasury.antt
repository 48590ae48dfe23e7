-- ===== src/Treasury.antt =====
-- services/quellist-treasury-svc/src/server.ts and `effectiveBalance` of
-- packages/proto/src/tokens.ts. Coefficients, rates and fractions are in millionths, so a balance is
-- a whole number of 10^-12 tokens; the rounding of floating-point numbers is not modelled. The
-- exponential is the argument `exp_neg`: millionths for millionths of a negated exponent.
pub mod Emission
use dhf.Base.{
  ℕ, ◌+◌, ◌-◌, ◌*◌, Option, none, some, Bool, true, false, List, [], ◌∷◌, ◌++◌, Text, text_eq,
  if◌then◌else◌, leb, take,
}
use dhf.Registry.{CoherenceProfile, BindingCurve, Stack}

pub record TokenBalance : Type 0 where
  pub compute : ℕ
  pub memory : ℕ
  pub sync : ℕ
  pub routing : ℕ
  pub residue : ℕ

-- Math.max
unfoldable pub max : ℕ → ℕ → ℕ
max a b = if leb a b then b else a

abbrev pub million : ℕ
million = 1000000

unfoldable pub decay : (ℕ → ℕ) → BindingCurve → ℕ → ℕ
unfolding max
decay exp_neg curve epoch_delta = max curve.floor (exp_neg (curve.decay_rate * epoch_delta))

unfoldable pub effective_balance :
    (ℕ → ℕ) → TokenBalance → CoherenceProfile → BindingCurve → ℕ → TokenBalance
unfolding decay
effective_balance exp_neg raw cpv curve epoch_delta =
    let d = decay exp_neg curve epoch_delta in
    record {
      compute = raw.compute * cpv.compute_coeff * d;
      memory = raw.memory * cpv.memory_coeff * d;
      sync = raw.sync * cpv.sync_coeff * d;
      routing = raw.routing * cpv.routing_coeff * d;
      residue = raw.residue * cpv.residue_coeff * million;
    }

-- an entry of the audit log with the action `treasury.emit`
pub record Emitted : Type 0 where
  pub stack_id : Text
  pub epoch : ℕ
  pub detail : TokenBalance

-- The raw emission of an epoch.
abbrev pub raw_emission : ℕ → TokenBalance
raw_emission per_epoch = record {
  compute = per_epoch;
  memory = per_epoch;
  sync = per_epoch;
  routing = per_epoch;
  residue = 0;
}

-- What the database takes of a stack's turn: the entry of the log, and the update of the row.
abbrev pub Taken : Type 0
Taken = Bool × Bool

-- One stack's turn in the subscription to `ecca.epoch.transition`: a write that fails is passed over.
unfoldable pub emit : (ℕ → ℕ) → ℕ → ℕ → Taken → Stack → List Emitted × Stack
unfolding effective_balance max
emit exp_neg per_epoch epoch (logged, updated) s =
    let entry : Emitted = record {
      stack_id = s.id;
      epoch = epoch;
      detail =
          effective_balance exp_neg (raw_emission per_epoch) s.cpv s.binding
            (max 1 (epoch - s.epoch));
    } in
    (if logged then entry ∷ [] else [], if updated then record s { epoch = epoch } else s)

unfoldable pub emit_all : (ℕ → ℕ) → ℕ → ℕ → (Text → Taken) → List Stack → List Emitted × List Stack
unfolding emit
emit_all exp_neg per_epoch epoch taken [] = ([], [])
emit_all exp_neg per_epoch epoch taken (s ∷ rest) =
    let (entry, s') = emit exp_neg per_epoch epoch (taken s.id) s in
    let (entries, rest') = emit_all exp_neg per_epoch epoch taken rest in
    (entry ++ entries, s' ∷ rest')

-- The whole handler, on the audit log and the stacks, and whether it returns: where the read of the
-- stacks fails (`none`) it throws; else the database takes, of each stack's writes, those that it
-- takes.
unfoldable pub on_epoch_transition :
    (ℕ → ℕ)
    → ℕ
    → ℕ
    → Option (Text → Taken)
    → List Emitted × List Stack
    → Bool × (List Emitted × List Stack)
unfolding emit_all
on_epoch_transition exp_neg per_epoch epoch none state = (false, state)
on_epoch_transition exp_neg per_epoch epoch (some taken) (log, stacks) =
    let (entries, stacks') = emit_all exp_neg per_epoch epoch taken stacks in
    (true, (log ++ entries, stacks'))

-- The four totals of a claim.
pub record Claimable : Type 0 where
  pub compute : ℕ
  pub memory : ℕ
  pub sync : ℕ
  pub routing : ℕ

-- POST /v1/treasury/claim
unfoldable pub claim : Text → List Emitted → Claimable
claim k [] = record { compute = 0; memory = 0; sync = 0; routing = 0 }
claim k (r ∷ rest) =
    let more = claim k rest in
    if text_eq r.stack_id k
    then record {
      compute = r.detail.compute + more.compute;
      memory = r.detail.memory + more.memory;
      sync = r.detail.sync + more.sync;
      routing = r.detail.routing + more.routing;
    }
    else more

-- The entries of a stack, the latest first; the log is in the order of time.
unfoldable pub issued : Text → List Emitted → List Emitted → List Emitted
issued k found [] = found
issued k found (r ∷ rest) = issued k (if text_eq r.stack_id k then r ∷ found else found) rest

-- GET /v1/treasury/issuance/:stackId
unfoldable pub issuance : Text → List Emitted → List Emitted
unfolding issued
issuance k log = take 100 (issued k [] log)
