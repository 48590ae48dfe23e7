-- ===== src/Treasury/Emission.antt =====
-- The bounds of an emission, and what a delivery of an epoch adds to the claims.
use dhf.Base.{
  map, ℕ, ◌≡◌, ◌≤◌, ◌+◌, ◌-◌, ◌*◌, refl, some, Bool, true, List, [], ◌∷◌, ◌++◌, Text, leb,
  if◌then◌else◌, inl, inr, Bool-cases, arith,
}
use dhf.Registry.{CoherenceProfile, BindingCurve, Stack}
use dhf.Treasury.{
  TokenBalance, max, million, decay, effective_balance, Emitted, Taken, emit, emit_all,
  on_epoch_transition,
}

scaled : (k d e : ℕ) → d ≤ e → k * d ≤ k * e
scaled k d e le = grind arith

-- The factor lies between the floor and one, and does not grow with the time.
decay_lem :
    (exp_neg : ℕ → ℕ) (curve : BindingCurve) (d e : ℕ)
    → ((x : ℕ) → exp_neg x ≤ million)
    → ((x y : ℕ) → x ≤ y → exp_neg y ≤ exp_neg x)
    → curve.floor ≤ million
    → d ≤ e
    → (curve.floor ≤ decay exp_neg curve d)
      × (decay exp_neg curve d ≤ million)
      × (decay exp_neg curve e ≤ decay exp_neg curve d)
unfolding decay max
decay_lem exp_neg curve d e bounded falls low le = ground (
  arith,
  bounded (curve.decay_rate * d),
  bounded (curve.decay_rate * e),
  falls (curve.decay_rate * d) (curve.decay_rate * e) (scaled curve.decay_rate d e le),
)

-- With an exponential that is at most one and does not grow, and a floor of at most one: the
-- effective compute bandwidth lies between the floor's share of raw times coefficient and the whole
-- of it, and does not grow with the epochs that pass; the residue is raw times coefficient at any
-- time.
pub effective_balance-bounds :
    (exp_neg : ℕ → ℕ) (raw : TokenBalance) (cpv : CoherenceProfile) (curve : BindingCurve) (d e : ℕ)
    → ((x : ℕ) → exp_neg x ≤ million)
    → ((x y : ℕ) → x ≤ y → exp_neg y ≤ exp_neg x)
    → curve.floor ≤ million
    → d ≤ e
    → let now = effective_balance exp_neg raw cpv curve d in
      let later = effective_balance exp_neg raw cpv curve e in
      (raw.compute * cpv.compute_coeff * curve.floor ≤ now.compute)
      × (now.compute ≤ raw.compute * cpv.compute_coeff * million)
      × (later.compute ≤ now.compute)
      × (now.residue ≡ raw.residue * cpv.residue_coeff * million)
      × (later.residue ≡ raw.residue * cpv.residue_coeff * million)
unfolding effective_balance
effective_balance-bounds exp_neg raw cpv curve d e bounded falls low le =
    let (above, below, less) = decay_lem exp_neg curve d e bounded falls low le in
    let share = raw.compute * cpv.compute_coeff in
    (
      scaled share curve.floor _ above,
      scaled share _ million below,
      scaled share _ _ less,
      refl,
      refl,
    )

abbrev pub at_epoch : ℕ → Stack → Stack
at_epoch epoch s = record s { epoch = epoch }

-- The stacks whose entry is taken.
abbrev pub kept : (Text → Bool) → List Stack → List Stack
kept logged [] = []
kept logged (s ∷ rest) = if logged s.id then s ∷ kept logged rest else kept logged rest

-- The entry of a stack for an epoch, `elapsed` epochs after the last one.
abbrev pub entry : (ℕ → ℕ) → ℕ → ℕ → (Stack → ℕ) → Stack → Emitted
entry exp_neg per_epoch epoch elapsed s = record {
  stack_id = s.id;
  epoch = epoch;
  detail =
      effective_balance exp_neg
        (record {
          compute = per_epoch;
          memory = per_epoch;
          sync = per_epoch;
          routing = per_epoch;
          residue = 0;
        })
        s.cpv s.binding (elapsed s);
}

-- The epochs since the stack's, but at least one.
abbrev pub since : ℕ → Stack → ℕ
since epoch s = if leb epoch (s.epoch + 1) then 1 else epoch - s.epoch

since-max : (epoch : ℕ) (s : Stack) → max 1 (epoch - s.epoch) ≡ since epoch s
unfolding max
since-max epoch s = ground arith

emit_all_first :
    (exp_neg : ℕ → ℕ) (per_epoch epoch : ℕ) (logged : Text → Bool) (stacks : List Stack)
    → emit_all exp_neg per_epoch epoch (λ k. (logged k, true)) stacks ≡ (
      map (entry exp_neg per_epoch epoch (since epoch)) (kept logged stacks),
      map (at_epoch epoch) stacks,
    )
unfolding emit_all emit
emit_all_first exp_neg per_epoch epoch logged [] = refl
emit_all_first exp_neg per_epoch epoch logged (s ∷ rest) = elim (Bool-cases (logged s.id)) [
  | inl e ↦ rw (e, since-max epoch s, emit_all_first exp_neg per_epoch epoch logged rest) refl
  | inr e ↦ rw (e, emit_all_first exp_neg per_epoch epoch logged rest) refl
]

emit_all_again :
    (exp_neg : ℕ → ℕ) (per_epoch epoch : ℕ) (taken : Text → Taken) (stacks : List Stack)
    → emit_all exp_neg per_epoch epoch taken (map (at_epoch epoch) stacks) ≡ (
      map (entry exp_neg per_epoch epoch (λ s. 1)) (kept (λ k. (taken k).0) stacks),
      map (at_epoch epoch) stacks,
    )
unfolding emit_all emit max
emit_all_again exp_neg per_epoch epoch taken [] = refl
emit_all_again exp_neg per_epoch epoch taken (s ∷ rest) =
    let one : epoch - epoch ≡ 0 = omega arith in
    elim (Bool-cases (taken s.id).0) [
      | inl e ↦ elim (Bool-cases (taken s.id).1) [
        | inl f ↦ rw (e, f, one, emit_all_again exp_neg per_epoch epoch taken rest) refl
        | inr f ↦ rw (e, f, one, emit_all_again exp_neg per_epoch epoch taken rest) refl
      ]
      | inr e ↦ elim (Bool-cases (taken s.id).1) [
        | inl f ↦ rw (e, f, emit_all_again exp_neg per_epoch epoch taken rest) refl
        | inr f ↦ rw (e, f, emit_all_again exp_neg per_epoch epoch taken rest) refl
      ]
    ]

-- A delivery of an epoch whose updates of the stacks are all taken sets every stack's epoch to it and
-- adds to the log, for each stack whose entry is taken, the emission for the epochs since the
-- stack's, at least one; a second delivery of the same epoch adds, for each stack whose entry is
-- taken then, the emission for one epoch more, and changes no stack, whether its updates are taken or
-- not.
pub on_epoch_transition-redelivered :
    (exp_neg : ℕ → ℕ) (per_epoch epoch : ℕ) (logged : Text → Bool) (taken : Text → Taken)
    (log : List Emitted) (stacks : List Stack)
    → let once =
        on_epoch_transition exp_neg per_epoch epoch (some (λ k. (logged k, true))) (log, stacks) in
      (once ≡ (
        true,
        (
          log ++ map (entry exp_neg per_epoch epoch (since epoch)) (kept logged stacks),
          map (at_epoch epoch) stacks,
        ),
      ))
      × (on_epoch_transition exp_neg per_epoch epoch (some taken) once.1 ≡ (
        true,
        (
          once.1.0 ++ map (entry exp_neg per_epoch epoch (λ s. 1)) (kept (λ k. (taken k).0) stacks),
          map (at_epoch epoch) stacks,
        ),
      ))
unfolding on_epoch_transition
on_epoch_transition-redelivered exp_neg per_epoch epoch logged taken log stacks =
    let first = emit_all_first exp_neg per_epoch epoch logged stacks in
    let again = emit_all_again exp_neg per_epoch epoch taken stacks in
    (rw first refl, rw (first, again) refl)
