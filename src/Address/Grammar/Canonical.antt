-- ===== src/Address/Grammar/Canonical.antt =====
-- The canonical form of a value.
use dhf.Base.{
  ℕ, ◌≡◌, refl, ap, ap₂, ◌⊎◌, inl, inr, Bool, true, false, [], ◌∷◌, Text, is_empty, ◌&&◌,
  Bool-cases, arith, if◌then◌else◌, All,
}
use dhf.Address.Hex.{is_space}
use dhf.Address.Grammar.{lower_char, to_lower_case, trim_start, trim_end, collapse, canonical}

-- Words of lower-case letters with one space between two of them, and none at the end; the flag
-- says that a space may not come next.
abbrev pub Words : Bool → Text → Type 0
Words after_space [] = after_space ≡ false
Words after_space (c ∷ cs) = elim (is_space c) [
  | true ↦ (after_space ≡ false) × (c ≡ 0x20) × Words true cs
  | false ↦ (lower_char c ≡ c) × Words false cs
]

abbrev pub IsCanonical : Text → Type 0
IsCanonical t = (t ≡ []) ⊎ Words true t

abbrev IsLower : Text → Type 0
IsLower = All (λ c. lower_char c ≡ c)

-- Not empty, and the last character is no white space.
abbrev EndsWell : Text → Type 0
EndsWell [] = ⊥
EndsWell (c ∷ []) = is_space c ≡ false
EndsWell (c ∷ d ∷ cs) = EndsWell (d ∷ cs)

abbrev StartsWell : Text → Type 0
StartsWell [] = ⊥
StartsWell (c ∷ cs) = is_space c ≡ false

lower_char-lower_char : (c : ℕ) → lower_char (lower_char c) ≡ lower_char c
unfolding lower_char
lower_char-lower_char c = ground arith

to_lower_case-IsLower : (t : Text) → IsLower (to_lower_case t)
unfolding to_lower_case
to_lower_case-IsLower [] = tt
to_lower_case-IsLower (c ∷ cs) = (lower_char-lower_char c, to_lower_case-IsLower cs)

trim_start_lem :
    (t : Text)
    → IsLower t
    → IsLower (trim_start t) × ((trim_start t ≡ []) ⊎ StartsWell (trim_start t))
unfolding trim_start
trim_start_lem [] v = (tt, inl refl)
trim_start_lem (c ∷ cs) v = elim (Bool-cases (is_space c)) [
  | inl space ↦ rw space (trim_start_lem cs v.1)
  | inr other ↦ rw other (v, inr other)
]

trim_end_lem :
    (t : Text) → IsLower t → IsLower (trim_end t) × ((trim_end t ≡ []) ⊎ EndsWell (trim_end t))
unfolding trim_end
trim_end_lem [] v = (tt, inl refl)
trim_end_lem (c ∷ cs) v = go (trim_end cs) (trim_end_lem cs v.1)
  where
    go :
        (r : Text)
        → IsLower r × ((r ≡ []) ⊎ EndsWell r)
        → IsLower (if is_empty r && is_space c then [] else c ∷ r)
          × (((if is_empty r && is_space c then [] else c ∷ r) ≡ [])
              ⊎ EndsWell (if is_empty r && is_space c then [] else c ∷ r))
    go [] h = elim (Bool-cases (is_space c)) [
      | inl space ↦ rw space (tt, inl refl)
      | inr other ↦ rw other ((v.0, tt), inr other)
    ]
    go (d ∷ r) (low, inl e) = cc
    go (d ∷ r) (low, inr ends) = ((v.0, low), inr ends)

-- The first character stays, where it is no white space.
trim_end-StartsWell : (t : Text) → StartsWell t → StartsWell (trim_end t)
unfolding trim_end
trim_end-StartsWell [] h = h
trim_end-StartsWell (c ∷ cs) h = go (trim_end cs)
  where
    go : (r : Text) → StartsWell (if is_empty r && is_space c then [] else c ∷ r)
    go [] = rw h h
    go (d ∷ r) = h

Words-space :
    (b : Bool) (c : ℕ) (cs : Text)
    → is_space c ≡ true
    → b ≡ false
    → c ≡ 0x20
    → Words true cs
    → Words b (c ∷ cs)
Words-space b c cs e p q w = rw (e, Words) (p, q, w)

Words-other :
    (b : Bool) (c : ℕ) (cs : Text)
    → is_space c ≡ false
    → lower_char c ≡ c
    → Words false cs
    → Words b (c ∷ cs)
Words-other b c cs e l w = rw (e, Words) (l, w)

Words-cases :
    (b : Bool) (c : ℕ) (cs : Text)
    → Words b (c ∷ cs)
    → ((is_space c ≡ true) × (b ≡ false) × (c ≡ 0x20) × Words true cs)
      ⊎ ((is_space c ≡ false) × (lower_char c ≡ c) × Words false cs)
Words-cases b c cs w = elim (Bool-cases (is_space c)) [
  | inl e ↦ let (p, q, r) = rw (e, Words) at w in inl (e, p, q, r)
  | inr e ↦ let (p, q) = rw (e, Words) at w in inr (e, p, q)
]

collapse-Words : (b : Bool) (t : Text) → IsLower t → EndsWell t → Words b (collapse b t)
unfolding collapse
collapse-Words b [] low ends = absurd ends
collapse-Words b (c ∷ []) low ends = rw ends (Words-other b c [] ends low.0 refl)
collapse-Words true (c ∷ d ∷ cs) low ends = elim (Bool-cases (is_space c)) [
  | inl e ↦ rw e (collapse-Words true (d ∷ cs) low.1 ends)
  | inr e ↦ rw e (
      Words-other true c (collapse false (d ∷ cs)) e low.0
        (collapse-Words false (d ∷ cs) low.1 ends))
]
collapse-Words false (c ∷ d ∷ cs) low ends = elim (Bool-cases (is_space c)) [
  | inl e ↦ rw e (
      Words-space false 0x20 (collapse true (d ∷ cs)) refl refl refl
        (collapse-Words true (d ∷ cs) low.1 ends))
  | inr e ↦ rw e (
      Words-other false c (collapse false (d ∷ cs)) e low.0
        (collapse-Words false (d ∷ cs) low.1 ends))
]

StartsWell-Words : (t : Text) → StartsWell t → Words false t → Words true t
StartsWell-Words [] h w = absurd h
StartsWell-Words (c ∷ cs) h w = elim (Words-cases false c cs w) [
  | inl (space, _, _, _) ↦ cc
  | inr (other, low, rest) ↦ Words-other true c cs other low rest
]

-- `collapse` keeps a first character that is no white space.
collapse-StartsWell : (b : Bool) (t : Text) → StartsWell t → StartsWell (collapse b t)
unfolding collapse
collapse-StartsWell b [] h = h
collapse-StartsWell b (c ∷ cs) h = rw h h

trimmed-IsCanonical :
    (t : Text) → IsLower t → StartsWell t → IsCanonical (collapse false (trim_end t))
trimmed-IsCanonical t low starts =
    let (low', ends_or) = trim_end_lem t low in
    elim ends_or [
      | inl e ↦ inl (rw e (unfold collapse in refl))
      | inr ends ↦ inr (
          StartsWell-Words (collapse false (trim_end t))
            (collapse-StartsWell false (trim_end t) (trim_end-StartsWell t starts))
            (collapse-Words false (trim_end t) low' ends))
    ]

-- The canonical form of a value is empty, or words with one space (0x20) between two of them, none
-- before and none after, with no upper-case letter.
canonical-IsCanonical : (v : Text) → IsCanonical (canonical v)
unfolding canonical
canonical-IsCanonical v =
    let (low, starts_or) = trim_start_lem (to_lower_case v) (to_lower_case-IsLower v) in
    elim starts_or [
      | inl e ↦ inl (rw e refl)
      | inr starts ↦ trimmed-IsCanonical (trim_start (to_lower_case v)) low starts
    ]

lower_space : lower_char 0x20 ≡ 0x20
unfolding lower_char
lower_space = refl

to_lower_case-Words : (b : Bool) (t : Text) → Words b t → to_lower_case t ≡ t
unfolding to_lower_case
to_lower_case-Words b [] w = refl
to_lower_case-Words b (c ∷ cs) w = elim (Words-cases b c cs w) [
  | inl (_, _, is, rest) ↦ ap₂ ◌∷◌ (rw is lower_space) (to_lower_case-Words true cs rest)
  | inr (_, low, rest) ↦ ap₂ ◌∷◌ low (to_lower_case-Words false cs rest)
]

trim_start-Words : (t : Text) → Words true t → trim_start t ≡ t
unfolding trim_start
trim_start-Words [] w = refl
trim_start-Words (c ∷ cs) w = elim (Words-cases true c cs w) [
  | inl (_, no_space, _, _) ↦ cc
  | inr (other, _, _) ↦ rw other
]

trim_end-Words : (b : Bool) (t : Text) → Words b t → trim_end t ≡ t
unfolding trim_end
trim_end-Words b [] w = refl
trim_end-Words b (c ∷ []) w = elim (Words-cases b c [] w) [
  | inl (_, _, _, ends) ↦ cc
  | inr (other, _, _) ↦ rw other
]
trim_end-Words b (c ∷ d ∷ cs) w = elim (Words-cases b c (d ∷ cs) w) [
  | inl (_, _, _, rest) ↦ rw (trim_end-Words true (d ∷ cs) rest)
  | inr (_, _, rest) ↦ rw (trim_end-Words false (d ∷ cs) rest)
]

collapse-Words_self : (b : Bool) (t : Text) → Words b t → collapse b t ≡ t
unfolding collapse
collapse-Words_self b [] w = refl
collapse-Words_self b (c ∷ cs) w = elim (Words-cases b c cs w) [
  | inl (space, no_run, is, rest) ↦
      rw (no_run, space, is) (ap (◌∷◌ 0x20) (collapse-Words_self true cs rest))
  | inr (other, _, rest) ↦ rw other (ap (◌∷◌ c) (collapse-Words_self false cs rest))
]

Words-weaken : (t : Text) → Words true t → Words false t
Words-weaken [] w = refl
Words-weaken (c ∷ cs) w = elim (Words-cases true c cs w) [
  | inl (_, no_space, _, _) ↦ cc
  | inr (other, low, rest) ↦ Words-other false c cs other low rest
]

IsCanonical-canonical : (t : Text) → IsCanonical t → canonical t ≡ t
unfolding canonical
IsCanonical-canonical t (inl e) = rw e refl
IsCanonical-canonical t (inr w) =
    rw (to_lower_case-Words true t w, trim_start-Words t w, trim_end-Words true t w)
      (collapse-Words_self false t (Words-weaken t w))

-- A value that was normalised once does not change when it is normalised again.
canonical-canonical : (v : Text) → canonical (canonical v) ≡ canonical v
canonical-canonical v = IsCanonical-canonical (canonical v) (canonical-IsCanonical v)
