-- ===== src/Address/Grammar/Describe/Cases.antt =====
-- What `parseDescription` does not look at, and what more text does to the domains.
use dhf.Base.{
  ℕ, ◌≡◌, ◌-◌, refl, Bool, true, false, ◌&&◌, List, [], ◌∷◌, ◌++◌, map, Text, leb, if◌then◌else◌,
  arith, In, inl, inr, Bool-cases,
}
use dhf.Base.Decimal.{is_digit}
use dhf.Address.Grammar.{lower_char, to_lower_case}
use dhf.Address.Grammar.Describe.{
  Piece, Pattern, Table, is_word, ends_word, begins, begins_any, found, test, matching,
}
use dhf.Address.Grammar.Describe.Keywords.{parse_description}

-- The upper-case form of an ASCII text.
abbrev pub upper_char : ℕ → ℕ
upper_char c = if leb b'a' c && leb c b'z' then c - 32 else c

lower_char-upper_char : (c : ℕ) → lower_char (upper_char c) ≡ lower_char c
unfolding lower_char
lower_char-upper_char c = ground arith

to_lower_case-upper : (t : Text) → to_lower_case (map upper_char t) ≡ to_lower_case t
unfolding to_lower_case
to_lower_case-upper [] = refl
to_lower_case-upper (c ∷ t) = rw (lower_char-upper_char c, to_lower_case-upper t) refl

-- Behind a space nothing of an earlier match is lost.
begins-append :
    (closed : Bool) (alt : List Piece) (t u : Text)
    → begins closed alt t ≡ true
    → begins closed alt (t ++ 0x20 ∷ u) ≡ true
unfolding begins ends_word is_word is_digit
begins-append closed [] [] u h = ground (arith, h)
begins-append closed [] (c ∷ t) u h = h
begins-append closed (p ∷ ps) [] u h = cc
begins-append closed (p ∷ ps) (c ∷ t) u h = ground (arith, h, begins-append closed ps t u)

begins_any-append :
    (closed : Bool) (alts : List (List Piece)) (t u : Text)
    → begins_any closed alts t ≡ true
    → begins_any closed alts (t ++ 0x20 ∷ u) ≡ true
unfolding begins_any
begins_any-append closed [] t u h = cc
begins_any-append closed (alt ∷ alts) t u h =
    ground (arith, h, begins-append closed alt t u, begins_any-append closed alts t u)

found-append :
    (pat : Pattern) (after_word : Bool) (t u : Text)
    → found pat after_word t ≡ true
    → found pat after_word (t ++ 0x20 ∷ u) ≡ true
unfolding found
found-append pat after_word [] u h = cc
found-append pat after_word (c ∷ t) u h = ground (
  arith,
  h,
  begins_any-append pat.closed pat.alternatives (c ∷ t) u,
  found-append pat (is_word c) t u,
)

-- A name whose pattern matches a text is still among the matching names when more words follow.
matching-append :
    (table : Table) (name t u : Text)
    → In name (matching table t)
    → In name (matching table (t ++ 0x20 ∷ u))
unfolding matching test
matching-append [] name t u h = h
matching-append ((pat, other) ∷ rest) name t u h =
    let later = matching-append rest name t u in
    elim (Bool-cases (test pat t)) [
      | inl hit ↦
          rw (found-append pat false t u hit)
            (elim (rw hit at h) [ inl e ↦ inl e | inr more ↦ inr (later more) ])
      | inr miss ↦ elim (Bool-cases (test pat (t ++ 0x20 ∷ u))) [
        | inl new ↦ rw new (inr (later (rw miss at h)))
        | inr still ↦ rw still (later (rw miss at h))
      ]
    ]

-- The case of the letters of a description does not matter.
parse_description-upper : (t : Text) → parse_description (map upper_char t) ≡ parse_description t
unfolding parse_description
parse_description-upper t = rw (to_lower_case-upper t) refl
