-- ===== src/Address/Grammar/Describe.antt =====
-- `parseDescription` of packages/semantic-address/src/grammar.ts: keywords at word boundaries. Texts
-- are ASCII, so the flag `i` has no effect on a text in lower case.
pub mod Keywords
pub mod Cases
mod Examples
use dhf.Base.{
  ℕ, Option, none, some, Bool, true, false, not, ◌&&◌, ◌||◌, List, [], ◌∷◌, ◌++◌, Text, leb, ◌==◌,
  if◌then◌else◌, codes, or_else, is_empty,
}
use dhf.Base.Decimal.{is_digit}
use dhf.Address.Hex.{is_space}
use dhf.Address.Grammar.{
  FacetValue, one, many, SemanticGrammar, to_lower_case, trim_start, trim_end,
}

-- `\w`
unfoldable pub is_word : ℕ → Bool
is_word c = is_digit c || leb b'a' c && leb c b'z' || leb b'A' c && leb c b'Z' || c == b'_'

-- One character of an alternative: itself, or `.`.
pub data Piece : Type 0 where
  char : ℕ → Piece
  any : Piece

abbrev pub pieces : Text → List Piece
pieces [] = []
pieces (c ∷ cs) = char c ∷ pieces cs

-- `.` matches all but line terminators.
unfoldable pub matches_piece : Piece → ℕ → Bool
matches_piece (char p) c = p == c
matches_piece any c = not (c == 10 || c == 13 || c == 0x2028 || c == 0x2029)

-- An expression `\b(…|…)\w*`, or `\b(…|…)\b` where `closed`.
pub record Pattern : Type 0 where
  pub closed : Bool
  pub alternatives : List (List Piece)

-- The boundary behind an alternative, which ends in a word character.
unfoldable pub ends_word : Text → Bool
ends_word [] = true
ends_word (c ∷ cs) = not (is_word c)

unfoldable pub begins : Bool → List Piece → Text → Bool
begins closed [] t = if closed then ends_word t else true
begins closed (p ∷ ps) [] = false
begins closed (p ∷ ps) (c ∷ cs) =
    let rest = begins closed ps cs in if matches_piece p c then rest else false

unfoldable pub begins_any : Bool → List (List Piece) → Text → Bool
begins_any closed [] t = false
begins_any closed (alt ∷ alts) t = begins closed alt t || begins_any closed alts t

-- The search from a position, behind a word character or not. Every alternative begins with a word
-- character.
unfoldable pub found : Pattern → Bool → Text → Bool
found pat after_word [] = false
found pat after_word (c ∷ cs) =
    not after_word && begins_any pat.closed pat.alternatives (c ∷ cs) || found pat (is_word c) cs

unfoldable pub test : Pattern → Text → Bool
test pat t = found pat false t

abbrev pub Table : Type 0
Table = List (Pattern × Text)

-- All the names whose patterns match, and the first one.
unfoldable pub matching : Table → Text → List Text
matching [] t = []
matching ((pat, name) ∷ rest) t =
    let more = matching rest t in if test pat t then name ∷ more else more

unfoldable pub first_matching : Table → Text → Option Text
first_matching [] t = none
first_matching ((pat, name) ∷ rest) t =
    let more = first_matching rest t in if test pat t then some name else more

-- `domains.length === 1`, `domains.length > 1`
unfoldable pub domain_value : List Text → Option FacetValue
domain_value [] = none
domain_value (d ∷ []) = some (one d)
domain_value (d ∷ e ∷ rest) = some (many (d ∷ e ∷ rest))

-- `(\S+)`
unfoldable pub non_spaces : Text → Text
non_spaces [] = []
non_spaces (c ∷ cs) = let rest = non_spaces cs in if is_space c then [] else c ∷ rest

-- the capture behind one keyword: `\s+(\S+)`
unfoldable pub captured : Text → Option Text
captured [] = none
captured (c ∷ cs) =
    let word = non_spaces (trim_start cs) in
    if is_space c then (if is_empty word then none else some word) else none

unfoldable pub behind_keyword : Text → Text → Option Text
behind_keyword [] t = captured t
behind_keyword (k ∷ ks) [] = none
behind_keyword (k ∷ ks) (c ∷ cs) = let rest = behind_keyword ks cs in if k == c then rest else none

unfoldable pub behind_any : List Text → Text → Option Text
behind_any [] t = none
behind_any (k ∷ ks) t = elim (behind_keyword k t) [ some w ↦ some w | none ↦ behind_any ks t ]

unfoldable pub find_entity : List Text → Bool → Text → Option Text
find_entity keys after_word [] = none
find_entity keys after_word (c ∷ cs) =
    let later = find_entity keys (is_word c) cs in
    if after_word then later else elim (behind_any keys (c ∷ cs)) [ some w ↦ some w | none ↦ later ]

abbrev pub single : Option Text → Option FacetValue
single none = none
single (some t) = some (one t)

-- The pieces of alternatives written one behind another, with a bar between two.
abbrev add_piece : Piece → List (List Piece) → List (List Piece)
add_piece p [] = (p ∷ []) ∷ []
add_piece p (alt ∷ alts) = (p ∷ alt) ∷ alts

abbrev pub alternatives_of : Text → List (List Piece)
alternatives_of [] = [] ∷ []
alternatives_of (c ∷ cs) =
    let rest = alternatives_of cs in
    if c == b'|' then [] ∷ rest else add_piece (if c == b'.' then any else char c) rest

-- `\b(…)\w*` and `\b(…)\b`
abbrev pub stem : Text → Pattern
stem t = record { closed = false; alternatives = alternatives_of t }

abbrev pub whole_word : Text → Pattern
whole_word t = record { closed = true; alternatives = alternatives_of t }
