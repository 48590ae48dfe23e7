-- ===== src/Address/Grammar.antt =====
-- packages/semantic-address/src/grammar.ts: descriptions by up to five facets, and their canonical
-- form. Texts are ASCII here: `to_lower_case` is the lower-casing of the 26 letters.
pub mod Sort
pub mod Canonical
pub mod Describe
use dhf.Base.{
  ℕ, ◌+◌, Option, none, some, Bool, true, false, not, ◌&&◌, List, [], ◌∷◌, ◌++◌, map, Text,
  is_empty, is_empty, length, text_eq, leb, ltb, ◌==◌, if◌then◌else◌, codes,
}
use dhf.Address.Hex.{is_space}

pub data Facet : Type 0 where
  domain entity relation temporal qualifier : Facet

pub data FacetValue : Type 0 where
  one : Text → FacetValue
  many : List Text → FacetValue

pub record SemanticGrammar : Type 0 where
  pub domain : Option FacetValue
  pub entity : Option FacetValue
  pub relation : Option FacetValue
  pub temporal : Option FacetValue
  pub qualifier : Option FacetValue

abbrev pub facet_order : List Facet
facet_order = Facet.domain ∷ Facet.entity ∷ Facet.relation ∷ Facet.temporal ∷ Facet.qualifier ∷ []

abbrev pub facet_name : Facet → Text
facet_name Facet.domain = codes "domain"
facet_name Facet.entity = codes "entity"
facet_name Facet.relation = codes "relation"
facet_name Facet.temporal = codes "temporal"
facet_name Facet.qualifier = codes "qualifier"

-- grammar[facet]
unfoldable pub raw : SemanticGrammar → Facet → Option FacetValue
raw g Facet.domain = g.domain
raw g Facet.entity = g.entity
raw g Facet.relation = g.relation
raw g Facet.temporal = g.temporal
raw g Facet.qualifier = g.qualifier

unfoldable pub lower_char : ℕ → ℕ
lower_char c = if leb b'A' c && leb c b'Z' then c + 32 else c

unfoldable pub to_lower_case : Text → Text
unfolding lower_char
to_lower_case t = map lower_char t

unfoldable pub trim_start : Text → Text
unfolding is_space
trim_start [] = []
trim_start (c ∷ cs) = if is_space c then trim_start cs else c ∷ cs

unfoldable pub trim_end : Text → Text
unfolding is_space
trim_end [] = []
trim_end (c ∷ cs) = let rest = trim_end cs in if is_empty rest && is_space c then [] else c ∷ rest

-- `replace(/\s+/g, ' ')`; the flag says that the character before was white space.
unfoldable pub collapse : Bool → Text → Text
unfolding is_space
collapse in_run [] = []
collapse in_run (c ∷ cs) =
    let rest = collapse (is_space c) cs in
    if is_space c then (if in_run then rest else 0x20 ∷ rest) else c ∷ rest

unfoldable pub canonical : Text → Text
unfolding to_lower_case trim_start trim_end collapse
canonical v = collapse false (trim_end (trim_start (to_lower_case v)))

-- `sort()`: the order of the code units.
unfoldable pub text_leb : Text → Text → Bool
text_leb [] b = true
text_leb (x ∷ a) [] = false
text_leb (x ∷ a) (y ∷ b) = if x == y then text_leb a b else ltb x y

unfoldable pub insert : Text → List Text → List Text
unfolding text_leb
insert a [] = a ∷ []
insert a (b ∷ l) = if text_leb a b then a ∷ b ∷ l else b ∷ insert a l

unfoldable pub sort : List Text → List Text
unfolding insert
sort [] = []
sort (a ∷ l) = insert a (sort l)

-- `filter(v => v.length > 0)`
unfoldable pub non_empty : List Text → List Text
non_empty [] = []
non_empty (v ∷ l) = if ltb 0 (length v) then v ∷ non_empty l else non_empty l

abbrev values_of : FacetValue → List Text
values_of (one v) = v ∷ []
values_of (many l) = l

unfoldable pub normalize_values : FacetValue → List Text
unfolding canonical non_empty sort
normalize_values v = sort (non_empty (map canonical (values_of v)))

-- The normalised values of a facet; none where the facet is missing.
unfoldable pub facet_values : SemanticGrammar → Facet → List Text
unfolding normalize_values raw
facet_values g f = elim (raw g f) [ none ↦ [] | some v ↦ normalize_values v ]

unfoldable pub join : Text → List Text → Text
join sep [] = []
join sep (a ∷ []) = a
join sep (a ∷ b ∷ l) = a ++ sep ++ join sep (b ∷ l)

-- `${facet}=${normalized.join(',')}`
unfoldable pub facet_string : Facet → List Text → Text
unfolding join
facet_string f values = facet_name f ++ codes "=" ++ join (codes ",") values

unfoldable pub parts : SemanticGrammar → List Facet → List Text
parts g [] = []
parts g (f ∷ fs) =
    let rest = parts g fs in
    if is_empty (facet_values g f) then rest else facet_string f (facet_values g f) ∷ rest

unfoldable pub normalize : SemanticGrammar → Text × ℕ
normalize g = (join (codes ">") (parts g facet_order), length (parts g facet_order))
