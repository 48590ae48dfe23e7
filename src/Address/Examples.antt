-- ===== src/Address/Examples.antt =====
-- Tests of descriptions, addresses and the book.
use mathlib.Core.List.Perm
use dhf.Base.{
  List, ℕ, ◌≡◌, ◌↔◌, refl, inl, inr, some, none, true, [], ◌∷◌, codes, arith, replicate, In,
  text_eq, text_eq_iff, false,
}
use dhf.Crypto.Sample.{sample, sample-HashLaws}
use dhf.Crypto.Merkle.{text}
use dhf.Address.{SemanticAddress, to_hex, starts_with}
use dhf.Address.Hex.{bytes_hex}
use dhf.Address.Grammar.{
  Facet, one, many, SemanticGrammar, canonical, normalize_values, parts, facet_string, normalize,
  facet_values,
}
use dhf.Address.Grammar.Sort.{normalize_values-perm}
use dhf.Address.Derive.{derive, derive_partial, prefix_match}
use dhf.Address.Derive.Match.{Begins, derive-prefix_match}
use dhf.Address.Book.{Entry, Entries, map_get, query}
use dhf.Address.Book.Laws.{IsBook}
use dhf.Address.Book.Refinement.{
  Operation, writes, reads, reads_hex, deletes, replies, promised, replies-refine,
}
use dhf.Address.Book.Queries.{query_iff}

abbrev planning : SemanticGrammar
planning = record {
  domain = some (one (codes "Reasoning"));
  entity = some (one (codes "  route   planning "));
  relation = none;
  temporal = some (many (codes "recent" ∷ codes "now" ∷ []));
  qualifier = none;
}

abbrev reasoning : SemanticGrammar
reasoning = record {
  domain = some (one (codes "reasoning"));
  entity = none;
  relation = none;
  temporal = none;
  qualifier = none;
}

collapsed : canonical (codes "  Route\t  PLANNING ") ≡ codes "route planning"
unfolding canonical
collapsed = refl

two_facets : (normalize reasoning) ≡ (codes "domain=reasoning", 1)
unfolding normalize parts facet_values facet_string
two_facets = refl

reasoning-Begins : Begins reasoning planning
unfolding facet_values
reasoning-Begins Facet.domain = inr refl
reasoning-Begins Facet.entity = inl refl
reasoning-Begins Facet.relation = inl refl
reasoning-Begins Facet.temporal = inl refl
reasoning-Begins Facet.qualifier = inl refl

derive-prefix_match_example :
    (a : SemanticAddress) × (derive sample planning (text (codes "go")) ≡ some a)
    × (prefix_match a (derive_partial sample reasoning) ≡ true)
    × (starts_with a (derive_partial sample reasoning) ≡ true)
derive-prefix_match_example =
    derive-prefix_match sample sample-HashLaws reasoning planning (text (codes "go"))
      reasoning-Begins

normalize_values-perm_example :
    normalize_values (many (codes "b" ∷ codes "a" ∷ []))
    ≡ normalize_values (many (codes "a" ∷ codes "b" ∷ []))
normalize_values-perm_example =
    normalize_values-perm (codes "b" ∷ codes "a" ∷ []) (codes "a" ∷ codes "b" ∷ [])
      (Perm.swap (codes "a") (codes "b") [])

abbrev ones_address : SemanticAddress
ones_address = record { bytes = replicate 32 1 }

abbrev sevens : SemanticAddress
sevens = record { bytes = replicate 32 7 }

abbrev book : Entries ℕ
book =
    (to_hex ones_address, record { address = ones_address; value = 10 })
    ∷ (to_hex sevens, record { address = sevens; value = 20 })
    ∷ []

keys_differ : text_eq (to_hex sevens) (to_hex ones_address) ≡ false
unfolding to_hex text_eq bytes_hex
keys_differ = refl

book-IsBook : IsBook book
book-IsBook = (
  refl,
  (
    (λ e. ground (
      arith,
      e,
      keys_differ,
      text_eq_iff (to_hex sevens) (to_hex ones_address),
      text_eq_iff (to_hex ones_address) (to_hex sevens),
    )),
    tt,
  ),
  (refl, tt, tt),
)

abbrev found : Entry ℕ
found = record { address = sevens; value = 20 }

query_iff_example : In found (query (derive_partial sample reasoning) book) ↔ (
    (map_get (to_hex sevens) book ≡ some found)
    × (prefix_match sevens (derive_partial sample reasoning) ≡ true))
query_iff_example = query_iff (derive_partial sample reasoning) book found book-IsBook

abbrev operations : List (Operation ℕ)
operations =
    writes sevens 5
    ∷ writes ones_address 6
    ∷ writes sevens 7
    ∷ reads_hex (to_hex sevens)
    ∷ deletes ones_address
    ∷ reads ones_address
    ∷ []

replies-refine_example : replies operations [] ≡ promised operations (λ hex. none)
replies-refine_example = replies-refine operations
