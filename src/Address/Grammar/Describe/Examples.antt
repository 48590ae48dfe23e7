-- ===== src/Address/Grammar/Describe/Examples.antt =====
-- Tests of `parseDescription`.
use dhf.Base.{◌≡◌, refl, some, none, [], ◌∷◌, codes}
use dhf.Address.Hex.{is_space}
use dhf.Base.Decimal.{is_digit}
use dhf.Address.Grammar.{one, many, to_lower_case, trim_start, trim_end, lower_char}
use dhf.Address.Grammar.Describe.{
  matching, first_matching, domain_value, find_entity, test, found, begins_any, begins,
  matches_piece, is_word, ends_word, behind_any, behind_keyword, captured, non_spaces,
}
use dhf.Address.Grammar.Describe.Keywords.{describe, parse_description}

-- `with` is a keyword of an entity and of a relation.
described : parse_description (codes "  Plan the ROUTE with Ada, today") ≡ record {
  domain = some (many (codes "reasoning" ∷ codes "navigation" ∷ []));
  entity = some (one (codes "ada,"));
  relation = some (one (codes "contains"));
  temporal = some (one (codes "session"));
  qualifier = none;
}
unfolding parse_description describe to_lower_case trim_start trim_end matching first_matching
    domain_value find_entity test found begins_any begins matches_piece is_word is_digit ends_word
    behind_any behind_keyword captured non_spaces is_space lower_char
described = refl
