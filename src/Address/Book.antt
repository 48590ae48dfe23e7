-- ===== src/Address/Book.antt =====
-- packages/semantic-address/src/book.ts. The `Map` is a list of its entries in the order of insertion,
-- as the language iterates over it; writing to a key that is there keeps the entry's place.
pub mod Laws
pub mod Queries
pub mod Refinement
use dhf.Base.{
  ℕ, Option, none, some, Bool, true, false, List, [], ◌∷◌, map, Text, length, text_eq,
  if◌then◌else◌,
}
use dhf.Address.{SemanticAddress, PartialAddress, to_hex, matches_bytes}
use dhf.Address.Derive.{prefix_match}

pub record Entry {ℓ} (T : Type ℓ) : Type ℓ where
  pub address : SemanticAddress
  pub value : T

abbrev pub Entries {ℓ} : Type ℓ → Type ℓ
Entries T = List (Text × Entry T)

module _ {ℓ} {T : Type ℓ} where
  -- `entries.set(key, entry)`, `entries.get(key)`, `entries.delete(key)`.
  unfoldable pub map_set : Text → Entry T → Entries T → Entries T
  map_set k e [] = (k, e) ∷ []
  map_set k e ((j, old) ∷ rest) = if text_eq j k then (j, e) ∷ rest else (j, old) ∷ map_set k e rest

  unfoldable pub map_get : Text → Entries T → Option (Entry T)
  map_get k [] = none
  map_get k ((j, e) ∷ rest) = if text_eq j k then some e else map_get k rest

  unfoldable pub map_delete : Text → Entries T → Entries T
  map_delete k [] = []
  map_delete k ((j, e) ∷ rest) = if text_eq j k then rest else (j, e) ∷ map_delete k rest

  unfoldable pub map_has : Text → Entries T → Bool
  map_has k [] = false
  map_has k ((j, e) ∷ rest) = if text_eq j k then true else map_has k rest

  abbrev value_of : Option (Entry T) → Option T
  value_of none = none
  value_of (some e) = some e.value

  unfoldable pub put : SemanticAddress → T → Entries T → Entries T
  unfolding map_set
  put a v book = map_set (to_hex a) (record { address = a; value = v }) book

  unfoldable pub get_by_hex : Text → Entries T → Option T
  get_by_hex hex book = value_of (map_get hex book)

  unfoldable pub get : SemanticAddress → Entries T → Option T
  get a book = value_of (map_get (to_hex a) book)

  unfoldable pub query : PartialAddress → Entries T → List (Entry T)
  query partial [] = []
  query partial ((k, e) ∷ rest) =
      let found = query partial rest in if prefix_match e.address partial then e ∷ found else found

  -- `hex.startsWith(hexPrefix)` reads code units as the byte loop reads bytes.
  unfoldable pub query_by_hex_prefix : Text → Entries T → List (Entry T)
  query_by_hex_prefix p [] = []
  query_by_hex_prefix p ((k, e) ∷ rest) =
      let found = query_by_hex_prefix p rest in if matches_bytes p k then e ∷ found else found

  unfoldable pub size : Entries T → ℕ
  size book = length book

  -- The book without the entry, and whether there was one.
  unfoldable pub delete : SemanticAddress → Entries T → Entries T × Bool
  delete a book = (map_delete (to_hex a) book, map_has (to_hex a) book)

  unfoldable pub addresses : Entries T → List SemanticAddress
  addresses book = map (λ (p : Text × Entry T). p.1.address) book
