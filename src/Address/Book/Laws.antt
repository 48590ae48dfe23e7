-- ===== src/Address/Book/Laws.antt =====
-- The laws of the book as a map, over books in which every entry stands at the text of its address
-- and no text stands twice.
use dhf.Base.{
  ◌+◌, ◌≡◌, refl, sym, ◌≢◌, inl, inr, none, some, true, false, [], ◌∷◌, Text, length, text_eq,
  text_eq_iff, if◌then◌else◌, arith, Bool-cases,
}
use dhf.Address.{SemanticAddress, to_hex}
use dhf.Address.Book.{
  Entry, Entries, map_set, map_get, map_delete, map_has, put, get_by_hex, size, delete,
}

module _ {ℓ} {T : Type ℓ} where
  -- The text stands at no entry.
  abbrev pub Absent : Text → Entries T → Type 0
  Absent k [] = Unit
  Absent k ((j, e) ∷ rest) = (j ≢ k) × Absent k rest

  abbrev pub IsBook : Entries T → Type 0
  IsBook [] = Unit
  IsBook ((j, e) ∷ rest) = (j ≡ to_hex e.address) × Absent j rest × IsBook rest

  pub map_get-map_set :
      (k j : Text) (e : Entry T) (book : Entries T)
      → map_get j (map_set k e book) ≡ (if text_eq k j then some e else map_get j book)
  unfolding map_get map_set
  map_get-map_set k j e [] = refl
  map_get-map_set k j e ((i, old) ∷ rest) =
      ground (arith, text_eq_iff k j, text_eq_iff i k, text_eq_iff i j, map_get-map_set k j e rest)

  pub Absent-get : (k : Text) (book : Entries T) → Absent k book → map_get k book ≡ none
  unfolding map_get
  Absent-get k [] a = refl
  Absent-get k ((j, e) ∷ rest) a = ground (arith, text_eq_iff j k, Absent-get k rest)

  Absent-map_set :
      (i k : Text) (e : Entry T) (book : Entries T)
      → k ≢ i
      → Absent i book
      → Absent i (map_set k e book)
  unfolding map_set
  Absent-map_set i k e [] ne a = (ne, tt)
  Absent-map_set i k e ((j, old) ∷ rest) ne a = elim (Bool-cases (text_eq j k)) [
    | inl same ↦ rw same a
    | inr other ↦ rw other (a.0, Absent-map_set i k e rest ne a.1)
  ]

  Absent-map_delete : (i k : Text) (book : Entries T) → Absent i book → Absent i (map_delete k book)
  unfolding map_delete
  Absent-map_delete i k [] a = tt
  Absent-map_delete i k ((j, old) ∷ rest) a = elim (Bool-cases (text_eq j k)) [
    | inl same ↦ rw same a.1
    | inr other ↦ rw other (a.0, Absent-map_delete i k rest a.1)
  ]

  pub put-IsBook :
      (a : SemanticAddress) (v : T) (book : Entries T) → IsBook book → IsBook (put a v book)
  unfolding put map_set
  put-IsBook a v [] w = (refl, tt, tt)
  put-IsBook a v ((j, old) ∷ rest) w = elim (Bool-cases (text_eq j (to_hex a))) [
    | inl same ↦ rw same ((text_eq_iff j (to_hex a)).0 same, w.1, w.2)
    | inr other ↦ rw other (
      w.0,
      Absent-map_set j (to_hex a) _ rest (λ e. cc ((text_eq_iff j (to_hex a)).1 (sym e))) w.1,
      put-IsBook a v rest w.2,
    )
  ]

  pub delete-IsBook :
      (a : SemanticAddress) (book : Entries T) → IsBook book → IsBook (delete a book).0
  unfolding delete map_delete
  delete-IsBook a [] w = tt
  delete-IsBook a ((j, old) ∷ rest) w = elim (Bool-cases (text_eq j (to_hex a))) [
    | inl same ↦ rw same w.2
    | inr other ↦ rw other (w.0, Absent-map_delete j (to_hex a) rest w.1, delete-IsBook a rest w.2)
  ]

  map_get-map_delete :
      (k j : Text) (book : Entries T)
      → IsBook book
      → map_get j (map_delete k book) ≡ (if text_eq k j then none else map_get j book)
  unfolding map_get map_delete
  map_get-map_delete k j [] w = ground arith
  map_get-map_delete k j ((i, e) ∷ rest) w = ground (
    arith,
    text_eq_iff k j,
    text_eq_iff i k,
    text_eq_iff i j,
    Absent-get i rest,
    map_get-map_delete k j rest,
  )

  -- Reading a text after a write: the value that was written at the text of the address, and what was
  -- there before at any other.
  pub get-put :
      (a : SemanticAddress) (v : T) (hex : Text) (book : Entries T)
      → get_by_hex hex (put a v book)
        ≡ (if text_eq (to_hex a) hex then some v else get_by_hex hex book)
  unfolding get_by_hex put
  get-put a v hex book =
      ground (arith, map_get-map_set (to_hex a) hex (record { address = a; value = v }) book)

  -- Reading a text of a book in which every entry stands once, at the text of its address, after a
  -- deletion: nothing at the text of the address, and what was there before at any other.
  pub get-delete :
      (a : SemanticAddress) (hex : Text) (book : Entries T)
      → IsBook book
      → get_by_hex hex (delete a book).0
        ≡ (if text_eq (to_hex a) hex then none else get_by_hex hex book)
  unfolding get_by_hex delete
  get-delete a hex book w = ground (arith, map_get-map_delete (to_hex a) hex book w)

  set_size :
      (k : Text) (e : Entry T) (book : Entries T)
      → length (map_set k e book) ≡ length book + (if map_has k book then 0 else 1)
  unfolding map_set map_has
  set_size k e [] = refl
  set_size k e ((j, old) ∷ rest) = ground (arith, set_size k e rest)

  delete_size :
      (k : Text) (book : Entries T)
      → length book ≡ length (map_delete k book) + (if map_has k book then 1 else 0)
  unfolding map_delete map_has
  delete_size k [] = refl
  delete_size k ((j, old) ∷ rest) = ground (arith, delete_size k rest)

  -- `put` adds an entry just where the address had none, `delete` takes one away just where it had
  -- one, and says which.
  size_changes :
      (a : SemanticAddress) (v : T) (book : Entries T)
      → (size (put a v book) ≡ size book + (if map_has (to_hex a) book then 0 else 1))
        × (size book ≡ size (delete a book).0 + (if (delete a book).1 then 1 else 0))
  unfolding size put delete
  size_changes a v book = (set_size (to_hex a) _ book, delete_size (to_hex a) book)

  map_has-get :
      (k : Text) (book : Entries T)
      → ((map_has k book ≡ true) → map_get k book ≢ none)
        × (map_has k book ≡ false → map_get k book ≡ none)
  unfolding map_has map_get
  map_has-get k [] = (λ e. cc, λ e. refl)
  map_has-get k ((j, e) ∷ rest) =
      let (yes_there, not_there) = map_has-get k rest in
      elim (Bool-cases (text_eq j k)) [
        | inl same ↦ rw same (λ t p. cc, λ t. cc)
        | inr other ↦ rw other (yes_there, not_there)
      ]
