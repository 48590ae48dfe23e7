-- ===== src/Address/Book/Refinement.antt =====
-- The address book against what it promises: a function from the texts of addresses to values.
use dhf.Base.{
  ◌≡◌, refl, ap, ◌∙◌, Option, none, some, Bool, true, false, List, [], ◌∷◌, Text, text_eq,
  if◌then◌else◌, arith,
}
use dhf.Address.{SemanticAddress, to_hex}
use dhf.Address.Book.{Entries, map_has, map_get, put, get, get_by_hex, delete}
use dhf.Address.Book.Laws.{IsBook, put-IsBook, delete-IsBook, get-put, get-delete}

pub data Operation {ℓ} (T : Type ℓ) : Type ℓ where
  writes : SemanticAddress → T → Operation T
  reads : SemanticAddress → Operation T
  reads_hex : Text → Operation T
  deletes : SemanticAddress → Operation T

-- What an operation answers.
pub data Seen {ℓ} (T : Type ℓ) : Type ℓ where
  nothing : Seen T
  value : Option T → Seen T
  was_there : Bool → Seen T

abbrev is_some {ℓ} : {T : Type ℓ} → Option T → Bool
is_some none = false
is_some (some v) = true

module _ {ℓ} {T : Type ℓ} where
  -- The answers of the book to operations, one after the other.
  unfoldable pub replies : List (Operation T) → Entries T → List (Seen T)
  unfolding put get get_by_hex delete
  replies [] book = []
  replies (writes a v ∷ rest) book = nothing ∷ replies rest (put a v book)
  replies (reads a ∷ rest) book = value (get a book) ∷ replies rest book
  replies (reads_hex hex ∷ rest) book = value (get_by_hex hex book) ∷ replies rest book
  replies (deletes a ∷ rest) book = was_there (delete a book).1 ∷ replies rest (delete a book).0

  -- The function with another value at a text.
  abbrev pub update : Text → Option T → (Text → Option T) → Text → Option T
  update k o f j = if text_eq k j then o else f j

  -- The answers that a function promises.
  unfoldable pub promised : List (Operation T) → (Text → Option T) → List (Seen T)
  promised [] f = []
  promised (writes a v ∷ rest) f = nothing ∷ promised rest (update (to_hex a) (some v) f)
  promised (reads a ∷ rest) f = value (f (to_hex a)) ∷ promised rest f
  promised (reads_hex hex ∷ rest) f = value (f hex) ∷ promised rest f
  promised (deletes a ∷ rest) f =
      was_there (is_some (f (to_hex a))) ∷ promised rest (update (to_hex a) none f)

  -- The book holds what the function says.
  abbrev Represents : Entries T → (Text → Option T) → Type ℓ
  Represents book f = (hex : Text) → get_by_hex hex book ≡ f hex

  put-Represents :
      (a : SemanticAddress) (v : T) (book : Entries T) (f : Text → Option T)
      → Represents book f
      → Represents (put a v book) (update (to_hex a) (some v) f)
  put-Represents a v book f same hex = ground (arith, get-put a v hex book, same hex)

  delete-Represents :
      (a : SemanticAddress) (book : Entries T) (f : Text → Option T)
      → IsBook book
      → Represents book f
      → Represents (delete a book).0 (update (to_hex a) none f)
  delete-Represents a book f w same hex = ground (arith, get-delete a hex book w, same hex)

  map_has-get_by_hex :
      (hex : Text) (book : Entries T) → map_has hex book ≡ is_some (get_by_hex hex book)
  unfolding map_has get_by_hex map_get
  map_has-get_by_hex hex [] = refl
  map_has-get_by_hex hex ((j, e) ∷ rest) = ground (arith, map_has-get_by_hex hex rest)

  replies-promised :
      (operations : List (Operation T)) (book : Entries T) (f : Text → Option T)
      → IsBook book
      → Represents book f
      → replies operations book ≡ promised operations f
  unfolding replies promised
  replies-promised [] book f w same = refl
  replies-promised (writes a v ∷ rest) book f w same = ap (◌∷◌ nothing) (
      replies-promised rest (put a v book) (update (to_hex a) (some v) f) (put-IsBook a v book w)
        (put-Represents a v book f same))
  replies-promised (reads a ∷ rest) book f w same =
      rw (same (to_hex a), replies-promised rest book f w same) refl
  replies-promised (reads_hex hex ∷ rest) book f w same =
      rw (same hex, replies-promised rest book f w same) refl
  replies-promised (deletes a ∷ rest) book f w same =
      ap (λ b. was_there b ∷ replies rest (delete a book).0)
        (map_has-get_by_hex (to_hex a) book ∙ ap is_some (same (to_hex a)))
      ∙ ap (◌∷◌ (was_there (is_some (f (to_hex a))))) (
          replies-promised rest (delete a book).0 (update (to_hex a) none f)
            (delete-IsBook a book w) (delete-Represents a book f w same))

  -- For every sequence of writes, reads at an address or at a text, and deletions, the answers of a
  -- book that is empty at first are those of a function from texts to values that is nowhere defined
  -- at first: the order of insertion, and the place of an entry, cannot be seen in them.
  pub replies-refine :
      (operations : List (Operation T)) → replies operations [] ≡ promised operations (λ hex. none)
  unfolding get_by_hex map_get
  replies-refine operations = replies-promised operations [] (λ hex. none) tt (λ hex. refl)
