-- ===== src/Address/Grammar/Sort.antt =====
-- Sorting forgets the order of the values.
use mathlib.Core.List.{Perm, Permᴰ}
use mathlib.Core.Logic.{∥∥₁_elim}
use mathlib.Core.HLevel.{hedberg}
use native.Mathlib.Decide.{ℕ_discrete}
use dhf.Base.{
  ◌≡◌, refl, sym, ap, ap₂, ◌∙◌, inl, inr, true, false, List, [], ◌∷◌, map, Text, length, ltb,
  Bool-cases, arith, if◌then◌else◌,
}
use dhf.Address.Grammar.{many, canonical, text_leb, insert, sort, non_empty, normalize_values}

text_leb_total : (a b : Text) → text_leb a b ≡ false → text_leb b a ≡ true
unfolding text_leb
text_leb_total [] b h = cc
text_leb_total (x ∷ a) [] h = refl
text_leb_total (x ∷ a) (y ∷ b) h = ground (arith, text_leb_total a b)

text_leb_antisym : (a b : Text) → text_leb a b ≡ true → text_leb b a ≡ true → a ≡ b
unfolding text_leb
text_leb_antisym [] [] h k = refl
text_leb_antisym [] (y ∷ b) h k = cc
text_leb_antisym (x ∷ a) [] h k = cc
text_leb_antisym (x ∷ a) (y ∷ b) h k = ground (arith, text_leb_antisym a b)

text_leb_trans : (a b c : Text) → text_leb a b ≡ true → text_leb b c ≡ true → text_leb a c ≡ true
unfolding text_leb
text_leb_trans [] b c h k = refl
text_leb_trans (x ∷ a) [] c h k = cc
text_leb_trans (x ∷ a) (y ∷ b) [] h k = cc
text_leb_trans (x ∷ a) (y ∷ b) (z ∷ c) h k = ground (arith, text_leb_trans a b c)

insert-insert : (a b : Text) (l : List Text) → insert a (insert b l) ≡ insert b (insert a l)
unfolding insert
insert-insert a b [] = ground (arith, text_leb_total a b, text_leb_antisym a b)
insert-insert a b (c ∷ l) = ground (
  arith,
  text_leb_total a b,
  text_leb_antisym a b,
  text_leb_trans a b c,
  text_leb_trans b a c,
  text_leb_total a c,
  text_leb_total b c,
  insert-insert a b l,
)

-- One more value, before the sorting and after it.
add_value : Text → List Text → List Text
add_value v sorted = if ltb 0 (length (canonical v)) then insert (canonical v) sorted else sorted

abbrev pipeline : List Text → List Text
pipeline l = sort (non_empty (map canonical l))

pipeline-cons : (v : Text) (l : List Text) → pipeline (v ∷ l) ≡ add_value v (pipeline l)
unfolding sort non_empty add_value
pipeline-cons v l = elim (Bool-cases (ltb 0 (length (canonical v)))) [
  | inl some_text ↦ rw some_text
  | inr empty ↦ rw empty
]

add_value-add_value :
    (v w : Text) (l : List Text) → add_value v (add_value w l) ≡ add_value w (add_value v l)
unfolding add_value
add_value-add_value v w l = ground (arith, insert-insert (canonical v) (canonical w) l)

pipeline-Permᴰ : {l m : List Text} → Permᴰ l m → pipeline l ≡ pipeline m
pipeline-Permᴰ Permᴰ.nil = refl
pipeline-Permᴰ (Permᴰ.cons {a = a} {b = b} {l₁ = l} {l₂ = m} e d) =
    pipeline-cons a l ∙ ap₂ add_value e (pipeline-Permᴰ d) ∙ sym (pipeline-cons b m)
pipeline-Permᴰ (Permᴰ.swap {a = a} {b = b} {a' = a'} {b' = b'} {l = l} e₁ e₂) =
    pipeline-cons a (b ∷ l)
    ∙ ap (add_value a) (pipeline-cons b l)
    ∙ add_value-add_value a b (pipeline l)
    ∙ ap₂ (λ x y. add_value x (add_value y (pipeline l))) e₂ e₁
    ∙ sym (pipeline-cons a' (b' ∷ l) ∙ ap (add_value a') (pipeline-cons b' l))
pipeline-Permᴰ (Permᴰ.trans d₁ d₂) = pipeline-Permᴰ d₁ ∙ pipeline-Permᴰ d₂

texts_discrete : Discrete (List Text)
texts_discrete = hlevel ℕ_discrete

-- The normalised values of a facet do not depend on the order in which they are given.
pub normalize_values-perm :
    (l m : List Text) → Perm l m → normalize_values (many l) ≡ normalize_values (many m)
unfolding normalize_values
normalize_values-perm l m p = ∥∥₁_elim p (hedberg texts_discrete _ _) pipeline-Permᴰ
