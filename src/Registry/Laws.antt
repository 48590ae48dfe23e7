-- ===== src/Registry/Laws.antt =====
-- The laws of lookups and updates in the registry.
use dhf.Base.{◌≢◌, All, ◌≡◌, refl, some, false, List, [], ◌∷◌, Text, text_eq, text_eq_iff, arith}
use dhf.Registry.{Stack, Sleeve, alive_of, find_stack, find_sleeve, change_stack, change_sleeve}

-- A row that is found has the key that was asked for.
pub find_sleeve-id : (k : Text) (l : List Sleeve) {s : Sleeve} → find_sleeve k l ≡ some s → s.id ≡ k
unfolding find_sleeve
find_sleeve-id k [] e = cc
find_sleeve-id k (t ∷ l) {s} e = ground (arith, text_eq_iff t.id k, find_sleeve-id k l {s = s})

pub find_stack-id : (k : Text) (l : List Stack) {s : Stack} → find_stack k l ≡ some s → s.id ≡ k
unfolding find_stack
find_stack-id k [] e = cc
find_stack-id k (t ∷ l) {s} e = ground (arith, text_eq_iff t.id k, find_stack-id k l {s = s})

-- A change that keeps the key shows at its key, and nowhere else.
pub find_sleeve-change_self :
    (k : Text) (f : Sleeve → Sleeve) (l : List Sleeve) {s : Sleeve}
    → find_sleeve k l ≡ some s
    → (f s).id ≡ k
    → find_sleeve k (change_sleeve k f l) ≡ some (f s)
unfolding find_sleeve change_sleeve
find_sleeve-change_self k f [] e h = cc
find_sleeve-change_self k f (t ∷ l) {s} e h =
    ground
      (arith, text_eq_iff t.id k, text_eq_iff (f s).id k, find_sleeve-change_self k f l {s = s})

pub find_sleeve-change_other :
    (k j : Text) (f : Sleeve → Sleeve) (l : List Sleeve)
    → text_eq k j ≡ false
    → ((s : Sleeve) → s.id ≡ k → (f s).id ≡ k)
    → find_sleeve j (change_sleeve k f l) ≡ find_sleeve j l
unfolding find_sleeve change_sleeve
find_sleeve-change_other k j f [] ne h = refl
find_sleeve-change_other k j f (t ∷ l) ne h = ground (
  arith,
  text_eq_iff t.id k,
  text_eq_iff t.id j,
  text_eq_iff k j,
  text_eq_iff (f t).id j,
  h t,
  find_sleeve-change_other k j f l ne h,
)

pub find_stack-change_self :
    (k : Text) (f : Stack → Stack) (l : List Stack) {s : Stack}
    → find_stack k l ≡ some s
    → (f s).id ≡ k
    → find_stack k (change_stack k f l) ≡ some (f s)
unfolding find_stack change_stack
find_stack-change_self k f [] e h = cc
find_stack-change_self k f (t ∷ l) {s} e h =
    ground (arith, text_eq_iff t.id k, text_eq_iff (f s).id k, find_stack-change_self k f l {s = s})

-- The identifiers of the rows are a primary key.
abbrev pub Unique : List Sleeve → Type 0
Unique [] = Unit
Unique (s ∷ rest) = All (λ t. t.id ≢ s.id) rest × Unique rest

pub alive_of-All :
    (P : Sleeve → Type 0) (k : Text) (l : List Sleeve) → All P l → All P (alive_of k l)
unfolding alive_of
alive_of-All P k [] h = tt
alive_of-All P k (s ∷ rest) (h, hs) = ground (arith, h, alive_of-All P k rest hs)
