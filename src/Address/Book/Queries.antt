-- ===== src/Address/Book/Queries.antt =====
-- Queries of the book return the entries that match, and no others.
use dhf.Base.{
  ◌≡◌, sym, subst, ◌↔◌, inl, inr, some, some_inj, true, [], ◌∷◌, Text, text_eq, text_eq_iff,
  text_eq_refl, arith, Bool-cases, In,
}
use dhf.Address.{PartialAddress, to_hex}
use dhf.Address.Derive.{prefix_match}
use dhf.Address.Book.{Entry, Entries, map_get, query}
use dhf.Address.Book.Laws.{Absent, IsBook, Absent-get}

module _ {ℓ} {T : Type ℓ} where
  get_tail :
      (j k : Text) (e' e : Entry T) (rest : Entries T)
      → Absent j rest
      → map_get k rest ≡ some e
      → map_get k ((j, e') ∷ rest) ≡ some e
  unfolding map_get
  get_tail j k e' e rest a h = ground (arith, text_eq_iff j k, Absent-get j rest)

  get_head : (j : Text) (e : Entry T) (rest : Entries T) → map_get j ((j, e) ∷ rest) ≡ some e
  unfolding map_get
  get_head j e rest = rw (text_eq_refl j)

  query_sound :
      (partial : PartialAddress) (book : Entries T) (e : Entry T)
      → IsBook book
      → In e (query partial book)
      → (map_get (to_hex e.address) book ≡ some e) × (prefix_match e.address partial ≡ true)
  unfolding query
  query_sound partial [] e w h = elim h [ ]
  query_sound partial ((j, e') ∷ rest) e w h = elim (Bool-cases (prefix_match e'.address partial)) [
    | inl hit ↦ elim (rw hit at h) [
      | inl same ↦ (
        subst (λ x. map_get (to_hex x.address) ((j, e') ∷ rest) ≡ some x) (sym same)
            (rw w.0 (get_head (to_hex e'.address) e' rest)),
        subst (λ x. prefix_match x.address partial ≡ true) (sym same) hit,
      )
      | inr later ↦
          let (there, m) = query_sound partial rest e w.2 later in
          (get_tail j (to_hex e.address) e' e rest w.1 there, m)
    ]
    | inr miss ↦
        let (there, m) = query_sound partial rest e w.2 (rw miss at h) in
        (get_tail j (to_hex e.address) e' e rest w.1 there, m)
  ]

  query_complete :
      (partial : PartialAddress) (book : Entries T) (k : Text) (e : Entry T)
      → map_get k book ≡ some e
      → prefix_match e.address partial ≡ true
      → In e (query partial book)
  unfolding query map_get
  query_complete partial [] k e h m = cc
  query_complete partial ((j, e') ∷ rest) k e h m = elim (Bool-cases (text_eq j k)) [
    | inl same ↦
        let e'-is : e' ≡ e = some_inj (rw same at h) in
        let hit : prefix_match e'.address partial ≡ true = rw e'-is m in rw hit (inl (sym e'-is))
    | inr other ↦
        let later = query_complete partial rest k e (rw other at h) m in
        elim (Bool-cases (prefix_match e'.address partial)) [
          | inl hit ↦ rw hit (inr later)
          | inr miss ↦ rw miss later
        ]
  ]

  -- A query returns an entry just where the book holds it at the text of its address and the address
  -- matches the query.
  pub query_iff :
      (partial : PartialAddress) (book : Entries T) (e : Entry T)
      → IsBook book
      → In e (query partial book)
        ↔ ((map_get (to_hex e.address) book ≡ some e) × (prefix_match e.address partial ≡ true))
  query_iff partial book e w =
      (query_sound partial book e w, λ h. query_complete partial book (to_hex e.address) e h.0 h.1)
