-- ===== src/Memory/Recalls.antt =====
-- What was stored is recalled.
use dhf.Base.{
  ℕ, ◌+◌, ◌≡◌, ◌≤◌, refl, ap, ◌∙◌, Option, none, some, true, List, [], ◌∷◌, map, Text, take, length,
  inl, inr, zero, suc, In, arith, length-map, text_eq_refl,
}
use dhf.Crypto.Primitives.{Noble, HashLaws}
use dhf.Crypto.Merkle.{text}
use dhf.Address.{SemanticAddress, PartialAddress, to_hex, depth}
use dhf.Address.Grammar.{SemanticGrammar}
use dhf.Address.Derive.{derive_partial}
use dhf.Address.Derive.Match.{Begins, derive-prefix_match}
use dhf.Address.Book.{Entry, Entries, put, map_get, map_set, query}
use dhf.Address.Book.Laws.{IsBook, put-IsBook, map_get-map_set}
use dhf.Address.Book.Queries.{query_iff}
use dhf.Memory.{MemoryEntry, StoreConfig, Dag, accessed, store, recall_grammar}

In-map :
    (f : Entry MemoryEntry → MemoryEntry) (x : Entry MemoryEntry) (xs : List (Entry MemoryEntry))
    → In x xs
    → In (f x) (map f xs)
In-map f x [] h = elim h [ ]
In-map f x (y ∷ ys) (inl e) = inl (ap f e)
In-map f x (y ∷ ys) (inr h) = inr (In-map f x ys h)

take-all : (k : ℕ) (xs : List MemoryEntry) → length xs ≤ k → take k xs ≡ xs
take-all zero [] h = refl
take-all zero (x ∷ xs) h = absurd (omega arith)
take-all (suc k) [] h = refl
take-all (suc k) (x ∷ xs) h = ap (◌∷◌ x) (take-all k xs (omega arith))

map_get-put :
    (a : SemanticAddress) (m : MemoryEntry) (cache : Entries MemoryEntry)
    → map_get (to_hex a) (put a m cache) ≡ some (record { address = a; value = m })
unfolding put
map_get-put a m cache =
    rw (map_get-map_set (to_hex a) (to_hex a) _ cache, text_eq_refl (to_hex a)) refl

length-query :
    (partial : PartialAddress) (cache : Entries MemoryEntry)
    → length (query partial cache) ≤ length cache
unfolding query
length-query partial [] = omega arith
length-query partial ((k, e) ∷ rest) = ground (arith, length-query partial rest)

length-map_set :
    (k : Text) (e : Entry MemoryEntry) (cache : Entries MemoryEntry)
    → length (map_set k e cache) ≤ length cache + 1
unfolding map_set
length-map_set k e [] = omega arith
length-map_set k e ((j, old) ∷ rest) = ground (arith, length-map_set k e rest)

length-put :
    (a : SemanticAddress) (m : MemoryEntry) (cache : Entries MemoryEntry)
    → length (put a m cache) ≤ length cache + 1
unfolding put
length-put a m cache = length-map_set _ _ cache

module _ (n : Noble) (laws : HashLaws n) (config : StoreConfig) (dag : Dag) where
  recall-hit :
      (q : SemanticGrammar) (limit later : ℕ) (cache : Entries MemoryEntry) (x : Entry MemoryEntry)
      (hits : List (Entry MemoryEntry))
      → config.local_cache ≡ true
      → query (derive_partial n q) cache ≡ hits
      → In x hits
      → (recall_grammar n config dag q limit later cache).0
        ≡ some (take limit (map (λ (m : Entry MemoryEntry). accessed later m.value) hits))
  unfolding recall_grammar
  recall-hit q limit later cache x [] on e h = elim h [ ]
  recall-hit q limit later cache x (y ∷ ys) on e h = rw (recall_grammar, on, e) refl

  -- With the cache on, and a node that accepts every memory: storing a memory succeeds, and a later
  -- query whose description begins the memory's own, with a limit above the number of memories that
  -- were cached before, succeeds with the memory among its results; the memory has the text that was
  -- stored, and its access time is the query's.
  pub recall_grammar-store :
      (g q : SemanticGrammar) (content : Text) (embedding : Option (List ℕ)) (now later limit : ℕ)
      (cache : Entries MemoryEntry)
      → config.local_cache ≡ true
      → ((hex : Text) (k : ℕ) (m : MemoryEntry) → dag.dag_put hex k m ≡ true)
      → IsBook cache
      → Begins q g
      → length cache + 1 ≤ limit
      → (m : MemoryEntry) × (cache' : Entries MemoryEntry) × (results : List MemoryEntry) × (store n
            config dag g content embedding now cache
          ≡ some (m, cache'))
        × (m.content ≡ content)
        × ((recall_grammar n config dag q limit later cache').0 ≡ some results)
        × In (accessed later m) results
  unfolding store
  recall_grammar-store g q content embedding now later limit cache on accepts w begins room =
      let (a, ea, pm, _) = derive-prefix_match n laws q g (text content) begins in
      let m : MemoryEntry = record {
        address = to_hex a;
        grammar = g;
        content = content;
        embedding = embedding;
        created_at = now;
        accessed_at = now;
        score = none;
      } in
      let cache' = put a m cache in
      let entry : Entry MemoryEntry = record { address = a; value = m } in
      let hit =
        (query_iff (derive_partial n q) cache' entry (put-IsBook a m cache w)).1
          (map_get-put a m cache, pm) in
      let f = λ (x : Entry MemoryEntry). accessed later x.value in
      let hits = query (derive_partial n q) cache' in
      let size : length (map f hits) ≤ limit = omega (
        arith,
        length-map f hits,
        length-query (derive_partial n q) cache',
        length-put a m cache,
      ) in
      (
        m,
        cache',
        map f hits,
        rw (ea, accepts (to_hex a) (depth a) m, on) refl,
        refl,
        recall-hit q limit later cache' entry hits on refl hit
            ∙ ap some (take-all limit (map f hits) size),
        In-map f entry hits hit,
      )
