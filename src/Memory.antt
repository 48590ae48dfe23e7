-- ===== src/Memory.antt =====
-- services/agent-runtime/src/memory-store.ts: memories in the node under their addresses, with the
-- book of packages/semantic-address as a cache. The node is an argument; `Transport` has the requests
-- and what is made of the answers. A cached entry is one object: writing its access time shows in the
-- cache and in the result. `none` is an exception.
pub mod Recalls
pub mod Transport
use dhf.Base.{
  ℕ, Option, none, some, Bool, true, false, List, [], ◌∷◌, map, Text, ◌>>=◌, or_else, if◌then◌else◌,
  is_empty, take, text_eq,
}
use dhf.Crypto.Primitives.{Noble}
use dhf.Crypto.Merkle.{text}
use dhf.Address.{SemanticAddress, PartialAddress, to_hex, depth, from_hex}
use dhf.Address.Grammar.{SemanticGrammar}
use dhf.Address.Grammar.Describe.Keywords.{parse_description}
use dhf.Address.Derive.{derive, derive_partial, prefix_match}
use dhf.Address.Book.{Entry, Entries, put, get_by_hex, query, size}

pub record MemoryEntry : Type 0 where
  pub address : Text
  pub grammar : SemanticGrammar
  pub content : Text
  pub embedding : Option (List ℕ)
  pub created_at : ℕ
  pub accessed_at : ℕ
  pub score : Option ℕ

pub record MemoryQuery : Type 0 where
  pub grammar : Option SemanticGrammar
  pub text : Option Text
  pub limit : Option ℕ
  pub min_depth : Option ℕ

pub record StoreConfig : Type 0 where
  pub default_limit : ℕ
  pub local_cache : Bool

-- The node: whether a PUT is accepted, what a query returns (`none`: the request throws, or its body
-- is not JSON; a refusal is no entries), and what a GET returns.
pub record Dag : Type 0 where
  pub dag_put : Text → ℕ → MemoryEntry → Bool
  pub dag_query : PartialAddress → ℕ → Option (List MemoryEntry)
  pub dag_get : Text → Option (Option MemoryEntry)

abbrev pub accessed : ℕ → MemoryEntry → MemoryEntry
accessed now e = record e { accessed_at = now }

-- The access time written to the cached entries that match, and to the one under a key.
unfoldable pub touch_matches : ℕ → PartialAddress → Entries MemoryEntry → Entries MemoryEntry
touch_matches now partial [] = []
touch_matches now partial ((k, e) ∷ rest) =
    let more = touch_matches now partial rest in
    if prefix_match e.address partial
    then (k, record e { value = accessed now e.value }) ∷ more
    else (k, e) ∷ more

unfoldable pub touch_key : ℕ → Text → Entries MemoryEntry → Entries MemoryEntry
touch_key now k [] = []
touch_key now k ((j, e) ∷ rest) =
    let more = touch_key now k rest in
    if text_eq j k then (j, record e { value = accessed now e.value }) ∷ rest else (j, e) ∷ more

-- The loop that fills the cache; an address that is no address stops it, and what was put stays.
unfoldable pub populate : List MemoryEntry → Entries MemoryEntry → Bool × Entries MemoryEntry
unfolding from_hex put
populate [] cache = (true, cache)
populate (entry ∷ rest) cache = elim (from_hex entry.address) [
  | none ↦ (false, cache)
  | some a ↦ populate rest (put a entry cache)
]

module _ (n : Noble) (config : StoreConfig) (dag : Dag) where
  unfoldable pub store :
      SemanticGrammar
      → Text
      → Option (List ℕ)
      → ℕ
      → Entries MemoryEntry
      → Option (MemoryEntry × Entries MemoryEntry)
  unfolding derive to_hex depth put
  store grammar content embedding now cache = derive n grammar (text content) >>= λ a.
      let entry : MemoryEntry = record {
        address = to_hex a;
        grammar = grammar;
        content = content;
        embedding = embedding;
        created_at = now;
        accessed_at = now;
        score = none;
      } in
      if dag.dag_put (to_hex a) (depth a) entry
      then some (entry, (if config.local_cache then put a entry cache else cache))
      else none

  -- The part of `recall` behind the cache.
  unfoldable pub recall_remote :
      PartialAddress → ℕ → Entries MemoryEntry → Option (List MemoryEntry) × Entries MemoryEntry
  unfolding populate
  recall_remote partial limit cache = elim (dag.dag_query partial limit) [
    | none ↦ (none, cache)
    | some results ↦
        let (filled, cache') = populate results cache in
        if config.local_cache
        then (if filled then (some results, cache') else (none, cache'))
        else (some results, cache)
  ]

  unfoldable pub recall_grammar :
      SemanticGrammar
      → ℕ
      → ℕ
      → Entries MemoryEntry
      → Option (List MemoryEntry) × Entries MemoryEntry
  unfolding derive_partial query touch_matches recall_remote
  recall_grammar grammar limit now cache =
      let partial = derive_partial n grammar in
      if config.local_cache
      then elim (query partial cache) [
        | [] ↦ recall_remote partial limit cache
        | e ∷ others ↦ (
          some (take limit (map (λ (m : Entry MemoryEntry). accessed now m.value) (e ∷ others))),
          touch_matches now partial cache,
        )
      ]
      else recall_remote partial limit cache

  -- `query.grammar`, or what the text is parsed to where there is one.
  unfoldable pub recall :
      MemoryQuery → ℕ → Entries MemoryEntry → Option (List MemoryEntry) × Entries MemoryEntry
  unfolding recall_grammar
  recall asked now cache =
      let limit = or_else asked.limit config.default_limit in
      elim asked.grammar [
        | some grammar ↦ recall_grammar grammar limit now cache
        | none ↦ elim (or_else asked.text []) [
          | [] ↦ (some [], cache)
          | c ∷ cs ↦ recall_grammar (parse_description (c ∷ cs)) limit now cache
        ]
      ]

  unfoldable pub get :
      Text → ℕ → Entries MemoryEntry → Option (Option MemoryEntry) × Entries MemoryEntry
  unfolding get_by_hex touch_key
  get hex now cache =
      if config.local_cache
      then elim (get_by_hex hex cache) [
        | none ↦ (dag.dag_get hex, cache)
        | some m ↦ (some (some (accessed now m)), touch_key now hex cache)
      ]
      else (dag.dag_get hex, cache)

unfoldable pub cache_size : Entries MemoryEntry → ℕ
cache_size cache = size cache
