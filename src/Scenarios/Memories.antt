-- ===== src/Scenarios/Memories.antt =====
-- A memory of an agent that is stored and recalled.
use dhf.Base.{◌≡◌, refl, inl, inr, some, none, true, [], codes, In, arith, List}
use dhf.Crypto.Sample.{sample, sample-HashLaws}
use dhf.Address.Grammar.{SemanticGrammar, one, facet_values, Facet}
use dhf.Address.Derive.Match.{Begins}
use dhf.Address.Book.{Entries}
use dhf.Memory.{MemoryEntry, StoreConfig, Dag, accessed, store, recall_grammar}
use dhf.Memory.Recalls.{recall_grammar-store}

abbrev plan : SemanticGrammar
plan = record {
  domain = some (one (codes "reasoning"));
  entity = some (one (codes "plan"));
  relation = none;
  temporal = none;
  qualifier = none;
}

abbrev asked : SemanticGrammar
asked = record {
  domain = some (one (codes "Reasoning"));
  entity = none;
  relation = none;
  temporal = none;
  qualifier = none;
}

abbrev config : StoreConfig
config = record { default_limit = 20; local_cache = true }

abbrev dag : Dag
dag = record {
  dag_put = λ hex depth entry. true;
  dag_query = λ partial limit. none;
  dag_get = λ hex. none;
}

begins : Begins asked plan
unfolding facet_values
begins Facet.domain = inr refl
begins Facet.entity = inl refl
begins Facet.relation = inl refl
begins Facet.temporal = inl refl
begins Facet.qualifier = inl refl

recall_grammar-store_example :
    (m : MemoryEntry) × (cache : Entries MemoryEntry) × (results : List MemoryEntry) × (store sample
        config dag plan
        (codes "go")
        none
        5
        []
      ≡ some (m, cache))
    × (m.content ≡ codes "go")
    × ((recall_grammar sample config dag asked 20 6 cache).0 ≡ some results)
    × In (accessed 6 m) results
recall_grammar-store_example =
    recall_grammar-store sample sample-HashLaws config dag plan asked (codes "go") none 5 6 20 []
      refl (λ hex k m. refl) tt begins (omega arith)
