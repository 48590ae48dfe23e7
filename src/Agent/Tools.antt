-- ===== src/Agent/Tools.antt =====
-- The tools of services/agent-runtime/src/agent.ts: `remember`, `recall`, `reflect`, and the tools
-- from outside, whose handler is an argument. The `memories` of the agent's state are never written,
-- and left out.
use dhf.Base.{
  ℕ, ◌+◌, Option, none, some, List, [], ◌∷◌, ◌++◌, map, Text, text_eq, is_empty, if◌then◌else◌,
  codes, take, length,
}
use dhf.Base.Decimal.{to_decimal}
use dhf.Crypto.Primitives.{Noble}
use dhf.Address.Grammar.{SemanticGrammar, FacetValue, one, join}
use dhf.Address.Book.{Entries}
use dhf.Memory.{MemoryEntry, MemoryQuery, StoreConfig, Dag, store, recall}
use dhf.Agent.{
  number, Arguments, argument, to_string, is_truthy, string_argument, Message, ToolCall,
}

pub data Status : Type 0 where
  idle running completed error budget_exhausted : Status

-- An agent and the store's cache that it uses.
pub record Run : Type 0 where
  pub messages : List Message
  pub total_tokens : ℕ
  pub step : ℕ
  pub status : Status
  pub memories_stored : ℕ
  pub memories_recalled : ℕ
  pub cache : Entries MemoryEntry

-- What a handler from outside does.
pub data ToolReply : Type 0 where
  returned : Text → ToolReply
  failed : Text → ToolReply

-- `if (args.k) grammar.k = String(args.k)`
unfoldable pub facet_argument : Text → Arguments → Option FacetValue
unfolding argument is_truthy to_string
facet_argument k args = elim (argument k args) [
  | none ↦ none
  | some v ↦ if is_truthy v then some (one (to_string v)) else none
]

unfoldable pub grammar_of : Arguments → SemanticGrammar
unfolding facet_argument
grammar_of args = record {
  domain = facet_argument (codes "domain") args;
  entity = facet_argument (codes "entity") args;
  relation = facet_argument (codes "relation") args;
  temporal = facet_argument (codes "temporal") args;
  qualifier = facet_argument (codes "qualifier") args;
}

abbrev counted : Option FacetValue → ℕ
counted none = 0
counted (some v) = 1

-- `Object.keys(grammar).length`
unfoldable pub key_count : SemanticGrammar → ℕ
key_count g =
    counted g.domain
    + counted g.entity
    + counted g.relation
    + counted g.temporal
    + counted g.qualifier

-- `typeof args.limit === 'number' ? args.limit : 10`
unfoldable pub limit_argument : Arguments → ℕ
unfolding argument
limit_argument args = elim (argument (codes "limit") args) [ some (number k) ↦ k | _ ↦ 10 ]

-- a line for each memory
unfoldable pub memory_line : MemoryEntry → Text
memory_line m = codes "[" ++ take 16 m.address ++ codes "...] " ++ m.content

unfoldable pub memory_lines : List MemoryEntry → Text
unfolding memory_line
memory_lines entries = join (10 ∷ []) (map memory_line entries)

module _ (n : Noble) (config : StoreConfig) (dag : Dag) where
  unfoldable pub handle_remember : ℕ → Arguments → Run → Option Text × Run
  unfolding grammar_of string_argument store key_count
  handle_remember now args r =
      let grammar = grammar_of args in
      let content = string_argument (codes "content") args in
      if is_empty content
      then (some (codes "Error: content is required"), r)
      else elim (store n config dag grammar content none now r.cache) [
        | none ↦ (none, r)
        | some p ↦ (
          some (
              codes "Stored at address "
              ++ take 16 p.0.address
              ++ codes "... (depth="
              ++ to_decimal (key_count grammar)
              ++ codes ")"),
          record r { cache = p.1; memories_stored = r.memories_stored + 1 },
        )
      ]

  -- The recall behind both tools: the entries, or what is said where there are none.
  unfoldable pub recall_lines : ℕ → MemoryQuery → Text → Run → Option Text × Run
  unfolding recall memory_lines
  recall_lines now asked nothing r =
      let (found, cache') = recall n config dag asked now r.cache in
      let r' : Run = record r { cache = cache' } in
      elim found [
        | none ↦ (none, r')
        | some entries ↦ (
          some (if is_empty entries then nothing else memory_lines entries),
          record r' { memories_recalled = r.memories_recalled + length entries },
        )
      ]

  unfoldable pub handle_recall : ℕ → Arguments → Run → Option Text × Run
  unfolding recall_lines grammar_of limit_argument
  handle_recall now args r =
      recall_lines now
        (record {
          grammar = some (grammar_of args);
          text = none;
          limit = some (limit_argument args);
          min_depth = none;
        })
        (codes "No memories found for this query.") r

  unfoldable pub handle_reflect : ℕ → Arguments → Run → Option Text × Run
  unfolding recall_lines string_argument limit_argument
  handle_reflect now args r =
      let asked = string_argument (codes "text") args in
      if is_empty asked
      then (some (codes "Error: text is required"), r)
      else recall_lines now
          (record {
            grammar = none;
            text = some asked;
            limit = some (limit_argument args);
            min_depth = none;
          })
          (codes "No memories found for this reflection.") r

  unfoldable pub handle_tool_call : (ToolCall → ToolReply) → ℕ → ToolCall → Run → Option Text × Run
  unfolding handle_remember handle_recall handle_reflect
  handle_tool_call handler now call r =
      if text_eq call.name (codes "remember")
      then handle_remember now call.arguments r
      else if text_eq call.name (codes "recall")
      then handle_recall now call.arguments r
      else if text_eq call.name (codes "reflect")
      then handle_reflect now call.arguments r
      else elim (handler call) [
        | returned t ↦ (some t, r)
        | failed why ↦ (some (codes "Error calling " ++ call.name ++ codes ": " ++ why), r)
      ]
