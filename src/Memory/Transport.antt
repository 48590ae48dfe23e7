-- ===== src/Memory/Transport.antt =====
-- The requests of services/agent-runtime/src/memory-store.ts to the node: what is sent, and what is
-- made of an answer. The node's endpoints are arguments; `none` is a request that fails.
use dhf.Base.{ℕ, Option, none, some, Bool, false, List, [], Text, if◌then◌else◌, or_else, ◌>>=◌}
use dhf.Address.{PartialAddress}
use dhf.Http.{Answer, is_ok_status}
use dhf.Memory.{MemoryEntry, Dag}

pub record PutBody : Type 0 where
  pub address : Text
  pub depth : ℕ
  pub data_of : MemoryEntry

pub record QueryBody : Type 0 where
  pub prefix : Text
  pub depth : ℕ
  pub facets : List Text
  pub limit : ℕ

-- POST /api/v1/put, POST /api/v1/query (its `entries`), GET /api/v1/get/:hex
pub record Endpoints : Type 0 where
  pub put : PutBody → Option (Answer Text)
  pub query : QueryBody → Option (Answer (Option (List MemoryEntry)))
  pub get : Text → Option (Answer MemoryEntry)

module _ (node : Endpoints) where
  -- whether it does not throw
  unfoldable pub dag_put : Text → ℕ → MemoryEntry → Bool
  unfolding is_ok_status
  dag_put hex depth entry =
      elim (node.put (record { address = hex; depth = depth; data_of = entry })) [
        | none ↦ false
        | some r ↦ is_ok_status r.status
      ]

  unfoldable pub dag_query : PartialAddress → ℕ → Option (List MemoryEntry)
  unfolding is_ok_status
  dag_query partial limit =
      node.query (record {
        prefix = partial.hex;
        depth = partial.depth;
        facets = partial.facets;
        limit = limit;
      })
      >>= λ r.
          if is_ok_status r.status
          then (r.body >>= λ entries. some (or_else entries []))
          else some []

  unfoldable pub dag_get : Text → Option (Option MemoryEntry)
  unfolding is_ok_status
  dag_get hex = node.get hex >>= λ r.
      if is_ok_status r.status then (r.body >>= λ entry. some (some entry)) else some none

  unfoldable pub transport : Dag
  unfolding dag_put dag_query dag_get
  transport = record { dag_put = dag_put; dag_query = dag_query; dag_get = dag_get }
