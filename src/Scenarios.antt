-- ===== src/Scenarios.antt =====
-- A concrete registry, a concrete node, and the tests of the services on them.
mod Gateway
mod Transfers
mod Grants
mod Epochs
mod Memories
mod Agents
mod Contracts
mod Typed
mod Exchanges
mod Oracles
mod Processes
use dhf.Base.{ℕ, Option, none, some, true, false, [], ◌∷◌, Text, codes}
use dhf.Chain.Hippocampus.{Node}
use dhf.Registry.{EmbodimentType, Stack, Sleeve, Db, World}

abbrev pub ada : Stack
ada = record {
  id = codes "stack:ai:1:a";
  token_id = 1;
  name = codes "ada";
  kind = codes "ai";
  pub_key = codes "k";
  epoch = 3;
  cpv = record {
    compute_coeff = 1000000;
    memory_coeff = 1000000;
    sync_coeff = 1000000;
    routing_coeff = 1000000;
    residue_coeff = 1000000;
  };
  binding = record { decay_rate = 50000; floor = 250000 };
  episodic_head = some (codes "c0");
}

abbrev pub sleeve_of : Text → ℕ → Sleeve
sleeve_of k drift = record {
  id = k;
  stack_id = ada.id;
  embodiment_type = EmbodimentType.ai;
  alive = true;
  drift = drift;
  sync_epoch = 0;
  last_sync = 0;
  tokens = record {
    compute = some 20;
    memory = some 20;
    sync = none;
    routing = some 40;
    residue = some 0;
  };
  hostname = none;
}

abbrev pub db : Db
db = record {
  stacks = ada ∷ [];
  sleeves = sleeve_of (codes "s1") 4 ∷ sleeve_of (codes "s2") 9 ∷ sleeve_of (codes "s3") 1 ∷ [];
}

abbrev pub world : World
world = record { db = db; events = [] }

-- A node that takes every write under one name and recalls nothing.
abbrev pub node : Node
node = record {
  dag_put = λ input. some (record { status_code = 200; body = some (codes "c1") });
  dag_get = λ cid. some (record { status_code = 404; body = none });
  pin_add = λ cid. some (record { status_code = 200; body = none });
  pin_lease = λ cid until. none;
  pin_status = λ cid epoch. none;
  dhf_recall = λ args. some (record {
    status_code = 200;
    body = some (record { fragments = []; broken = []; fidelity = 1000000 });
  });
  stat = none;
}
