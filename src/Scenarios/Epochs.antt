-- ===== src/Scenarios/Epochs.antt =====
-- Reconstructions after a change of epoch, and ticks.
use dhf.Base.{
  List, ◌≡◌, refl, some, none, true, [], ◌∷◌, map, codes, arith, Option, text_eq, replicate,
}
use dhf.Crypto.Sample.{sample, sample-HashLaws, sample-CipherLaws}
use dhf.Crypto.Primitives.{decodable}
use dhf.Chain.Hippocampus.{Node, json_or_throw, recall}
use dhf.Siyana.Sleeves.{head_links}
use dhf.Compositor.{reconstruct}
use dhf.Compositor.Epochs.{Written, node_of, reconstruct-written}
use dhf.Thalamus.{Router, EpochRow, Submitted, sleeve, tick, tick_row, receive_all, zero_root}
use dhf.Thalamus.Bridge.{CommitArgs, pad, commit_args, synaptic_root_of}
use dhf.Thalamus.Bridge.Roots.{commit_args-tick}
use dhf.Crypto.Cid.Examples.{hex_sample, hex_sample-HashLaws, hex_sample-HexLaws}
use dhf.Events.Patterns.{is_root}
use dhf.Base.{◌++◌, Bool, Text}
use dhf.Thalamus.Ticks.{tick-forgets}
use dhf.Registry.{Event, ok, find_stack}
use dhf.Scenarios.{ada, db, node}

abbrev router : Router
router = record {
  current_epoch = 3;
  evm_hashes = codes "ab" ∷ [];
  ipfs_hashes = [];
  sleeve_hashes = [];
  epochs = [];
  transitions = [];
}

abbrev taken : EpochRow → Option Submitted
taken row = some (record { epoch = some 4; height = some 40 })

tick-forgets_example :
    tick sample taken true true (sleeve (codes "perceive") ∷ []) router
    ≡ tick sample taken true true [] router
tick-forgets_example = tick-forgets sample taken true (sleeve (codes "perceive") ∷ []) router

-- Two memories of the stack's epoch, and a node that recalls them.
abbrev first_memory : Written
first_memory = record {
  cid = codes "c1";
  content = codes "new";
  epoch = 3;
  iv = replicate 12 1;
  links = codes "c0" ∷ [];
  kind = codes "episodic";
  pinned = true;
}

abbrev second_memory : Written
second_memory = record {
  cid = codes "c0";
  content = codes "old";
  epoch = 3;
  iv = replicate 12 2;
  links = [];
  kind = codes "episodic";
  pinned = true;
}

abbrev recalling : Node
recalling = record node {
  dhf_recall = λ args. some (record {
    status_code = 200;
    body = some (record {
      fragments = map (node_of sample ada.id none) (first_memory ∷ second_memory ∷ []);
      broken = codes "c9" ∷ [];
      fidelity = 600000;
    });
  });
}

reconstruct-written_example :
    reconstruct sample recalling none ada.id none 4 db
    ≡ ok (record {
      fragments =
          record { cid = codes "c1"; epoch = 3; text = some (codes "new") }
          ∷ record { cid = codes "c0"; epoch = 3; text = some (codes "old") }
          ∷ [];
      broken = codes "c9" ∷ [];
      fidelity = 600000;
    })
unfolding recall json_or_throw head_links find_stack text_eq decodable
reconstruct-written_example =
    reconstruct-written sample sample-HashLaws sample-CipherLaws none recalling none 4 db ada.id ada
      (codes "c0") (first_memory ∷ second_memory ∷ []) (codes "c9" ∷ []) 600000 refl refl refl
      (
        record { same_epoch = refl; plain = refl; length-iv = refl; iv-IsBytes = omega arith },
        (
          record { same_epoch = refl; plain = refl; length-iv = refl; iv-IsBytes = omega arith },
          tt,
        ),
      )

abbrev seen : List Event
seen =
    Event.sleeve_perceive (codes "s1") ada.id (codes "c1")
    ∷ Event.needlecast_route (codes "s1") (codes "s2") ada.id []
    ∷ []

-- The commit of the tick of `router`.
abbrev committed : CommitArgs
committed = record {
  epoch = 4;
  cross_root = pad (tick_row hex_sample router).cross_root;
  evm_root = pad (tick_row hex_sample router).evm_root;
  ipfs_root = pad (tick_row hex_sample router).ipfs_root;
  sleeves_root = pad (tick_row hex_sample router).sleeves_root;
  synaptic_root = pad zero_root;
  medulla_height = 40;
}

commits : commit_args hex_sample true taken none router ≡ some committed
unfolding commit_args synaptic_root_of
commits = refl

commit_args-tick_example :
    (is_root committed.cross_root ≡ true)
    × (is_root committed.evm_root ≡ true)
    × (is_root committed.ipfs_root ≡ true)
    × (is_root committed.sleeves_root ≡ true)
    × ((up : Bool)
        → (tick hex_sample taken true up (sleeve (codes "perceive") ∷ []) router).current_epoch ≡ 4)
    × (root : Text) × (committed.cross_root ≡ codes "0x" ++ root)
    × ((tick hex_sample taken true true (sleeve (codes "perceive") ∷ []) router).transitions
        ≡ (receive_all hex_sample (sleeve (codes "perceive") ∷ []) router).transitions
          ++ (4, root) ∷ [])
commit_args-tick_example =
    commit_args-tick hex_sample hex_sample-HashLaws hex_sample-HexLaws taken none true
      (sleeve (codes "perceive") ∷ []) router committed commits
