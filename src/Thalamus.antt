-- ===== src/Thalamus.antt =====
-- services/thalamus-router/src/server.ts: the buffers of hashes, and the tick that folds them into a
-- coherence root. What the chain's node answers to the submission is an argument, and so are the
-- events that arrive while the tick waits; the bridge to the EVM contract changes no state here.
pub mod Bridge
pub mod Ticks
use dhf.Base.{
  ℕ, ◌+◌, Option, none, some, Bool, true, false, List, [], ◌∷◌, ◌++◌, map, Text, if◌then◌else◌,
  codes, replicate, or_else, ◌==◌,
}
use dhf.Crypto.{text, sha256hex, ShardRoots, coherence_root}
use dhf.Crypto.Primitives.{Noble}
use dhf.Crypto.Merkle.{merkle_root, Leaf, text as leaf_text}

-- What arrives: a memory event with its cid, a sleeve event as the text that is hashed, an EVM event
-- with its transaction.
pub data Arrival : Type 0 where
  memory : Option Text → Arrival
  sleeve : Text → Arrival
  evm : Option Text → Arrival

-- a row of the table of epochs
pub record EpochRow : Type 0 where
  pub number : ℕ
  pub cross_root : Text
  pub evm_root : Text
  pub ipfs_root : Text
  pub sleeves_root : Text
  pub medulla_height : ℕ

pub record Router : Type 0 where
  pub current_epoch : ℕ
  pub evm_hashes : List Text
  pub ipfs_hashes : List Text
  pub sleeve_hashes : List Text
  pub epochs : List EpochRow
  -- the published transitions: the epoch and its root
  pub transitions : List (ℕ × Text)

-- the answer to `submitCoherenceRoot`
pub record Submitted : Type 0 where
  pub epoch : Option ℕ
  pub height : Option ℕ

-- `if (ev?.cid)`, `if (ev?.txHash)`
unfoldable pub present : Option Text → List Text
present none = []
present (some []) = []
present (some (c ∷ cs)) = (c ∷ cs) ∷ []

abbrev pub zero_root : Text
zero_root = replicate 64 48

-- `epoch.upsert` with an empty update
unfoldable pub upsert : EpochRow → List EpochRow → List EpochRow
upsert row [] = row ∷ []
upsert row (r ∷ rest) =
    let more = upsert row rest in if r.number == row.number then r ∷ rest else r ∷ more

unfoldable pub clear : Router → Router
clear r = record r { evm_hashes = []; ipfs_hashes = []; sleeve_hashes = [] }

module _ (n : Noble) where
  -- the three subscriptions
  unfoldable pub receive : Arrival → Router → Router
  unfolding present sha256hex
  receive (memory cid) r = record r {
    ipfs_hashes = r.ipfs_hashes ++ map (λ c. sha256hex n (text c)) (present cid);
  }
  receive (sleeve t) r = record r { sleeve_hashes = r.sleeve_hashes ++ sha256hex n (text t) ∷ [] }
  receive (evm tx) r = record r { evm_hashes = r.evm_hashes ++ present tx }

  unfoldable pub receive_all : List Arrival → Router → Router
  unfolding receive
  receive_all [] r = r
  receive_all (a ∷ rest) r = receive_all rest (receive a r)

  unfoldable pub buffer_root : List Text → Text
  unfolding merkle_root
  buffer_root [] = zero_root
  buffer_root (h ∷ rest) = merkle_root n (map leaf_text (h ∷ rest))

  -- The roots that a tick submits.
  unfoldable pub tick_row : Router → EpochRow
  unfolding buffer_root coherence_root
  tick_row r =
      let evm_root = buffer_root r.evm_hashes in
      let ipfs_root = buffer_root r.ipfs_hashes in
      let sleeves_root = buffer_root r.sleeve_hashes in
      record {
        number = 0;
        cross_root =
            coherence_root n (record {
              evm = evm_root;
              btc = zero_root;
              ipfs = ipfs_root;
              sleeves = sleeves_root;
            });
        evm_root = evm_root;
        ipfs_root = ipfs_root;
        sleeves_root = sleeves_root;
        medulla_height = 0;
      }

  -- The tick: the roots of the buffers as they stand, the wait, and what follows the answer. A row
  -- that the database does not take is passed over; when the bus does not take the transition, the exception skips the emptying of the buffers.
  unfoldable pub tick : (EpochRow → Option Submitted) → Bool → Bool → List Arrival → Router → Router
  unfolding tick_row receive_all upsert clear
  tick submit db_up bus_up arrivals r =
      let row = tick_row r in
      let waited = receive_all arrivals r in
      elim (submit row) [
        | none ↦ clear waited
        | some anchor ↦
            let epoch = or_else anchor.epoch (r.current_epoch + 1) in
            let row' : EpochRow = record row {
              number = epoch;
              medulla_height = or_else anchor.height 0;
            } in
            let kept : Router = record waited {
              current_epoch = epoch;
              epochs = if db_up then upsert row' waited.epochs else waited.epochs;
            } in
            if bus_up
            then clear
                (record kept { transitions = kept.transitions ++ (epoch, row.cross_root) ∷ [] })
            else kept
      ]
