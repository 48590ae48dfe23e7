-- ===== src/Thalamus/Bridge.antt =====
-- services/thalamus-router/src/server.ts: the bridge from an anchored tick to the contract EpochAnchor.
-- The sending of the transaction and the wait for it are the wallet's; what they throw is caught.
pub mod Roots
use dhf.Base.{
  ℕ, ◌+◌, ◌-◌, Option, none, some, Bool, true, false, List, [], ◌∷◌, ◌++◌, Text, if◌then◌else◌,
  codes, replicate, or_else, length,
}
use dhf.Crypto.Primitives.{Noble}
use dhf.Crypto.Cid.{behind}
use dhf.Chain.Medulla.{SynapticProof}
use dhf.Thalamus.{EpochRow, Router, Submitted, zero_root, tick_row}

-- the arguments of `commitAnchor`
pub record CommitArgs : Type 0 where
  pub epoch : ℕ
  pub cross_root : Text
  pub evm_root : Text
  pub ipfs_root : Text
  pub sleeves_root : Text
  pub synaptic_root : Text
  pub medulla_height : ℕ

-- `padStart(64, '0')`
unfoldable pub pad_start : Text → Text
pad_start t = replicate (64 - length t) b'0' ++ t

unfoldable pub pad : Text → Text
unfolding behind pad_start
pad hex = codes "0x" ++ pad_start (or_else (behind (codes "0x") hex) hex)

-- The root of the proof, where the node has one.
unfoldable pub synaptic_root_of : Option SynapticProof → Text
synaptic_root_of none = zero_root
synaptic_root_of (some proof) = proof.root

-- What a tick commits, once its row is anchored: nothing without the contract's address.
unfoldable pub commit_args :
    Noble → Bool → (EpochRow → Option Submitted) → Option SynapticProof → Router → Option CommitArgs
unfolding tick_row pad synaptic_root_of
commit_args n addressed submit proof r =
    let row = tick_row n r in
    elim (submit row) [
      | none ↦ none
      | some anchor ↦
          if addressed
          then some (record {
            epoch = or_else anchor.epoch (r.current_epoch + 1);
            cross_root = pad row.cross_root;
            evm_root = pad row.evm_root;
            ipfs_root = pad row.ipfs_root;
            sleeves_root = pad row.sleeves_root;
            synaptic_root = pad (synaptic_root_of proof);
            medulla_height = or_else anchor.height 0;
          })
          else none
    ]
