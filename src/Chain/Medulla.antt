-- ===== src/Chain/Medulla.antt =====
-- packages/chain/src/medulla.ts: the client of the proof-of-work node's RPC. What the node answers is
-- the argument; `none` is a request that fails or a body that is not JSON. The status is not looked at.
use dhf.Base.{ℕ, Option, none, some, Bool, List, Text, ◌>>=◌}

pub record CoherenceAnchor : Type 0 where
  pub block_hash : Text
  pub height : ℕ
  pub epoch : ℕ
  pub cross_root : Text
  pub evm_root : Text
  pub ipfs_root : Text
  pub sleeves_root : Text
  pub synaptic_field_root : Text
  pub ts : ℕ

-- A body: `error` where that is set, and `result` where it is not.
pub data RpcBody {ℓ} (A : Type ℓ) : Type ℓ where
  rpc_error : Text → RpcBody A
  rpc_result : A → RpcBody A

pub record PowInfo : Type 0 where
  pub height : ℕ
  pub difficulty : ℕ
  pub tip : Text
  pub epoch : ℕ

pub record Roots : Type 0 where
  pub cross_root : Text
  pub evm_root : Text
  pub ipfs_root : Text
  pub sleeves_root : Text

pub record Submitted : Type 0 where
  pub height : ℕ
  pub block_hash : Text
  pub epoch : ℕ

pub record SynapticProof : Type 0 where
  pub siblings : List Text
  pub index : ℕ
  pub root : Text

-- The node, by its methods.
pub record Pow : Type 0 where
  pub getinfo : Option (RpcBody PowInfo)
  pub getepochanchor : ℕ → Option (RpcBody CoherenceAnchor)
  pub getlatestanchor : Option (RpcBody CoherenceAnchor)
  pub submitcoherenceroot : Roots → Option (RpcBody Submitted)
  pub getsynapticproof : Text → Option (RpcBody SynapticProof)
  pub joinpool : Text → Text → Option (RpcBody Bool)
  pub mineblock : Text → Option (RpcBody CoherenceAnchor)

-- `if (body.error) throw …; return body.result`
unfoldable pub rpc {ℓ} : {A : Type ℓ} → RpcBody A → Option A
rpc (rpc_error why) = none
rpc (rpc_result a) = some a

module _ (pow : Pow) where
  unfoldable pub get_info : Option PowInfo
  unfolding rpc
  get_info = pow.getinfo >>= rpc

  unfoldable pub get_epoch_anchor : ℕ → Option CoherenceAnchor
  unfolding rpc
  get_epoch_anchor epoch = pow.getepochanchor epoch >>= rpc

  unfoldable pub get_latest_anchor : Option CoherenceAnchor
  unfolding rpc
  get_latest_anchor = pow.getlatestanchor >>= rpc

  unfoldable pub submit_coherence_root : Roots → Option Submitted
  unfolding rpc
  submit_coherence_root args = pow.submitcoherenceroot args >>= rpc

  unfoldable pub get_synaptic_proof : Text → Option SynapticProof
  unfolding rpc
  get_synaptic_proof block_hash = pow.getsynapticproof block_hash >>= rpc

  unfoldable pub join_pool : Text → Text → Option Bool
  unfolding rpc
  join_pool sleeve_id pool = pow.joinpool sleeve_id pool >>= rpc

  unfoldable pub mine_block : Text → Option CoherenceAnchor
  unfolding rpc
  mine_block pool = pow.mineblock pool >>= rpc
