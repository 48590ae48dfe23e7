-- ===== src/Chain/Hippocampus.antt =====
-- packages/chain/src/hippocampus.ts: the client of the memory node. The node and the transport are
-- not in the repository's TypeScript: what they answer is the argument `Node`, one function for each
-- endpoint. `none` is a request that fails, or a body that is not JSON.
use dhf.Base.{ℕ, Option, none, some, Bool, List, Text, ◌>>=◌, if◌then◌else◌, ◌==◌, leb, true}
use dhf.Crypto.Cipher.{EncPayload}

pub data NodeKind : Type 0 where
  episodic semantic needlecast_shard : NodeKind

pub record HippoPutInput : Type 0 where
  pub stack_id : Text
  pub epoch : ℕ
  pub ciphertext : EncPayload
  pub links : List Text
  pub kind : NodeKind
  pub pinned : Option Bool

pub record HippoNode : Type 0 where
  pub cid : Text
  pub ciphertext : EncPayload
  pub links : List Text
  pub epoch : ℕ
  pub kind : Text
  pub pinned : Bool
  pub stack_id : Text

-- A memory token is in halves.
pub record RecallArgs : Type 0 where
  pub root_cid : Text
  pub stack_id : Text
  pub epoch : ℕ
  pub depth : ℕ
  pub memory_token : ℕ

-- `fidelity` is in millionths.
pub record Recalled : Type 0 where
  pub fragments : List HippoNode
  pub broken : List Text
  pub fidelity : ℕ

pub record Lease : Type 0 where
  pub ok : Bool
  pub until_epoch : ℕ

pub record PinStatus : Type 0 where
  pub cid : Text
  pub active : Bool
  pub until_epoch : ℕ

pub record Stat : Type 0 where
  pub nodes : ℕ
  pub pinned : ℕ
  pub peers : ℕ

pub record Response {ℓ} (A : Type ℓ) : Type ℓ where
  pub status_code : ℕ
  pub body : Option A

-- The node, as its endpoints answer.
pub record Node : Type 0 where
  pub dag_put : HippoPutInput → Option (Response Text)
  pub dag_get : Text → Option (Response HippoNode)
  pub pin_add : Text → Option (Response Bool)
  pub pin_lease : Text → ℕ → Option (Response Lease)
  pub pin_status : Text → ℕ → Option (Response PinStatus)
  pub dhf_recall : RecallArgs → Option (Response Recalled)
  pub stat : Option (Response Stat)

-- `if (r.statusCode >= 400) throw …; return (await r.body.json())`
unfoldable pub json_or_throw {ℓ} : {A : Type ℓ} → Response A → Option A
json_or_throw r = if leb 400 r.status_code then none else r.body

module _ (node : Node) where
  unfoldable pub put : HippoPutInput → Option Text
  unfolding json_or_throw
  put input = node.dag_put input >>= json_or_throw

  -- A missing node is an answer; any other error is thrown.
  unfoldable pub get : Text → Option (Option HippoNode)
  unfolding json_or_throw
  get cid = node.dag_get cid >>= λ r.
      if r.status_code == 404 then some none else (json_or_throw r >>= λ b. some (some b))

  -- The body is not read.
  unfoldable pub pin : Text → Option Bool
  pin cid = node.pin_add cid >>= λ r. if leb 400 r.status_code then none else some true

  unfoldable pub lease : Text → ℕ → Option Lease
  unfolding json_or_throw
  lease cid until_epoch = node.pin_lease cid until_epoch >>= json_or_throw

  unfoldable pub pin_status : Text → ℕ → Option PinStatus
  unfolding json_or_throw
  pin_status cid epoch = node.pin_status cid epoch >>= json_or_throw

  unfoldable pub recall : RecallArgs → Option Recalled
  unfolding json_or_throw
  recall args = node.dhf_recall args >>= json_or_throw

  -- The status is not looked at.
  unfoldable pub snapshot : Option Stat
  snapshot = node.stat >>= λ r. r.body
