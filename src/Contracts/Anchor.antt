-- ===== src/Contracts/Anchor.antt =====
-- contracts/src/EpochAnchor.sol: the anchors of the epochs, their continuity, and the inclusion of a
-- leaf under one of an anchor's roots. A time of 0 is that of an anchor that was never committed.
pub mod Heights
use dhf.Base.{
  ℕ, ◌-◌, ◌/◌, ◌%◌, ◌==◌, ◌&&◌, ◌||◌, not, Option, none, some, Bool, true, false, List, [], ◌∷◌,
  ltb, if◌then◌else◌,
}
use dhf.Contracts.{require}

pub record Anchor : Type 0 where
  pub cross_root : ℕ
  pub evm_root : ℕ
  pub ipfs_root : ℕ
  pub sleeves_root : ℕ
  pub synaptic_field_root : ℕ
  pub medulla_height : ℕ
  pub ts : ℕ

pub record EpochAnchor : Type 0 where
  pub owner : ℕ
  pub by_epoch : ℕ → Anchor
  pub head : ℕ
  pub last_medulla_height : ℕ
  pub bridgers : ℕ → Bool

abbrev pub unset : Anchor
unset = record {
  cross_root = 0;
  evm_root = 0;
  ipfs_root = 0;
  sleeves_root = 0;
  synaptic_field_root = 0;
  medulla_height = 0;
  ts = 0;
}

-- the constructor, by its sender
unfoldable pub anchor_deployed : ℕ → EpochAnchor
anchor_deployed sender = record {
  owner = sender;
  by_epoch = λ epoch. unset;
  head = 0;
  last_medulla_height = 0;
  bridgers = λ b. false;
}

unfoldable pub set_bridger : ℕ → ℕ → Bool → EpochAnchor → Option EpochAnchor
unfolding require
set_bridger sender b ok c =
    require (sender == c.owner)
      (some (record c { bridgers = λ x. if x == b then ok else c.bridgers x }))

-- The anchor that is committed carries the time of the block.
unfoldable pub commit_anchor : ℕ → ℕ → Anchor → EpochAnchor → Option EpochAnchor
unfolding require
commit_anchor sender epoch a c = require (c.bridgers sender) (
    require (ltb c.head epoch || (c.head == 0)) (
      require (ltb c.last_medulla_height a.medulla_height) (
        some (record c {
          by_epoch = λ x. if x == epoch then a else c.by_epoch x;
          head = epoch;
          last_medulla_height = a.medulla_height;
        }))))

-- whether both anchors exist, and whether the later one extends the earlier
unfoldable pub verify_continuity : EpochAnchor → ℕ → Bool × Bool
verify_continuity c epoch =
    let cur = c.by_epoch epoch in
    let prev = c.by_epoch (epoch - 1) in
    if epoch == 0
    then (false, false)
    else if (cur.ts == 0) || (prev.ts == 0)
    then (false, false)
    else (
      true,
      not (cur.synaptic_field_root == prev.synaptic_field_root)
          && ltb prev.medulla_height cur.medulla_height,
    )

-- The root that a shard is proved against.
unfoldable pub shard_root : Anchor → ℕ → Option ℕ
shard_root a shard =
    if shard == 0
    then some a.evm_root
    else if shard == 1
    then some a.ipfs_root
    else if shard == 2
    then some a.sleeves_root
    else none

-- The loop over the siblings, where `keccak` hashes two words one behind the other; the bits of the
-- index are shifted out from the lowest.
unfoldable pub walk : (ℕ → ℕ → ℕ) → List ℕ → ℕ → ℕ → ℕ
walk keccak [] bits cur = cur
walk keccak (sibling ∷ rest) bits cur =
    walk keccak rest (bits / 2) (if bits % 2 == 1 then keccak sibling cur else keccak cur sibling)

unfoldable pub verify_shard_inclusion : (ℕ → ℕ → ℕ) → EpochAnchor → ℕ → ℕ → ℕ → List ℕ → ℕ → Bool
unfolding shard_root walk
verify_shard_inclusion keccak c epoch shard leaf siblings bits =
    let a = c.by_epoch epoch in
    if a.ts == 0 then false else elim (shard_root a shard) [
      | none ↦ false
      | some want ↦ walk keccak siblings bits leaf == want
    ]
