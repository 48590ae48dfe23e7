-- ===== src/Embodied/Gateways.antt =====
-- The gateway of services/siyana-api as the process of a sleeve calls it.
use dhf.Base.{ℕ, Option, none, some, Bool, List, map, Text, Bytes}
use dhf.Crypto.Primitives.{Noble}
use dhf.Crypto.Cipher.{IdentityKeypair}
use dhf.Chain.Hippocampus.{Node}
use dhf.Registry.{Stack, Sleeve, World, Reply, ok, error, thrown}
use dhf.Siyana.Stacks.{create_stack}
use dhf.Siyana.Sleeves.{spawn, perceive, sync, decommission}
use dhf.Siyana.Reads.{list_stacks}
use dhf.Embodied.{Gateway}

-- What the gateway's surroundings give: the clock, the keys, the random bytes, whether the bus takes an
-- event and whether the transaction of `perceive` is committed.
pub record Surroundings : Type 0 where
  pub now : ℕ
  pub keys : IdentityKeypair
  pub iv : Bytes
  pub up : Bool
  pub committed : Bool

-- `if (!r.ok) throw …`
abbrev accepted_with : {A : Type 0} → (A → Text) → Reply A → Option Text
accepted_with f (ok a) = some (f a)
accepted_with f (error status why) = none
accepted_with f thrown = none

module _ (n : Noble) (node : Node) (master : Option Text) (around : Surroundings) where
  unfoldable pub siyana : Gateway World
  unfolding list_stacks create_stack spawn perceive sync decommission
  siyana = record {
    list_stacks = λ w. some (map (λ (p : Stack × List Sleeve). p.0.id) (list_stacks w.db));
    create_stack = λ name kind w.
        let (reply, w') = create_stack n name kind around.keys around.now around.up w in
        (accepted_with (λ (p : Stack × Text). p.0.id) reply, w');
    spawn = λ stack_id kind hostname w.
        let (reply, w') = spawn n stack_id kind (some hostname) around.now around.up w in
        (accepted_with (λ (s : Sleeve). s.id) reply, w');
    perceive =
        λ k input w. (perceive n node master k input around.iv around.committed around.up w).1;
    sync = λ k w. (sync k around.now w).1;
    decommission = λ k w. (decommission k around.up w).1;
    join_pool = λ hostname w. w;
  }
