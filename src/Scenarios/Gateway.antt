-- ===== src/Scenarios/Gateway.antt =====
-- Perceptions and memories at the gateway.
use dhf.Base.{
  ◌≡◌, ◌+◌, ◌-◌, refl, some, none, true, false, Text, text_eq, codes, arith, [], ◌∷◌, replicate,
}
use dhf.Crypto.Sample.{sample, sample-HashLaws, sample-CipherLaws}
use dhf.Crypto.Primitives.{decodable}
use dhf.Crypto.Cipher.{decrypt, epoch_key}
use dhf.Chain.Hippocampus.{HippoPutInput, put, json_or_throw}
use dhf.Registry.{Stack, World, Reply, ok, find_sleeve, find_stack, is_ok, update_stack}
use dhf.Siyana.Sleeves.{Perceived, perceive, perceive_start, perceive_commit, head_links}
use dhf.Siyana.Sleeves.Perceive.{headed, perceive-perceive_lost}
use dhf.Siyana.Stacks.{remember}
use dhf.Siyana.Stacks.Chains.{remember-chains}
use dhf.Scenarios.{ada, sleeve_of, world, node}

abbrev run : Reply (Text × Text) × World
run = perceive sample node none (codes "s1") (codes "hi") (7 ∷ []) true true world

abbrev missing : Reply (Text × Text) × World
missing = perceive sample node none (codes "s9") (codes "hi") (7 ∷ []) true true world

not_there : is_ok missing.0 ≡ false
unfolding perceive perceive_start find_sleeve text_eq
not_there = refl

abbrev read : Text → Perceived
read thought = record {
  sleeve = sleeve_of (codes "s1") 4;
  stack = ada;
  cid = codes "c1";
  thought = thought;
}

reads_a :
    perceive_start sample node none (codes "s1") (codes "a") (7 ∷ []) world
    ≡ ok (read (codes "[ai@s1] a"))
unfolding perceive_start put json_or_throw find_sleeve find_stack text_eq
reads_a = refl

reads_b :
    perceive_start sample node none (codes "s1") (codes "b") (8 ∷ []) world
    ≡ ok (read (codes "[ai@s1] b"))
unfolding perceive_start put json_or_throw find_sleeve find_stack text_eq
reads_b = refl

abbrev one : Reply (Text × Text) × World
one = perceive_commit sample (read (codes "[ai@s1] a")) true true world

abbrev two : Reply (Text × Text) × World
two = perceive_commit sample (read (codes "[ai@s1] b")) true true one.1

perceive-perceive_lost_example :
    (one.0 ≡ ok (codes "c1", codes "[ai@s1] a"))
    × (two.0 ≡ ok (codes "c1", codes "[ai@s1] b"))
    × (find_sleeve (codes "s1") two.1.sleeves
        ≡ some (record (sleeve_of (codes "s1") 4) {
          drift = 4 + 2;
          tokens = record (sleeve_of (codes "s1") 4).tokens { compute = some (20 - 1) };
        }))
    × (find_stack ada.id two.1.stacks ≡ some (headed (codes "c1") ada))
perceive-perceive_lost_example =
    perceive-perceive_lost sample node none (codes "s1") (codes "a") (codes "b") (7 ∷ []) (8 ∷ [])
      true true world reads_a reads_b

abbrev written : Reply Text × World
written = remember node sample none ada.id (codes "rain") true (replicate 12 9) world

writes : written.0 ≡ ok (codes "c1")
unfolding remember put json_or_throw find_stack update_stack text_eq
writes = refl

remember-chains_example :
    (stack : Stack) × (input : HippoPutInput) × (find_stack ada.id world.stacks ≡ some stack)
    × (put node input ≡ some (codes "c1"))
    × (input.links ≡ head_links stack.episodic_head)
    × (decrypt sample input.ciphertext (epoch_key sample ada.id stack.epoch none)
        ≡ some (codes "rain"))
    × (find_stack ada.id written.1.stacks
        ≡ some (record stack { episodic_head = some (codes "c1") }))
unfolding decodable
remember-chains_example =
    remember-chains sample sample-HashLaws sample-CipherLaws node none ada.id (codes "rain") true
      (replicate 12 9) world refl refl (omega arith) writes
