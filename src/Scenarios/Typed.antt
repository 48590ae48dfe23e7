-- ===== src/Scenarios/Typed.antt =====
-- A registry whose identifiers match the schemas, and the events of the operations on it.
use dhf.Base.{◌≡◌, refl, none, true, [], ◌∷◌, codes}
use dhf.Crypto.Cipher.{IdentityKeypair}
use dhf.Crypto.Cid.{each}
use dhf.Crypto.Cid.Examples.{hex_sample, hex_sample-HashLaws, hex_sample-HexLaws}
use dhf.Registry.Profiles.{accepts_profile, accepts_curve}
use dhf.Events.Patterns.{is_stack_id, is_id, is_sleeve_id, is_lower, past_id, past, some_of}
use dhf.Events.Published.{IsTyped, StackAccepted, SleeveAccepted}
use dhf.Events.Published.Handlers.{create_stack-IsTyped, spawn-IsTyped}
use dhf.Registry.{EmbodimentType, World}
use dhf.Siyana.Sleeves.{spawn}
use dhf.Siyana.Stacks.{create_stack}
use dhf.Base.Decimal.{is_digit}
use dhf.Crypto.Cid.{is_hex_digit, behind}
use dhf.Scenarios.{ada, sleeve_of}

abbrev typed_world : World
typed_world = record {
  db = record { stacks = ada ∷ []; sleeves = sleeve_of (codes "sleeve:ai:1:b") 0 ∷ [] };
  events = [];
}

typed_world-IsTyped : IsTyped typed_world
unfolding accepts_profile accepts_curve is_stack_id is_sleeve_id is_id past_id some_of past is_lower
    is_digit is_hex_digit behind
typed_world-IsTyped = record {
  stacks_typed = (refl, tt);
  profiles_typed = (refl, tt);
  sleeves_typed = (refl, tt);
}

abbrev pair : IdentityKeypair
pair = record { pub_hex = codes "aa"; priv_hex = codes "bb" }

human_is_lower : each is_lower (codes "human") ≡ true
unfolding each is_lower
human_is_lower = refl

create_stack-IsTyped_example :
    StackAccepted pair 9 true []
      (create_stack hex_sample (codes "eve") (codes "human") pair 9 true typed_world).0
      (create_stack hex_sample (codes "eve") (codes "human") pair 9 true typed_world).1.events
    × IsTyped (create_stack hex_sample (codes "eve") (codes "human") pair 9 true typed_world).1
create_stack-IsTyped_example =
    create_stack-IsTyped hex_sample hex_sample-HashLaws hex_sample-HexLaws (codes "eve")
      (codes "human") pair 9 true typed_world refl human_is_lower typed_world-IsTyped

spawn-IsTyped_example :
    SleeveAccepted 9 true []
      (spawn hex_sample ada.id EmbodimentType.mining none 9 true typed_world).0
      (spawn hex_sample ada.id EmbodimentType.mining none 9 true typed_world).1.events
    × IsTyped (spawn hex_sample ada.id EmbodimentType.mining none 9 true typed_world).1
spawn-IsTyped_example =
    spawn-IsTyped hex_sample hex_sample-HashLaws hex_sample-HexLaws ada.id EmbodimentType.mining
      none 9 true typed_world typed_world-IsTyped
