-- ===== src/Scenarios/Transfers.antt =====
-- Transfers between two sleeves.
use dhf.Base.{◌≡◌, refl, some, true, false, text_eq, codes}
use dhf.Crypto.Sample.{sample}
use dhf.Chain.Hippocampus.{json_or_throw, recall}
use dhf.Registry.{Stack, Sleeve, World, Reply, find_sleeve, find_stack, is_ok, update_sleeve}
use dhf.Needlecast.{Calls, Transfer, write, set_alive, reset, failed, shards_of, saga, needlecast}
use dhf.Needlecast.Failures.{needlecast-rolls_back, needlecast-half_done}
use dhf.Scenarios.{world, node}

abbrev all_up : Calls
all_up = record {
  freeze = true;
  publish = true;
  reconstruct = true;
  settle = true;
  unfreeze = true;
  undo = true;
}

abbrev moved : Calls → Reply Transfer × World
moved calls = needlecast sample node calls (codes "s1") (codes "s2") world

goes_through : is_ok (moved all_up).0 ≡ true
unfolding needlecast saga shards_of recall json_or_throw write find_sleeve find_stack update_sleeve
    text_eq
goes_through = refl

needlecast-rolls_back_example :
    ((moved (record all_up { publish = false })).0 ≡ failed)
    × (source : Sleeve) × (find_sleeve (codes "s1") world.sleeves ≡ some source)
    × (find_sleeve (codes "s1") (moved (record all_up { publish = false })).1.sleeves
        ≡ some (set_alive true source))
    × (find_sleeve (codes "s2") (moved (record all_up { publish = false })).1.sleeves
        ≡ find_sleeve (codes "s2") world.sleeves)
unfolding text_eq
needlecast-rolls_back_example =
    needlecast-rolls_back sample node all_up (codes "s1") (codes "s2") (codes "s2") world refl refl
      refl goes_through

needlecast-half_done_example :
    ((moved (record all_up { settle = false })).0 ≡ failed)
    × (source : Sleeve) × (target : Sleeve) × (stack : Stack) × (find_sleeve
          (codes "s1")
          world.sleeves
        ≡ some source)
    × (find_sleeve (codes "s2") world.sleeves ≡ some target)
    × (find_stack source.stack_id world.stacks ≡ some stack)
    × (find_sleeve (codes "s1") (moved (record all_up { settle = false })).1.sleeves
        ≡ some (set_alive true source))
    × (find_sleeve (codes "s2") (moved (record all_up { settle = false })).1.sleeves
        ≡ some (reset stack target target))
unfolding text_eq
needlecast-half_done_example =
    needlecast-half_done sample node all_up (codes "s1") (codes "s2") world refl refl goes_through
