-- ===== src/Address.antt =====
-- packages/semantic-address: the grammar of descriptions, the addresses that are derived from them,
-- and the book that indexes addresses.
pub mod Hex
pub mod Digits
pub mod Grammar
pub mod Derive
pub mod Book
mod Examples
use dhf.Base.{
  ℕ, ◌+◌, ◌-◌, ◌*◌, ◌/◌, ◌%◌, Option, none, some, Bool, true, false, List, [], ◌∷◌, ◌++◌, Bytes,
  Text, length, get_elem?, take, drop, leb, ltb, ◌==◌, or_else, if◌then◌else◌, ◌>>=◌, zero, suc,
  codes,
}
use Hex.{bytes_hex, parse_pairs}

pub record SemanticAddress : Type 0 where
  pub bytes : Bytes

pub record PartialAddress : Type 0 where
  pub bytes : Bytes
  pub depth : ℕ
  pub facets : List Text
  pub hex : Text

-- The constructor: `none` is its error.
unfoldable pub new_address : Bytes → Option SemanticAddress
new_address b = if length b == 32 then some (record { bytes = b }) else none

-- `this.bytes[20]! & 0x0f`
unfoldable pub depth : SemanticAddress → ℕ
depth a = or_else (get_elem? a.bytes 20) 0 % 16

abbrev slice : ℕ → ℕ → Bytes → Bytes
slice start stop b = take (stop - start) (drop start b)

unfoldable pub segment : SemanticAddress → ℕ → Option Bytes
segment a level = if leb 5 level then none else some (slice (level * 4) ((level + 1) * 4) a.bytes)

unfoldable pub prefix : SemanticAddress → ℕ → Option Bytes
prefix a d = if ltb d 1 then none else if ltb 5 d then none else some (slice 0 (d * 4) a.bytes)

unfoldable pub to_hex : SemanticAddress → Text
to_hex a = bytes_hex a.bytes

-- The loop of `toShortString` from segment `i`, with `left` segments to go; the segments are joined
-- by colons.
short_segments : ℕ → ℕ → SemanticAddress → Option Text
unfolding segment
short_segments zero i a = some []
short_segments (suc left) i a = segment a i >>= λ seg. short_segments left (i + 1) a >>= λ rest.
    some ((if i == 0 then [] else codes ":") ++ bytes_hex seg ++ rest)

unfoldable pub to_short_string : SemanticAddress → Option ℕ → Option Text
unfolding short_segments depth
to_short_string a d =
    let levels = or_else d (depth a) in short_segments (if ltb levels 5 then levels else 5) 0 a

-- The byte loop of `startsWith` and of `prefixMatch`: the bytes of the prefix against those of the
-- address; past the end of the address there is nothing equal to a byte.
unfoldable pub matches_bytes : Bytes → Bytes → Bool
matches_bytes [] address = true
matches_bytes (p ∷ ps) [] = false
matches_bytes (p ∷ ps) (b ∷ bs) = if b == p then matches_bytes ps bs else false

unfoldable pub starts_with : SemanticAddress → PartialAddress → Bool
unfolding matches_bytes
starts_with a partial =
    if ltb (length a.bytes) (length partial.bytes)
    then false
    else matches_bytes partial.bytes a.bytes

unfoldable pub from_hex : Text → Option SemanticAddress
unfolding new_address
from_hex hex = if length hex == 64 then new_address (parse_pairs hex) else none
