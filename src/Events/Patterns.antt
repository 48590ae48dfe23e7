-- ===== src/Events/Patterns.antt =====
-- The patterns of the identifiers of packages/proto/src/events.ts and the tests of its numbers. A
-- number is a count of millionths with a sign.
use dhf.Base.{
  ℕ, ◌*◌, ◌%◌, ◌==◌, ◌&&◌, ◌||◌, ◌>>=◌, not, Option, none, some, Bool, true, false, [], ◌∷◌, Text,
  codes, leb, length, take, drop, is_empty, if◌then◌else◌,
}
use dhf.Base.Decimal.{is_digit}
use dhf.Crypto.Cid.{is_hex_digit, each, behind, scheme}

-- `[a-z]`
unfoldable pub is_lower : ℕ → Bool
is_lower c = leb b'a' c && leb c b'z'

-- What follows the longest run of a class.
unfoldable pub past : (ℕ → Bool) → Text → Text
past test [] = []
past test (c ∷ cs) = let rest = past test cs in if test c then rest else c ∷ cs

-- What follows the longest run of a class that has at least one character. No class here has the
-- character that must follow it, so that the longest run is the one that can match.
unfoldable pub some_of : (ℕ → Bool) → Text → Option Text
unfolding past
some_of test [] = none
some_of test (c ∷ cs) = if test c then some (past test cs) else none

-- What follows a literal, `[a-z]+`, `\d+` and `[0-9a-f]+`, with a colon between each two.
unfoldable pub past_id : Text → Text → Option Text
unfolding behind some_of
past_id prefix t =
    behind prefix t
    >>= some_of is_lower
    >>= behind (codes ":")
    >>= some_of is_digit
    >>= behind (codes ":")
    >>= some_of is_hex_digit

unfoldable pub is_id : Text → Text → Bool
unfolding past_id
is_id prefix t = elim (past_id prefix t) [ some [] ↦ true | _ ↦ false ]

-- StackId and SleeveId
unfoldable pub is_stack_id : Text → Bool
unfolding is_id
is_stack_id t = is_id (codes "stack:") t

unfoldable pub is_sleeve_id : Text → Bool
unfolding is_id
is_sleeve_id t = is_id (codes "sleeve:") t

-- `(@\d+)?$`
unfoldable pub is_epoch_suffix : Text → Bool
unfolding each
is_epoch_suffix [] = true
is_epoch_suffix (c ∷ ds) = c == b'@' && not (is_empty ds) && each is_digit ds

-- `[0-9a-f]{64}(@\d+)?$`
unfoldable pub is_hash_suffix : Text → Bool
unfolding each is_epoch_suffix
is_hash_suffix rest =
    leb 64 (length rest) && each is_hex_digit (take 64 rest) && is_epoch_suffix (drop 64 rest)

-- Cid
unfoldable pub is_cid : Text → Bool
unfolding behind is_hash_suffix
is_cid t = elim (behind scheme t) [ none ↦ false | some rest ↦ is_hash_suffix rest ]

-- `/^0x[0-9a-f]{64}$/`
unfoldable pub is_root : Text → Bool
unfolding behind each
is_root t = elim (behind (codes "0x") t) [
  | none ↦ false
  | some rest ↦ length rest == 64 && each is_hex_digit rest
]

pub record Number : Type 0 where
  pub negative : Bool
  pub millionths : ℕ

abbrev pub natural : ℕ → Number
natural n = record { negative = false; millionths = n * 1000000 }

-- `.int()`, `.nonnegative()` and `.min(0).max(1)`
unfoldable pub is_int : Number → Bool
is_int n = n.millionths % 1000000 == 0

unfoldable pub is_nonnegative : Number → Bool
is_nonnegative n = not n.negative || (n.millionths == 0)

unfoldable pub is_fraction : Number → Bool
unfolding is_nonnegative
is_fraction n = is_nonnegative n && (n.negative || leb n.millionths 1000000)

-- `.optional()`
unfoldable pub optional : (Text → Bool) → Option Text → Bool
optional test none = true
optional test (some t) = test t
