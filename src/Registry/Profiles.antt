-- ===== src/Registry/Profiles.antt =====
-- packages/proto/src/tokens.ts: the kinds of tokens with their contracts, and what the schemas of a
-- profile and of a curve check beyond the types, where fractions are in millionths.
use dhf.Base.{◌&&◌, Bool, Text, codes, leb}
use dhf.Registry.{CoherenceProfile, BindingCurve}

pub data TokenKind : Type 0 where
  compute : TokenKind
  memory : TokenKind
  sync : TokenKind
  routing : TokenKind
  residue : TokenKind

-- TOKEN_CONTRACT_NAMES
unfoldable pub contract_name : TokenKind → Text
contract_name compute = codes "ComputeToken"
contract_name memory = codes "MemoryToken"
contract_name sync = codes "SyncToken"
contract_name routing = codes "RoutingToken"
contract_name residue = codes "ResidueToken"

-- CoherenceProfileVector: `.min(0).max(2)`
unfoldable pub accepts_profile : CoherenceProfile → Bool
accepts_profile c =
    leb c.compute_coeff 2000000
    && leb c.memory_coeff 2000000
    && leb c.sync_coeff 2000000
    && leb c.routing_coeff 2000000
    && leb c.residue_coeff 2000000

-- EpochBindingCurve: `.min(0).max(1)`
unfoldable pub accepts_curve : BindingCurve → Bool
accepts_curve b = leb b.decay_rate 1000000 && leb b.floor 1000000
