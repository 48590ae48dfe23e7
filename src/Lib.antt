-- ===== src/Lib.antt =====
-- The DHF cognitive stack: identities ("stacks") with embodied processes ("sleeves"), encrypted
-- memories in a content-addressed node, semantic addresses for the memories of agents, and services
-- that move tokens, epochs and memories between them.
--
-- Parts and files:
--   packages/crypto/src/index.ts: Crypto (hashes, coherenceRoot), Crypto/Cid (cid, parseCid),
--     Crypto/Cipher (epochKey, encrypt, decrypt, sign, verify), Crypto/Merkle (merkleRoot, merkleProof,
--     verifyMerkleProof), Crypto/Mmr (SynapticFieldMMR). The algorithms of @noble are the
--     record `Noble` of Crypto/Primitives, and what the code relies on of them are its records of laws; Crypto/Sample meets all the laws.
--   packages/semantic-address/src: Address (address.ts), Address/Grammar (normalize of grammar.ts) and
--     Address/Grammar/Describe (its parseDescription: keywords at word boundaries), Address/Derive
--     (derive.ts), Address/Book (book.ts). Texts are lists of code units; lower-casing and white space
--     are those of ASCII.
--   packages/db/prisma/schema.prisma and packages/proto/src: Registry (the rows of stacks and
--     sleeves, their queries and updates, the events) and Registry/Profiles (the schemas of profiles).
--     Token amounts are in halves, fractions in millionths.
--     Events and Events/Patterns have the schemas of packages/proto/src/events.ts, Events/Published the
--     gateway's events.
--   packages/chain/src: Chain/Hippocampus and Chain/Medulla, over nodes that are parameters.
--   packages/bus/src/index.ts: Bus. The broker's deliveries are a list.
--   services/siyana-api: Siyana, Siyana/Stacks, Siyana/Sleeves, Siyana/Reads. A handler takes the
--     registry and the events and gives the reply and what they become. `perceive` is two steps, the reads and the
--     commit, so that two requests can be interleaved.
--   services/needlecast-router-svc: Needlecast, with the outcome of each outside call as an argument.
--   services/bandwidth-faucet: Faucet. services/quellist-treasury-svc: Treasury.
--   services/thalamus-router: Thalamus, with the events that arrive while a tick waits as an argument,
--     and Thalamus/Bridge, the arguments of the commit to the contract EpochAnchor.
--   services/dhf-compositor: Compositor.
--   services/agent-runtime/src: Memory (memory-store.ts) over the address book of Address/Book, with
--     the node's endpoints as a parameter in Memory/Transport; Agent/Inference (inference.ts), with the
--     providers as a parameter; Agent/Tools and Agent/Loop (agent.ts), where the model is a function of
--     the step and the messages; Agent/Server (server.ts), where all agents share one memory cache.
--     Http has the answers of a request.
--   services/sleeve-runtime: Embodied, over an interface of the gateway; Embodied/Gateways fills it with
--     the handlers of Siyana.
--   workers/runner: Workers (driftDetector, residueCollector, bandwidthMeter), Workers/Nodes
--     (epochAnchor, memoryReconciler, pinningService).
--   contracts/src: Contracts/Token (BandwidthToken.sol), Contracts/Anchor (EpochAnchor.sol),
--     Contracts/Exchange (ResidueToRoutingSwap.sol, its rate, limits and settings), Contracts/Oracle
--     (RouteOracle.sol, over the hash that names an action), Contracts/Evm
--     (QuellistTreasury.sol and the chain's code) and Contracts/Evm/Swaps (the exchange). A call
--     takes its sender and the state, and none is a revert. Contracts/Deploy: contracts/scripts/deploy.ts, over the addresses that the
--     deployer's transactions create.
--   Base holds the shared names and lemmas, Scenarios a concrete registry with the services' tests.
--
-- Loops are structural, except four: the climb of a Merkle tree has the number of leaves as fuel, a
-- merge of peaks consumes the list of peaks, `popcount` has the number itself as fuel, and the loop of
-- an agent has a turn more than its steps; the theorems on them are about the results, so the fuel is
-- enough where they apply.
--
-- Not modelled: the definitions of the agents' tools (prose for the model), the database client and the
-- bootstrap of the services (glue over libraries), the client of the EVM chain (a third-party library's
-- calls), the scripts but the deployment, the other contracts and the forked nodes (other languages),
-- and the rounding of floating-point numbers.
pub mod Base
pub mod Crypto
pub mod Address
pub mod Registry
pub mod Chain
pub mod Siyana
pub mod Faucet
pub mod Needlecast
pub mod Treasury
pub mod Compositor
pub mod Thalamus
pub mod Memory
pub mod Workers
pub mod Http
pub mod Agent
pub mod Embodied
pub mod Bus
pub mod Contracts
pub mod Events
pub mod Scenarios
