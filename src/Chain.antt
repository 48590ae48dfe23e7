-- ===== src/Chain.antt =====
-- packages/chain/src: the clients of the nodes.
pub mod Hippocampus
pub mod Medulla
