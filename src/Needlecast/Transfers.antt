-- ===== src/Needlecast/Transfers.antt =====
-- What a transfer that succeeds leaves behind.
