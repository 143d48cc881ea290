-- ===== src/Ids.antt =====
-- The identifiers that the program takes from its libraries: Holochain hashes, channels of tokio.
-- The code compares them and no more, so each is a number that stands for its bytes.
use h2hc_linker.Base.{ℕ}

abbrev pub AgentPubKey : Type 0
AgentPubKey = ℕ

abbrev pub DnaHash : Type 0
DnaHash = ℕ

-- A sender of a WebSocket connection; clones of one sender have one number (`same_channel`).
abbrev pub WsSender : Type 0
WsSender = ℕ
