-- ===== src/Shardcfg/Constants.antt =====
-- src/shardkv1/shardcfg/shardcfg.go: its constants.
use raft_sharded_kv.Prelude.{ℕ}

-- NShards
abbrev pub n_shards : ℕ
n_shards = 12

-- NumFirst
abbrev pub num_first : ℕ
num_first = 1

-- Gid1
abbrev pub gid_1 : ℕ
gid_1 = 1
