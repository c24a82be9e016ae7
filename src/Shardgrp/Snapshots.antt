-- ===== src/Shardgrp/Snapshots.antt =====
-- src/shardkv1/shardgrp/server.go: Snapshot and Restore, and the RPC handlers.
use raft_sharded_kv.Prelude.{
  ℕ, ◌<◌, ◌≡◌, ◌⊎◌, empty_map, nat_eq, Option, none, some, Bool, false, if◌then◌else◌,
}
use raft_sharded_kv.Rpc.{Err, PutReply, GetReply, put_reply, get_error}
use raft_sharded_kv.Shardcfg.Constants.{n_shards}
use raft_sharded_kv.Dedup.Table.{Table}
use raft_sharded_kv.Kvraft.Server.{Submitted, refused, executed}
use raft_sharded_kv.Shardgrp.Server.{
  ShardStatus, ShardState, Values, KvServer, Codec, FreezeReply, Reply,
}

-- A state as labgob decodes it: it may leave a map nil.
pub record Decoded : Type 0 where
  pub values : Option Values
  pub status : ShardStatus
  pub config_num : ℕ
  pub requests : Table

abbrev pub made : Option Values → Values
made none = empty_map
made (some values) = values

-- Restore makes a map where there is none.
abbrev pub filled : Decoded → ShardState
filled d = record {
  values = made d.values;
  status = d.status;
  config_num = d.config_num;
  requests = d.requests;
}

-- The state that labgob decodes for an encoded one: the same but for an empty map of values, which
-- may be nil.
pub record IsDecoded (state : ShardState) (d : Decoded) : Type 0 where
  pub values : (d.values ≡ some state.values) ⊎ ((d.values ≡ none) × (state.values ≡ empty_map))
  pub status : d.status ≡ state.status
  pub config_num : d.config_num ≡ state.config_num
  pub requests : d.requests ≡ state.requests

-- The encoding of labgob of the array of states, with what the code relies on: no encoding is
-- empty, and it decodes to the array.
pub record ArrayCodec : Type 1 where
  pub Bytes : Type 0
  pub is_empty : Bytes → Bool
  pub encode : (ℕ → ShardState) → Bytes
  pub decode : Bytes → Option (ℕ → Decoded)
  pub encode_nonempty : (shards : ℕ → ShardState) → is_empty (encode shards) ≡ false
  pub decode_encode :
      (shards : ℕ → ShardState)
      → (d : ℕ → Decoded) × (decode (encode shards) ≡ some d)
        × ((i : ℕ) → i < n_shards → IsDecoded (shards i) (d i))

module _ (a : ArrayCodec) where
  unfoldable pub snapshot : KvServer → a.Bytes
  snapshot kv = a.encode kv.shards

  -- `none` is the panic of the decoder.
  unfoldable pub restore : KvServer → a.Bytes → Option KvServer
  restore kv bytes = if a.is_empty bytes then some kv else elim (a.decode bytes) [
    | none ↦ none
    | some d ↦ some (record kv { shards = λ i. filled (d i) })
  ]

-- The RPC handlers; `none` is the panic on a reply of another type.
module _ (c : Codec) where
  unfoldable pub handle_get : Submitted (Reply c) → Option GetReply
  handle_get (refused err) = some (get_error err)
  handle_get (executed (Reply.get r)) = some r
  handle_get (executed _) = none

  unfoldable pub handle_put : Submitted (Reply c) → Option PutReply
  handle_put (refused err) = some (put_reply err)
  handle_put (executed (Reply.put r)) = some r
  handle_put (executed _) = none

  unfoldable pub handle_freeze_shard : Submitted (Reply c) → Option (FreezeReply c)
  handle_freeze_shard (refused err) = some (record { state = c.nil; num = 0; err = err })
  handle_freeze_shard (executed (Reply.freeze_shard r)) = some r
  handle_freeze_shard (executed _) = none

  unfoldable pub handle_install_shard : Submitted (Reply c) → Option Err
  handle_install_shard (refused err) = some err
  handle_install_shard (executed (Reply.install_shard err)) = some err
  handle_install_shard (executed _) = none

  unfoldable pub handle_delete_shard : Submitted (Reply c) → Option Err
  handle_delete_shard (refused err) = some err
  handle_delete_shard (executed (Reply.delete_shard err)) = some err
  handle_delete_shard (executed _) = none
