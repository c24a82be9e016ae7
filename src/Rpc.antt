-- ===== src/Rpc.antt =====
-- src/kvsrv1/rpc/rpc.go: the error codes and the arguments and replies of Get and Put, which the
-- servers of src/kvsrv1, src/kvraft1 and src/shardkv1/shardgrp share.
use raft_sharded_kv.Prelude.{ℕ, String, ◌%◌, ◌^◌}

-- The string constants of type Err.
pub data Err : Type 0 where
  ok err_no_key err_version err_maybe err_wrong_leader err_wrong_group err_stale_request : Err

-- Arithmetic on uint64 wraps.
abbrev pub u64 : ℕ → ℕ
u64 n = n % 2 ^ 64

pub record PutArgs : Type 0 where
  pub key : String
  pub value : String
  pub version : ℕ
  pub client_id : ℕ
  pub sequence : ℕ
  pub ack : ℕ

pub record PutReply : Type 0 where
  pub err : Err

pub record GetArgs : Type 0 where
  pub key : String

pub record GetReply : Type 0 where
  pub value : String
  pub version : ℕ
  pub err : Err

abbrev pub put_reply : Err → PutReply
put_reply e = record { err = e }

-- A reply whose other fields keep Go's zero values.
abbrev pub get_error : Err → GetReply
get_error e = record { value = ""; version = 0; err = e }
