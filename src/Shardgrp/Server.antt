-- ===== src/Shardgrp/Server.antt =====
-- src/shardkv1/shardgrp/server.go: the state machine of a shard group. Get, Put and the three
-- migration operations are one function of the committed operation.
use raft_sharded_kv.Prelude.{
  ℕ, ◌+◌, ◌%◌, String, Map, empty_map, insert, string_eq, nat_eq, Option, none, some, Bool, true,
  false, ltb, leb, ◌==◌, ◌&&◌, ◌||◌, not, if◌then◌else◌, ◌≡◌, List, [], ◌∷◌,
}
use raft_sharded_kv.Rpc.{
  Err, PutArgs, PutReply, GetArgs, GetReply, put_reply, get_error, u64, ok, err_no_key, err_version,
  err_wrong_group,
}
use raft_sharded_kv.Shardcfg.Constants.{n_shards, num_first, gid_1}
use raft_sharded_kv.Dedup.Table.{Table, empty_table, do_request}

pub data ShardStatus : Type 0 where
  absent serving frozen : ShardStatus

abbrev pub is_serving : ShardStatus → Bool
is_serving serving = true
is_serving _ = false

abbrev pub is_frozen : ShardStatus → Bool
is_frozen frozen = true
is_frozen _ = false

abbrev pub is_absent : ShardStatus → Bool
is_absent absent = true
is_absent _ = false

pub record ValueEntry : Type 0 where
  pub value : String
  pub version : ℕ

abbrev pub Values : Type 0
Values = Map String ValueEntry

pub record ShardState : Type 0 where
  pub values : Values
  pub status : ShardStatus
  pub config_num : ℕ
  pub requests : Table

pub record ShardTransfer : Type 0 where
  pub values : Values
  pub requests : Table

-- The array of NShards states; its bounds check is in `do_op`.
pub record KvServer : Type 0 where
  pub gid : ℕ
  pub shards : ℕ → ShardState

-- The encoding of labgob, and hash/fnv's 32-bit sum of a key, with what the code relies on: nil is
-- empty, an encoded transfer is not, and it decodes to itself.
pub record Codec : Type 1 where
  pub Bytes : Type 0
  pub nil : Bytes
  pub is_empty : Bytes → Bool
  pub encode : ShardTransfer → Bytes
  pub decode : Bytes → Option ShardTransfer
  pub sum32 : String → ℕ
  pub nil_empty : is_empty nil ≡ true
  pub encode_nonempty : (t : ShardTransfer) → is_empty (encode t) ≡ false
  pub decode_encode : (t : ShardTransfer) → decode (encode t) ≡ some t

abbrev pub empty_transfer : ShardTransfer
empty_transfer = record { values = empty_map; requests = empty_table }

abbrev or_zero : Option ValueEntry → ValueEntry
or_zero none = record { value = ""; version = 0 }
or_zero (some e) = e

abbrev exists_entry : Option ValueEntry → Bool
exists_entry none = false
exists_entry (some e) = true

-- The closure that Put hands to the table of requests.
unfoldable pub put_value : PutArgs → Values → PutReply × Values
put_value args values =
    let found = values args.key in
    let entry = or_zero found in
    if not (exists_entry found) && not (args.version == 0)
    then (put_reply err_no_key, values)
    else if not (entry.version == args.version)
    then (put_reply err_version, values)
    else (
      put_reply ok,
      insert args.key (record { value = args.value; version = u64 (entry.version + 1) }) values,
    )

abbrev found_value : Option ValueEntry → GetReply
found_value none = get_error err_no_key
found_value (some e) = record { value = e.value; version = e.version; err = ok }

unfoldable pub get_at : ShardState → GetArgs → GetReply
get_at state args =
    if is_serving state.status
    then found_value (state.values args.key)
    else get_error err_wrong_group

unfoldable pub put_at : ShardState → PutArgs → PutReply × ShardState
put_at state args =
    if is_serving state.status
    then (let (reply, requests, values) =
          do_request state.requests args (put_value args) state.values in
        (reply, record state { values = values; requests = requests }))
    else (put_reply err_wrong_group, state)

module _ (c : Codec) where
  pub record FreezeReply : Type 0 where
    pub state : c.Bytes
    pub num : ℕ
    pub err : Err

  unfoldable pub decode_shard_transfer : c.Bytes → Option ShardTransfer
  unfolding empty_table
  decode_shard_transfer bytes = if c.is_empty bytes then some empty_transfer else c.decode bytes

  abbrev frozen_reply : ShardState → FreezeReply
  frozen_reply state = record {
    state = c.encode (record { values = state.values; requests = state.requests });
    num = state.config_num;
    err = ok;
  }

  unfoldable pub freeze_at : ShardState → ℕ → FreezeReply × ShardState
  freeze_at state num =
      if num == state.config_num && is_frozen state.status
      then (frozen_reply state, state)
      else if not (is_serving state.status) || leb num state.config_num
      then (record { state = c.nil; num = state.config_num; err = err_wrong_group }, state)
      else (let state' = record state { status = frozen; config_num = num } in
          (frozen_reply state', state'))

  abbrev pub installed : ShardState → ℕ → Option ShardTransfer → Option (Err × ShardState)
  installed state num none = none
  installed state num (some t) =
      some (
        ok,
        record { values = t.values; status = serving; config_num = num; requests = t.requests },
      )

  -- `none` is the panic of the decoder.
  unfoldable pub install_at : ShardState → c.Bytes → ℕ → Option (Err × ShardState)
  unfolding decode_shard_transfer
  install_at state bytes num =
      if num == state.config_num && is_serving state.status
      then some (ok, state)
      else if not (is_absent state.status) || leb num state.config_num
      then some (err_wrong_group, state)
      else installed state num (decode_shard_transfer bytes)

unfoldable pub delete_at : ShardState → ℕ → Err × ShardState
unfolding empty_table
delete_at state num =
    if ltb num state.config_num || (num == state.config_num && is_absent state.status)
    then (ok, state)
    else if not (num == state.config_num) || not (is_frozen state.status)
    then (err_wrong_group, state)
    else (ok, record state { values = empty_map; requests = empty_table; status = absent })

abbrev pub set_shard : KvServer → ℕ → ShardState → KvServer
set_shard kv shard state = record kv { shards = λ i. if shard == i then state else kv.shards i }

module _ (c : Codec) where
  pub data Request : Type 0 where
    get : GetArgs → Request
    put : PutArgs → Request
    freeze_shard : ℕ → ℕ → Request  -- Shard, Num
    install_shard : ℕ → c.Bytes → ℕ → Request  -- Shard, State, Num
    delete_shard : ℕ → ℕ → Request  -- Shard, Num
    other : Request

  pub data Reply : Type 0 where
    get : GetReply → Reply
    put : PutReply → Reply
    freeze_shard : FreezeReply c → Reply
    install_shard : Err → Reply
    delete_shard : Err → Reply

  unfoldable pub key_2_shard : String → ℕ
  key_2_shard key = c.sum32 key % n_shards

  abbrev pub install_reply : KvServer → ℕ → Option (Err × ShardState) → Option (Reply × KvServer)
  install_reply kv shard none = none
  install_reply kv shard (some (err, state)) =
      some (Reply.install_shard err, set_shard kv shard state)

  -- `none` is a panic: an index out of the array, a transfer that does not decode, or an operation
  -- of another type.
  unfoldable pub do_op : KvServer → Request → Option (Reply × KvServer)
  unfolding key_2_shard
  do_op kv (Request.get args) =
      some (Reply.get (get_at (kv.shards (key_2_shard args.key)) args), kv)
  do_op kv (Request.put args) =
      let shard = key_2_shard args.key in
      let (reply, state) = put_at (kv.shards shard) args in
      some (Reply.put reply, set_shard kv shard state)
  do_op kv (Request.freeze_shard shard num) =
      if ltb shard n_shards
      then (let (reply, state) = freeze_at c (kv.shards shard) num in
          some (Reply.freeze_shard reply, set_shard kv shard state))
      else none
  do_op kv (Request.install_shard shard bytes num) =
      if ltb shard n_shards
      then install_reply kv shard (install_at c (kv.shards shard) bytes num)
      else none
  do_op kv (Request.delete_shard shard num) =
      if ltb shard n_shards
      then (let (err, state) = delete_at (kv.shards shard) num in
          some (Reply.delete_shard err, set_shard kv shard state))
      else none
  do_op kv Request.other = none

-- StartServerShardGrp: the group Gid1 serves every shard from the first configuration.
unfoldable pub start_server : ℕ → KvServer
unfolding empty_table
start_server gid = record {
  gid = gid;
  shards = λ shard. record {
    values = empty_map;
    status = if gid == gid_1 then serving else absent;
    config_num = if gid == gid_1 then num_first else 0;
    requests = empty_table;
  };
}

-- A sequence of committed operations, in the order of the log.
module _ (c : Codec) where
  abbrev pub state_after : Option (Reply c × KvServer) → Option KvServer
  state_after none = none
  state_after (some (reply, kv)) = some kv

  unfoldable pub step : KvServer → Request c → Option KvServer
  step kv req = state_after (do_op c kv req)

  unfoldable pub run : KvServer → List (Request c) → Option KvServer
  run kv [] = some kv
  run kv (req ∷ rest) = elim (step kv req) [ none ↦ none | some kv' ↦ run kv' rest ]
