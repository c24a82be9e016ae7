-- ===== src/Kvraft/Server.antt =====
-- src/kvraft1/server.go: the state machine that executes committed operations, its snapshots, and
-- the replies of the RPC handlers.
use raft_sharded_kv.Prelude.{
  ℕ, ◌+◌, String, Map, empty_map, insert, string_eq, Option, none, some, Bool, false, ◌==◌,
  if◌then◌else◌, ◌≡◌,
}
use raft_sharded_kv.Rpc.{
  Err, PutArgs, PutReply, GetArgs, GetReply, put_reply, get_error, u64, ok, err_no_key, err_version,
}
use raft_sharded_kv.Dedup.Table.{Table, empty_table, do_request}

pub record ValueEntry : Type 0 where
  pub value : String
  pub version : ℕ

pub record KvServer : Type 0 where
  pub values : Map String ValueEntry
  pub requests : Table

unfoldable pub start_kv_server : KvServer
unfolding empty_table
start_kv_server = record { values = empty_map; requests = empty_table }

-- The operations that the log can hold; `other` is a value of any other Go type.
pub data Request : Type 0 where
  get : GetArgs → Request
  put : PutArgs → Request
  other : Request

pub data Reply : Type 0 where
  get : GetReply → Reply
  put : PutReply → Reply

abbrev found : Option ValueEntry → GetReply
found none = get_error err_no_key
found (some entry) = record { value = entry.value; version = entry.version; err = ok }

abbrev put_at :
    Option ValueEntry → PutArgs → Map String ValueEntry → PutReply × Map String ValueEntry
put_at none args values =
    if args.version == 0
    then (put_reply ok, insert args.key (record { value = args.value; version = 1 }) values)
    else (put_reply err_no_key, values)
put_at (some entry) args values =
    if entry.version == args.version
    then (
      put_reply ok,
      insert args.key (record { value = args.value; version = u64 (entry.version + 1) }) values,
    )
    else (put_reply err_version, values)

unfoldable pub put_locked : PutArgs → Map String ValueEntry → PutReply × Map String ValueEntry
put_locked args values = put_at (values args.key) args values

-- `none` is the panic on an operation of an unknown type.
unfoldable pub do_op : KvServer → Request → Option (Reply × KvServer)
do_op kv (Request.get args) = some (Reply.get (found (kv.values args.key)), kv)
do_op kv (Request.put args) =
    let (reply, requests, values) = do_request kv.requests args (put_locked args) kv.values in
    some (Reply.put reply, record { values = values; requests = requests })
do_op kv Request.other = none

-- What a decoder of labgob reports.
pub data Decoded {ℓ} (A : Type ℓ) : Type ℓ where
  value : A → Decoded A
  eof : Decoded A
  failed : Decoded A

-- The encoding of labgob over a type of byte strings, with what the code relies on: the values are
-- followed by the rest of the input, and what was encoded decodes to itself.
pub record Codec : Type 1 where
  pub Bytes : Type 0
  pub is_empty : Bytes → Bool
  pub encode : Map String ValueEntry → Table → Bytes
  pub decode_values : Bytes → Option (Map String ValueEntry × Bytes)
  pub decode_requests : Bytes → Decoded Table
  pub encode_nonempty : (v : Map String ValueEntry) (r : Table) → is_empty (encode v r) ≡ false
  pub decode_encode :
      (v : Map String ValueEntry) (r : Table)
      → (rest : Bytes) × (decode_values (encode v r) ≡ some (v, rest))
        × (decode_requests rest ≡ value r)

module _ (c : Codec) where
  unfoldable pub snapshot : KvServer → c.Bytes
  snapshot kv = c.encode kv.values kv.requests

  abbrev restore_requests : Map String ValueEntry → Decoded Table → Option KvServer
  restore_requests values (value r) = some (record { values = values; requests = r })
  restore_requests values eof = some (record { values = values; requests = empty_table })
  restore_requests values failed = none

  abbrev restore_values : Option (Map String ValueEntry × c.Bytes) → Option KvServer
  restore_values none = none
  restore_values (some (values, rest)) = restore_requests values (c.decode_requests rest)

  -- `none` is a panic. An empty snapshot leaves the server as it is, and a snapshot from before the
  -- table of requests has none.
  unfoldable pub restore : KvServer → c.Bytes → Option KvServer
  unfolding empty_table
  restore kv bytes = if c.is_empty bytes then some kv else restore_values (c.decode_values bytes)

-- The outcome of SubmitWithTimeout: an error, or the reply of DoOp.
pub data Submitted {ℓ} (A : Type ℓ) : Type ℓ where
  refused : Err → Submitted A
  executed : A → Submitted A

-- The RPC handlers hand the outcome on; `none` is the panic on a reply of another type.
unfoldable pub handle_get : Submitted Reply → Option GetReply
handle_get (refused err) = some (get_error err)
handle_get (executed (Reply.get r)) = some r
handle_get (executed (Reply.put r)) = none

unfoldable pub handle_put : Submitted Reply → Option PutReply
handle_put (refused err) = some (put_reply err)
handle_put (executed (Reply.put r)) = some r
handle_put (executed (Reply.get r)) = none
