-- ===== src/Kvsrv/Server.antt =====
-- src/kvsrv1/server.go: the state of the server and its two handlers. The mutex makes each
-- handler one atomic step.
use raft_sharded_kv.Prelude.{
  ℕ, ◌+◌, String, Map, empty_map, insert, string_eq, Option, none, some, List, [], ◌∷◌, ◌==◌,
  if◌then◌else◌,
}
use raft_sharded_kv.Rpc.{
  PutArgs, PutReply, GetArgs, GetReply, put_reply, get_error, u64, ok, err_no_key, err_version,
}

pub record Entry : Type 0 where
  pub value : String
  pub version : ℕ

pub record KvServer : Type 0 where
  pub data_map : Map String Entry

unfoldable pub make_kv_server : KvServer
make_kv_server = record { data_map = empty_map }

abbrev found : Option Entry → GetReply
found none = get_error err_no_key
found (some item) = record { value = item.value; version = item.version; err = ok }

unfoldable pub get : KvServer → GetArgs → GetReply
get kv args = found (kv.data_map args.key)

abbrev put_at : KvServer → PutArgs → Option Entry → PutReply × KvServer
put_at kv args none =
    if args.version == 0
    then (
      put_reply ok,
      record {
        data_map = insert args.key (record { value = args.value; version = 1 }) kv.data_map;
      },
    )
    else (put_reply err_no_key, kv)
put_at kv args (some item) =
    if item.version == args.version
    then (
      put_reply ok,
      record {
        data_map =
            insert args.key (record { value = args.value; version = u64 (item.version + 1) })
              kv.data_map;
      },
    )
    else (put_reply err_version, kv)

unfoldable pub put : KvServer → PutArgs → PutReply × KvServer
put kv args = put_at kv args (kv.data_map args.key)

-- A sequence of Put requests, in the order in which they take the lock.
unfoldable pub run : KvServer → List PutArgs → KvServer
run kv [] = kv
run kv (a ∷ as') = run (put kv a).1 as'

-- What a client can see of a key's version: 0 for a missing key.
abbrev version_in : Option Entry → ℕ
version_in none = 0
version_in (some item) = item.version

unfoldable pub version_of : KvServer → String → ℕ
version_of kv k = version_in (kv.data_map k)
