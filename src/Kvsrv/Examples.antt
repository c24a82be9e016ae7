-- ===== src/Kvsrv/Examples.antt =====
-- Tests of src/kvsrv1 on concrete inputs.
use raft_sharded_kv.Prelude.{String, List, some, ◌<◌, ◌+◌, ◌≡◌, ◌≢◌, refl, arith, [], ◌∷◌, ◌^◌}
use raft_sharded_kv.Rpc.{PutArgs, ok, err_version, err_maybe}
use raft_sharded_kv.Kvsrv.Server.{make_kv_server, put, run, version_of}
use raft_sharded_kv.Kvsrv.Clerk.{Attempt, unanswered, answered, clerk_put}
use raft_sharded_kv.Kvsrv.Retries.{all_puts, Meaning, count_ok, clerk_put-Meaning}
use raft_sharded_kv.Kvsrv.Versions.{put_once}

abbrev key_x : String
key_x = "x"

abbrev first_put : PutArgs
first_put = record { key = "x"; value = "a"; version = 0; client_id = 0; sequence = 0; ack = 0 }

abbrev second_put : PutArgs
second_put = record { key = "x"; value = "b"; version = 1; client_id = 0; sequence = 0; ack = 0 }

first_put_ok : (put make_kv_server first_put).0.err ≡ ok
unfolding put make_kv_server
first_put_ok = refl

get_missing_version : (put (put make_kv_server first_put).1 first_put).0.err ≡ err_version
unfolding put make_kv_server
get_missing_version = refl

start_version : version_of make_kv_server "x" ≡ 0
unfolding version_of make_kv_server
start_version = refl

put_once_example :
    ((put (run (put make_kv_server first_put).1 (second_put ∷ [])) first_put).0.err ≢ ok)
    × ((put (run (put make_kv_server first_put).1 (second_put ∷ [])) first_put).1
        ≡ run (put make_kv_server first_put).1 (second_put ∷ []))
put_once_example =
    put_once make_kv_server first_put first_put (second_put ∷ []) (omega (arith, start_version))
      first_put_ok refl refl

-- The first attempt is executed and its reply is lost; the second finds a newer version.
abbrev lossy : List Attempt
lossy =
    record { others = []; delivery = unanswered } ∷ record { others = []; delivery = answered } ∷ []

lossy_result : (clerk_put make_kv_server "x" "a" 0 lossy).result ≡ some err_maybe
unfolding clerk_put put make_kv_server
lossy_result = refl

few_puts : version_of make_kv_server "x" + all_puts lossy < 2 ^ 64
unfolding version_of make_kv_server
few_puts = omega arith

clerk_put-Meaning_example :
    let c = clerk_put make_kv_server "x" "a" 0 lossy in Meaning c.result (count_ok c.answers)
clerk_put-Meaning_example = clerk_put-Meaning make_kv_server "x" "a" 0 lossy few_puts
