-- ===== src/Kvsrv/Clerk.antt =====
-- src/kvsrv1/client.go: what the clerk makes of a reply, and its loops over the attempts of one
-- call.
use raft_sharded_kv.Prelude.{
  ℕ, String, Bool, true, false, Option, none, some, List, [], ◌∷◌, if◌then◌else◌,
}
use raft_sharded_kv.Rpc.{
  Err, PutArgs, GetArgs, GetReply, get_error, ok, err_no_key, err_version, err_maybe,
}
use raft_sharded_kv.Kvsrv.Server.{KvServer, get, put, run}

-- The switch of Get on the error of a reply: `none` tries again.
unfoldable pub get_result : GetReply → Option GetReply
get_result reply = elim reply.err [
  | ok ↦ some (record { value = reply.value; version = reply.version; err = ok })
  | err_no_key ↦ some (get_error err_no_key)
  | _ ↦ none
]

-- The switch of Put, by whether the request was sent before.
unfoldable pub put_result : Bool → Err → Option Err
put_result resent ok = some ok
put_result resent err_no_key = some err_no_key
put_result resent err_version = if resent then some err_maybe else some err_version
put_result resent _ = none

-- What becomes of one attempt: the request is lost, or executed with its reply lost, or answered.
pub data Delivery : Type 0 where
  lost unanswered answered : Delivery

-- An attempt, and the Puts of other clients that come before it.
pub record Attempt : Type 0 where
  pub others : List PutArgs
  pub delivery : Delivery

-- The answers that the server gave to the request, whether they arrived or not, and the result,
-- which is `none` while the loop still runs.
pub record Called (A : Type 0) : Type 0 where
  pub result : Option A
  pub answers : List Err
  pub server : KvServer

abbrev pub noted : {A : Type 0} → Err → Called A → Called A
noted err c = record c { answers = err ∷ c.answers }

-- The loop of Put over a sequence of attempts.
unfoldable pub put_loop : Bool → KvServer → PutArgs → List Attempt → Called Err
unfolding put_result run
put_loop resent kv args [] = record { result = none; answers = []; server = kv }
put_loop resent kv args (a ∷ rest) =
    let kv' = run kv a.others in
    let (reply, kv'') = put kv' args in
    elim a.delivery [
      | lost ↦ put_loop true kv' args rest
      | unanswered ↦ noted reply.err (put_loop true kv'' args rest)
      | answered ↦ elim (put_result resent reply.err) [
        | some err ↦ record { result = some err; answers = reply.err ∷ []; server = kv'' }
        | none ↦ noted reply.err (put_loop true kv'' args rest)
      ]
    ]

-- The loop of Get.
unfoldable pub get_loop : KvServer → GetArgs → List Attempt → Called GetReply
unfolding get_result run
get_loop kv args [] = record { result = none; answers = []; server = kv }
get_loop kv args (a ∷ rest) =
    let kv' = run kv a.others in
    let reply = get kv' args in
    elim a.delivery [
      | lost ↦ get_loop kv' args rest
      | unanswered ↦ noted reply.err (get_loop kv' args rest)
      | answered ↦ elim (get_result reply) [
        | some r ↦ record { result = some r; answers = reply.err ∷ []; server = kv' }
        | none ↦ noted reply.err (get_loop kv' args rest)
      ]
    ]

unfoldable pub clerk_put : KvServer → String → String → ℕ → List Attempt → Called Err
unfolding put_loop
clerk_put kv key value version attempts =
    put_loop false kv
      (record { key = key; value = value; version = version; client_id = 0; sequence = 0; ack = 0 })
      attempts

unfoldable pub clerk_get : KvServer → String → List Attempt → Called GetReply
unfolding get_loop
clerk_get kv key attempts = get_loop kv (record { key = key }) attempts
