-- ===== src/Kvraft/Refinement.antt =====
-- src/kvraft1/server.go against the single server: the same versioned writes, retries that change
-- nothing, and snapshots that lose nothing.
use raft_sharded_kv.Prelude.{
  ℕ, ◌≡◌, refl, ◌⊎◌, inl, inr, Option, none, some, List, [], ◌∷◌, arith, String, Map, Option-cases,
  string_eq,
}
use raft_sharded_kv.Rpc.{PutArgs, PutReply, put_reply, err_stale_request}
use raft_sharded_kv.Kvsrv.Server
use raft_sharded_kv.Dedup.Table.{do_request}
use raft_sharded_kv.Dedup.Once.{
  IsSettled, IsAdmissible, do_request-IsSettled, do_request_settles, do_request_settled,
}
use raft_sharded_kv.Kvraft.Server.{
  KvServer, ValueEntry, Request, Reply, Codec, put_locked, do_op, snapshot, restore,
}

-- The map of values as the single server holds it.
abbrev entry_of : Option ValueEntry → Option Server.Entry
entry_of none = none
entry_of (some e) = some (record { value = e.value; version = e.version })

pub as_single : Map String ValueEntry → Server.KvServer
as_single values = record { data_map = λ k. entry_of (values k) }

-- A Put of the replicated server without its table of requests is a Put of the single server.
pub put_locked_refines :
    (a : PutArgs) (values : Map String ValueEntry)
    → ((put_locked a values).0 ≡ (Server.put (as_single values) a).0)
      × ((k : String)
          → (as_single (put_locked a values).1).data_map k
            ≡ (Server.put (as_single values) a).1.data_map k)
unfolding put_locked Server.put as_single
put_locked_refines a values = (ground arith, (λ k. ground arith))

-- Restoring a snapshot, into any server, gives the server that was saved.
pub restore-snapshot : (c : Codec) (kv other : KvServer) → restore c other (snapshot c kv) ≡ some kv
unfolding restore snapshot
restore-snapshot c kv other =
    let (rest, values, requests) = c.decode_encode kv.values kv.requests in
    rw (c.encode_nonempty kv.values kv.requests, values, requests)

abbrev pub state_after : Option (Reply × KvServer) → Option KvServer
state_after none = none
state_after (some (reply, kv)) = some kv

-- A sequence of committed operations.
unfoldable pub run : KvServer → List Request → Option KvServer
run kv [] = some kv
run kv (req ∷ rest) = elim (state_after (do_op kv req)) [ none ↦ none | some kv' ↦ run kv' rest ]

do_op-IsSettled :
    (kv kv' : KvServer) (req : Request) (client sequence : ℕ) (reply : PutReply)
    → state_after (do_op kv req) ≡ some kv'
    → IsSettled kv.requests client sequence reply
    → IsSettled kv'.requests client sequence reply
unfolding do_op
do_op-IsSettled kv kv' (Request.get a) client sequence reply h s = ground arith
do_op-IsSettled kv kv' (Request.put a) client sequence reply h s =
    ground
      (arith, do_request-IsSettled kv.requests a (put_locked a) kv.values client sequence reply s)
do_op-IsSettled kv kv' Request.other client sequence reply h s = cc

run-IsSettled :
    (reqs : List Request) (kv kv' : KvServer) (client sequence : ℕ) (reply : PutReply)
    → run kv reqs ≡ some kv'
    → IsSettled kv.requests client sequence reply
    → IsSettled kv'.requests client sequence reply
unfolding run
run-IsSettled [] kv kv' client sequence reply h s = ground arith
run-IsSettled (req ∷ rest) kv kv' client sequence reply h s =
    elim (Option-cases (state_after (do_op kv req))) [
      | inl e ↦ ground arith
      | inr (mid, e) ↦
          run-IsSettled rest mid kv' client sequence reply (rw (e, run) at h)
            (do_op-IsSettled kv mid req client sequence reply e s)
    ]

do_op_settles :
    (kv kv' : KvServer) (a : PutArgs) (reply : PutReply)
    → IsAdmissible a
    → do_op kv (Request.put a) ≡ some (Reply.put reply, kv')
    → IsSettled kv'.requests a.client_id a.sequence reply
unfolding do_op
do_op_settles kv kv' a reply admissible h =
    ground (arith, do_request_settles kv.requests a (put_locked a) kv.values admissible)

-- A committed Put with an identity, not malformed, that is committed a second time after any other
-- operations leaves the values as they are, and is answered as the first time or as stale.
pub retry_keeps_values :
    (kv kv1 kv2 : KvServer) (a b : PutArgs) (reply : PutReply) (between : List Request)
    → IsAdmissible a
    → b.client_id ≡ a.client_id
    → b.sequence ≡ a.sequence
    → do_op kv (Request.put a) ≡ some (Reply.put reply, kv1)
    → run kv1 between ≡ some kv2
    → (again : PutReply) × (kv3 : KvServer) × (do_op kv2 (Request.put b)
        ≡ some (Reply.put again, kv3))
      × (kv3.values ≡ kv2.values)
      × ((again ≡ reply) ⊎ (again ≡ put_reply err_stale_request))
unfolding do_op
retry_keeps_values kv kv1 kv2 a b reply between admissible same_client same_sequence first passed =
    let second = do_request kv2.requests b (put_locked b) kv2.values in
    let settled =
      run-IsSettled between kv1 kv2 a.client_id a.sequence reply passed
        (do_op_settles kv kv1 a reply admissible first) in
    let (kept, answer) =
      do_request_settled kv2.requests b (put_locked b) kv2.values reply
        (rw same_client admissible.0) (rw (same_client, same_sequence) settled) in
    (second.0, record { values = second.2; requests = second.1 }, refl, kept, answer)
