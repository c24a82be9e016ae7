-- ===== src/Kvraft/Examples.antt =====
-- Tests of src/kvraft1 on concrete inputs.
use raft_sharded_kv.Prelude.{
  ◌≡◌, ◌⊎◌, inl, refl, arith, List, [], ◌∷◌, none, some, false, String, ◌<◌, ◌^◌,
}
use raft_sharded_kv.Rpc.{PutArgs, PutReply, put_reply, ok, err_stale_request}
use raft_sharded_kv.Kvsrv.Server
use raft_sharded_kv.Dedup.Client.{new_client, begin, draw_id, next_draw, contains, run as run_all}
use raft_sharded_kv.Dedup.Table.{session_of, do_request, empty_table}
use raft_sharded_kv.Dedup.Watermark.{new_client-Inv}
use raft_sharded_kv.Kvraft.Server.{KvServer, start_kv_server, Request, Reply, put_locked, do_op}
use raft_sharded_kv.Kvraft.Refinement.{as_single, put_locked_refines, retry_keeps_values, run}
use raft_sharded_kv.Kvraft.Leader.{Leader, moves, advance_leader}
use raft_sharded_kv.Kvraft.Clerk.{
  Clerk, returns, Commit, copy, other, commits, Answer, no_answer, reply_of, Round, put_verdict,
  put_loop, clerk_put,
}
use raft_sharded_kv.Kvraft.Copies.{AllApart}
use raft_sharded_kv.Kvraft.Exactly.{IsFair, IsExact, put_exactly_once}

abbrev write : PutArgs
write = record { key = "x"; value = "a"; version = 0; client_id = 7; sequence = 1; ack = 0 }

abbrev write_at_1 : PutArgs
write_at_1 = record { key = "x"; value = "b"; version = 1; client_id = 8; sequence = 1; ack = 0 }

put_locked_refines_example :
    ((put_locked write start_kv_server.values).0
      ≡ (Server.put (as_single start_kv_server.values) write).0)
    × ((k : String)
        → (as_single (put_locked write start_kv_server.values).1).data_map k
          ≡ (Server.put (as_single start_kv_server.values) write).1.data_map k)
put_locked_refines_example = put_locked_refines write start_kv_server.values

abbrev after_write : KvServer
after_write =
    let (reply, requests, values) =
      do_request start_kv_server.requests write (put_locked write) start_kv_server.values in
    record { values = values; requests = requests }

abbrev after_both : KvServer
after_both =
    let (reply, requests, values) =
      do_request after_write.requests write_at_1 (put_locked write_at_1) after_write.values in
    record { values = values; requests = requests }

write_runs :
    do_op start_kv_server (Request.put write) ≡ some (Reply.put (put_reply ok), after_write)
unfolding do_op do_request put_locked start_kv_server
write_runs = refl

between_runs : run after_write (Request.put write_at_1 ∷ []) ≡ some after_both
unfolding run do_op do_request put_locked start_kv_server
between_runs = refl

retry_keeps_values_example :
    (again : PutReply) × (kv3 : KvServer) × (do_op after_both (Request.put write)
      ≡ some (Reply.put again, kv3))
    × (kv3.values ≡ after_both.values)
    × ((again ≡ put_reply ok) ⊎ (again ≡ put_reply err_stale_request))
retry_keeps_values_example =
    retry_keeps_values start_kv_server after_write after_both write write (put_reply ok)
      (Request.put write_at_1 ∷ []) (omega arith, omega arith, omega arith) refl refl write_runs
      between_runs

abbrev two_servers : Leader
two_servers = record { servers = "s0" ∷ "s1" ∷ []; leader = 0 }

abbrev caller : Clerk
caller = record { place = two_servers; requests = new_client }

-- The reply of the first copy is lost; another client's Put comes between; both copies are
-- committed.
abbrev first_round : Round
first_round = record {
  finished = [];
  before = [];
  during = [];
  committed = copy 0 ∷ other write_at_1 ∷ [];
  answer = no_answer;
}

abbrev second_round : Round
second_round = record {
  finished = [];
  before = [];
  during = [];
  committed = copy 1 ∷ copy 0 ∷ [];
  answer = reply_of 0;
}

fresh_server :
    ((session_of start_kv_server.requests 7).ack < 1)
    × ((session_of start_kv_server.requests 7).replies 1 ≡ none)
unfolding start_kv_server session_of empty_table
fresh_server = (omega arith, refl)

begun :
    begin new_client (7 ∷ []) ≡ some (7, 1, record { id = 7; next = 1; ack = 0; completed = [] })
unfolding begin draw_id next_draw new_client
begun = refl

none_finished : contains 1 [] ≡ false
unfolding contains
none_finished = refl

new_bound : new_client.next < 2 ^ 64
unfolding new_client
new_bound = omega arith

IsFair-round :
    (committed : List Commit) (brought : Answer)
    → AllApart 7 1 committed
    → IsFair 2 7 1 (record {
      finished = [];
      before = [];
      during = [];
      committed = committed;
      answer = brought;
    })
IsFair-round committed brought apart = record {
  numbers = tt;
  unfinished = none_finished;
  before = tt;
  during = tt;
  others = apart;
}

call_ends :
    (clerk_put caller start_kv_server "x" "a" 0 (7 ∷ []) (first_round ∷ second_round ∷ [])).ended
    ≡ returns ok
unfolding clerk_put put_loop commits begin draw_id next_draw new_client do_request put_locked
    start_kv_server empty_table moves run_all advance_leader put_verdict
call_ends = refl

put_exactly_once_example :
    IsExact write
      (first_round ∷ second_round ∷ [])
      (clerk_put caller start_kv_server "x" "a" 0 (7 ∷ []) (first_round ∷ second_round ∷ []))
put_exactly_once_example =
    put_exactly_once caller start_kv_server "x" "a" 0 (7 ∷ []) (first_round ∷ second_round ∷ [])
      (λ q. ⊥) 7 1 (record { id = 7; next = 1; ack = 0; completed = [] }) (omega arith)
      new_client-Inv.0 new_client-Inv.1 (λ q d. absurd d) new_bound begun
      (
        IsFair-round (copy 0 ∷ other write_at_1 ∷ []) no_answer (inl (omega arith), tt),
        (IsFair-round (copy 1 ∷ copy 0 ∷ []) (reply_of 0) tt, tt),
      )
      fresh_server.0 fresh_server.1
