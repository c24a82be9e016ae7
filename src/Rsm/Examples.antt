-- ===== src/Rsm/Examples.antt =====
-- A run of src/kvraft1/rsm/rsm.go over the replicated server of src/kvraft1/server.go.
use raft_sharded_kv.Prelude.{
  ◌≡◌, refl, true, false, List, [], ◌∷◌, Option, none, some, pos, Map, String,
}
use raft_sharded_kv.Rpc.{PutArgs, put_reply, ok}
use raft_sharded_kv.Dedup.Table.{Table, do_request, empty_table}
use raft_sharded_kv.Kvraft.Server.{
  KvServer, ValueEntry, start_kv_server, Request, Reply, Decoded, value, Codec, put_locked, do_op,
  snapshot, restore,
}
use raft_sharded_kv.Kvraft.Refinement.{restore-snapshot}
use raft_sharded_kv.Kvraft.Machine.{kv_machine}
use raft_sharded_kv.Rsm.Server.{
  StateMachine, Op, command_msg, unused, starting, returned, received, make_rsm, register, submit,
  started, wake, notify, apply,
}
use raft_sharded_kv.Rsm.System.{
  System, set_call, after, replay, command, submits, starts, wakes, applies, notifies, Reach, here,
  next, IsInitial,
}
use raft_sharded_kv.Rsm.Replay.{Reaches, Faithful, applier_replays}
use raft_sharded_kv.Rsm.Waiters.{Settled}
use raft_sharded_kv.Rsm.Replies.{submit_returns}

-- A codec whose byte strings are what they encode.
abbrev plain : Codec
plain = record {
  Bytes = Option (Map String ValueEntry × Table);
  is_empty = λ b. elim b [ none ↦ true | some x ↦ false ];
  encode = λ v r. some (v, r);
  decode_values = λ b. elim b [ none ↦ none | some x ↦ some (x.0, some x) ];
  decode_requests = λ b. elim b [ none ↦ Decoded.eof | some x ↦ value x.1 ];
  encode_nonempty = λ v r. refl;
  decode_encode = λ v r. (some (v, r), refl, refl);
}

abbrev server : StateMachine
server = kv_machine plain

abbrev write : PutArgs
write = record { key = "x"; value = "a"; version = 0; client_id = 7; sequence = 1; ack = 0 }

-- The server after the write, and its snapshot.
abbrev written : KvServer
written =
    let (reply, requests, values) =
      do_request start_kv_server.requests write (put_locked write) start_kv_server.values in
    record { values = values; requests = requests }

abbrev saved : plain.Bytes
saved = some (written.values, written.requests)

abbrev put_op : Op server
put_op = record { id = record { server = 2; epoch = 77; sequence = 1 }; req = Request.put write }

abbrev done : Reply
done = Reply.put (put_reply ok)

abbrev log : List (Op server)
log = put_op ∷ []

abbrev no_op : Op server
no_op = record { id = record { server = 0; epoch = 0; sequence = 0 }; req = Request.other }

abbrev s0 : System server
s0 = record {
  rsm = make_rsm server 2 true (pos 1000) start_kv_server 77;
  calls = λ i. record { op = no_op; waiter = 0; stage = unused };
  notice = none;
  applied = 0;
  saves = [];
}

s0-IsInitial : IsInitial server start_kv_server log s0
unfolding make_rsm replay
s0-IsInitial = record {
  state = refl;
  no_call = λ _. refl;
  no_waiter = λ _. refl;
  no_reply = λ _. refl;
  no_notice = refl;
  no_save = refl;
  first_call = refl;
}

abbrev s1 : System server
s1 = record s0 {
  rsm = (register server s0.rsm (Request.put write)).1;
  calls =
      set_call s0.calls s0.rsm.made
        (record { op = put_op; waiter = s0.rsm.made; stage = starting });
}

abbrev s2 : System server
s2 = after s1 0 (started server s1.rsm (s1.calls 0) 4 true)

-- The entry is executed.
abbrev s3 : System server
s3 = record s2 {
  rsm = record s2.rsm { sm = written };
  notice = some (put_op.id, done);
  applied = 1;
  saves = (1, saved) ∷ [];
}

abbrev s4 : System server
s4 = record s3 { rsm = notify server s3.rsm put_op.id done; notice = none }

abbrev s5 : System server
s5 = after s4 0 (wake server s4.rsm (s4.calls 0) 4 received)

runs : Reach server start_kv_server log s0 s5
unfolding submit register started wake notify apply make_rsm do_op do_request put_locked
    start_kv_server empty_table snapshot
runs =
    next
      (next
        (next
          (next (next here (submits (Request.put write) put_op s1.rsm refl)) (starts 0 4 true refl))
          (applies (command_msg (some put_op) 1) 2000 1
            (record { rsm = s3.rsm; saved = some (1, saved); notice = s3.notice }) refl
            (command put_op refl) refl))
        (notifies put_op.id done refl))
      (wakes 0 4 received refl)

restores : (s t : KvServer) → restore plain s (snapshot plain t) ≡ some t
restores s t = restore-snapshot plain t s

returned_done : (s5.calls 0).stage ≡ returned ok (some done)
unfolding register started wake notify make_rsm
returned_done = refl

applier_replays_example :
    Reaches server start_kv_server log restores 1 s5.rsm.sm
    × Faithful server start_kv_server log restores s5.saves
applier_replays_example =
    applier_replays server start_kv_server log restores s0 s5 s0-IsInitial runs

submit_returns_example :
    Settled server start_kv_server log (s5.calls 0).op.id (returned ok (some done))
submit_returns_example =
    submit_returns server start_kv_server log restores s0 s5 s0-IsInitial runs 0 ok (some done)
      returned_done
