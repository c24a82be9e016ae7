-- ===== src/Shardgrp/Examples.antt =====
-- Tests of src/shardkv1/shardgrp on concrete inputs.
use raft_sharded_kv.Prelude.{
  ℕ, ◌<◌, ◌≡◌, ◌≢◌, inl, Bool, refl, arith, List, [], ◌∷◌, map, Option, none, some, true, false,
}
use raft_sharded_kv.Rpc.{Err, PutArgs, ok, err_version, err_maybe, err_wrong_leader}
use raft_sharded_kv.Shardgrp.Server.{
  ShardState, ShardTransfer, KvServer, Codec, FreezeReply, Request, Reply, start_server, serving,
  absent, freeze_at, install_at, do_op, step, run, set_shard,
}
use raft_sharded_kv.Shardgrp.Transitions.{Transition, step_transition}
use raft_sharded_kv.Shardgrp.Fencing.{delayed_harmless}
use raft_sharded_kv.Shardgrp.Snapshots.{ArrayCodec, snapshot, restore}
use raft_sharded_kv.Shardgrp.Restored.{replies, restored_serves_alike}
use raft_sharded_kv.Kvraft.Leader.{Leader, moves, advance_leader}
use raft_sharded_kv.Kvraft.Clerk.{running, panics, returns, Visit}
use raft_sharded_kv.Shardgrp.Clerk.{
  Try, put_request, put_switch, group_loop, freeze_shard, freeze_verdict, migration_loop,
}
use raft_sharded_kv.Shardgrp.Rounds.{AllVisits}
use raft_sharded_kv.Shardgrp.Results.{PutMeaning, HasLast, put_request-PutMeaning}
use raft_sharded_kv.Shardgrp.Tries.{Brings, IsFrozen, HasDeposed, freeze_shard_lem}
use raft_sharded_kv.Shardgrp.Migration.{
  ClientOp, serve, refusal, migration_keeps_replies, freeze_repeatable,
}

-- A codec whose byte strings are what they encode, and a sum that is always 3.
abbrev plain : Codec
plain = record {
  Bytes = Option ShardTransfer;
  nil = none;
  is_empty = λ b. elim b [ none ↦ true | some t ↦ false ];
  encode = λ t. some t;
  decode = λ b. b;
  sum32 = λ key. 3;
  nil_empty = refl;
  encode_nonempty = λ t. refl;
  decode_encode = λ t. refl;
}

abbrev write : PutArgs
write = record { key = "x"; value = "a"; version = 0; client_id = 7; sequence = 1; ack = 0 }

abbrev old_group : KvServer
old_group = start_server 1

abbrev new_group : KvServer
new_group = start_server 2

abbrev frozen_group : KvServer
frozen_group = set_shard old_group 3 (freeze_at plain (old_group.shards 3) 2).1

freezes : step plain old_group (Request.freeze_shard 3 2) ≡ some frozen_group
unfolding step do_op
freezes = refl

step_transition_example : Transition (old_group.shards 3) (frozen_group.shards 3)
step_transition_example =
    step_transition plain old_group frozen_group (Request.freeze_shard 3 2) 3 freezes

freeze_runs : run plain old_group (Request.freeze_shard 3 2 ∷ []) ≡ some frozen_group
unfolding run step do_op
freeze_runs = refl

freeze_answer :
    do_op plain old_group (Request.freeze_shard 3 2)
    ≡ some (Reply.freeze_shard (freeze_at plain (old_group.shards 3) 2).0, frozen_group)
unfolding do_op
freeze_answer = refl

freeze_ok : (freeze_at plain (old_group.shards 3) 2).0.err ≡ ok
unfolding freeze_at start_server
freeze_ok = refl

get_runs : run plain frozen_group (Request.get (record { key = "x" }) ∷ []) ≡ some frozen_group
unfolding run step do_op
get_runs = refl

delayed_harmless_example :
    (kv3 : KvServer) × (step plain frozen_group (Request.install_shard 3 none 1) ≡ some kv3)
    × ((i : ℕ) → kv3.shards i ≡ frozen_group.shards i)
delayed_harmless_example =
    delayed_harmless plain old_group frozen_group frozen_group 3 2 (Request.freeze_shard 3 2)
      (Request.install_shard 3 none 1)
      (Reply.freeze_shard (freeze_at plain (old_group.shards 3) 2).0)
      (Request.get (record { key = "x" }) ∷ []) (omega arith) freeze_answer (refl, refl, freeze_ok)
      get_runs (refl, omega arith)

old_serving : (old_group.shards 3).status ≡ serving
unfolding start_server
old_serving = refl

old_num : (old_group.shards 3).config_num ≡ 1
unfolding start_server
old_num = refl

new_absent : (new_group.shards 3).status ≡ absent
unfolding start_server
new_absent = refl

new_num : (new_group.shards 3).config_num ≡ 0
unfolding start_server
new_num = refl

abbrev client_ops : List ClientOp
client_ops = ClientOp.put write ∷ (ClientOp.get (record { key = "x" }) ∷ (ClientOp.put write ∷ []))

migration_keeps_replies_example :
    (moved : ShardState) × (install_at plain
        (new_group.shards 3)
        (freeze_at plain (old_group.shards 3) 2).0.state
        2
      ≡ some (ok, moved))
    × (serve moved client_ops ≡ serve (old_group.shards 3) client_ops)
    × (serve (freeze_at plain (old_group.shards 3) 2).1 client_ops ≡ map refusal client_ops)
migration_keeps_replies_example =
    migration_keeps_replies plain (old_group.shards 3) (new_group.shards 3) 2 client_ops old_serving
      (omega (arith, old_num)) new_absent (omega (arith, new_num))

freeze_repeatable_example :
    (frozen_group.shards 3 ≡ frozen_group.shards 3)
    × (freeze_at plain (frozen_group.shards 3) 2 ≡ freeze_at plain (old_group.shards 3) 2)
freeze_repeatable_example =
    freeze_repeatable plain (Request.get (record { key = "x" }) ∷ []) frozen_group frozen_group 3
      (old_group.shards 3) 2 refl freeze_ok get_runs (tt, tt)

-- A codec of the array whose byte strings are the states themselves.
abbrev plain_array : ArrayCodec
plain_array = record {
  Bytes = ℕ → ShardState;
  is_empty = λ b. false;
  encode = λ shards. shards;
  decode = λ b. some (λ i. record {
    values = some (b i).values;
    status = (b i).status;
    config_num = (b i).config_num;
    requests = (b i).requests;
  });
  encode_nonempty = λ shards. refl;
  decode_encode = λ shards. (
    _,
    refl,
    (λ i l. record { values = inl refl; status = refl; config_num = refl; requests = refl }),
  );
}

restored_serves_alike_example :
    (kv' : KvServer) × (restore plain_array new_group (snapshot plain_array frozen_group)
      ≡ some kv')
    × (replies plain kv' (Request.put write ∷ [])
        ≡ replies plain frozen_group (Request.put write ∷ []))
restored_serves_alike_example =
    restored_serves_alike plain plain_array frozen_group new_group (Request.put write ∷ [])

freeze_answers :
    do_op plain old_group (Request.freeze_shard 3 2)
    ≡ some (Reply.freeze_shard (freeze_at plain (old_group.shards 3) 2).0, frozen_group)
unfolding do_op
freeze_answers = refl

abbrev two_servers : Leader
two_servers = record { servers = "s0" ∷ "s1" ∷ []; leader = 0 }

abbrev visit : {A : Type 0} → Option A → Visit A
visit reply = record { before = []; during = []; reply = reply }

-- The reply to the first attempt is lost, and the second server refuses the version.
abbrev doubted_visits : List (Visit Err)
doubted_visits = visit none ∷ visit (some err_version) ∷ []

abbrev bare : PutArgs
bare = record write { client_id = 0 }

maybe_returned : (put_request bare doubted_visits two_servers).ended ≡ returns err_maybe
unfolding put_request put_switch group_loop moves advance_leader
maybe_returned = refl

version_returned : (put_request write doubted_visits two_servers).ended ≡ returns err_version
unfolding put_request put_switch group_loop moves advance_leader
version_returned = refl

group_gone :
    (put_request write (visit none ∷ visit none ∷ []) two_servers).ended ≡ returns err_wrong_leader
unfolding put_request put_switch group_loop moves advance_leader
group_gone = refl

put_request-PutMeaning_example :
    let c = put_request bare doubted_visits two_servers in
    ((err : Err) → c.ended ≡ returns err → PutMeaning 2 0 c.replies err)
    × (HasLast doubted_visits → c.ended ≢ running)
    × (0 < 2 → AllVisits 2 doubted_visits → c.ended ≢ panics)
put_request-PutMeaning_example =
    put_request-PutMeaning bare doubted_visits two_servers (omega arith)

abbrev try : {A : Type 0} → Bool → Option A → Try A
try current reply = record { current = current; visit = visit reply }

-- One server does not lead, the other freezes the shard.
abbrev freeze_tries : List (Try (FreezeReply plain))
freeze_tries =
    try true (some (record { state = none; num = 0; err = err_wrong_leader }))
    ∷ try true (some (record { state = none; num = 3; err = ok }))
    ∷ []

frozen_returned : (freeze_shard plain true 3 freeze_tries two_servers).0 ≡ returns (none, ok)
unfolding freeze_shard freeze_verdict migration_loop moves advance_leader
frozen_returned = refl

freeze_shard_lem_example :
    let ended = (freeze_shard plain true 3 freeze_tries two_servers).0 in
    (ended ≢ panics)
    × ((bytes : Option ShardTransfer)
        → ended ≡ returns (bytes, ok)
        → Brings (IsFrozen plain 3 bytes) freeze_tries)
    × ((bytes : Option ShardTransfer)
        → ended ≡ returns (bytes, err_wrong_leader)
        → (true ≡ true) × HasDeposed freeze_tries)
    × (true ≡ true → HasDeposed freeze_tries → ended ≢ running)
freeze_shard_lem_example =
    freeze_shard_lem plain true 3 freeze_tries two_servers (omega arith) ((tt, tt), ((tt, tt), tt))
