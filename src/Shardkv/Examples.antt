-- ===== src/Shardkv/Examples.antt =====
-- A Put of src/shardkv1/client.go whose shard has moved to another group.
use raft_sharded_kv.Prelude.{
  ℕ, ◌<◌, ◌^◌, String, ◌≡◌, refl, arith, List, [], ◌∷◌, none, some, false, pos, replicate,
}
use raft_sharded_kv.Rpc.{Err, ok, err_wrong_group}
use raft_sharded_kv.Dedup.Client.{new_client, begin, draw_id, next_draw, contains, run}
use raft_sharded_kv.Dedup.Watermark.{new_client-Inv}
use raft_sharded_kv.Shardcfg.Config.{ShardConfig, gid_servers, find_group}
use raft_sharded_kv.Kvraft.Leader.{moves, advance_leader, remember_leader}
use raft_sharded_kv.Kvraft.Clerk.{returns}
use raft_sharded_kv.Shardgrp.Clerk.{put_request, put_switch, group_loop}
use raft_sharded_kv.Shardkv.Clerk.{
  Clerk, Route, loaded, load_config, refresh, refreshes, make_all, group_clerk, same_servers,
  put_verdict, put_loop, clerk_put,
}
use raft_sharded_kv.Shardkv.Outcome.{IsRouted}
use raft_sharded_kv.Shardkv.Puts.{clerk_put-IsRouted}

abbrev config_to : ℕ → ℕ → ShardConfig
config_to num gid = record {
  num = num;
  shards = replicate 10 (pos gid);
  groups = (pos 1, "a" ∷ []) ∷ (pos 2, "b" ∷ []) ∷ [];
}

abbrev caller : Clerk
caller = record { rcks = λ g. none; config = some (config_to 1 1); requests = new_client }

-- The old group refuses, and the new one executes the request.
abbrev route_to : ShardConfig → Err → Route Err
route_to config err = record {
  loaded = [];
  made = [];
  finished = [];
  query = some config;
  visits = record { before = []; during = []; reply = some err } ∷ [];
}

abbrev routes : List (Route Err)
routes = route_to (config_to 2 2) err_wrong_group ∷ route_to (config_to 2 2) ok ∷ []

abbrev sum : String → ℕ
sum key = 3

call_ends : (clerk_put sum caller "x" "a" 0 (7 ∷ []) routes).ended ≡ returns ok
unfolding clerk_put put_loop loaded load_config refresh refreshes make_all group_clerk same_servers
    put_verdict put_request put_switch group_loop moves advance_leader remember_leader begin draw_id
    next_draw new_client gid_servers find_group run
call_ends = refl

begun :
    begin new_client (7 ∷ []) ≡ some (7, 1, record { id = 7; next = 1; ack = 0; completed = [] })
unfolding begin draw_id next_draw new_client
begun = refl

none_finished : contains 1 [] ≡ false
unfolding contains
none_finished = refl

new_bound : new_client.next < 2 ^ 64
unfolding new_client
new_bound = omega arith

clerk_put-IsRouted_example :
    IsRouted
      (record { key = "x"; value = "a"; version = 0; client_id = 7; sequence = 1; ack = 0 })
      (some (config_to 1 1))
      (clerk_put sum caller "x" "a" 0 (7 ∷ []) routes)
clerk_put-IsRouted_example =
    clerk_put-IsRouted sum caller "x" "a" 0 (7 ∷ []) routes (λ q. ⊥) 7 1
      (record { id = 7; next = 1; ack = 0; completed = [] }) new_client-Inv.0 new_client-Inv.1
      (λ q d. absurd d) new_bound begun ((tt, none_finished), ((tt, none_finished), tt))
