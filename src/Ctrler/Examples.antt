-- ===== src/Ctrler/Examples.antt =====
-- A controller of src/shardkv1/shardctrler that another has replaced.
use raft_sharded_kv.Prelude.{
  ◌+◌, ◌<◌, ◌≤◌, ◌^◌, String, string_eq, ◌≡◌, refl, arith, true, false, beq_refl, List, [], ◌∷◌,
  some, none,
}
use raft_sharded_kv.Kvsrv.Server.{KvServer, make_kv_server, get, put, version_of}
use raft_sharded_kv.Kvsrv.Clerk.{Attempt, unanswered, answered, clerk_put, clerk_get}
use raft_sharded_kv.Kvsrv.Retries.{count_ok, all_puts}
use raft_sharded_kv.Shardcfg.Config.{make_shard_config}
use raft_sharded_kv.Ctrler.State.{
  Encoding, ControllerState, returns, current_config_key, compare_and_swap, init_config,
  ShardCtrler,
}
use raft_sharded_kv.Ctrler.Swap.{Succeeded, compare_and_swap_lem}

abbrev state_of : String → ControllerState
state_of owner = record { owner = owner; epoch = 1; current = make_shard_config; pending = none }

-- An encoding that keeps the owner, by which it tells states apart.
abbrev by_owner : Encoding
by_owner = record {
  marshal = λ s. s.owner;
  unmarshal = λ text. some (state_of text);
  deep_equal = λ s t. string_eq.beq s.owner t.owner;
  unmarshal_marshal = λ s. (state_of s.owner, refl, beq_refl s.owner);
}

abbrev once : List Attempt
once = record { others = []; delivery = answered } ∷ []

abbrev twice : List Attempt
twice = record { others = []; delivery = unanswered } ∷ once

abbrev old_ctrler : ShardCtrler
old_ctrler = record { id = "old"; epoch = 0; initialized = false; deposed = false }

-- The reply to the first write is lost, and the record read back confirms it.
confirmed_start :
    (init_config by_owner old_ctrler make_kv_server make_shard_config twice once).0
    ≡ returns (record old_ctrler { epoch = 1; initialized = true })
unfolding init_config compare_and_swap clerk_put clerk_get get put make_kv_server
confirmed_start = refl

abbrev taken_over : KvServer
taken_over = (compare_and_swap by_owner make_kv_server 0 (state_of "new") once []).server

few_puts : version_of taken_over current_config_key + all_puts twice < 2 ^ 64
unfolding compare_and_swap clerk_put put make_kv_server version_of
few_puts = omega arith

compare_and_swap_lem_example :
    let s = compare_and_swap by_owner taken_over 0 (state_of "old") twice once in
    let c = clerk_put taken_over current_config_key "old" 0 twice in
    (s.outcome ≡ returns true → Succeeded by_owner c once (state_of "old"))
    × (s.answers ≡ c.answers)
    × (count_ok s.answers ≤ 1)
    × (0 < version_of taken_over current_config_key → count_ok s.answers ≡ 0)
compare_and_swap_lem_example =
    compare_and_swap_lem by_owner taken_over 0 (state_of "old") twice once few_puts
