-- ===== src/Shardcfg/Examples.antt =====
-- Tests of src/shardkv1/shardcfg/shardcfg.go on concrete configurations.
use raft_sharded_kv.Prelude.{
  ℕ, ◌≡◌, ◌≢◌, ◌↔◌, refl, sym, subst, true, List, [], ◌∷◌, some, ℤ, pos, length, map,
}
use raft_sharded_kv.Shardcfg.Config.{ShardConfig, Groups, make_shard_config, gids, analyze}
use raft_sharded_kv.Shardcfg.Balance.{rebalance}
use raft_sharded_kv.Shardcfg.Change.{returned, join_balance, leave_balance}
use raft_sharded_kv.Shardcfg.Names.{Listed, Separate, Once}
use raft_sharded_kv.Shardcfg.Passing.{Balanced}
use raft_sharded_kv.Shardcfg.Balanced.{Rebalanced, rebalance-Rebalanced}
use raft_sharded_kv.Shardcfg.Membership.{onto, without, Changed, join_balance_iff}
use raft_sharded_kv.Shardcfg.Departure.{leave_balance_iff}

abbrev two_groups : Groups
two_groups = (pos 1, "a" ∷ []) ∷ (pos 2, "b" ∷ []) ∷ []

-- All shards stand in the first group.
abbrev lopsided : ShardConfig
lopsided = record {
  num = 1;
  shards = map (λ (n : ℕ). pos 1) (0 ∷ 1 ∷ 2 ∷ 3 ∷ 4 ∷ 5 ∷ 6 ∷ 7 ∷ 8 ∷ 9 ∷ 10 ∷ 11 ∷ []);
  groups = two_groups;
}

abbrev spread : List ℤ
spread = map pos (2 ∷ 2 ∷ 2 ∷ 2 ∷ 2 ∷ 2 ∷ 1 ∷ 1 ∷ 1 ∷ 1 ∷ 1 ∷ 1 ∷ [])

lopsided-spread : rebalance lopsided ≡ some (record lopsided { shards = spread })
unfolding rebalance analyze
lopsided-spread = refl

rebalance-Rebalanced_example : (c' : ShardConfig) × Rebalanced lopsided c'
rebalance-Rebalanced_example = rebalance-Rebalanced lopsided refl

spread-Balanced : Balanced (record lopsided { shards = spread })
spread-Balanced =
    let (c', r) = rebalance-Rebalanced lopsided refl in
    let e : c' ≡ record lopsided { shards = spread } = cc (r.ends, lopsided-spread) in
    subst Balanced e r.balanced

start_length : length make_shard_config.shards ≡ 12
unfolding make_shard_config
start_length = refl

start_groups : make_shard_config.groups ≡ []
unfolding make_shard_config
start_groups = refl

start-Separate : Separate make_shard_config.groups
start-Separate = subst Separate (sym start_groups) tt

join_balance_iff_example :
    (((c' : ShardConfig) × (join_balance make_shard_config two_groups ≡ returned true c'))
      ↔ ((two_groups ≢ []) × Separate (onto make_shard_config.groups two_groups)))
    × ((c' : ShardConfig)
        → join_balance make_shard_config two_groups ≡ returned true c'
        → Changed make_shard_config (onto make_shard_config.groups two_groups) c')
join_balance_iff_example = join_balance_iff make_shard_config two_groups start_length start-Separate

abbrev second : List ℤ
second = pos 2 ∷ []

leave_balance_iff_example :
    (((c' : ShardConfig) × (leave_balance lopsided second ≡ returned true c')) ↔ (
      (second ≢ []) × ((g : ℤ) → Listed g second → Listed g (gids lopsided.groups)) × Once second))
    × ((c' : ShardConfig)
        → leave_balance lopsided second ≡ returned true c'
        → Changed lopsided (without lopsided.groups second) c')
leave_balance_iff_example = leave_balance_iff lopsided second refl
