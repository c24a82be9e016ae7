-- ===== src/Shardcfg/Balance.antt =====
-- src/shardkv1/shardcfg/shardcfg.go: Rebalance.
use raft_sharded_kv.Prelude.{
  ℕ, zero, suc, ◌+◌, List, [], ◌∷◌, Option, none, some, ℤ, pos, int_eq, int_ltb, set, length,
  if◌then◌else◌,
}
use raft_sharded_kv.Shardcfg.Config.{ShardConfig, has, gids, analyze, least}

-- Every shard to no group.
abbrev pub unassign : List ℤ → List ℤ
unassign [] = []
unassign (g ∷ rest) = pos 0 ∷ unassign rest

-- The loop over the shards, from one shard on, that gives each shard of no group to the least
-- group.
unfoldable pub assign : ShardConfig → ℕ → List ℤ → ShardConfig
assign c s [] = c
assign c s (g ∷ rest) =
    if has (gids c.groups) g
    then assign c (suc s) rest
    else assign (record c { shards = set c.shards s (least c) }) (suc s) rest

-- The first shard of one group goes to another.
abbrev pub move_one : ℤ → ℤ → List ℤ → List ℤ
move_one mg lg [] = []
move_one mg lg (g ∷ rest) = if int_eq g mg then lg ∷ rest else g ∷ move_one mg lg rest

-- The loop that moves shards, for a number of rounds; `none` when they do not do.
unfoldable pub balance : ℕ → ShardConfig → Option ShardConfig
balance zero c = none
balance (suc rounds) c =
    let l = analyze c in
    let rest = balance rounds (record c { shards = move_one l.mg l.lg c.shards }) in
    if int_ltb l.mn (pos (l.ln + 2)) then some c else rest

-- The number of pairs of the first n numbers, which bounds the rounds.
abbrev pub pairs_of : ℕ → ℕ
pairs_of zero = 0
pairs_of (suc n) = n + pairs_of n

unfoldable pub rebalance : ShardConfig → Option ShardConfig
unfolding assign balance
rebalance c = elim c.groups [
  | [] ↦ some (record c { shards = unassign c.shards })
  | _ ↦ balance (suc (pairs_of (length c.shards))) (assign c 0 c.shards)
]
