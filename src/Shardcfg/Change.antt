-- ===== src/Shardcfg/Change.antt =====
-- src/shardkv1/shardcfg/shardcfg.go: Join, Leave and CheckConfig.
use raft_sharded_kv.Prelude.{
  ℕ, ◌+◌, String, string_eq, Bool, true, false, ◌&&◌, ◌||◌, List, [], ◌∷◌, none, some, ◌==◌, leb,
  ltb, ℤ, length, if◌then◌else◌,
}
use raft_sharded_kv.Shardcfg.Config.{
  ShardConfig, Groups, has, gids, count, insert_group, delete_group,
}
use raft_sharded_kv.Shardcfg.Balance.{rebalance}

-- What a call comes to: the program ends (log.Fatalf), the call returns a Boolean and the
-- configuration that it leaves, or its loop still runs.
pub data Outcome : Type 0 where
  fatal : Outcome
  returned : Bool → ShardConfig → Outcome
  running : Outcome

abbrev pub has_server : List String → String → Bool
has_server [] s = false
has_server (t ∷ ts) s = string_eq.beq s t || has_server ts s

-- Is one of the servers in the other list?
abbrev pub shares : List String → List String → Bool
shares [] servers = false
shares (s ∷ rest) servers = has_server servers s || shares rest servers

-- Is one of the servers in a group?
abbrev pub clashes : Groups → List String → Bool
clashes [] servers = false
clashes ((g, xservers) ∷ rest) servers = shares xservers servers || clashes rest servers

-- The end of Join and of Leave.
abbrev pub renumber : Bool → ShardConfig → Outcome
renumber changed c = if changed then returned true (record c { num = c.num + 1 }) else fatal

abbrev pub join_loop : Bool → ShardConfig → Groups → Outcome
join_loop changed c [] = renumber changed c
join_loop changed c ((gid, servers) ∷ rest) =
    let joined = join_loop true (record c { groups = insert_group c.groups gid servers }) rest in
    if has (gids c.groups) gid
    then returned false c
    else if clashes c.groups servers
    then fatal
    else joined

abbrev pub leave_loop : Bool → ShardConfig → List ℤ → Outcome
leave_loop changed c [] = renumber changed c
leave_loop changed c (gid ∷ rest) =
    let left = leave_loop true (record c { groups = delete_group c.groups gid }) rest in
    if has (gids c.groups) gid then left else returned false c

unfoldable pub join : ShardConfig → Groups → Outcome
join c servers = join_loop false c servers

unfoldable pub leave : ShardConfig → List ℤ → Outcome
unfolding delete_group
leave c gone = leave_loop false c gone

-- `if !change { return false }; cfg.Rebalance(); return true`
abbrev pub then_balance : Outcome → Outcome
then_balance (returned true c) = elim (rebalance c) [ some c' ↦ returned true c' | none ↦ running ]
then_balance other = other

unfoldable pub join_balance : ShardConfig → Groups → Outcome
unfolding join
join_balance c servers = then_balance (join c servers)

unfoldable pub leave_balance : ShardConfig → List ℤ → Outcome
unfolding leave
leave_balance c gone = then_balance (leave c gone)

-- The largest and the smallest number of shards of a group, from the values of the loop's start on.
abbrev pub largest : (ℤ → ℕ) → ℕ → List ℤ → ℕ
largest counts m [] = m
largest counts m (g ∷ rest) = largest counts (if ltb m (counts g) then counts g else m) rest

abbrev pub smallest : (ℤ → ℕ) → ℕ → List ℤ → ℕ
smallest counts m [] = m
smallest counts m (g ∷ rest) = smallest counts (if ltb (counts g) m then counts g else m) rest

-- Is each gid of the second list in the first?
abbrev pub has_all : List ℤ → List ℤ → Bool
has_all gs [] = true
has_all gs (g ∷ rest) = has gs g && has_all gs rest

-- Does the configuration pass?
unfoldable pub check_config : ShardConfig → List ℤ → Bool
check_config c groups =
    (length c.groups == length groups)
    && has_all (gids c.groups) groups
    && (if ltb 0 (length groups) then has_all (gids c.groups) c.shards else true)
    && leb (largest (count c.shards) 0 (gids c.groups))
        (smallest (count c.shards) 257 (gids c.groups) + 1)
