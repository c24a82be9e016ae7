-- ===== src/Shardcfg/Balanced.antt =====
-- src/shardkv1/shardcfg/shardcfg.go: Rebalance balances a configuration.
use raft_sharded_kv.Prelude.{
  ℕ, suc, ◌+◌, ◌≡◌, ◌≢◌, refl, sym, ap, ◌∙◌, subst, arith, true, List, [], ◌∷◌, some, ℤ, pos,
  int_ltb, length, inl, inr, String,
}
use raft_sharded_kv.Shardcfg.Constants.{n_shards}
use raft_sharded_kv.Shardcfg.Config.{ShardConfig, Groups, has, gids, count, analyze}
use raft_sharded_kv.Shardcfg.Balance.{unassign, assign, balance, pairs_of, rebalance}
use raft_sharded_kv.Shardcfg.Change.{has_all, check_config}
use raft_sharded_kv.Shardcfg.Loads.{Extremes, analyze-Extremes}
use raft_sharded_kv.Shardcfg.Rebalancing.{pairs_bound, Even, Placed, balance-Even, assign-Placed}
use raft_sharded_kv.Shardcfg.Passing.{
  Balanced, Groups-cases, some_gid, length-unassign, unassign_twice, Balanced-check_config,
}

assign_known :
    (c : ShardConfig) (s : ℕ) (xs : List ℤ) → has_all (gids c.groups) xs ≡ true → assign c s xs ≡ c
unfolding assign
assign_known c s [] h = refl
assign_known c s (g ∷ xs) h =
    let known : has (gids c.groups) g ≡ true = ground (arith, h) in
    rw known (assign_known c (suc s) xs (ground (arith, h)))

-- What Rebalance promises: it ends, it changes nothing but shards, and CheckConfig passes the
-- result.
pub record Rebalanced (c c' : ShardConfig) : Type 0 where
  pub ends : rebalance c ≡ some c'
  pub same_num : c'.num ≡ c.num
  pub same_groups : c'.groups ≡ c.groups
  pub same_length : length c'.shards ≡ length c.shards
  pub balanced : Balanced c'
  pub passes : check_config c' (gids c.groups) ≡ true

no_groups :
    (c : ShardConfig)
    → length c.shards ≡ n_shards
    → c.groups ≡ []
    → (c' : ShardConfig) × Rebalanced c c'
unfolding rebalance
no_groups c len e =
    let c' : ShardConfig = record c { shards = unassign c.shards } in
    let v : Balanced c' = record {
      complete = λ f. absurd (f (ap gids e));
      even = λ g h m n. absurd (nothing g m);
      unassigned = λ _. sym (unassign_twice c.shards);
    } in
    (
      c',
      record {
        ends = rw e refl;
        same_num = refl;
        same_groups = refl;
        same_length = length-unassign c.shards;
        balanced = v;
        passes = Balanced-check_config c' (omega (arith, length-unassign c.shards, len)) v;
      },
    )
  where
    nothing : (g : ℤ) → has (gids c.groups) g ≡ true → ⊥
    nothing g m = let m' : has [] g ≡ true = rw e at m in ground (arith, m')

rebalance_some :
    (c : ShardConfig) {e : ℤ × List String} {rest : Groups}
    → c.groups ≡ e ∷ rest
    → rebalance c ≡ balance (suc (pairs_of (length c.shards))) (assign c 0 c.shards)
unfolding rebalance
rebalance_some c e = rw e refl

some_groups :
    (c c' : ShardConfig)
    → length c.shards ≡ n_shards
    → gids c.groups ≢ []
    → rebalance c ≡ some c'
    → Placed c c'
    → Even (gids c.groups) c'.shards
    → Rebalanced c c'
some_groups c c' len some_group ends placed even =
    let same_gids : gids c'.groups ≡ gids c.groups = ap gids placed.same_groups in
    let v : Balanced c' = record {
      complete = λ _. rw same_gids placed.in_groups;
      even = rw same_gids even;
      unassigned = λ f. absurd (some_group (sym same_gids ∙ f));
    } in
    record {
      ends = ends;
      same_num = placed.same_num;
      same_groups = placed.same_groups;
      same_length = placed.same_length;
      balanced = v;
      passes =
          rw (← same_gids) (Balanced-check_config c' (omega (arith, placed.same_length, len)) v);
    }

Placed-trans : (a b c : ShardConfig) → Placed a b → Placed b c → Placed a c
Placed-trans a b c p q = record {
  same_num = q.same_num ∙ p.same_num;
  same_groups = q.same_groups ∙ p.same_groups;
  same_length = q.same_length ∙ p.same_length;
  in_groups = subst (λ gs. has_all gs c.shards ≡ true) (ap gids p.same_groups) q.in_groups;
}

both_loops :
    (c : ShardConfig)
    → length c.shards ≡ n_shards
    → gids c.groups ≢ []
    → (c' : ShardConfig) × (balance (suc (pairs_of (length c.shards))) (assign c 0 c.shards)
        ≡ some c')
      × Placed c c'
      × Even (gids c.groups) c'.shards
both_loops c len some_group =
    let start = assign c 0 c.shards in
    let placed = assign-Placed c [] c.shards refl refl (omega (arith, len)) some_group in
    let same_gids : gids start.groups ≡ gids c.groups = ap gids placed.same_groups in
    let (c', ends, later, even) =
      balance-Even (suc (pairs_of (length c.shards))) start
        (omega (arith, pairs_bound start.shards, ap pairs_of placed.same_length))
        (omega (arith, placed.same_length, len)) (λ f. some_group (sym same_gids ∙ f))
        (subst (λ gs. has_all gs start.shards ≡ true) (sym same_gids) placed.in_groups) in
    (c', ends, Placed-trans c start c' placed later, subst (λ gs. Even gs c'.shards) same_gids even)

-- Rebalance of a configuration with all its shards ends: the loop that moves shards runs at most as
-- often as there are pairs of shards. The number and the groups stay, each shard is then in a group
-- (in group 0 if there is none), no group has two shards more than another, and CheckConfig passes.
pub rebalance-Rebalanced :
    (c : ShardConfig) → length c.shards ≡ n_shards → (c' : ShardConfig) × Rebalanced c c'
rebalance-Rebalanced c len = elim (Groups-cases c.groups) [
  | inl e ↦ no_groups c len e
  | inr (_, _, e) ↦
      let some_group = some_gid c.groups e in
      let (c', ends, placed, even) = both_loops c len some_group in
      (c', some_groups c c' len some_group (rebalance_some c e ∙ ends) placed even)
]

-- Rebalance leaves a configuration that is balanced already as it is.
pub rebalance-Balanced :
    (c : ShardConfig) → length c.shards ≡ n_shards → Balanced c → rebalance c ≡ some c
unfolding rebalance balance
rebalance-Balanced c len v = elim (Groups-cases c.groups) [
  | inl e ↦ rw (e, ← v.unassigned (ap gids e)) refl
  | inr (_, _, e) ↦
      let some_group = some_gid c.groups e in
      let known = v.complete some_group in
      let x = analyze-Extremes c (omega (arith, len)) some_group in
      rebalance_some c e
      ∙ ap (balance (suc (pairs_of (length c.shards)))) (assign_known c 0 c.shards known)
      ∙ stops (pairs_of (length c.shards)) x
]
  where
    stops :
        (n : ℕ)
        → Extremes (count c.shards) (has (gids c.groups)) (analyze c)
        → balance (suc n) c ≡ some c
    stops n x =
        let even = v.even (analyze c).mg (analyze c).lg x.most_in x.least_in in
        let stop : int_ltb (analyze c).mn (pos ((analyze c).ln + 2)) ≡ true =
          rw (x.most_is, x.least_is) (ground (arith, even)) in
        rw stop refl
