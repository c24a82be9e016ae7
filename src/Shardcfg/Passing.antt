-- ===== src/Shardcfg/Passing.antt =====
-- src/shardkv1/shardcfg/shardcfg.go: balanced configurations, and that CheckConfig passes them.
use raft_sharded_kv.Prelude.{
  ℕ, suc, ◌+◌, ◌<◌, ◌≤◌, ◌≡◌, ◌≢◌, ◌⊎◌, refl, ap, arith, true, List, [], ◌∷◌, ltb, ℤ, pos,
  int_eq_iff, length, if◌then◌else◌, inl, inr, String,
}
use raft_sharded_kv.Shardcfg.Config.{ShardConfig, Groups, has, gids, count}
use raft_sharded_kv.Shardcfg.Balance.{unassign}
use raft_sharded_kv.Shardcfg.Change.{has_all, largest, smallest, check_config}
use raft_sharded_kv.Shardcfg.Loads.{count≤length}
use raft_sharded_kv.Shardcfg.Rebalancing.{Even}

-- Each shard is in a group, unless there are none; then it is in group 0. The load is even.
pub record Balanced (c : ShardConfig) : Type 0 where
  pub complete : gids c.groups ≢ [] → has_all (gids c.groups) c.shards ≡ true
  pub even : Even (gids c.groups) c.shards
  pub unassigned : gids c.groups ≡ [] → c.shards ≡ unassign c.shards

pub Groups-cases :
    (gs : Groups) → (gs ≡ []) ⊎ ((e : ℤ × List String) × (rest : Groups) × (gs ≡ e ∷ rest))
Groups-cases [] = inl refl
Groups-cases (e ∷ rest) = inr (e, rest, refl)

length-gids : (gs : Groups) → length (gids gs) ≡ length gs
length-gids [] = refl
length-gids (e ∷ rest) = ap suc (length-gids rest)

pub some_gid : (gs : Groups) {e : ℤ × List String} {rest : Groups} → gs ≡ e ∷ rest → gids gs ≢ []
some_gid gs e f = omega (arith, length-gids gs, ap length e, ap length f)

pub length-unassign : (xs : List ℤ) → length (unassign xs) ≡ length xs
length-unassign [] = refl
length-unassign (x ∷ xs) = ap suc (length-unassign xs)

pub unassign_twice : (xs : List ℤ) → unassign (unassign xs) ≡ unassign xs
unassign_twice [] = refl
unassign_twice (x ∷ xs) = ap (λ t. pos 0 ∷ t) (unassign_twice xs)

module _ (counts : ℤ → ℕ) where
  largest_le :
      (gs : List ℤ) (m b : ℕ)
      → m ≤ b
      → ((g : ℤ) → has gs g ≡ true → counts g ≤ b)
      → largest counts m gs ≤ b
  largest_le [] m b h all = h
  largest_le (g ∷ gs) m b h all =
      largest_le gs (if ltb m (counts g) then counts g else m) b
        (ground (arith, h, all g (rw ((int_eq_iff g g).1 refl) refl)))
        (λ x n. all x (ground (arith, n)))

  smallest_ge :
      (gs : List ℤ) (m b : ℕ)
      → b ≤ m + 1
      → ((g : ℤ) → has gs g ≡ true → b ≤ counts g + 1)
      → b ≤ smallest counts m gs + 1
  smallest_ge [] m b h all = h
  smallest_ge (g ∷ gs) m b h all =
      smallest_ge gs (if ltb (counts g) m then counts g else m) b
        (ground (arith, h, all g (rw ((int_eq_iff g g).1 refl) refl)))
        (λ x n. all x (ground (arith, n)))

has_all_of : (gs xs : List ℤ) → ((x : ℤ) → has xs x ≡ true → has gs x ≡ true) → has_all gs xs ≡ true
has_all_of gs [] h = refl
has_all_of gs (x ∷ xs) h =
    rw (h x (rw ((int_eq_iff x x).1 refl) refl)) (has_all_of gs xs (λ y m. h y (ground (arith, m))))

-- CheckConfig passes a balanced configuration with the groups that it has.
pub Balanced-check_config :
    (c : ShardConfig) → length c.shards < 257 → Balanced c → check_config c (gids c.groups) ≡ true
unfolding check_config
Balanced-check_config c b v =
    let gs = gids c.groups in
    let counts = count c.shards in
    let small : largest counts 0 gs ≤ 257 + 1 =
      largest_le counts gs 0 (257 + 1) (omega arith)
        (λ g _. omega (arith, count≤length c.shards g, b)) in
    let spread : largest counts 0 gs ≤ smallest counts 257 gs + 1 =
      smallest_ge counts gs 257 (largest counts 0 gs) small
        (λ h n. largest_le counts gs 0 (counts h + 1) (omega arith) (λ g m. v.even g h m n)) in
    rw (has_all_of gs gs (λ x m. m))
      (ground (arith, length-gids c.groups, spread, filled (gids c.groups) refl))
  where
    filled :
        (gs : List ℤ)
        → gs ≡ gids c.groups
        → (if ltb 0 (length gs) then has_all gs c.shards else true) ≡ true
    filled [] e = refl
    filled (g ∷ gs) e =
        let done : has_all (g ∷ gs) c.shards ≡ true =
          rw e (v.complete (λ f. omega (arith, ap length f, ap length e))) in
        ground (arith, done)
