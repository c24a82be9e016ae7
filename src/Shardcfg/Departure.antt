-- ===== src/Shardcfg/Departure.antt =====
-- src/shardkv1/shardcfg/shardcfg.go: LeaveBalance.
use raft_sharded_kv.Prelude.{
  ◌+◌, ◌≡◌, ◌≢◌, ◌↔◌, ◌⊎◌, refl, sym, ap, ◌∙◌, arith, Bool, true, false, ◌||◌, List, [], ◌∷◌, ℤ,
  int_eq, int_eq_iff, length, Bool-cases, inl, inr,
}
use raft_sharded_kv.Shardcfg.Constants.{n_shards}
use raft_sharded_kv.Shardcfg.Config.{ShardConfig, Groups, has, gids, delete_group}
use raft_sharded_kv.Shardcfg.Change.{returned, has_all, leave_loop, then_balance, leave_balance}
use raft_sharded_kv.Shardcfg.Names.{Listed, Once, has_all_iff}
use raft_sharded_kv.Shardcfg.Rebalancing.{apart}
use raft_sharded_kv.Shardcfg.Membership.{
  Distinct, Distinct-Once, without, Changed, balanced_after, then_balance-true, answered,
}

has-delete_group :
    (gs : Groups) (g x : ℤ) → g ≢ x → has (gids (delete_group gs g)) x ≡ has (gids gs) x
unfolding delete_group
has-delete_group [] g x h = refl
has-delete_group ((k, ss) ∷ rest) g x h = elim (Bool-cases (int_eq k g)) [
  | inl e ↦
      let other = apart k x (λ f. h (sym ((int_eq_iff k g).0 e) ∙ f)) in
      rw (e, other) (has-delete_group rest g x h)
  | inr n ↦ rw n (ap (λ b. int_eq k x || b) (has-delete_group rest g x h))
]

delete_group_gone : (gs : Groups) (g : ℤ) → has (gids (delete_group gs g)) g ≡ false
unfolding delete_group
delete_group_gone [] g = refl
delete_group_gone ((k, ss) ∷ rest) g = elim (Bool-cases (int_eq k g)) [
  | inl e ↦ rw e (delete_group_gone rest g)
  | inr n ↦ rw (n) (rw n (delete_group_gone rest g))
]

differ : (x g : ℤ) → int_eq x g ≡ false → g ≢ x
differ x g n e = absurd (cc (n, (int_eq_iff x g).1 (sym e)))

module _ (gs : Groups) (g : ℤ) where
  delete_keeps :
      (rest : List ℤ)
      → has_all (gids gs) rest ≡ true
      → has rest g ≡ false
      → has_all (gids (delete_group gs g)) rest ≡ true
  delete_keeps [] all absent = refl
  delete_keeps (x ∷ rest) all absent =
      let other : int_eq x g ≡ false = ground (arith, absent) in
      let same = has-delete_group gs g x (differ x g other) in
      ground (arith, all, absent, same, delete_keeps rest)

  delete_kept :
      (rest : List ℤ)
      → has_all (gids (delete_group gs g)) rest ≡ true
      → (has_all (gids gs) rest ≡ true) × (has rest g ≡ false)
  delete_kept [] all = (refl, refl)
  delete_kept (x ∷ rest) all = elim (Bool-cases (int_eq x g)) [
    | inl e ↦
        let gone : has (gids (delete_group gs g)) x ≡ false =
          rw ((int_eq_iff x g).0 e) (delete_group_gone gs g) in
        absurd (ground arith)
    | inr n ↦ let same = has-delete_group gs g x (differ x g n) in ground (arith, delete_kept rest)
  ]

-- The configuration that the loop of Leave leaves when it removes all the groups.
abbrev left : ShardConfig → List ℤ → ShardConfig
left c gone = record c { num = c.num + 1; groups = without c.groups gone }

leave_loop-Distinct :
    (changed : Bool) (c : ShardConfig) (gone : List ℤ)
    → (changed ≡ true) ⊎ (gone ≢ [])
    → has_all (gids c.groups) gone ≡ true
    → Distinct gone
    → leave_loop changed c gone ≡ returned true (left c gone)
leave_loop-Distinct changed c [] (inl e) all d = rw e refl
leave_loop-Distinct changed c [] (inr n) all d = absurd (n refl)
leave_loop-Distinct changed c (g ∷ rest) h all (once, d) =
    let known : has (gids c.groups) g ≡ true = ground (arith, all) in
    let others : has_all (gids c.groups) rest ≡ true = ground (arith, all) in
    rw known (
      leave_loop-Distinct true (record c { groups = delete_group c.groups g }) rest (inl refl)
        (delete_keeps c.groups g rest others once) d)

Distinct-leave_loop :
    (changed : Bool) (c c' : ShardConfig) (gone : List ℤ)
    → leave_loop changed c gone ≡ returned true c'
    → ((changed ≡ true) ⊎ (gone ≢ [])) × (has_all (gids c.groups) gone ≡ true) × Distinct gone
Distinct-leave_loop true c c' [] e = (inl refl, refl, tt)
Distinct-leave_loop false c c' [] e = absurd (ground arith)
Distinct-leave_loop changed c c' (g ∷ rest) e = elim (Bool-cases (has (gids c.groups) g)) [
  | inl known ↦
      let e' : leave_loop true (record c { groups = delete_group c.groups g }) rest
          ≡ returned true c' =
        rw known at e in
      let (_, all, d) =
        Distinct-leave_loop true (record c { groups = delete_group c.groups g }) c' rest e' in
      let (others, once) = delete_kept c.groups g rest all in
      (inr (λ f. omega (arith, ap length f)), rw (known, others) refl, (once, d))
  | inr absent ↦
      let e' : returned false c ≡ returned true c' = rw absent at e in absurd (ground arith)
]

-- LeaveBalance returns true exactly when it is given a gid, each of its gids is one of the groups,
-- and no two of them are the same; and whenever it returns true, it has counted the configuration,
-- removed the groups and balanced the shards.
pub leave_balance_iff :
    (c : ShardConfig) (gone : List ℤ)
    → length c.shards ≡ n_shards
    → (((c' : ShardConfig) × (leave_balance c gone ≡ returned true c'))
        ↔ ((gone ≢ []) × ((g : ℤ) → Listed g gone → Listed g (gids c.groups)) × Once gone))
      × ((c' : ShardConfig)
          → leave_balance c gone ≡ returned true c'
          → Changed c (without c.groups gone) c')
unfolding leave_balance
leave_balance_iff c gone len =
    let served = has_all_iff (gids c.groups) gone in
    let once = Distinct-Once gone in
    answered
      (λ c' e.
        let (c'', e') = then_balance-true (leave_loop false c gone) c' e in
        let (start, all, d) = Distinct-leave_loop false c c'' gone e' in
        (
          elim start [ inl wrong ↦ absurd (ground arith) | inr some_gid ↦ some_gid ],
          served.0 all,
          once.0 d,
        ))
      (λ (some_gid, all, d).
        let (c', e, changed) = balanced_after c (without c.groups gone) len in
        let runs = leave_loop-Distinct false c gone (inr some_gid) (served.1 all) (once.1 d) in
        (c', ap then_balance runs ∙ e, changed))
