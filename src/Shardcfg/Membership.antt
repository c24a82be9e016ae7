-- ===== src/Shardcfg/Membership.antt =====
-- src/shardkv1/shardcfg/shardcfg.go: JoinBalance.
use raft_sharded_kv.Prelude.{
  ◌+◌, ◌≡◌, ◌≢◌, ◌↔◌, ◌⊎◌, refl, sym, ap, subst, ◌∙◌, arith, Bool, true, false, List, [], ◌∷◌, none,
  some, ℤ, int_eq, length, Bool-cases, inl, inr,
}
use raft_sharded_kv.Shardcfg.Constants.{n_shards}
use raft_sharded_kv.Shardcfg.Config.{ShardConfig, Groups, has, gids, delete_group, insert_group}
use raft_sharded_kv.Shardcfg.Change.{
  Outcome, fatal, returned, running, clashes, join_loop, then_balance, join_balance, check_config,
}
use raft_sharded_kv.Shardcfg.Names.{Separate, Once, absent_iff, clear_iff}
use raft_sharded_kv.Shardcfg.Passing.{Balanced}
use raft_sharded_kv.Shardcfg.Balanced.{rebalance-Rebalanced}

-- The same as Separate, with the tests of Join.
abbrev pub Apart : Groups → Type 0
Apart [] = Unit
Apart ((g, servers) ∷ rest) =
    (has (gids rest) g ≡ false) × (clashes rest servers ≡ false) × Apart rest

-- Groups with others added.
abbrev pub onto : Groups → Groups → Groups
onto groups [] = groups
onto groups (e ∷ rest) = onto (e ∷ groups) rest

-- The same as Once, with the test of Leave.
abbrev pub Distinct : List ℤ → Type 0
Distinct [] = Unit
Distinct (g ∷ rest) = (has rest g ≡ false) × Distinct rest

abbrev pub without : Groups → List ℤ → Groups
without groups [] = groups
without groups (g ∷ rest) = without (delete_group groups g) rest

Apart-Separate : (gs : Groups) → Apart gs ↔ Separate gs
Apart-Separate [] = ((λ v. v), (λ v. v))
Apart-Separate ((g, servers) ∷ rest) =
    let fresh = absent_iff (gids rest) g in
    let clear = clear_iff rest servers in
    let others = Apart-Separate rest in
    (
      (λ (a, b, c). (fresh.0 a, clear.0 b, others.0 c)),
      (λ (a, b, c). (fresh.1 a, clear.1 b, others.1 c)),
    )

pub Distinct-Once : (gs : List ℤ) → Distinct gs ↔ Once gs
Distinct-Once [] = ((λ v. v), (λ v. v))
Distinct-Once (g ∷ rest) =
    let fresh = absent_iff rest g in
    let others = Distinct-Once rest in
    ((λ (a, b). (fresh.0 a, others.0 b)), (λ (a, b). (fresh.1 a, others.1 b)))

delete_absent : (gs : Groups) (g : ℤ) → has (gids gs) g ≡ false → delete_group gs g ≡ gs
unfolding delete_group
delete_absent [] g h = refl
delete_absent ((k, ss) ∷ rest) g h =
    let other : int_eq k g ≡ false = ground (arith, h) in
    rw other (ap (λ t. (k, ss) ∷ t) (delete_absent rest g (ground (arith, h))))

onto-Apart : (groups servers : Groups) → Apart (onto groups servers) → Apart groups
onto-Apart groups [] v = v
onto-Apart groups (e ∷ rest) v = (onto-Apart (e ∷ groups) rest v).2

-- The configuration that the loop of Join leaves when it adds all the groups.
abbrev joined : ShardConfig → Groups → ShardConfig
joined c servers = record c { num = c.num + 1; groups = onto c.groups servers }

join_loop-Apart :
    (changed : Bool) (c : ShardConfig) (servers : Groups)
    → (changed ≡ true) ⊎ (servers ≢ [])
    → Apart (onto c.groups servers)
    → join_loop changed c servers ≡ returned true (joined c servers)
join_loop-Apart changed c [] (inl e) v = rw e refl
join_loop-Apart changed c [] (inr n) v = absurd (n refl)
join_loop-Apart changed c ((g, ss) ∷ rest) h v =
    let (fresh, clear, _) = onto-Apart ((g, ss) ∷ c.groups) rest v in
    let e : insert_group c.groups g ss ≡ (g, ss) ∷ c.groups =
      ap (λ gs. (g, ss) ∷ gs) (delete_absent c.groups g fresh) in
    rw (fresh, clear, e)
      (join_loop-Apart true (record c { groups = (g, ss) ∷ c.groups }) rest (inl refl) v)

Apart-join_loop :
    (changed : Bool) (c c' : ShardConfig) (servers : Groups)
    → Apart c.groups
    → join_loop changed c servers ≡ returned true c'
    → ((changed ≡ true) ⊎ (servers ≢ [])) × Apart (onto c.groups servers)
Apart-join_loop true c c' [] v e = (inl refl, v)
Apart-join_loop false c c' [] v e = absurd (ground arith)
Apart-join_loop changed c c' ((g, ss) ∷ rest) v e = elim (Bool-cases (has (gids c.groups) g)) [
  | inl m ↦ let e' : returned false c ≡ returned true c' = rw m at e in absurd (ground arith)
  | inr fresh ↦ elim (Bool-cases (clashes c.groups ss)) [
    | inl m ↦ let e' : fatal ≡ returned true c' = rw (fresh, m) at e in absurd (ground arith)
    | inr clear ↦
        let e' : join_loop true (record c { groups = (g, ss) ∷ c.groups }) rest ≡ returned true c' =
          rw (fresh, clear, delete_absent c.groups g fresh) at e in
        (
          inr (λ f. omega (arith, ap length f)),
          (Apart-join_loop true (record c { groups = (g, ss) ∷ c.groups }) c' rest (fresh, clear, v)
              e').1,
        )
  ]
]

-- What a change of the groups promises.
pub record Changed (c : ShardConfig) (groups : Groups) (c' : ShardConfig) : Type 0 where
  pub numbered : c'.num ≡ c.num + 1
  pub regrouped : c'.groups ≡ groups
  pub same_length : length c'.shards ≡ length c.shards
  pub balanced : Balanced c'
  pub passes : check_config c' (gids groups) ≡ true

pub balanced_after :
    (c : ShardConfig) (groups : Groups)
    → length c.shards ≡ n_shards
    → (c' : ShardConfig) × (then_balance
          (returned true (record c { num = c.num + 1; groups = groups }))
        ≡ returned true c')
      × Changed c groups c'
balanced_after c groups len =
    let (c', r) = rebalance-Rebalanced (record c { num = c.num + 1; groups = groups }) len in
    (
      c',
      ap (λ o. elim o [ some c'' ↦ returned true c'' | none ↦ running ]) r.ends,
      record {
        numbered = r.same_num;
        regrouped = r.same_groups;
        same_length = r.same_length;
        balanced = r.balanced;
        passes = r.passes;
      },
    )

pub then_balance-true :
    (o : Outcome) (c' : ShardConfig)
    → then_balance o ≡ returned true c'
    → (c'' : ShardConfig) × (o ≡ returned true c'')
then_balance-true (returned true c) c' e = (c, refl)
then_balance-true (returned false c) c' e = absurd (ground arith)
then_balance-true fatal c' e = absurd (ground arith)
then_balance-true running c' e = absurd (ground arith)

same_return : (c c' : ShardConfig) → returned true c ≡ returned true c' → c ≡ c'
same_return c c' e = cc e

-- What a true answer comes to, when it comes exactly under a condition.
pub answered :
    {P : Type 0} {o : Outcome} {c : ShardConfig} {groups : Groups}
    → ((c' : ShardConfig) → o ≡ returned true c' → P)
    → (P → (c' : ShardConfig) × (o ≡ returned true c') × Changed c groups c')
    → (((c' : ShardConfig) × (o ≡ returned true c')) ↔ P)
      × ((c' : ShardConfig) → o ≡ returned true c' → Changed c groups c')
answered {c} {groups} needs gives = (
  ((λ (c', e). needs c' e), (λ p. let (c', e, changed) = gives p in (c', e))),
  (λ c' e.
      let (c'', e', changed) = gives (needs c' e) in
      subst (Changed c groups) (same_return c'' c' (sym e' ∙ e)) changed),
)

-- JoinBalance on groups of which no two share a gid or a server returns true exactly when it is
-- given a group, and no two of the old and the new groups together share a gid or a server; and
-- whenever it returns true, it has counted the configuration, added the groups and balanced the
-- shards.
pub join_balance_iff :
    (c : ShardConfig) (servers : Groups)
    → length c.shards ≡ n_shards
    → Separate c.groups
    → (((c' : ShardConfig) × (join_balance c servers ≡ returned true c'))
        ↔ ((servers ≢ []) × Separate (onto c.groups servers)))
      × ((c' : ShardConfig)
          → join_balance c servers ≡ returned true c'
          → Changed c (onto c.groups servers) c')
unfolding join_balance
join_balance_iff c servers len separate =
    let whole = Apart-Separate (onto c.groups servers) in
    answered
      (λ c' e.
        let (c'', e') = then_balance-true (join_loop false c servers) c' e in
        let (start, apart) =
          Apart-join_loop false c c'' servers ((Apart-Separate c.groups).1 separate) e' in
        (
          elim start [ inl wrong ↦ absurd (ground arith) | inr some_group ↦ some_group ],
          whole.0 apart,
        ))
      (λ (some_group, all).
        let (c', e, changed) = balanced_after c (onto c.groups servers) len in
        let runs = join_loop-Apart false c servers (inr some_group) (whole.1 all) in
        (c', ap then_balance runs ∙ e, changed))
