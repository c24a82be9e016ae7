-- ===== src/Shardcfg/Rebalancing.antt =====
-- src/shardkv1/shardcfg/shardcfg.go, Rebalance: it ends, with an even load.
use raft_sharded_kv.Prelude.{
  ℕ, zero, suc, ◌+◌, ◌<◌, ◌≤◌, ◌≡◌, ◌≢◌, refl, sym, ap, ◌∙◌, arith, Bool, true, false, List, [],
  ◌∷◌, ◌++◌, append-nil, length-append, length-set, some, ℤ, pos, int_eq, int_eq_iff, int_ltb,
  length, set, Bool-cases, if◌then◌else◌, inl, inr,
}
use raft_sharded_kv.Shardcfg.Config.{ShardConfig, has, gids, count, Load, analyze, least}
use raft_sharded_kv.Shardcfg.Balance.{assign, move_one, balance, pairs_of}
use raft_sharded_kv.Shardcfg.Change.{has_all}
use raft_sharded_kv.Shardcfg.Loads.{Extremes, analyze-Extremes, count≤length}

-- The pairs of shards of one group.
abbrev pub pairs : List ℤ → ℕ
pairs [] = 0
pairs (x ∷ xs) = count xs x + pairs xs

pub pairs_bound : (xs : List ℤ) → pairs xs ≤ pairs_of (length xs)
pairs_bound [] = omega arith
pairs_bound (x ∷ xs) = omega (arith, count≤length xs x, pairs_bound xs)

pub apart : (x y : ℤ) → x ≢ y → int_eq x y ≡ false
apart x y h = elim (Bool-cases (int_eq x y)) [
  | inl e ↦ absurd (h ((int_eq_iff x y).0 e))
  | inr n ↦ n
]

int_eq_comm : (x y : ℤ) → int_eq x y ≡ int_eq y x
int_eq_comm x y = elim (Bool-cases (int_eq x y)) [
  | inl e ↦ e ∙ sym ((int_eq_iff y x).1 (sym ((int_eq_iff x y).0 e)))
  | inr n ↦ n ∙ sym (apart y x (λ e. absurd (cc (n, (int_eq_iff x y).1 (sym e)))))
]

module _ (mg lg : ℤ) where
  count-move_one :
      (xs : List ℤ) (x : ℤ)
      → x ≢ mg
      → 1 ≤ count xs mg
      → count (move_one mg lg xs) x ≡ count xs x + (if int_eq lg x then 1 else 0)
  count-move_one [] x h some_shard = omega (arith, some_shard)
  count-move_one (y ∷ ys) x h some_shard = elim (Bool-cases (int_eq y mg)) [
    | inl e ↦ rw (e, apart y x (λ f. h (sym f ∙ (int_eq_iff y mg).0 e))) (ground arith)
    | inr n ↦ rw n (ground (arith, some_shard, n, count-move_one ys x h))
  ]

  pairs-move_one :
      (xs : List ℤ)
      → mg ≢ lg
      → 1 ≤ count xs mg
      → pairs (move_one mg lg xs) + count xs mg ≡ pairs xs + count xs lg + 1
  pairs-move_one [] h some_shard = omega (arith, some_shard)
  pairs-move_one (y ∷ ys) h some_shard = elim (Bool-cases (int_eq y mg)) [
    | inl e ↦
        rw (e, apart y lg (λ f. h (sym ((int_eq_iff y mg).0 e) ∙ f)), (int_eq_iff y mg).0 e)
          (omega arith)
    | inr n ↦
        let other : y ≢ mg = λ e. absurd (cc (n, (int_eq_iff y mg).1 e)) in
        let enough : 1 ≤ count ys mg = ground (arith, some_shard, n) in
        rw (n, int_eq_comm y lg)
          (ground (arith, count-move_one ys y other enough, pairs-move_one ys h enough))
  ]

length-move_one : (mg lg : ℤ) (xs : List ℤ) → length (move_one mg lg xs) ≡ length xs
length-move_one mg lg [] = refl
length-move_one mg lg (x ∷ xs) = ground (arith, length-move_one mg lg xs)

has_all-move_one :
    (gs : List ℤ) (mg lg : ℤ) (xs : List ℤ)
    → has gs lg ≡ true
    → has_all gs xs ≡ true
    → has_all gs (move_one mg lg xs) ≡ true
has_all-move_one gs mg lg [] h all = refl
has_all-move_one gs mg lg (x ∷ xs) h all = ground (arith, h, all, has_all-move_one gs mg lg xs h)

-- No group has two shards more than another.
abbrev pub Even : List ℤ → List ℤ → Type 0
Even gs shards = (g h : ℤ) → has gs g ≡ true → has gs h ≡ true → count shards g ≤ count shards h + 1

-- Only shards change, and each is in a group.
pub record Placed (c c' : ShardConfig) : Type 0 where
  pub same_num : c'.num ≡ c.num
  pub same_groups : c'.groups ≡ c.groups
  pub same_length : length c'.shards ≡ length c.shards
  pub in_groups : has_all (gids c.groups) c'.shards ≡ true

Placed-after :
    (c c' : ShardConfig) (xs : List ℤ)
    → length xs ≡ length c.shards
    → Placed (record c { shards = xs }) c'
    → Placed c c'
Placed-after c c' xs e p = record {
  same_num = p.same_num;
  same_groups = p.same_groups;
  same_length = p.same_length ∙ e;
  in_groups = p.in_groups;
}

-- The loop ends, and the load is even.
pub balance-Even :
    (rounds : ℕ) (c : ShardConfig)
    → pairs c.shards < rounds
    → length c.shards < 257
    → gids c.groups ≢ []
    → has_all (gids c.groups) c.shards ≡ true
    → (c' : ShardConfig) × (balance rounds c ≡ some c')
      × Placed c c'
      × Even (gids c.groups) c'.shards
unfolding balance
balance-Even zero c fuel b some_group all = absurd (omega (arith, fuel))
balance-Even (suc rounds) c fuel b some_group all =
    let l = analyze c in
    let e = analyze-Extremes c b some_group in
    elim (Bool-cases (int_ltb l.mn (pos (l.ln + 2)))) [
      | inl stop ↦ (
        c,
        rw stop refl,
        record { same_num = refl; same_groups = refl; same_length = refl; in_groups = all },
        (λ g h m n. ground (arith, even_enough e stop, e.most g m, e.fewest h n)),
      )
      | inr go ↦
          let gap = still_uneven e go in
          let other : l.mg ≢ l.lg = λ f. omega (arith, ap (count c.shards) f, gap) in
          let fewer = pairs-move_one l.mg l.lg c.shards other (omega (arith, gap)) in
          let same_length = length-move_one l.mg l.lg c.shards in
          let (c', ends, placed, even) =
            balance-Even rounds (record c { shards = move_one l.mg l.lg c.shards })
              (omega (arith, gap, fewer, fuel)) (omega (arith, same_length, b)) some_group
              (has_all-move_one (gids c.groups) l.mg l.lg c.shards e.least_in all) in
          (c', rw go ends, Placed-after c c' (move_one l.mg l.lg c.shards) same_length placed, even)
    ]
  where
    even_enough :
        {l : Load} {counts : ℤ → ℕ} {gs : ℤ → Bool}
        → Extremes counts gs l
        → int_ltb l.mn (pos (l.ln + 2)) ≡ true
        → counts l.mg ≤ counts l.lg + 1
    even_enough {l} {counts} e stop =
        let stop' : int_ltb (pos (counts l.mg)) (pos (counts l.lg + 2)) ≡ true =
          rw (e.most_is, e.least_is) at stop in
        ground (arith, stop')

    still_uneven :
        {l : Load} {counts : ℤ → ℕ} {gs : ℤ → Bool}
        → Extremes counts gs l
        → int_ltb l.mn (pos (l.ln + 2)) ≡ false
        → counts l.lg + 2 ≤ counts l.mg
    still_uneven {l} {counts} e go =
        let go' : int_ltb (pos (counts l.mg)) (pos (counts l.lg + 2)) ≡ false =
          rw (e.most_is, e.least_is) at go in
        ground (arith, go')

has_all-append :
    (gs xs : List ℤ) (y : ℤ)
    → has_all gs xs ≡ true
    → has gs y ≡ true
    → has_all gs (xs ++ y ∷ []) ≡ true
has_all-append gs [] y h m = rw m refl
has_all-append gs (x ∷ xs) y h m = ground (arith, h, has_all-append gs xs y)

set-length : (xs ys : List ℤ) (y v : ℤ) → set (xs ++ y ∷ ys) (length xs) v ≡ (xs ++ v ∷ []) ++ ys
set-length [] ys y v = refl
set-length (x ∷ xs) ys y v = ap (λ t. x ∷ t) (set-length xs ys y v)

append_one : (xs ys : List ℤ) (y : ℤ) → xs ++ y ∷ ys ≡ (xs ++ y ∷ []) ++ ys
append_one [] ys y = refl
append_one (x ∷ xs) ys y = ap (λ t. x ∷ t) (append_one xs ys y)

length_one : (xs : List ℤ) (y : ℤ) → suc (length xs) ≡ length (xs ++ y ∷ [])
length_one xs y = omega (arith, length-append xs (y ∷ []))

-- Once the shards up to one are in groups, all are.
pub assign-Placed :
    (c : ShardConfig) (before rest : List ℤ)
    → c.shards ≡ before ++ rest
    → has_all (gids c.groups) before ≡ true
    → length c.shards < 257
    → gids c.groups ≢ []
    → Placed c (assign c (length before) rest)
unfolding assign
assign-Placed c before [] e all b some_group = record {
  same_num = refl;
  same_groups = refl;
  same_length = refl;
  in_groups = rw (e, append-nil before) all;
}
assign-Placed c before (g ∷ rest) e all b some_group = elim (Bool-cases (has (gids c.groups) g)) [
  | inl known ↦
      rw (known, length_one before g)
        (assign-Placed c (before ++ g ∷ []) rest (e ∙ append_one before rest g)
          (has_all-append (gids c.groups) before g all known) b some_group)
  | inr unknown ↦
      let lg = least c in
      let c' : ShardConfig = record c { shards = set c.shards (length before) lg } in
      let e' : c'.shards ≡ (before ++ lg ∷ []) ++ rest =
        ap (λ xs. set xs (length before) lg) e ∙ set-length before rest g lg in
      let known = (analyze-Extremes c b some_group).least_in in
      let longer = length-set c.shards (length before) lg in
      let placed =
        assign-Placed c' (before ++ lg ∷ []) rest e'
          (has_all-append (gids c.groups) before lg all known) (omega (arith, longer, b))
          some_group in
      rw (unknown, length_one before lg)
        (Placed-after c _ (set c.shards (length before) lg) longer placed)
]
