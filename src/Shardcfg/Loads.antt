-- ===== src/Shardcfg/Loads.antt =====
-- src/shardkv1/shardcfg/shardcfg.go, analyze: it finds the most and the least loaded group.
use raft_sharded_kv.Prelude.{
  ℕ, ◌<◌, ◌≤◌, ◌≡◌, ◌≢◌, ◌⊎◌, refl, sym, ap, ◌∙◌, subst, fun_ext, arith, Bool, true, false, ◌||◌,
  List, [], ◌∷◌, ℤ, pos, int_eq, int_eq_iff, int_leb, length, Bool-cases, inl, inr,
}
use raft_sharded_kv.Shardcfg.Config.{
  ShardConfig, has, gids, count, insert_sorted, sort, Load, weigh, weigh_all, no_load, analyze,
}

has-insert_sorted : (g x : ℤ) (hs : List ℤ) → has (insert_sorted g hs) x ≡ has (g ∷ hs) x
has-insert_sorted g x [] = refl
has-insert_sorted g x (h ∷ hs) = ground (arith, has-insert_sorted g x hs)

pub has-sort : (gs : List ℤ) (x : ℤ) → has (sort gs) x ≡ has gs x
unfolding sort
has-sort [] x = refl
has-sort (g ∷ gs) x = has-insert_sorted g x (sort gs) ∙ ap (λ b. int_eq g x || b) (has-sort gs x)

pub count≤length : (xs : List ℤ) (g : ℤ) → count xs g ≤ length xs
count≤length [] g = omega arith
count≤length (x ∷ xs) g = ground (arith, count≤length xs g)

-- The results of `analyze` are the extremes of the counts of some groups.
pub record Extremes (counts : ℤ → ℕ) (gs : ℤ → Bool) (l : Load) : Type 0 where
  pub most_in : gs l.mg ≡ true
  pub least_in : gs l.lg ≡ true
  pub most_is : l.mn ≡ pos (counts l.mg)
  pub least_is : l.ln ≡ counts l.lg
  pub most : (g : ℤ) → gs g ≡ true → counts g ≤ counts l.mg
  pub fewest : (g : ℤ) → gs g ≡ true → counts l.lg ≤ counts g

either : (gs : ℤ → Bool) (g x : ℤ) → (int_eq g x || gs x) ≡ true → (g ≡ x) ⊎ (gs x ≡ true)
either gs g x h = elim (Bool-cases (int_eq g x)) [
  | inl e ↦ inl ((int_eq_iff g x).0 e)
  | inr n ↦ inr (ground (arith, h, n))
]

shuffle : (a b c : Bool) → (a || (b || c)) ≡ ((b || a) || c)
shuffle true true c = refl
shuffle true false c = refl
shuffle false true c = refl
shuffle false false c = refl

or_false : (a : Bool) → (a || false) ≡ a
or_false true = refl
or_false false = refl

insert_sorted_cases : (g : ℤ) (hs : List ℤ) → (h : ℤ) × (t : List ℤ) × (insert_sorted g hs ≡ h ∷ t)
insert_sorted_cases g [] = (g, [], refl)
insert_sorted_cases g (h ∷ hs) = elim (Bool-cases (int_leb g h)) [
  | inl e ↦ (g, h ∷ hs, rw e refl)
  | inr e ↦ (h, insert_sorted g hs, rw e refl)
]

sort_cases : (gs : List ℤ) → (gs ≡ []) ⊎ ((h : ℤ) × (t : List ℤ) × (sort gs ≡ h ∷ t))
unfolding sort
sort_cases [] = inl refl
sort_cases (g ∷ gs) = inr (insert_sorted_cases g (sort gs))

module _ (counts : ℤ → ℕ) where
  weigh-Extremes :
      (gs : ℤ → Bool) (l : Load) (g : ℤ)
      → Extremes counts gs l
      → Extremes counts (λ x. int_eq g x || gs x) (weigh counts l g)
  weigh-Extremes gs l g e = record {
    most_in = ground (arith, e.most_in, (int_eq_iff g g).1 refl);
    least_in = ground (arith, e.least_in, (int_eq_iff g g).1 refl);
    most_is = ground (arith, e.most_is);
    least_is = ground (arith, e.least_is);
    most = λ x h. elim (either gs g x h) [
      | inl e' ↦ rw (e.most_is) (ground (arith, ap counts e'))
      | inr m ↦ rw (e.most_is) (ground (arith, e.most x m))
    ];
    fewest = λ x h. elim (either gs g x h) [
      | inl e' ↦ rw (e.least_is) (ground (arith, ap counts e'))
      | inr m ↦ rw (e.least_is) (ground (arith, e.fewest x m))
    ];
  }

  weigh_all-Extremes :
      (hs : List ℤ) (gs : ℤ → Bool) (l : Load)
      → Extremes counts gs l
      → Extremes counts (λ x. has hs x || gs x) (weigh_all counts l hs)
  weigh_all-Extremes [] gs l e = e
  weigh_all-Extremes (h ∷ hs) gs l e =
      subst (λ p. Extremes counts p (weigh_all counts (weigh counts l h) hs))
        (fun_ext (λ x. shuffle (has hs x) (int_eq h x) (gs x)))
        (weigh_all-Extremes hs (λ x. int_eq h x || gs x) (weigh counts l h)
          (weigh-Extremes gs l h e))

  -- The first group is the most and the least loaded so far.
  first-Extremes :
      (g : ℤ) → counts g < 257 → Extremes counts (λ x. int_eq g x || false) (weigh counts no_load g)
  first-Extremes g b = record {
    most_in = ground (arith, (int_eq_iff g g).1 refl);
    least_in = ground (arith, (int_eq_iff g g).1 refl);
    most_is = refl;
    least_is = ground (arith, b);
    most = λ x h. ground (arith, either (λ _. false) g x h, λ (e : g ≡ x). ap counts e);
    fewest = λ x h. ground (arith, b, either (λ _. false) g x h, λ (e : g ≡ x). ap counts e);
  }

  sorted-Extremes :
      (gs : List ℤ)
      → ((g : ℤ) → counts g < 257)
      → gs ≢ []
      → Extremes counts (has gs) (weigh_all counts no_load (sort gs))
  sorted-Extremes gs b some_group = elim (sort_cases gs) [
    | inl empty ↦ absurd (some_group empty)
    | inr (h, hs, e) ↦
        subst (λ p. Extremes counts p (weigh_all counts no_load (sort gs)))
          (fun_ext (λ x. same e x))
          (rw e (
            weigh_all-Extremes hs (λ x. int_eq h x || false) (weigh counts no_load h)
              (first-Extremes h (b h))))
  ]
    where
      same :
          {h : ℤ} {hs : List ℤ}
          → sort gs ≡ h ∷ hs
          → (x : ℤ) → has hs x || (int_eq h x || false) ≡ has gs x
      same {h} {hs} e x =
          shuffle (has hs x) (int_eq h x) false
          ∙ ap (λ b. b || false) (ap (λ xs. has xs x) (sym e) ∙ has-sort gs x)
          ∙ or_false (has gs x)

-- For a configuration with groups, of shards that the count of 257 exceeds.
pub analyze-Extremes :
    (c : ShardConfig)
    → length c.shards < 257
    → gids c.groups ≢ []
    → Extremes (count c.shards) (has (gids c.groups)) (analyze c)
unfolding analyze
analyze-Extremes c b some_group =
    sorted-Extremes (count c.shards) (gids c.groups)
      (λ g. omega (arith, count≤length c.shards g, b)) some_group
