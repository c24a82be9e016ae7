-- ===== src/Ctrler/Plans.antt =====
-- src/shardkv1/shardctrler/shardctrler.go: what a change keeps of plans and of configurations.
use raft_sharded_kv.Prelude.{
  ℕ, suc, zero, ◌+◌, ◌-◌, ◌<◌, ◌≤◌, ◌≡◌, ◌⊎◌, inl, inr, refl, sym, ap, ◌∙◌, subst, arith, Option,
  none, some,
}
use raft_sharded_kv.Shardcfg.Config.{ShardConfig}
use raft_sharded_kv.Ctrler.State.{MigrationRecord, ControllerState}
use raft_sharded_kv.Ctrler.Changes.{Change, claims, plans, publishes, clears}

-- The plan is for the next number, and its source or its target is current.
abbrev pub PlanOk : ControllerState → Type 0
PlanOk s =
    (r : MigrationRecord)
    → s.pending ≡ some r
    → ((s.current ≡ r.from) ⊎ (s.current ≡ r.to)) × (r.to.num ≡ r.from.num + 1)

pub none-some : {r : MigrationRecord} {p : Option MigrationRecord} → p ≡ none → p ≡ some r → ⊥
none-some e e' = cc (e, e')

pub same_record :
    {q r : MigrationRecord} {p : Option MigrationRecord} → p ≡ some q → p ≡ some r → q ≡ r
same_record e e' = cc (e, e')

pub Change-PlanOk : (s t : ControllerState) → Change s t → PlanOk s → PlanOk t
Change-PlanOk s t (claims epoch current pending) good =
    λ r planned. rw current (good r (sym pending ∙ planned))
Change-PlanOk s _ (plans to free e) good = λ r planned.
    let same = same_record refl planned in
    (inl (ap (λ q. q.from) same), ap (λ q. q.to.num) (sym same) ∙ e ∙ ap (λ q. q.from.num + 1) same)
Change-PlanOk s _ (publishes q planned source) good =
    λ r planned'. (inr (ap (λ x. x.to) (same_record planned planned')), (good r planned').1)
Change-PlanOk s _ (clears q planned target) good = λ r planned'. absurd (cc planned')

-- The plan is still to be carried out, or its number has been used up.
abbrev pub UsedBy : MigrationRecord → ControllerState → Type 0
UsedBy r s =
    (s.pending ≡ some r)
    ⊎ ((r.to.num ≤ s.current.num)
        × ((q : MigrationRecord) → s.pending ≡ some q → r.to.num < q.to.num))

pub Change-UsedBy :
    (r : MigrationRecord) (s t : ControllerState) → Change s t → UsedBy r s → UsedBy r t
Change-UsedBy r s t (claims epoch current pending) (inl planned) = inl (pending ∙ planned)
Change-UsedBy r s t (claims epoch current pending) (inr done) =
    inr (rw current (done.0), λ q planned. done.1 q (sym pending ∙ planned))
Change-UsedBy r s _ (plans to free e) (inl planned) = absurd (none-some free planned)
Change-UsedBy r s _ (plans to free e) (inr done) = inr (
  done.0,
  λ q planned.
      let n : q.to.num ≡ to.num = ap (λ x. x.to.num) (sym (same_record refl planned)) in
      let le = done.0 in omega arith,
)
Change-UsedBy r s _ (publishes q planned source) (inl planned') = inl planned'
Change-UsedBy r s _ (publishes q planned source) (inr done) =
    inr (let lt = done.1 q planned in omega arith, done.1)
Change-UsedBy r s _ (clears q planned target) (inl planned') = inr (
  let n : s.current.num ≡ r.to.num =
        ap (λ c. c.num) target ∙ ap (λ x. x.to.num) (same_record planned planned') in
      omega arith,
  λ q' e. absurd (cc e),
)
Change-UsedBy r s _ (clears q planned target) (inr done) = inr (done.0, λ q' e. absurd (cc e))

-- The configuration is current, or a later one is.
abbrev pub Passed : ShardConfig → ControllerState → Type 0
Passed c s = (s.current ≡ c) ⊎ (c.num < s.current.num)

pub Change-Passed :
    (c : ShardConfig) (s t : ControllerState) → PlanOk s → Change s t → Passed c s → Passed c t
Change-Passed c s t good (claims epoch current pending) passed = rw current passed
Change-Passed c s _ good (plans to free e) passed = passed
Change-Passed c s _ good (publishes r planned source) (inl same) = inr (
    let n : r.from.num ≡ c.num = ap (λ x. x.num) (sym source ∙ same) in
    let m = (good r planned).1 in omega arith)
Change-Passed c s _ good (publishes r planned source) (inr lt) = inr (
    let n : s.current.num ≡ r.from.num = ap (λ x. x.num) source in
    let m = (good r planned).1 in omega arith)
Change-Passed c s _ good (clears r planned target) passed = passed

pub ≤_or : (k k' : ℕ) → (k ≤ k') ⊎ (k' ≤ k)
≤_or k k' = omega arith

-- What a change keeps holds from one version on.
kept_from :
    (P : ControllerState → Type 0) (h : ℕ → ControllerState) (k n : ℕ)
    → ((j : ℕ) → k ≤ j → j < k + n → P (h j) → P (h (suc j)))
    → P (h k)
    → P (h (k + n))
kept_from P h k zero step p = subst (λ j. P (h j)) {x = k} {y = k + zero} (omega arith) p
kept_from P h k (suc n) step p =
    subst (λ j. P (h j)) {x = suc (k + n)} {y = k + suc n} (omega arith)
      (step (k + n) (omega arith) (omega arith)
        (kept_from P h k n (λ j le lt. step j le (omega arith)) p))

pub kept_to :
    (P : ControllerState → Type 0) (h : ℕ → ControllerState) (k k' : ℕ)
    → k ≤ k'
    → ((j : ℕ) → k ≤ j → j < k' → P (h j) → P (h (suc j)))
    → P (h k)
    → P (h k')
kept_to P h k k' le step p =
    subst (λ j. P (h j)) {x = k + (k' - k)} {y = k'} (omega arith)
      (kept_from P h k (k' - k) (λ j le' lt. step j le' (omega arith)) p)
