-- ===== src/Ctrler/Agreement.antt =====
-- src/shardkv1/shardctrler/shardctrler.go: what a run's states agree on.
use raft_sharded_kv.Prelude.{
  ℕ, suc, ◌<◌, ◌≤◌, String, ◌≡◌, ◌⊎◌, inl, inr, refl, sym, ap, ◌∙◌, subst, arith, none, some,
}
use raft_sharded_kv.Ctrler.State.{MigrationRecord}
use raft_sharded_kv.Ctrler.Migration.{DeepEqual}
use raft_sharded_kv.Ctrler.System.{
  System, Step, begins, elects, owns, migrates, deletes, executes, answers, deposes, Reach, here,
  next, IsInitial,
}
use raft_sharded_kv.Ctrler.Changes.{Change}
use raft_sharded_kv.Ctrler.Fencing.{extended_old}
use raft_sharded_kv.Ctrler.Plans.{
  PlanOk, none-some, same_record, Change-PlanOk, UsedBy, Change-UsedBy, Passed, Change-Passed, ≤_or,
  kept_to,
}
use raft_sharded_kv.Ctrler.Runs.{Reach-Inv, IsInitial-Inv}

-- What has been written stays in the history.
Step_history :
    (d : DeepEqual) (s t : System)
    → Step d s t
    → (s.version ≤ t.version) × ((k : ℕ) → k ≤ s.version → t.history k ≡ s.history k)
Step_history d s _ (begins i rest e) = (omega arith, λ k le. refl)
Step_history d s _ (elects i rest e) = (omega arith, λ k le. refl)
Step_history d s _ (owns i why e) = (omega arith, λ k le. refl)
Step_history d s _ (migrates i r rest version state answer e) = (omega arith, λ k le. refl)
Step_history d s _ (deletes i r rest version state answer e) = (omega arith, λ k le. refl)
Step_history d s _ (executes i what state e) =
    (omega arith, λ k le. extended_old s.history s.version state k le)
Step_history d s _ (answers i what version state answer e lt) = (omega arith, λ k le. refl)
Step_history d s _ (deposes i) = (omega arith, λ k le. refl)

Reach_history :
    (d : DeepEqual) (s t : System)
    → Reach d s t
    → (s.version ≤ t.version) × ((k : ℕ) → k ≤ s.version → t.history k ≡ s.history k)
Reach_history d s _ here = (omega arith, λ k le. refl)
Reach_history d s t (next {t = u} run step) =
    let before = Reach_history d s u run in
    let after = Step_history d u t step in
    (
      let a = before.0 in let b = after.0 in omega arith,
      λ k le. after.1 k (let a = before.0 in omega arith) ∙ before.1 k le,
    )

-- A run of controllers with different ids, from a state without a plan.
module _ (d : DeepEqual) (s t : System) (initial : IsInitial s)
    (apart : (i j : ℕ) → (s.ctrler i).id ≡ (s.ctrler j).id → i ≡ j) (run : Reach d s t) where
  -- In a run of controllers with different ids, from a state that has just been made, without a
  -- plan and before any controller runs: each write of the control state takes it over, which
  -- counts its epoch and keeps its configuration and its plan, makes a plan for the next number
  -- where there is none, publishes the plan's target where its source is current, or ends the plan
  -- where its target is current.
  pub run-Change : (k : ℕ) → 1 ≤ k → k < t.version → Change (t.history k) (t.history (suc k))
  run-Change =
      let ids : ℕ → String = λ i. (s.ctrler i).id in
      (Reach-Inv ids apart d s t run (IsInitial-Inv ids apart d s initial (λ i. refl))).changes

  no_plan_first : (t.history 1).pending ≡ none
  no_plan_first =
      let made = initial.made in
      ap (λ c. c.pending) ((Reach_history d s t run).1 1 (omega arith))
      ∙ subst (λ k. (s.history k).pending ≡ none) made initial.no_plan

  run-PlanOk : (k : ℕ) → 1 ≤ k → k ≤ t.version → PlanOk (t.history k)
  run-PlanOk k le le' =
      kept_to PlanOk t.history 1 k le
        (λ j le'' lt. Change-PlanOk _ _ (run-Change j le'' (omega arith)))
        (λ r e. absurd (none-some no_plan_first e))

  run-UsedBy :
      (k k' : ℕ) (r : MigrationRecord)
      → 1 ≤ k
      → k ≤ k'
      → k' ≤ t.version
      → (t.history k).pending ≡ some r
      → UsedBy r (t.history k')
  run-UsedBy k k' r le le' le'' e =
      kept_to (UsedBy r) t.history k k' le'
        (λ j at lt. Change-UsedBy r _ _ (run-Change j (omega arith) (omega arith))) (inl e)

  same_later_plan :
      (k k' : ℕ) (r r' : MigrationRecord)
      → 1 ≤ k
      → k ≤ k'
      → k' ≤ t.version
      → (t.history k).pending ≡ some r
      → (t.history k').pending ≡ some r'
      → r.to.num ≡ r'.to.num
      → r ≡ r'
  same_later_plan k k' r r' le le' le'' e e' num = elim (run-UsedBy k k' r le le' le'' e) [
    | inl still ↦ same_record still e'
    | inr done ↦ absurd (let lt = done.1 r' e' in omega arith)
  ]

  -- In a run of controllers with different ids, from a state that has just been made, without a
  -- plan and before any controller runs: two plans that were ever recorded for the same
  -- configuration number are the same plan.
  pub one_plan_per_number :
      (k k' : ℕ) (r r' : MigrationRecord)
      → 1 ≤ k
      → k ≤ t.version
      → 1 ≤ k'
      → k' ≤ t.version
      → (t.history k).pending ≡ some r
      → (t.history k').pending ≡ some r'
      → r.to.num ≡ r'.to.num
      → r ≡ r'
  one_plan_per_number k k' r r' le top le' top' e e' num = elim (≤_or k k') [
    | inl before ↦ same_later_plan k k' r r' le before top' e e' num
    | inr after ↦ sym (same_later_plan k' k r' r le' after top e' e (sym num))
  ]

  -- In a run of controllers with different ids, from a state that has just been made, without a
  -- plan and before any controller runs: from one version of the control state to a later one, the
  -- current configuration is the same or has a greater number.
  pub current_advances :
      (k k' : ℕ)
      → 1 ≤ k
      → k ≤ k'
      → k' ≤ t.version
      → ((t.history k').current ≡ (t.history k).current)
        ⊎ ((t.history k).current.num < (t.history k').current.num)
  current_advances k k' le le' top =
      kept_to (Passed (t.history k).current) t.history k k' le'
        (λ j at lt.
          Change-Passed _ _ _ (run-PlanOk j (omega arith) (omega arith))
            (run-Change j (omega arith) (omega arith)))
        (inl refl)
