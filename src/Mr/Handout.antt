-- ===== src/Mr/Handout.antt =====
-- src/mr/coordinator.go: the tasks that RequestTask hands out.
use raft_sharded_kv.Prelude.{
  ℕ, suc, zero, ◌≡◌, ◌⊎◌, refl, ap, subst, arith, true, false, List, [], ◌∷◌, none, some,
  Option-cases, Bool-cases, get_elem?, set, inl, inr,
}
use raft_sharded_kv.Mr.Coordinator.{
  map_phase, Task, Coordinator, map_task, wait_task, all_done, is_ready, started, hand_out,
  reply_with, request_task,
}

-- A task that is ready is handed out.
pub record HandsOut (now : ℕ) (ts : List Task) (t : Task) (ts' : List Task) : Type 0 where
  pub index : ℕ
  pub found : get_elem? ts index ≡ some t
  pub ready : is_ready now t ≡ true
  pub starts : ts' ≡ set ts index (started now t)

pub hand_out-HandsOut :
    (now : ℕ) (ts ts' : List Task) (t : Task)
    → hand_out now ts ≡ some (t, ts')
    → HandsOut now ts t ts'
unfolding hand_out
hand_out-HandsOut now [] ts' t h = absurd (ground arith)
hand_out-HandsOut now (x ∷ xs) ts' t h = elim (Bool-cases (is_ready now x)) [
  | inl e ↦
      let h' : some (x, started now x ∷ xs) ≡ some (t, ts') = rw (hand_out, e) at h in
      subst (λ (p : Task × List Task). HandsOut now (x ∷ xs) p.0 p.1) {x = (x, started now x ∷ xs)}
        {y = (t, ts')} (cc h') (record { index = 0; found = refl; ready = e; starts = refl })
  | inr n ↦ elim (Option-cases (hand_out now xs)) [
    | inl e ↦ let h' : none ≡ some (t, ts') = rw (hand_out, n, e) at h in absurd (ground arith)
    | inr ((u, us), e) ↦
        let h' : some (u, x ∷ us) ≡ some (t, ts') = rw (hand_out, n, e) at h in
        let r = hand_out-HandsOut now xs us u e in
        subst (λ (p : Task × List Task). HandsOut now (x ∷ xs) p.0 p.1) {x = (u, x ∷ us)}
          {y = (t, ts')} (cc h')
          (record {
            index = suc r.index;
            found = r.found;
            ready = r.ready;
            starts = ap (λ l. x ∷ l) r.starts;
          })
  ]
]

none_ready :
    (now : ℕ) (ts : List Task)
    → hand_out now ts ≡ none
    → (i : ℕ) (t : Task) → get_elem? ts i ≡ some t
    → is_ready now t ≡ false
unfolding hand_out
none_ready now [] h i t g = absurd (ground arith)
none_ready now (x ∷ xs) h i t g = elim (Bool-cases (is_ready now x)) [
  | inl e ↦
      let h' : some (x, started now x ∷ xs) ≡ none = rw (hand_out, e) at h in absurd (ground arith)
  | inr n ↦ elim (Option-cases (hand_out now xs)) [
    | inl e ↦ later i g n (λ k m. none_ready now xs e k t m)
    | inr (p, e) ↦
        let h' : some (p.0, x ∷ p.1) ≡ none = rw (hand_out, n, e) at h in absurd (ground arith)
  ]
]
  where
    later :
        (i : ℕ)
        → get_elem? (x ∷ xs) i ≡ some t
        → is_ready now x ≡ false
        → ((k : ℕ) → get_elem? xs k ≡ some t → is_ready now t ≡ false)
        → is_ready now t ≡ false
    later zero g n rest = subst (λ y. is_ready now y ≡ false) {x = x} {y = t} (cc g) n
    later (suc i) g n rest = rest i g

-- In the map phase, while a map task is not completed, RequestTask hands out a map task that is
-- idle or has timed out, and starts it; or, when there is none, it has the worker wait and changes
-- nothing.
pub request_task-map_phase :
    (c : Coordinator) (now : ℕ)
    → c.phase ≡ map_phase
    → all_done c.map_tasks ≡ false
    → ((t : Task) × (tasks : List Task) × (request_task c now
          ≡ (reply_with c map_task t.id t.file_name, record c { map_tasks = tasks }))
        × HandsOut now c.map_tasks t tasks)
      ⊎ ((request_task c now ≡ (reply_with c wait_task 0 "", c))
          × ((i : ℕ) (t : Task) → get_elem? c.map_tasks i ≡ some t → is_ready now t ≡ false))
unfolding request_task
request_task-map_phase c now e f = elim (Option-cases (hand_out now c.map_tasks)) [
  | inl g ↦ inr (waits g, none_ready now c.map_tasks g)
  | inr ((t, tasks), g) ↦
      inl (t, tasks, hands t tasks g, hand_out-HandsOut now c.map_tasks tasks t g)
]
  where
    waits : hand_out now c.map_tasks ≡ none → request_task c now ≡ (reply_with c wait_task 0 "", c)
    waits g = rw (request_task, e, f, g) (ground (arith, e))

    hands :
        (t : Task) (tasks : List Task)
        → hand_out now c.map_tasks ≡ some (t, tasks)
        → request_task c now
          ≡ (reply_with c map_task t.id t.file_name, record c { map_tasks = tasks })
    hands t tasks g = rw (request_task, e, f, g) (ground (arith, e))
