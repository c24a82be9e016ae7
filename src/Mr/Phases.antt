-- ===== src/Mr/Phases.antt =====
-- src/mr/coordinator.go: the phases of a job.
use raft_sharded_kv.Prelude.{
  ℕ, suc, zero, ◌≡◌, ◌≢◌, ◌⊎◌, get_elem?, set, refl, subst, ap, ◌∙◌, sym, arith, String, Bool, true,
  false, List, [], ◌∷◌, ℤ, some, Option-cases, Bool-cases, inl, inr,
}
use raft_sharded_kv.Mr.Coordinator.{
  TaskStatus, idle, in_progress, completed, is_completed, Phase, map_phase, reduce_phase,
  done_phase, Task, Coordinator, TaskType, map_task, reduce_task, wait_task, exit_task,
  ReportTaskArgs, reduce_tasks_of, make_coordinator, done, all_done, started, hand_out,
  request_reduce, request_task, complete, report_map, report_reduce, report_task, in_range, Call,
  request, report, run,
}
use raft_sharded_kv.Mr.Handout.{hand_out-HandsOut}

-- The identities of the tasks, which nothing changes.
abbrev pub names : List Task → List (ℕ × String)
names [] = []
names (t ∷ ts) = (t.id, t.file_name) ∷ names ts

abbrev pub all_idle : List Task → Bool
all_idle [] = true
all_idle (t ∷ ts) = elim t.status [ idle ↦ all_idle ts | _ ↦ false ]

names-set :
    (ts : List Task) (i now : ℕ) (t : Task)
    → get_elem? ts i ≡ some t
    → names (set ts i (started now t)) ≡ names ts
names-set [] i now t h = refl
names-set (x ∷ xs) zero now t h =
    ap (λ y. (y.id, y.file_name) ∷ names xs) {x = t} {y = x} (sym (cc h))
names-set (x ∷ xs) (suc i) now t h = ap (λ y. (x.id, x.file_name) ∷ y) (names-set xs i now t h)

names-hand_out :
    (now : ℕ) (ts ts' : List Task) (t : Task)
    → hand_out now ts ≡ some (t, ts')
    → names ts' ≡ names ts
names-hand_out now ts ts' t h =
    let r = hand_out-HandsOut now ts ts' t h in
    ap names r.starts ∙ names-set ts r.index now t r.found

pub names-complete : (ts : List Task) (i : ℕ) → names (complete ts i) ≡ names ts
names-complete [] i = refl
names-complete (t ∷ ts) zero = ground arith
names-complete (t ∷ ts) (suc i) = ap (λ x. (t.id, t.file_name) ∷ x) (names-complete ts i)

-- No reduce task is handed out before the map tasks are completed, and the job is done when all
-- are.
record Inv (files : List (ℕ × String)) (buckets : List (ℕ × String)) (c : Coordinator)
    : Type 0 where
  maps : names c.map_tasks ≡ files
  reduces : names c.reduce_tasks ≡ buckets
  first : c.phase ≡ map_phase → all_idle c.reduce_tasks ≡ true
  mapped : c.phase ≢ map_phase → all_done c.map_tasks ≡ true
  reduced : c.phase ≡ done_phase → all_done c.reduce_tasks ≡ true

Phase-cases : (p : Phase) → (p ≡ map_phase) ⊎ ((p ≡ reduce_phase) ⊎ (p ≡ done_phase))
Phase-cases map_phase = inl refl
Phase-cases reduce_phase = inr (inl refl)
Phase-cases done_phase = inr (inr refl)

module _ (files buckets : List (ℕ × String)) where
  at_phase :
      {c : Coordinator} {p : Phase}
      → c.phase ≡ p
      → Inv files buckets c
      → Inv files buckets (record c { phase = p })
  at_phase {c} e v = subst (λ q. Inv files buckets (record c { phase = q })) e v

  report_map-Inv :
      (c : Coordinator) (i : ℕ) → Inv files buckets c → Inv files buckets (report_map c i)
  report_map-Inv c i v = elim (Phase-cases c.phase) [
    | inl e ↦ rw e (record {
      maps = names-complete c.map_tasks i ∙ v.maps;
      reduces = v.reduces;
      first = λ _. v.first e;
      mapped = λ h. ground (arith, h);
      reduced = λ h. absurd (ground arith);
    })
    | inr (inl e) ↦ rw e (at_phase e v)
    | inr (inr e) ↦ rw e (at_phase e v)
  ]

  report_reduce-Inv :
      (c : Coordinator) (i : ℕ) → Inv files buckets c → Inv files buckets (report_reduce c i)
  report_reduce-Inv c i v = elim (Phase-cases c.phase) [
    | inl e ↦ rw e (at_phase e v)
    | inr (inl e) ↦ rw e (record {
      maps = v.maps;
      reduces = names-complete c.reduce_tasks i ∙ v.reduces;
      first = λ h. absurd (ground arith);
      mapped = λ _. v.mapped (λ f. absurd (cc (e, f)));
      reduced = λ h. ground (arith, h);
    })
    | inr (inr e) ↦ rw e (at_phase e v)
  ]

  reported :
      (c : Coordinator) (type : TaskType) (i : ℤ)
      → Inv files buckets c
      → Inv files buckets (report_task c (record { task_type = type; task_id = i }))
  unfolding report_task
  reported c map_task i v = elim (Option-cases (in_range i c.map_tasks)) [
    | inl e ↦ rw (report_task, e) v
    | inr (k, e) ↦ rw (report_task, e) (report_map-Inv c k v)
  ]
  reported c reduce_task i v = elim (Option-cases (in_range i c.reduce_tasks)) [
    | inl e ↦ rw (report_task, e) v
    | inr (k, e) ↦ rw (report_task, e) (report_reduce-Inv c k v)
  ]
  reported c wait_task i v = v
  reported c exit_task i v = v

  report_task-Inv :
      (c : Coordinator) (args : ReportTaskArgs)
      → Inv files buckets c
      → Inv files buckets (report_task c args)
  report_task-Inv c args v = reported c args.task_type args.task_id v

  -- In the reduce phase.
  request_reduce-Inv :
      (c : Coordinator) (now : ℕ)
      → c.phase ≡ reduce_phase
      → Inv files buckets c
      → Inv files buckets (request_reduce c now).1
  unfolding request_reduce
  request_reduce-Inv c now e v =
      let mapped : all_done c.map_tasks ≡ true = v.mapped (λ f. absurd (cc (e, f))) in
      elim (Bool-cases (all_done c.reduce_tasks)) [
        | inl d ↦
            rw (request_reduce, d)
              (record {
                maps = v.maps;
                reduces = v.reduces;
                first = λ h. absurd (ground arith);
                mapped = λ _. mapped;
                reduced = λ _. d;
              })
        | inr n ↦ elim (Option-cases (hand_out now c.reduce_tasks)) [
          | inl g ↦ rw (request_reduce, n, g) v
          | inr ((t, tasks), g) ↦
              rw (request_reduce, n, g)
                (record {
                  maps = v.maps;
                  reduces = names-hand_out now c.reduce_tasks tasks t g ∙ v.reduces;
                  first = λ h. absurd (cc (e, h));
                  mapped = λ _. mapped;
                  reduced = λ h. absurd (cc (e, h));
                })
        ]
      ]

  request_task-Inv :
      (c : Coordinator) (now : ℕ) → Inv files buckets c → Inv files buckets (request_task c now).1
  unfolding request_task
  request_task-Inv c now v = elim (Phase-cases c.phase) [
    | inl e ↦ elim (Bool-cases (all_done c.map_tasks)) [
      | inl d ↦
          rw (request_task, e, d)
            (request_reduce-Inv (record c { phase = reduce_phase }) now refl
              (record {
                maps = v.maps;
                reduces = v.reduces;
                first = λ h. absurd (ground arith);
                mapped = λ _. d;
                reduced = λ h. absurd (ground arith);
              }))
      | inr n ↦ elim (Option-cases (hand_out now c.map_tasks)) [
        | inl g ↦ rw (request_task, e, n, g) v
        | inr ((t, tasks), g) ↦
            rw (request_task, e, n, g)
              (record {
                maps = names-hand_out now c.map_tasks tasks t g ∙ v.maps;
                reduces = v.reduces;
                first = λ _. v.first e;
                mapped = λ h. absurd (h e);
                reduced = λ h. absurd (cc (e, h));
              })
      ]
    ]
    | inr (inl e) ↦ rw (request_task, e) (request_reduce-Inv c now e v)
    | inr (inr e) ↦ rw (request_task, e) v
  ]

  run-Inv :
      (c : Coordinator) (calls : List Call) → Inv files buckets c → Inv files buckets (run c calls)
  unfolding run
  run-Inv c [] v = v
  run-Inv c (request now ∷ calls) v =
      run-Inv (request_task c now).1 calls (request_task-Inv c now v)
  run-Inv c (report args ∷ calls) v = run-Inv (report_task c args) calls (report_task-Inv c args v)

idle_reduces : (i n : ℕ) → all_idle (reduce_tasks_of i n) ≡ true
idle_reduces i zero = refl
idle_reduces i (suc n) = idle_reduces (suc i) n

-- Every task of the list is completed.
abbrev pub AllCompleted : List Task → Type 0
AllCompleted ts = (i : ℕ) (t : Task) → get_elem? ts i ≡ some t → t.status ≡ completed

completed_status : (s : TaskStatus) → is_completed s ≡ true → s ≡ completed
completed_status completed e = refl
completed_status idle e = absurd (cc e)
completed_status in_progress e = absurd (cc e)

in_list :
    (x : Task) (xs : List Task) → x.status ≡ completed → AllCompleted xs → AllCompleted (x ∷ xs)
in_list x xs first rest zero t h = let same : x ≡ t = cc h in ap (λ y. y.status) (sym same) ∙ first
in_list x xs first rest (suc i) t h = rest i t h

all_done-AllCompleted : (ts : List Task) → all_done ts ≡ true → AllCompleted ts
all_done-AllCompleted [] e i t h = absurd (cc h)
all_done-AllCompleted (x ∷ xs) e i t h = elim (Bool-cases (is_completed x.status)) [
  | inr not_yet ↦ absurd (let f = rw not_yet at e in cc f)
  | inl first ↦
      in_list x xs (completed_status x.status first) (all_done-AllCompleted xs (rw first at e)) i t
        h
]

-- Whatever the workers call and whenever: the tasks stay those that were made; no reduce task has
-- been handed out in the map phase, and after it every map task is completed; and when Done answers
-- true, every map task and every reduce task is completed.
pub job_phases :
    (files : List String) (n_reduce : ℕ) (calls : List Call)
    → let start = make_coordinator files n_reduce in
      let c = run start calls in
      (names c.map_tasks ≡ names start.map_tasks)
      × (names c.reduce_tasks ≡ names start.reduce_tasks)
      × (c.phase ≡ map_phase → all_idle c.reduce_tasks ≡ true)
      × (c.phase ≢ map_phase → AllCompleted c.map_tasks)
      × (done c ≡ true → AllCompleted c.map_tasks × AllCompleted c.reduce_tasks)
unfolding make_coordinator done
job_phases files n_reduce calls =
    let start = make_coordinator files n_reduce in
    let fs = names start.map_tasks in
    let bs = names start.reduce_tasks in
    let v = run-Inv fs bs start calls (record {
      maps = refl;
      reduces = refl;
      first = λ _. idle_reduces 0 n_reduce;
      mapped = λ h. absurd (h refl);
      reduced = λ h. absurd (ground arith);
    }) in
    (
      v.maps,
      v.reduces,
      v.first,
      (λ h. all_done-AllCompleted _ (v.mapped h)),
      (λ d.
          let e = is_over (run start calls).phase d in
          (
            all_done-AllCompleted _ (v.mapped (λ f. absurd (cc (e, f)))),
            all_done-AllCompleted _ (v.reduced e),
          )),
    )
  where
    is_over : (p : Phase) → elim p [ done_phase ↦ true | _ ↦ false ] ≡ true → p ≡ done_phase
    is_over map_phase h = absurd (ground arith)
    is_over reduce_phase h = absurd (ground arith)
    is_over done_phase h = refl
