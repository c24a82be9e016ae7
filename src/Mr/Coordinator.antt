-- ===== src/Mr/Coordinator.antt =====
-- src/mr/coordinator.go: its RPC handlers, with the types of src/mr/rpc.go.
use raft_sharded_kv.Prelude.{
  ℕ, suc, zero, ◌+◌, String, Bool, true, false, ◌&&◌, List, [], ◌∷◌, Option, none, some, ltb, ℤ,
  pos, negsuc, length, if◌then◌else◌,
}

pub data TaskStatus : Type 0 where
  idle in_progress completed : TaskStatus

pub data Phase : Type 0 where
  map_phase reduce_phase done_phase : Phase

-- Times are nanoseconds.
pub record Task : Type 0 where
  pub id : ℕ
  pub file_name : String
  pub status : TaskStatus
  pub start_time : ℕ

pub record Coordinator : Type 0 where
  pub phase : Phase
  pub map_tasks : List Task
  pub reduce_tasks : List Task
  pub n_map : ℕ
  pub n_reduce : ℕ

pub data TaskType : Type 0 where
  map_task reduce_task wait_task exit_task : TaskType

pub record RequestTaskReply : Type 0 where
  pub task_type : TaskType
  pub task_id : ℕ
  pub file_name : String
  pub n_reduce : ℕ
  pub n_map : ℕ

pub record ReportTaskArgs : Type 0 where
  pub task_type : TaskType
  pub task_id : ℤ

-- The loops of MakeCoordinator, from an index on.
abbrev pub map_tasks_of : ℕ → List String → List Task
map_tasks_of i [] = []
map_tasks_of i (file ∷ files) =
    record { id = i; file_name = file; status = idle; start_time = 0 } ∷ map_tasks_of (suc i) files

abbrev pub reduce_tasks_of : ℕ → ℕ → List Task
reduce_tasks_of i zero = []
reduce_tasks_of i (suc n) =
    record { id = i; file_name = ""; status = idle; start_time = 0 } ∷ reduce_tasks_of (suc i) n

unfoldable pub make_coordinator : List String → ℕ → Coordinator
make_coordinator files n_reduce = record {
  phase = map_phase;
  map_tasks = map_tasks_of 0 files;
  reduce_tasks = reduce_tasks_of 0 n_reduce;
  n_map = length files;
  n_reduce = n_reduce;
}

unfoldable pub done : Coordinator → Bool
done c = elim c.phase [ done_phase ↦ true | _ ↦ false ]

abbrev pub is_completed : TaskStatus → Bool
is_completed completed = true
is_completed _ = false

abbrev pub is_in_progress : TaskStatus → Bool
is_in_progress in_progress = true
is_in_progress _ = false

-- allMapTasksDone and allReduceTasksDone
abbrev pub all_done : List Task → Bool
all_done [] = true
all_done (t ∷ ts) = if is_completed t.status then all_done ts else false

abbrev pub timeout : ℕ
timeout = 10000000000

abbrev pub task_timed_out : ℕ → Task → Bool
task_timed_out now t = is_in_progress t.status && ltb (t.start_time + timeout) now

-- May the task be handed out?
abbrev pub is_ready : ℕ → Task → Bool
is_ready now t = elim t.status [ idle ↦ true | _ ↦ task_timed_out now t ]

abbrev pub started : ℕ → Task → Task
started now t = record t { status = in_progress; start_time = now }

abbrev pub behind : Task → Option (Task × List Task) → Option (Task × List Task)
behind t none = none
behind t (some (u, ts)) = some (u, t ∷ ts)

-- The loop over the tasks: the first that may be handed out, and the tasks with it started.
unfoldable pub hand_out : ℕ → List Task → Option (Task × List Task)
hand_out now [] = none
hand_out now (t ∷ ts) =
    if is_ready now t then some (t, started now t ∷ ts) else behind t (hand_out now ts)

abbrev pub reply_with : Coordinator → TaskType → ℕ → String → RequestTaskReply
reply_with c task_type id file_name = record {
  task_type = task_type;
  task_id = id;
  file_name = file_name;
  n_reduce = c.n_reduce;
  n_map = c.n_map;
}

-- The part of RequestTask for the reduce phase.
unfoldable pub request_reduce : Coordinator → ℕ → RequestTaskReply × Coordinator
unfolding hand_out
request_reduce c now =
    if all_done c.reduce_tasks
    then (reply_with c exit_task 0 "", record c { phase = done_phase })
    else elim (hand_out now c.reduce_tasks) [
      | some (t, tasks) ↦ (reply_with c reduce_task t.id "", record c { reduce_tasks = tasks })
      | none ↦ (reply_with c wait_task 0 "", c)
    ]

unfoldable pub request_task : Coordinator → ℕ → RequestTaskReply × Coordinator
unfolding request_reduce hand_out
request_task c now = elim c.phase [
  | map_phase ↦
      if all_done c.map_tasks
      then request_reduce (record c { phase = reduce_phase }) now
      else elim (hand_out now c.map_tasks) [
        | some (t, tasks) ↦ (reply_with c map_task t.id t.file_name, record c { map_tasks = tasks })
        | none ↦ (reply_with c wait_task 0 "", c)
      ]
  | reduce_phase ↦ request_reduce c now
  | done_phase ↦ (reply_with c exit_task 0 "", c)
]

-- A task in progress is completed.
abbrev pub complete : List Task → ℕ → List Task
complete [] i = []
complete (t ∷ ts) zero =
    (if is_in_progress t.status then record t { status = completed } else t) ∷ ts
complete (t ∷ ts) (suc i) = t ∷ complete ts i

abbrev pub report_map : Coordinator → ℕ → Coordinator
report_map c i = elim c.phase [
  | map_phase ↦
      let tasks = complete c.map_tasks i in
      record c { map_tasks = tasks; phase = if all_done tasks then reduce_phase else map_phase }
  | _ ↦ c
]

abbrev pub report_reduce : Coordinator → ℕ → Coordinator
report_reduce c i = elim c.phase [
  | reduce_phase ↦
      let tasks = complete c.reduce_tasks i in
      record c { reduce_tasks = tasks; phase = if all_done tasks then done_phase else reduce_phase }
  | _ ↦ c
]

abbrev pub in_range : ℤ → List Task → Option ℕ
in_range (negsuc n) tasks = none
in_range (pos i) tasks = if ltb i (length tasks) then some i else none

unfoldable pub report_task : Coordinator → ReportTaskArgs → Coordinator
report_task c args = elim args.task_type [
  | map_task ↦ elim (in_range args.task_id c.map_tasks) [ some i ↦ report_map c i | none ↦ c ]
  | reduce_task ↦ elim (in_range args.task_id c.reduce_tasks) [
    | some i ↦ report_reduce c i
    | none ↦ c
  ]
  | _ ↦ c
]

-- The calls of the workers, each request at its time.
pub data Call : Type 0 where
  request : (now : ℕ) → Call
  report : ReportTaskArgs → Call

unfoldable pub run : Coordinator → List Call → Coordinator
unfolding request_task report_task
run c [] = c
run c (request now ∷ calls) = run (request_task c now).1 calls
run c (report args ∷ calls) = run (report_task c args) calls
