-- ===== src/Mr/Examples.antt =====
-- Tests of src/mr/coordinator.go on a small job.
use raft_sharded_kv.Prelude.{String, ◌≡◌, ◌≢◌, refl, true, false, List, [], ◌∷◌, pos}
use raft_sharded_kv.Mr.Coordinator.{
  map_phase, Coordinator, map_task, reduce_task, make_coordinator, done, all_done, request_task,
  report_task, Call, request, report, run,
}
use raft_sharded_kv.Mr.Phases.{AllCompleted, names, all_idle, job_phases}

abbrev two_files : List String
two_files = "a" ∷ "b" ∷ []

-- The second map task times out, and is handed out again.
abbrev whole_job : List Call
whole_job =
    request 1
    ∷ request 2
    ∷ request 3
    ∷ report (record { task_type = map_task; task_id = pos 0 })
    ∷ request 20000000000
    ∷ report (record { task_type = map_task; task_id = pos 1 })
    ∷ request 20000000001
    ∷ report (record { task_type = reduce_task; task_id = pos 0 })
    ∷ []

job_ends : done (run (make_coordinator two_files 1) whole_job) ≡ true
unfolding done run request_task report_task make_coordinator
job_ends = refl

job_phases_example :
    let start = make_coordinator two_files 1 in
    let c = run start whole_job in
    (names c.map_tasks ≡ names start.map_tasks)
    × (names c.reduce_tasks ≡ names start.reduce_tasks)
    × (c.phase ≡ map_phase → all_idle c.reduce_tasks ≡ true)
    × (c.phase ≢ map_phase → AllCompleted c.map_tasks)
    × (done c ≡ true → AllCompleted c.map_tasks × AllCompleted c.reduce_tasks)
job_phases_example = job_phases two_files 1 whole_job

abbrev new_job : Coordinator
new_job = make_coordinator two_files 1

new_phase : new_job.phase ≡ map_phase
unfolding make_coordinator
new_phase = refl

not_done : all_done new_job.map_tasks ≡ false
unfolding make_coordinator
not_done = refl
