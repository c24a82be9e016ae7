-- ===== src/Raft/Replicate.antt =====
-- src/raft1/raft.go: replicateUntilStable, cut where it gives up the mutex into the request it
-- builds and the handling of the reply, with the heartbeats, the notices to workers, and Start.
use raft_sharded_kv.Prelude.{
  ℕ, zero, suc, ◌+◌, ◌-◌, Bool, true, false, not, List, [], ◌∷◌, Option, none, some, ℤ, pos, negsuc,
  minus_one, ltb, leb, ◌==◌, ◌||◌, if◌then◌else◌, length, get_or, set, drop,
}
use raft_sharded_kv.Raft.Types.{
  Raft, is_leader, Coding, AppendEntriesArgs, AppendEntriesReply, InstallSnapshotArgs,
  InstallSnapshotReply, Clock,
}
use raft_sharded_kv.Raft.Log.{last_log_index, term_at, to_offset, append_logs, last_index_of_term}
use raft_sharded_kv.Raft.Encoding.{persist}
use raft_sharded_kv.Raft.Roles.{become_follower, reset_election_deadline}
use raft_sharded_kv.Raft.Commit.{advance_commit_index}

pub data Message (A : Type 0) : Type 0 where
  install : InstallSnapshotArgs → Message A
  append : AppendEntriesArgs A → Message A

-- What the worker does after a reply: whether it goes round again, and whether it tells the
-- others of a new commit index.
pub record Outcome : Type 0 where
  pub again : Bool
  pub broadcast : Bool

abbrev pub stop : Outcome
stop = record { again = false; broadcast = false }

abbrev jump_to : ℕ → ℤ → ℕ
jump_to index (pos last) = last + 1
jump_to index (negsuc n) = index

-- A notice for every other peer; `rounds` peers are left, from `peer` on.
unfoldable pub notify_from : ℕ → ℕ → ℕ → List Bool → List Bool
notify_from zero peer me notices = notices
notify_from (suc rounds) peer me notices =
    notify_from rounds (peer + 1) me (if peer == me then notices else set notices peer true)

module _ {A : Type 0} where
  abbrev pub next_of : Raft A → ℕ → ℕ
  next_of rf peer = get_or rf.next_index peer 0

  abbrev pub match_of : Raft A → ℕ → ℕ
  match_of rf peer = get_or rf.match_index peer 0

  abbrev append_request : Raft A → ℕ → Option ℕ → Option (Message A)
  append_request rf next none = none
  append_request rf next (some term) = some (
      append (record {
        term = rf.current_term;
        leader_id = rf.me;
        prev_log_index = next - 1;
        prev_log_term = term;
        entries = drop (to_offset rf next) rf.logs;
        leader_commit = rf.commit_index;
      }))

  -- The request of one round, or `none` where the worker returns.
  unfoldable pub build_request : Raft A → ℕ → Option (Message A)
  build_request rf peer =
      let next = next_of rf peer in
      if rf.dead || not (is_leader rf.state)
      then none
      else if leb next rf.last_included_index
      then some (
          install (record {
            term = rf.current_term;
            leader_id = rf.me;
            last_included_index = rf.last_included_index;
            last_included_term = rf.last_included_term;
            payload = rf.snapshot;
          }))
      else append_request rf next (term_at rf (next - 1))

  -- Raise the indices of a peer to what it is known to hold.
  unfoldable pub raise_progress : Raft A → ℕ → ℕ → Raft A
  raise_progress rf peer through = record rf {
    match_index =
        if ltb (match_of rf peer) through then set rf.match_index peer through else rf.match_index;
    next_index =
        if ltb (next_of rf peer) (through + 1)
        then set rf.next_index peer (through + 1)
        else rf.next_index;
  }

  -- The Boolean says that the worker goes round again.
  unfoldable pub handle_install_reply :
      Clock → Raft A → ℕ → InstallSnapshotArgs → InstallSnapshotReply → Raft A × Bool
  unfolding raise_progress become_follower reset_election_deadline
  handle_install_reply clock rf peer args reply =
      if rf.dead || reply.stopped
      then (rf, false)
      else if ltb rf.current_term reply.term
      then (reset_election_deadline clock (become_follower rf reply.term), false)
      else if not (is_leader rf.state) || not (rf.current_term == args.term)
      then (rf, false)
      else (raise_progress rf peer args.last_included_index, true)

  -- A success: the Boolean of advanceCommitIndexLocked counts only after progress.
  unfoldable pub handle_success : Raft A → ℕ → AppendEntriesArgs A → Raft A × Outcome
  unfolding raise_progress
  handle_success rf peer args =
      let raised = raise_progress rf peer (args.prev_log_index + length args.entries) in
      let (rf', advanced) =
        if ltb (match_of rf peer) (match_of raised peer)
        then advance_commit_index raised
        else (raised, false) in
      (
        rf',
        record { again = not (ltb (last_log_index rf') (next_of rf' peer)); broadcast = advanced },
      )

  -- The next index that the reply suggests. A term that no log can hold is looked for in vain.
  abbrev pub suggested : Raft A → ℤ → ℕ → ℕ
  suggested rf (pos term) index = jump_to index (last_index_of_term rf term)
  suggested rf (negsuc n) index = index

  -- The three bounds, in the order in which the code applies them.
  unfoldable pub clamp_next : Raft A → ℕ → ℕ → ℕ
  clamp_next rf peer next =
      let n1 = if ltb next 1 then 1 else next in
      let max_next = last_log_index rf + 1 in
      let n2 = if ltb max_next n1 then max_next else n1 in
      let min_next = match_of rf peer + 1 in if ltb n2 min_next then min_next else n2

  unfoldable pub handle_conflict :
      Raft A → ℕ → AppendEntriesArgs A → AppendEntriesReply → Raft A × Outcome
  unfolding clamp_next
  handle_conflict rf peer args reply =
      if not (next_of rf peer == args.prev_log_index + 1) then (rf, stop) else (
        record rf {
          next_index =
              set rf.next_index peer
                (clamp_next rf peer (suggested rf reply.conflict_term reply.conflict_index));
        },
        record { again = true; broadcast = false },
      )

  unfoldable pub handle_append_reply :
      Clock → Raft A → ℕ → AppendEntriesArgs A → AppendEntriesReply → Raft A × Outcome
  unfolding handle_success handle_conflict become_follower reset_election_deadline
  handle_append_reply clock rf peer args reply =
      if rf.dead || reply.stopped
      then (rf, stop)
      else if ltb rf.current_term reply.term
      then (reset_election_deadline clock (become_follower rf reply.term), stop)
      else if not (is_leader rf.state) || not (rf.current_term == args.term)
      then (rf, stop)
      else if reply.success
      then handle_success rf peer args
      else handle_conflict rf peer args reply

  -- The reply to an independent heartbeat.
  unfoldable pub handle_heartbeat_reply : Clock → Raft A → AppendEntriesReply → Raft A
  unfolding become_follower reset_election_deadline
  handle_heartbeat_reply clock rf reply =
      if rf.dead
      then rf
      else if ltb rf.current_term reply.term
      then reset_election_deadline clock (become_follower rf reply.term)
      else rf

  unfoldable pub broadcast_append_entries : Raft A → Raft A
  unfolding notify_from
  broadcast_append_entries rf =
      if rf.dead || not (is_leader rf.state)
      then rf
      else record rf { replicate_notify = notify_from rf.peers 0 rf.me rf.replicate_notify }

  -- replicationWorker: it takes the notice and is busy until replicateUntilStable returns.
  unfoldable pub set_busy : Raft A → ℕ → Bool → Raft A
  set_busy rf peer busy = record rf { replicate_busy = set rf.replicate_busy peer busy }

module _ {A : Type 0} (c : Coding A) where
  unfoldable pub append_command : Raft A → A → Raft A
  unfolding append_logs persist
  append_command rf command =
      let index = last_log_index rf + 1 in
      let rf' =
        persist
          (append_logs c rf (record { term = rf.current_term; command = some command } ∷ [])) in
      record rf' {
        match_index = set rf.match_index rf.me index;
        next_index = set rf.next_index rf.me (index + 1);
      }

  -- Index, term and whether the node leads; then the state.
  unfoldable pub start : Raft A → A → ℤ × ℕ × Bool × Raft A
  unfolding append_command broadcast_append_entries
  start rf command =
      if rf.dead || not (is_leader rf.state)
      then (minus_one, rf.current_term, false, rf)
      else (let rf' = append_command rf command in
          let rf'' = if rf.peers == 1 then (advance_commit_index rf').0 else rf' in
          (pos (last_log_index rf + 1), rf.current_term, true, broadcast_append_entries rf''))
