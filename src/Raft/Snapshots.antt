-- ===== src/Raft/Snapshots.antt =====
-- src/raft1/raft.go: Snapshot, which compacts the log, and the handler InstallSnapshot.
use raft_sharded_kv.Prelude.{
  ℕ, ◌+◌, ◌-◌, false, List, [], ◌∷◌, Option, none, some, ltb, leb, ◌==◌, ◌||◌, if◌then◌else◌, drop,
}
use raft_sharded_kv.Raft.Types.{
  Raft, LogEntry, Bytes, snapshot_msg, Coding, InstallSnapshotArgs, InstallSnapshotReply, Clock,
}
use raft_sharded_kv.Raft.Log.{last_log_index, term_at, to_offset, entry_at, replace_logs}
use raft_sharded_kv.Raft.Encoding.{persist}
use raft_sharded_kv.Raft.Roles.{become_follower, reset_election_deadline}

abbrev pub boundary : {A : Type 0} → ℕ → LogEntry A
boundary term = record { term = term; command = none }

module _ {A : Type 0} (c : Coding A) where
  unfoldable pub compact : Raft A → ℕ → Bytes → Raft A
  unfolding replace_logs persist
  compact rf index payload =
      let cut = index - rf.last_included_index in
      let term = (entry_at rf.logs cut).term in
      persist
        (record (replace_logs c
          (record rf { last_included_index = index; last_included_term = term })
          (boundary term ∷ drop (cut + 1) rf.logs)) { snapshot = payload })

  unfoldable pub take_snapshot : Raft A → ℕ → Bytes → Raft A
  unfolding compact
  take_snapshot rf index payload =
      if rf.dead
        || (leb index rf.last_included_index
            || (ltb rf.last_applied index || ltb (last_log_index rf) index))
      then rf
      else compact rf index payload

  -- The entries behind the boundary, kept where the log agrees with the snapshot there.
  abbrev pub suffix_if : Raft A → ℕ → ℕ → Option ℕ → List (LogEntry A)
  suffix_if rf index term none = []
  suffix_if rf index term (some t) = if t == term then drop (to_offset rf index + 1) rf.logs else []

  unfoldable pub install : Raft A → InstallSnapshotArgs → Raft A
  unfolding replace_logs persist
  install rf args =
      let index = args.last_included_index in
      let term = args.last_included_term in
      let logs = boundary term ∷ suffix_if rf index term (term_at rf index) in
      let saved =
        persist
          (record (replace_logs c
            (record rf { last_included_index = index; last_included_term = term }) logs) {
              snapshot = args.payload;
              commit_index = index;
              last_applied = index;
            }) in
      record saved { pending_snapshot = some (snapshot_msg args.payload term index) }

  unfoldable pub install_snapshot :
      Clock → Raft A → InstallSnapshotArgs → InstallSnapshotReply × Raft A
  unfolding install become_follower reset_election_deadline
  install_snapshot clock rf args =
      if rf.dead || ltb args.term rf.current_term
      then (record { term = rf.current_term; stopped = rf.dead }, rf)
      else (let rf' = reset_election_deadline clock (become_follower rf args.term) in
          (
            record { term = rf'.current_term; stopped = false },
            if leb args.last_included_index rf'.commit_index then rf' else install rf' args,
          ))
