-- ===== src/Raft/Invariant.antt =====
-- src/raft1/raft.go: what holds of a node between two calls, and that every handler keeps it.
use raft_sharded_kv.Prelude.{
  ℕ, zero, suc, ◌+◌, ◌-◌, ◌<◌, ◌≤◌, ◌≡◌, refl, ap, ◌∙◌, inl, inr, false, arith, List, [], ◌∷◌, ◌++◌,
  map, Option, none, some, length, length-append, length-map, drop, map-append_lem,
  get_or-append_left, Option-cases,
}
use raft_sharded_kv.Raft.Types.{
  Raft, LogEntry, Coding, ApplyMsg, command_msg, snapshot_msg, AppendEntriesArgs,
  AppendEntriesReply, InstallSnapshotArgs, InstallSnapshotReply, RequestVoteArgs, RequestVoteReply,
  Clock, Bytes,
}
use raft_sharded_kv.Raft.Encoding.{persist}
use raft_sharded_kv.Raft.Log.{
  no_entry, truncate_logs, last_log_index, entry_at, term_at, append_logs,
}
use raft_sharded_kv.Raft.Roles.{become_follower, reset_election_deadline, kill}
use raft_sharded_kv.Raft.Vote.{request_vote, start_election, handle_vote_reply}
use raft_sharded_kv.Raft.Append.{append_entries, accept, merge, merge_and_save, check_prev}
use raft_sharded_kv.Raft.Snapshots.{take_snapshot, install_snapshot, compact, install, suffix_if}
use raft_sharded_kv.Raft.Commit.{advance_commit_index, find_commit}
use raft_sharded_kv.Raft.Replicate.{
  handle_install_reply, handle_append_reply, handle_heartbeat_reply, start, append_command,
  raise_progress, broadcast_append_entries,
}
use raft_sharded_kv.Raft.Apply.{applier_turn}
use raft_sharded_kv.Raft.Merging.{merge-Merged}

module _ {A : Type 0} (c : Coding A) where
  -- A pending snapshot is behind the applied index.
  abbrev pub PendingBelow : Option (ApplyMsg A) → ℕ → Type 0
  PendingBelow none n = Unit {0}
  PendingBelow (some (command_msg command index)) n = Unit {0}
  PendingBelow (some (snapshot_msg payload term index)) n = index ≤ n

  pub record IsWellFormed (rf : Raft A) : Type 0 where
    pub some_log : 0 < length rf.logs
    pub cached : rf.encoded_logs ≡ map c.encode rf.logs
    pub base_term : (entry_at rf.logs 0).term ≡ rf.last_included_term
    pub base_applied : rf.last_included_index ≤ rf.last_applied
    pub applied : rf.last_applied ≤ rf.commit_index
    pub pending : PendingBelow rf.pending_snapshot rf.last_applied
    pub sound : rf.panicked ≡ false

  cached_length :
      (rf : Raft A)
      → rf.encoded_logs ≡ map c.encode rf.logs
      → length rf.encoded_logs ≡ length rf.logs
  cached_length rf h = ap length h ∙ length-map rf.logs c.encode

  pub merge_frame :
      (rf : Raft A) (index : ℕ) (es : List (LogEntry A))
      → let rf' = (merge c rf index es).0 in
        (rf'.last_applied ≡ rf.last_applied)
        × (rf'.commit_index ≡ rf.commit_index)
        × (rf'.pending_snapshot ≡ rf.pending_snapshot)
        × (rf'.panicked ≡ rf.panicked)
        × (rf'.last_included_term ≡ rf.last_included_term)
  unfolding merge append_logs truncate_logs
  merge_frame rf index [] = (refl, refl, refl, refl, refl)
  merge_frame rf index (e ∷ es) = ground (arith, merge_frame rf (index + 1) es)

  -- What the check of the entry before the new ones has found when it passes.
  pub check_prev_passes :
      (rf : Raft A) (index term : ℕ)
      → 0 < length rf.logs
      → check_prev rf index term ≡ none
      → (rf.last_included_index ≤ index)
        × (index ≤ last_log_index rf)
        × ((entry_at rf.logs (index - rf.last_included_index)).term ≡ term)
  unfolding check_prev term_at
  check_prev_passes rf index term some_log h = ground arith

  accept-IsWellFormed :
      (rf : Raft A) (args : AppendEntriesArgs A)
      → IsWellFormed rf
      → rf.last_included_index ≤ args.prev_log_index
      → args.prev_log_index ≤ last_log_index rf
      → IsWellFormed (accept c rf args)
  unfolding accept merge_and_save persist
  accept-IsWellFormed rf args v low high =
      let index = args.prev_log_index + 1 in
      let m =
        merge-Merged c args.entries rf index (omega arith) (omega (arith, v.some_log)) v.some_log in
      let rf' = (merge c rf index args.entries).0 in
      ground (
        arith,
        v,
        m.base,
        m.longer,
        m.below 0,
        m.cached v.cached,
        merge_frame rf index args.entries,
        cached_length rf' (m.cached v.cached),
      )

  -- A committed index is new, and the log holds it.
  pub find_commit_above :
      (rf : Raft A) (n m : ℕ) → find_commit rf n ≡ some m → (rf.commit_index < m) × (m ≤ n)
  unfolding find_commit
  find_commit_above rf zero m h = cc
  find_commit_above rf (suc n) m h = ground (arith, find_commit_above rf n m)

  follower-IsWellFormed :
      (clock : Clock) (rf : Raft A) (term : ℕ)
      → IsWellFormed rf
      → IsWellFormed (reset_election_deadline clock (become_follower rf term))
  unfolding reset_election_deadline become_follower
  follower-IsWellFormed clock rf term v = ground (arith, cached_length rf v.cached)

  compact-IsWellFormed :
      (rf : Raft A) (index : ℕ) (payload : Bytes)
      → IsWellFormed rf
      → index ≤ rf.last_applied
      → IsWellFormed (compact c rf index payload)
  unfolding compact
  compact-IsWellFormed rf index payload v h =
      ground (arith, length-map (drop (index - rf.last_included_index + 1) rf.logs) c.encode)

  install-IsWellFormed :
      (rf : Raft A) (args : InstallSnapshotArgs)
      → IsWellFormed rf
      → IsWellFormed (install c rf args)
  unfolding install
  install-IsWellFormed rf args v =
      let index = args.last_included_index in
      let kept = suffix_if c rf index args.last_included_term (term_at rf index) in
      ground (arith, length-map kept c.encode)

  raise-IsWellFormed :
      (rf : Raft A) (peer through : ℕ)
      → IsWellFormed rf
      → IsWellFormed (raise_progress rf peer through)
  unfolding raise_progress
  raise-IsWellFormed rf peer through v = ground arith

  append_command-IsWellFormed :
      (rf : Raft A) (command : A) → IsWellFormed rf → IsWellFormed (append_command c rf command)
  unfolding append_command append_logs
  append_command-IsWellFormed rf command v =
      let e : List (LogEntry A) = record { term = rf.current_term; command = some command } ∷ [] in
      ground (
        arith,
        map-append_lem c.encode rf.logs e,
        length-append rf.logs e,
        length-map (rf.logs ++ e) c.encode,
        get_or-append_left rf.logs e 0 no_entry v.some_log,
      )

  advance-IsWellFormed : (rf : Raft A) → IsWellFormed rf → IsWellFormed (advance_commit_index rf).0
  unfolding advance_commit_index
  advance-IsWellFormed rf v = elim (Option-cases (find_commit rf (last_log_index rf))) [
    | inl e ↦ ground arith
    | inr (m, e) ↦ ground (arith, find_commit_above rf (last_log_index rf) m)
  ]

  module _ (clock : Clock) (rf : Raft A) (v : IsWellFormed rf) where
    pub request_vote-IsWellFormed :
        (args : RequestVoteArgs) → IsWellFormed (request_vote clock rf args).1
    unfolding request_vote
    request_vote-IsWellFormed args = ground (arith, cached_length rf v.cached)

    pub start_election-IsWellFormed : IsWellFormed (start_election clock rf).0
    unfolding start_election
    start_election-IsWellFormed = ground (arith, cached_length rf v.cached)

    pub handle_vote_reply-IsWellFormed :
        (term votes : ℕ) (reply : RequestVoteReply)
        → IsWellFormed (handle_vote_reply clock rf term votes reply).0
    unfolding handle_vote_reply
    handle_vote_reply-IsWellFormed term votes reply = ground (arith, cached_length rf v.cached)

    pub applier_turn-IsWellFormed : IsWellFormed (applier_turn rf).0
    unfolding applier_turn
    applier_turn-IsWellFormed = ground arith

    pub kill-IsWellFormed : IsWellFormed (kill rf)
    unfolding kill
    kill-IsWellFormed = ground arith

    pub take_snapshot-IsWellFormed :
        (index : ℕ) (payload : Bytes) → IsWellFormed (take_snapshot c rf index payload)
    unfolding take_snapshot
    take_snapshot-IsWellFormed index payload =
        ground (arith, compact-IsWellFormed rf index payload v)

    pub install_snapshot-IsWellFormed :
        (args : InstallSnapshotArgs) → IsWellFormed (install_snapshot c clock rf args).1
    unfolding install_snapshot
    install_snapshot-IsWellFormed args = ground (
      arith,
      install-IsWellFormed (reset_election_deadline clock (become_follower rf args.term)) args,
      follower-IsWellFormed clock rf args.term v,
    )

    pub append_entries-IsWellFormed :
        (args : AppendEntriesArgs A) → IsWellFormed (append_entries c clock rf args).1
    unfolding append_entries
    append_entries-IsWellFormed args =
        let rf' = reset_election_deadline clock (become_follower rf args.term) in
        ground (
          arith,
          follower-IsWellFormed clock rf args.term v,
          check_prev_passes rf' args.prev_log_index args.prev_log_term,
          accept-IsWellFormed rf' args,
        )

    pub start-IsWellFormed : (command : A) → IsWellFormed (start c rf command).3
    unfolding start
    start-IsWellFormed command = ground (
      arith,
      append_command-IsWellFormed rf command v,
      advance-IsWellFormed (append_command c rf command),
    )

    pub handle_append_reply-IsWellFormed :
        (peer : ℕ) (args : AppendEntriesArgs A) (reply : AppendEntriesReply)
        → IsWellFormed (handle_append_reply clock rf peer args reply).0
    unfolding handle_append_reply
    handle_append_reply-IsWellFormed peer args reply =
        let through = args.prev_log_index + length args.entries in
        ground (
          arith,
          cached_length rf v.cached,
          advance-IsWellFormed (raise_progress rf peer through),
          raise-IsWellFormed rf peer through v,
        )

    pub handle_install_reply-IsWellFormed :
        (peer : ℕ) (args : InstallSnapshotArgs) (reply : InstallSnapshotReply)
        → IsWellFormed (handle_install_reply clock rf peer args reply).0
    unfolding handle_install_reply
    handle_install_reply-IsWellFormed peer args reply = ground (arith, cached_length rf v.cached)

    pub handle_heartbeat_reply-IsWellFormed :
        (reply : AppendEntriesReply) → IsWellFormed (handle_heartbeat_reply clock rf reply)
    unfolding handle_heartbeat_reply
    handle_heartbeat_reply-IsWellFormed reply = ground (arith, cached_length rf v.cached)

    pub broadcast_append_entries-IsWellFormed : IsWellFormed (broadcast_append_entries rf)
    unfolding broadcast_append_entries
    broadcast_append_entries-IsWellFormed = ground arith
