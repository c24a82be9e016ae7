-- ===== src/Raft/Durable.antt =====
-- src/raft1/raft.go, persist: every handler saves what it changes of the persistent state before it
-- gives up the mutex.
use raft_sharded_kv.Prelude.{
  ℕ, ◌+◌, ◌≡◌, ◌∙◌, ◌⊎◌, inl, inr, false, arith, Bool-cases, List, [], ◌∷◌, Option-cases, length,
}
use raft_sharded_kv.Raft.Types.{
  Raft, LogEntry, Coding, Clock, Bytes, AppendEntriesArgs, AppendEntriesReply, InstallSnapshotArgs,
  InstallSnapshotReply, RequestVoteArgs, RequestVoteReply,
}
use raft_sharded_kv.Raft.Encoding.{persist, saved, encode_state}
use raft_sharded_kv.Raft.Log.{last_log_index}
use raft_sharded_kv.Raft.Roles.{become_follower, reset_election_deadline, kill}
use raft_sharded_kv.Raft.Vote.{request_vote, start_election, handle_vote_reply}
use raft_sharded_kv.Raft.Append.{
  append_entries, accept, merge, merge_and_save, check_prev, follow_commit,
}
use raft_sharded_kv.Raft.Snapshots.{take_snapshot, install_snapshot, install}
use raft_sharded_kv.Raft.Commit.{advance_commit_index, find_commit}
use raft_sharded_kv.Raft.Replicate.{
  handle_install_reply, handle_append_reply, handle_heartbeat_reply, start,
  broadcast_append_entries, append_command, raise_progress,
}
use raft_sharded_kv.Raft.Apply.{applier_turn}

module _ {A : Type 0} where
  -- The persistent state, and what is saved, are the same.
  pub record Same (rf rf' : Raft A) : Type 0 where
    pub persister : rf'.persister ≡ rf.persister
    pub term : rf'.current_term ≡ rf.current_term
    pub vote : rf'.voted_for ≡ rf.voted_for
    pub logs : rf'.logs ≡ rf.logs
    pub encoded : rf'.encoded_logs ≡ rf.encoded_logs
    pub index : rf'.last_included_index ≡ rf.last_included_index
    pub base : rf'.last_included_term ≡ rf.last_included_term
    pub payload : rf'.snapshot ≡ rf.snapshot

  -- What is saved is the persistent state.
  abbrev pub IsDurable : Raft A → Type 0
  IsDurable rf = rf.persister ≡ saved rf

  abbrev pub Saves : Raft A → Raft A → Type 0
  Saves rf rf' = IsDurable rf' ⊎ Same rf rf'

  pub Same-refl : (rf : Raft A) → Same rf rf
  Same-refl rf = ground arith

  pub follower-Saves :
      (clock : Clock) (rf : Raft A) (term : ℕ)
      → Saves rf (reset_election_deadline clock (become_follower rf term))
  unfolding reset_election_deadline become_follower saved encode_state persist
  follower-Saves clock rf term = ground arith

  pub request_vote-Saves :
      (clock : Clock) (rf : Raft A) (args : RequestVoteArgs)
      → Saves rf (request_vote clock rf args).1
  unfolding request_vote saved encode_state
  request_vote-Saves clock rf args = ground arith

  pub start_election-Saves : (clock : Clock) (rf : Raft A) → Saves rf (start_election clock rf).0
  unfolding start_election saved encode_state
  start_election-Saves clock rf = ground arith

  pub handle_vote_reply-Saves :
      (clock : Clock) (rf : Raft A) (term votes : ℕ) (reply : RequestVoteReply)
      → Saves rf (handle_vote_reply clock rf term votes reply).0
  unfolding handle_vote_reply saved encode_state
  handle_vote_reply-Saves clock rf term votes reply = ground arith

  pub kill-Saves : (rf : Raft A) → Saves rf (kill rf)
  unfolding kill
  kill-Saves rf = ground arith

  pub applier_turn-Saves : (rf : Raft A) → Saves rf (applier_turn rf).0
  unfolding applier_turn
  applier_turn-Saves rf = ground arith

  pub heartbeat-Saves :
      (clock : Clock) (rf : Raft A) (reply : AppendEntriesReply)
      → Saves rf (handle_heartbeat_reply clock rf reply)
  unfolding handle_heartbeat_reply saved encode_state
  heartbeat-Saves clock rf reply = ground arith

  pub broadcast-Saves : (rf : Raft A) → Saves rf (broadcast_append_entries rf)
  unfolding broadcast_append_entries
  broadcast-Saves rf = ground arith

  pub advance-Saves : (rf : Raft A) → Same rf (advance_commit_index rf).0
  unfolding advance_commit_index
  advance-Saves rf = elim (Option-cases (find_commit rf (last_log_index rf))) [
    | inl e ↦ ground arith
    | inr (m, e) ↦ ground arith
  ]

  pub raise-Saves : (rf : Raft A) (peer through : ℕ) → Same rf (raise_progress rf peer through)
  unfolding raise_progress
  raise-Saves rf peer through = ground arith

  pub Same-trans : {rf1 rf2 rf3 : Raft A} → Same rf1 rf2 → Same rf2 rf3 → Same rf1 rf3
  Same-trans s t = record {
    persister = t.persister ∙ s.persister;
    term = t.term ∙ s.term;
    vote = t.vote ∙ s.vote;
    logs = t.logs ∙ s.logs;
    encoded = t.encoded ∙ s.encoded;
    index = t.index ∙ s.index;
    base = t.base ∙ s.base;
    payload = t.payload ∙ s.payload;
  }

  pub Same-IsDurable : {rf rf' : Raft A} → Same rf rf' → IsDurable rf → IsDurable rf'
  unfolding saved encode_state
  Same-IsDurable {rf} {rf'} s d =
      ground (arith, s.persister, s.term, s.vote, s.logs, s.encoded, s.index, s.base, s.payload)

  Saves-trans : {rf1 rf2 rf3 : Raft A} → Saves rf1 rf2 → Saves rf2 rf3 → Saves rf1 rf3
  Saves-trans a (inl d) = inl d
  Saves-trans (inl d) (inr s) = inl (Same-IsDurable s d)
  Saves-trans (inr r) (inr s) = inr (Same-trans r s)

  pub handle_install_reply-Saves :
      (clock : Clock) (rf : Raft A) (peer : ℕ) (args : InstallSnapshotArgs)
      (reply : InstallSnapshotReply)
      → Saves rf (handle_install_reply clock rf peer args reply).0
  unfolding handle_install_reply saved encode_state
  handle_install_reply-Saves clock rf peer args reply = ground arith

  pub handle_append_reply-Saves :
      (clock : Clock) (rf : Raft A) (peer : ℕ) (args : AppendEntriesArgs A)
      (reply : AppendEntriesReply)
      → Saves rf (handle_append_reply clock rf peer args reply).0
  unfolding handle_append_reply
  handle_append_reply-Saves clock rf peer args reply =
      let through = args.prev_log_index + length args.entries in
      let raised = raise_progress rf peer through in
      ground (
        arith,
        follower-Saves clock rf reply.term,
        raise-Saves rf peer through,
        Same-trans (raise-Saves rf peer through) (advance-Saves raised),
      )

  broadcast-IsDurable : (rf : Raft A) → IsDurable rf → IsDurable (broadcast_append_entries rf)
  unfolding broadcast_append_entries saved encode_state
  broadcast-IsDurable rf d = ground arith

module _ {A : Type 0} (c : Coding A) where
  persist-IsDurable : (rf : Raft A) → IsDurable (persist rf)
  unfolding persist saved encode_state
  persist-IsDurable rf = ground arith

  pub take_snapshot-Saves :
      (rf : Raft A) (index : ℕ) (payload : Bytes) → Saves rf (take_snapshot c rf index payload)
  unfolding take_snapshot saved encode_state
  take_snapshot-Saves rf index payload = ground arith

  pub install-Saves : (rf : Raft A) (args : InstallSnapshotArgs) → IsDurable (install c rf args)
  unfolding install saved encode_state
  install-Saves rf args = ground arith

  pub install_snapshot-Saves :
      (clock : Clock) (rf : Raft A) (args : InstallSnapshotArgs)
      → Saves rf (install_snapshot c clock rf args).1
  unfolding install_snapshot
  install_snapshot-Saves clock rf args = ground (
    arith,
    follower-Saves clock rf args.term,
    install-Saves (reset_election_deadline clock (become_follower rf args.term)) args,
  )

  merge-Same :
      (rf : Raft A) (index : ℕ) (es : List (LogEntry A))
      → (merge c rf index es).1 ≡ false
      → Same rf (merge c rf index es).0
  unfolding merge
  merge-Same rf index [] h = Same-refl rf
  merge-Same rf index (e ∷ es) h = ground (arith, merge-Same rf (index + 1) es)

  follow_commit-Same :
      (rf : Raft A) (leader_commit last_new : ℕ) → Same rf (follow_commit rf leader_commit last_new)
  unfolding follow_commit
  follow_commit-Same rf leader_commit last_new = ground arith

  pub merge_and_save-Saves :
      (rf : Raft A) (index : ℕ) (es : List (LogEntry A)) → Saves rf (merge_and_save c rf index es)
  unfolding merge_and_save
  merge_and_save-Saves rf index es = elim (Bool-cases (merge c rf index es).1) [
    | inl e ↦ rw e (inl (persist-IsDurable (merge c rf index es).0))
    | inr e ↦ rw e (inr (merge-Same rf index es e))
  ]

  pub accept-Saves : (rf : Raft A) (args : AppendEntriesArgs A) → Saves rf (accept c rf args)
  unfolding accept
  accept-Saves rf args =
      let saved_rf = merge_and_save c rf (args.prev_log_index + 1) args.entries in
      Saves-trans (merge_and_save-Saves rf (args.prev_log_index + 1) args.entries) (
        inr (
          follow_commit-Same saved_rf args.leader_commit
            (args.prev_log_index + length args.entries)))

  pub append_entries-Saves :
      (clock : Clock) (rf : Raft A) (args : AppendEntriesArgs A)
      → Saves rf (append_entries c clock rf args).1
  unfolding append_entries
  append_entries-Saves clock rf args =
      let rf' = reset_election_deadline clock (become_follower rf args.term) in
      elim (Option-cases (check_prev rf' args.prev_log_index args.prev_log_term)) [
        | inl passed ↦ ground (
          arith,
          Same-refl rf,
          Saves-trans (follower-Saves clock rf args.term) (accept-Saves rf' args),
        )
        | inr ((t, i), refusal) ↦ ground (arith, Same-refl rf, follower-Saves clock rf args.term)
      ]

  pub append_command-Saves : (rf : Raft A) (command : A) → IsDurable (append_command c rf command)
  unfolding append_command saved encode_state
  append_command-Saves rf command = ground arith

  pub start-Saves : (rf : Raft A) (command : A) → Saves rf (start c rf command).3
  unfolding start
  start-Saves rf command =
      let rf' = append_command c rf command in
      let d = append_command-Saves rf command in
      let d' = Same-IsDurable (advance-Saves rf') d in
      ground (
        arith,
        Same-refl rf,
        broadcast-IsDurable rf' d,
        broadcast-IsDurable (advance_commit_index rf').0 d',
      )
