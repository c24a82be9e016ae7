-- ===== src/Raft/Append.antt =====
-- src/raft1/raft.go, AppendEntries: the consistency check, the merge of the entries, and the
-- follower's commit index.
use raft_sharded_kv.Prelude.{
  ℕ, zero, suc, ◌+◌, Bool, true, false, List, [], ◌∷◌, Option, none, some, ℤ, pos, minus_one, ltb,
  leb, ◌==◌, ◌&&◌, ◌||◌, if◌then◌else◌, length,
}
use raft_sharded_kv.Raft.Types.{
  Raft, LogEntry, Coding, AppendEntriesArgs, AppendEntriesReply, Clock,
}
use raft_sharded_kv.Raft.Log.{
  last_log_index, first_log_index, term_at, to_offset, append_logs, truncate_logs,
}
use raft_sharded_kv.Raft.Encoding.{persist}
use raft_sharded_kv.Raft.Roles.{become_follower, reset_election_deadline}

abbrev pub has_term : Option ℕ → ℕ → Bool
has_term none term = false
has_term (some t) term = t == term

-- The reply after the check.
abbrev pub checked_reply : ℕ → Option (ℤ × ℕ) → AppendEntriesReply
checked_reply term none = record {
  term = term;
  success = true;
  stopped = false;
  conflict_term = minus_one;
  conflict_index = 0;
}
checked_reply term (some (t, i)) = record {
  term = term;
  success = false;
  stopped = false;
  conflict_term = t;
  conflict_index = i;
}

-- The entry is there with the term, is missing, or conflicts.
pub data Found : Type 0 where
  matches skipped conflicts : Found

abbrev pub compare_term : Option ℕ → ℕ → Found
compare_term none term = skipped
compare_term (some t) term = if t == term then matches else conflicts

abbrev pub stale_reply : ℕ → Bool → AppendEntriesReply
stale_reply term stopped = record {
  term = term;
  success = false;
  stopped = stopped;
  conflict_term = minus_one;
  conflict_index = 0;
}

module _ {A : Type 0} where
  -- The loop that looks for the first entry of the conflicting term.
  unfoldable pub first_of_conflict : Raft A → ℕ → ℕ → ℕ
  first_of_conflict rf term zero = zero
  first_of_conflict rf term (suc i) =
      let rest = first_of_conflict rf term i in
      if ltb (first_log_index rf) (suc i) && has_term (term_at rf i) term then rest else suc i

  -- The refusals of the consistency check: ConflictTerm and ConflictIndex, and `none` if the
  -- entry before the new ones matches.
  abbrev pub check_term : Raft A → ℕ → ℕ → Option ℕ → Option (ℤ × ℕ)
  check_term rf index term none = some (minus_one, 0)
  check_term rf index term (some t) =
      if t == term then none else some (pos t, first_of_conflict rf t index)

  unfoldable pub check_prev : Raft A → ℕ → ℕ → Option (ℤ × ℕ)
  unfolding first_of_conflict
  check_prev rf index term =
      if ltb (last_log_index rf) index
      then some (minus_one, last_log_index rf + 1)
      else if ltb index (first_log_index rf)
      then some (minus_one, first_log_index rf + 1)
      else check_term rf index term (term_at rf index)

  -- The advance of the commit index to the leader's, not past the last entry known to match.
  unfoldable pub follow_commit : Raft A → ℕ → ℕ → Raft A
  follow_commit rf leader_commit last_new =
      if ltb rf.commit_index leader_commit
      then (let new_commit = if ltb last_new leader_commit then last_new else leader_commit in
          if ltb rf.commit_index new_commit then record rf { commit_index = new_commit } else rf)
      else rf

module _ {A : Type 0} (c : Coding A) where
  -- The loop over the entries, with the absolute index of the first of them; the Boolean is
  -- `changed`.
  unfoldable pub merge : Raft A → ℕ → List (LogEntry A) → Raft A × Bool
  unfolding append_logs truncate_logs
  merge rf index [] = (rf, false)
  merge rf index (e ∷ es) =
      let rest = merge rf (index + 1) es in
      if leb index (last_log_index rf)
      then (let found = compare_term (term_at rf index) e.term in
          elim found [
            | matches ↦ rest
            | skipped ↦ rest
            | conflicts ↦ (append_logs c (truncate_logs rf (to_offset rf index)) (e ∷ es), true)
          ])
      else (append_logs c rf (e ∷ es), true)

  unfoldable pub merge_and_save : Raft A → ℕ → List (LogEntry A) → Raft A
  unfolding persist
  merge_and_save rf index entries =
      let (rf', changed) = merge rf index entries in if changed then persist rf' else rf'

  -- The handler after the check.
  unfoldable pub accept : Raft A → AppendEntriesArgs A → Raft A
  unfolding follow_commit
  accept rf args =
      follow_commit (merge_and_save rf (args.prev_log_index + 1) args.entries) args.leader_commit
        (args.prev_log_index + length args.entries)

  abbrev finish : Raft A → AppendEntriesArgs A → Option (ℤ × ℕ) → Raft A
  finish rf args none = accept rf args
  finish rf args (some refusal) = rf

  unfoldable pub append_entries : Clock → Raft A → AppendEntriesArgs A → AppendEntriesReply × Raft A
  unfolding check_prev become_follower reset_election_deadline
  append_entries clock rf args =
      if rf.dead || ltb args.term rf.current_term
      then (stale_reply rf.current_term rf.dead, rf)
      else (let rf' = reset_election_deadline clock (become_follower rf args.term) in
          let verdict = check_prev rf' args.prev_log_index args.prev_log_term in
          (checked_reply rf'.current_term verdict, finish rf' args verdict))
