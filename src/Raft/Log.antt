-- ===== src/Raft/Log.antt =====
-- src/raft1/raft.go: the index helpers over the compacted log, whose first entry stands for the
-- snapshot, and the writes that keep the cache of encoded entries beside it.
use raft_sharded_kv.Prelude.{
  ℕ, zero, suc, ◌+◌, ◌-◌, Bool, List, ◌++◌, map, Option, none, some, ℤ, pos, minus_one, leb, ◌==◌,
  ◌&&◌, if◌then◌else◌, length, get_or, take,
}
use raft_sharded_kv.Raft.Types.{Raft, LogEntry, Coding}

module _ {A : Type 0} where
  -- The value that the model reads out of range, where the code would panic.
  abbrev pub no_entry : LogEntry A
  no_entry = record { term = 0; command = none }

  abbrev pub first_log_index : Raft A → ℕ
  first_log_index rf = rf.last_included_index

  abbrev pub last_log_index : Raft A → ℕ
  last_log_index rf = rf.last_included_index + length rf.logs - 1

  abbrev pub to_offset : Raft A → ℕ → ℕ
  to_offset rf index = index - rf.last_included_index

  abbrev pub contains_index : Raft A → ℕ → Bool
  contains_index rf index = leb rf.last_included_index index && leb index (last_log_index rf)

  abbrev pub entry_at : List (LogEntry A) → ℕ → LogEntry A
  entry_at logs offset = get_or logs offset no_entry

  -- The result (0, false) is `none`.
  unfoldable pub term_at : Raft A → ℕ → Option ℕ
  term_at rf index =
      if contains_index rf index then some (entry_at rf.logs (to_offset rf index)).term else none

  unfoldable pub last_log_term : Raft A → ℕ
  last_log_term rf = (entry_at rf.logs (length rf.logs - 1)).term

  -- The offset of the last entry of a term among the first n entries.
  unfoldable pub last_offset_of_term : List (LogEntry A) → ℕ → ℕ → Option ℕ
  last_offset_of_term logs term zero = none
  last_offset_of_term logs term (suc offset) =
      let rest = last_offset_of_term logs term offset in
      if (entry_at logs offset).term == term then some offset else rest

  abbrev absolute : Raft A → Option ℕ → ℤ
  absolute rf none = minus_one
  absolute rf (some offset) = pos (rf.last_included_index + offset)

  unfoldable pub last_index_of_term : Raft A → ℕ → ℤ
  unfolding last_offset_of_term
  last_index_of_term rf term = absolute rf (last_offset_of_term rf.logs term (length rf.logs))

  unfoldable pub truncate_logs : Raft A → ℕ → Raft A
  truncate_logs rf length' = record rf {
    logs = take length' rf.logs;
    encoded_logs = take length' rf.encoded_logs;
  }

module _ {A : Type 0} (c : Coding A) where
  abbrev pub rebuild_encoded_logs : Raft A → Raft A
  rebuild_encoded_logs rf = record rf { encoded_logs = map c.encode rf.logs }

  unfoldable pub append_logs : Raft A → List (LogEntry A) → Raft A
  append_logs rf entries = record rf {
    logs = rf.logs ++ entries;
    encoded_logs = rf.encoded_logs ++ map c.encode entries;
  }

  unfoldable pub replace_logs : Raft A → List (LogEntry A) → Raft A
  replace_logs rf logs = rebuild_encoded_logs (record rf { logs = logs })
