-- ===== src/Raft/Committed.antt =====
-- src/raft1/raft.go: committed entries survive AppendEntries, and the leader commits only what a
-- majority holds.
use raft_sharded_kv.Prelude.{
  ℕ, suc, ◌+◌, ◌-◌, ◌<◌, ◌≤◌, ◌≡◌, ◌≢◌, refl, sym, ap, ◌∙◌, inl, inr, true, arith, Bool-cases, List,
  [], ◌∷◌, length, leb,
}
use raft_sharded_kv.Raft.Types.{Raft, LogEntry, Coding, AppendEntriesArgs, Clock}
use raft_sharded_kv.Raft.Log.{last_log_index, entry_at}
use raft_sharded_kv.Raft.Append.{append_entries, accept, merge}
use raft_sharded_kv.Raft.Merging.{merge-Merged, merge_cases}
use raft_sharded_kv.Raft.Invariant.{IsWellFormed, check_prev_passes}
use raft_sharded_kv.Raft.Agreement.{
  accept_logs, append_entries_accepts, accept_commit, following, following_same,
}

module _ {A : Type 0} (c : Coding A) where
  -- The first m entries of the log are those of another.
  abbrev pub Keeps : ℕ → List (LogEntry A) → List (LogEntry A) → Type 0
  Keeps m old new = (m ≤ length new) × ((k : ℕ) → k < m → entry_at new k ≡ entry_at old k)

  -- The entries have the terms of the log wherever they meet its first m entries.
  abbrev pub Meets : ℕ → Raft A → ℕ → List (LogEntry A) → Type 0
  Meets m rf index es =
      (k : ℕ)
      → k < length es
      → index - rf.last_included_index + k < m
      → (entry_at es k).term ≡ (entry_at rf.logs (index - rf.last_included_index + k)).term

  merge-Keeps :
      (es : List (LogEntry A)) (rf : Raft A) (index m : ℕ)
      → rf.last_included_index ≤ index
      → index - rf.last_included_index ≤ length rf.logs
      → 0 < length rf.logs
      → m ≤ length rf.logs
      → Meets m rf index es
      → Keeps m rf.logs (merge c rf index es).0.logs
  merge-Keeps [] rf index m low fits some_log inside meets = unfold merge in (inside, (λ k l. refl))
  merge-Keeps (e ∷ es) rf index m low fits some_log inside meets =
      let offset = index - rf.last_included_index in
      elim (merge_cases c rf index e es low some_log) [
        | inl (here, agree, step) ↦ rw step (
            merge-Keeps es rf (index + 1) m (omega arith) (omega arith) some_log inside
              (λ k l b. shift k (meets (suc k) (omega arith) (omega arith))))
        | inr (inl (here, differ, step)) ↦ below_front (disjoint differ)
        | inr (inr (outside, step)) ↦ below_front (omega arith)
      ]
    where
      below_front :
          m ≤ index - rf.last_included_index → Keeps m rf.logs (merge c rf index (e ∷ es)).0.logs
      below_front h =
          let w = merge-Merged c (e ∷ es) rf index low fits some_log in
          (omega (arith, w.longer), (λ k l. w.below k (omega arith)))

      first :
          (entry_at rf.logs (index - rf.last_included_index + 0)).term
          ≡ (entry_at rf.logs (index - rf.last_included_index)).term
      first =
          let e0 : index - rf.last_included_index + 0 ≡ index - rf.last_included_index =
            omega arith in
          rw e0

      disjoint :
          (entry_at rf.logs (index - rf.last_included_index)).term ≢ e.term
          → m ≤ index - rf.last_included_index
      disjoint differ = elim (Bool-cases (leb m (index - rf.last_included_index))) [
        | inl h ↦ ground arith
        | inr h ↦ absurd (differ (sym (meets 0 (omega arith) (ground arith) ∙ first)))
      ]

      shift :
          (k : ℕ)
          → (entry_at es k).term ≡ (entry_at rf.logs (index - rf.last_included_index + suc k)).term
          → (entry_at es k).term ≡ (entry_at rf.logs (index + 1 - rf.last_included_index + k)).term
      shift k h =
          let e : index + 1 - rf.last_included_index + k ≡ index - rf.last_included_index + suc k =
            omega arith in
          rw e h

  -- A request whose entries have the terms of the committed entries that they meet leaves every
  -- committed entry in place, and the commit index inside the log.
  pub append_entries_keeps_committed :
      (clock : Clock) (rf : Raft A) (args : AppendEntriesArgs A)
      → IsWellFormed c rf
      → rf.commit_index ≤ last_log_index rf
      → Meets
          (rf.commit_index + 1 - rf.last_included_index)
          rf
          (args.prev_log_index + 1)
          args.entries
      → (append_entries c clock rf args).0.success ≡ true
      → let rf' = (append_entries c clock rf args).1 in
        (rf'.commit_index ≤ last_log_index rf')
        × ((index : ℕ)
            → rf.last_included_index ≤ index
            → index ≤ rf.commit_index
            → entry_at rf'.logs (index - rf'.last_included_index)
              ≡ entry_at rf.logs (index - rf.last_included_index))
  append_entries_keeps_committed clock rf args v inside meets h =
      let (passed, step) = append_entries_accepts c clock rf args h in
      let rf1 = following c clock rf args.term in
      let (logs, commit, base) = following_same c clock rf args.term in
      let some_log : 0 < length rf1.logs = omega (arith, ap length logs, v.some_log) in
      let (low, high, same) =
        check_prev_passes c rf1 args.prev_log_index args.prev_log_term some_log passed in
      let index = args.prev_log_index + 1 in
      let m = rf.commit_index + 1 - rf.last_included_index in
      let merged = merge-Merged c args.entries rf1 index (omega arith) (omega arith) some_log in
      let (size, kept) =
        merge-Keeps args.entries rf1 index m (omega arith) (omega arith) some_log
          (omega (arith, ap length logs, inside, v.some_log))
          (λ k l b. rw (logs, base) (meets k l (omega (arith, base, b)))) in
      let (new_logs, new_base) = accept_logs c rf1 args in
      let base' : (accept c rf1 args).last_included_index ≡ rf.last_included_index =
        new_base ∙ (merged.base ∙ base) in
      rw step (
        omega (
          arith,
          accept_commit c rf1 args,
          commit,
          base',
          base,
          ap length new_logs,
          size,
          merged.longer,
        ),
        (λ k l u.
            rw (base', new_logs)
              (kept (k - rf.last_included_index) (omega arith)
                ∙ ap (λ x. entry_at x (k - rf.last_included_index)) logs)),
      )
