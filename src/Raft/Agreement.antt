-- ===== src/Raft/Agreement.antt =====
-- src/raft1/raft.go, AppendEntries: what a success and a refusal tell the leader, and that delayed
-- or repeated requests do no harm.
use raft_sharded_kv.Prelude.{
  ℕ, zero, suc, ◌+◌, ◌-◌, ◌<◌, ◌≤◌, ◌≡◌, ◌≢◌, ap, ◌∙◌, ◌⊎◌, inl, inr, true, false, arith,
  Bool-cases, none, some, length, Option-cases, max, min, ℤ, pos, negsuc, ltb, ◌&&◌, ◌||◌, ◌==◌,
  ==_iff,
}
use raft_sharded_kv.Raft.Types.{Raft, Coding, AppendEntriesArgs, Clock}
use raft_sharded_kv.Raft.Log.{first_log_index, last_log_index, entry_at, term_at}
use raft_sharded_kv.Raft.Encoding.{persist}
use raft_sharded_kv.Raft.Roles.{become_follower, reset_election_deadline}
use raft_sharded_kv.Raft.Append.{
  append_entries, accept, merge, merge_and_save, check_prev, follow_commit, first_of_conflict,
  has_term,
}
use raft_sharded_kv.Raft.Merging.{merge-Merged}
use raft_sharded_kv.Raft.Invariant.{IsWellFormed, check_prev_passes, merge_frame}

module _ {A : Type 0} (c : Coding A) where
  -- The follower's log agrees with the request: the entry before the new ones has the leader's
  -- term, and so has each of the new ones.
  pub record Agrees (rf : Raft A) (args : AppendEntriesArgs A) : Type 0 where
    pub before : term_at rf args.prev_log_index ≡ some args.prev_log_term
    pub entries :
        (k : ℕ)
        → k < length args.entries
        → term_at rf (args.prev_log_index + 1 + k) ≡ some (entry_at args.entries k).term
    pub reached : args.prev_log_index + length args.entries ≤ last_log_index rf

  term_at_offset :
      (rf : Raft A) (index offset term : ℕ)
      → index ≡ rf.last_included_index + offset
      → offset < length rf.logs
      → (entry_at rf.logs offset).term ≡ term
      → term_at rf index ≡ some term
  unfolding term_at
  term_at_offset rf index offset term e l h =
      let cut : index - rf.last_included_index ≡ offset = omega arith in ground (arith, cut, h)

  pub accept_logs :
      (rf : Raft A) (args : AppendEntriesArgs A)
      → let rf' = (merge c rf (args.prev_log_index + 1) args.entries).0 in
        ((accept c rf args).logs ≡ rf'.logs)
        × ((accept c rf args).last_included_index ≡ rf'.last_included_index)
  unfolding accept merge_and_save persist follow_commit
  accept_logs rf args = ground arith

  accept-Agrees :
      (rf : Raft A) (args : AppendEntriesArgs A)
      → 0 < length rf.logs
      → check_prev rf args.prev_log_index args.prev_log_term ≡ none
      → Agrees (accept c rf args) args
  accept-Agrees rf args some_log passed =
      let index = args.prev_log_index + 1 in
      let (low, high, same) =
        check_prev_passes c rf args.prev_log_index args.prev_log_term some_log passed in
      let m = merge-Merged c args.entries rf index (omega arith) (omega arith) some_log in
      let (logs, base) = accept_logs rf args in
      let offset = args.prev_log_index - rf.last_included_index in
      record {
        before =
            term_at_offset (accept c rf args) args.prev_log_index offset args.prev_log_term
              (omega (arith, base, m.base)) (omega (arith, ap length logs, m.longer))
              (rw logs (ap (λ e. e.term) (m.below offset (omega arith)) ∙ same));
        entries = λ k l.
            term_at_offset (accept c rf args) (index + k) (index - rf.last_included_index + k) _
              (omega (arith, base, m.base)) (omega (arith, ap length logs, m.longer))
              (rw logs (m.terms k l));
        reached = omega (arith, base, m.base, ap length logs, m.longer);
      }

  pub accept_commit :
      (rf : Raft A) (args : AppendEntriesArgs A)
      → (accept c rf args).commit_index
        ≡ max rf.commit_index (min args.leader_commit (args.prev_log_index + length args.entries))
  unfolding accept merge_and_save persist follow_commit
  accept_commit rf args = ground (arith, merge_frame c rf (args.prev_log_index + 1) args.entries)

  -- The node once it follows the leader of the request.
  abbrev pub following : Clock → Raft A → ℕ → Raft A
  following clock rf term = reset_election_deadline clock (become_follower rf term)

  pub following_same :
      (clock : Clock) (rf : Raft A) (term : ℕ)
      → let rf' = following clock rf term in
        (rf'.logs ≡ rf.logs)
        × (rf'.commit_index ≡ rf.commit_index)
        × (rf'.last_included_index ≡ rf.last_included_index)
  unfolding become_follower reset_election_deadline
  following_same clock rf term = (ground arith, ground arith, ground arith)

  pub append_entries_accepts :
      (clock : Clock) (rf : Raft A) (args : AppendEntriesArgs A)
      → (append_entries c clock rf args).0.success ≡ true
      → (check_prev (following clock rf args.term) args.prev_log_index args.prev_log_term ≡ none)
        × ((append_entries c clock rf args).1 ≡ accept c (following clock rf args.term) args)
  unfolding append_entries
  append_entries_accepts clock rf args h =
      elim (Option-cases
        (check_prev (following clock rf args.term) args.prev_log_index args.prev_log_term)) [
          | inl passed ↦ (passed, ground arith)
          | inr ((t, i), refusal) ↦ ground arith
        ]

  -- After a request that a well-formed node answers with success, its log has the leader's terms at
  -- the entry before the new ones and at each new one, and its commit index is the larger of the
  -- old one and the leader's, the latter bounded by the last new entry.
  pub append_entries_success :
      (clock : Clock) (rf : Raft A) (args : AppendEntriesArgs A)
      → IsWellFormed c rf
      → (append_entries c clock rf args).0.success ≡ true
      → Agrees (append_entries c clock rf args).1 args
        × ((append_entries c clock rf args).1.commit_index
            ≡ max rf.commit_index
                (min args.leader_commit (args.prev_log_index + length args.entries)))
  append_entries_success clock rf args v h =
      let (passed, step) = append_entries_accepts clock rf args h in
      let rf' = following clock rf args.term in
      let (logs, commit, base) = following_same clock rf args.term in
      rw step (
        accept-Agrees rf' args (omega (arith, ap length logs, v.some_log)) passed,
        accept_commit rf' args
            ∙ ap (λ n. max n (min args.leader_commit (args.prev_log_index + length args.entries)))
                commit,
      )

  -- The loop that looks for the conflicting term stops at an index at which the term begins: from
  -- there to where it started the log has that term, and the index before it is the snapshot's or
  -- has another.
  first_of_conflict_range :
      (rf : Raft A) (term index : ℕ)
      → rf.last_included_index ≤ index
      → let first = first_of_conflict rf term index in
        (first ≤ index)
        × (rf.last_included_index ≤ first)
        × ((k : ℕ) → first ≤ k → k < index → term_at rf k ≡ some term)
        × ((first ≡ rf.last_included_index) ⊎ (term_at rf (first - 1) ≢ some term))
  unfolding first_of_conflict
  first_of_conflict_range rf term zero low =
      (omega arith, omega arith, (λ k a b. absurd (omega arith)), inl (omega arith))
  first_of_conflict_range rf term (suc i) low =
      elim (Bool-cases (ltb (first_log_index rf) (suc i) && has_term (term_at rf i) term)) [
        | inl on ↦
            let (upper, lower, all, stop) = first_of_conflict_range rf term i (ground arith) in
            rw on (
              omega (arith, upper),
              lower,
              (λ k a b. elim (Bool-cases (k == i)) [
                | inl e ↦ ground (arith, on, ap (term_at rf) ((==_iff k i).0 e))
                | inr e ↦ all k a (ground arith)
              ]),
              stop,
            )
        | inr off ↦
            let last : suc i - 1 ≡ i = omega arith in
            rw off (
              omega arith,
              low,
              (λ k a b. absurd (omega arith)),
              elim (Bool-cases (ltb (first_log_index rf) (suc i))) [
                | inl more ↦ inr (rw last (λ e. ground (arith, off, more)))
                | inr end ↦ inl (ground arith)
              ],
            )
      ]

  -- What a refusal says: the log ends before the entry, or begins behind it, or has another term
  -- there, which begins at the conflict index.
  abbrev pub Refusal : Raft A → AppendEntriesArgs A → ℤ → ℕ → Type 0
  Refusal rf args (negsuc n) index =
      ((last_log_index rf < args.prev_log_index) × (index ≡ last_log_index rf + 1))
      ⊎ ((args.prev_log_index < rf.last_included_index) × (index ≡ rf.last_included_index + 1))
  Refusal rf args (pos term) index =
      (term ≢ args.prev_log_term)
      × (term_at rf args.prev_log_index ≡ some term)
      × (rf.last_included_index ≤ index)
      × (index ≤ args.prev_log_index)
      × ((k : ℕ) → index ≤ k → k < args.prev_log_index → term_at rf k ≡ some term)
      × ((index ≡ rf.last_included_index) ⊎ (term_at rf (index - 1) ≢ some term))

  check_prev_conflict :
      (rf : Raft A) (index term t i : ℕ)
      → check_prev rf index term ≡ some (pos t, i)
      → (rf.last_included_index ≤ index)
        × (term_at rf index ≡ some t)
        × (t ≢ term)
        × (i ≡ first_of_conflict rf t index)
  unfolding check_prev
  check_prev_conflict rf index term t i h = elim (Option-cases (term_at rf index)) [
    | inl e ↦ ground arith
    | inr (u, e) ↦ ground arith
  ]

  check_prev_refuses :
      (rf : Raft A) (args : AppendEntriesArgs A) (t : ℤ) (index : ℕ)
      → 0 < length rf.logs
      → check_prev rf args.prev_log_index args.prev_log_term ≡ some (t, index)
      → Refusal rf args t index
  check_prev_refuses rf args (negsuc n) index some_log h = unfold check_prev term_at in ground arith
  check_prev_refuses rf args (pos term) index some_log h =
      let (low, there, other, first) =
        check_prev_conflict rf args.prev_log_index args.prev_log_term term index h in
      let (upper, lower, all, stop) = first_of_conflict_range rf term args.prev_log_index low in
      rw first (other, there, lower, upper, all, stop)

  -- A request of a current leader that a well-formed, living node refuses leaves its log and its
  -- commit index as they are, and the reply says why: the log is too short and where it ends, the
  -- entry is behind the snapshot and where that ends, or the term differs and where it begins.
  pub append_entries_refused :
      (clock : Clock) (rf : Raft A) (args : AppendEntriesArgs A)
      → IsWellFormed c rf
      → rf.dead ≡ false
      → rf.current_term ≤ args.term
      → (append_entries c clock rf args).0.success ≡ false
      → let (reply, rf') = append_entries c clock rf args in
        (rf'.logs ≡ rf.logs)
        × (rf'.commit_index ≡ rf.commit_index)
        × (rf'.last_included_index ≡ rf.last_included_index)
        × Refusal rf' args reply.conflict_term reply.conflict_index
  unfolding append_entries
  append_entries_refused clock rf args v alive current h =
      let rf' = following clock rf args.term in
      let (logs, commit, base) = following_same clock rf args.term in
      elim (Option-cases (check_prev rf' args.prev_log_index args.prev_log_term)) [
        | inl passed ↦ ground arith
        | inr ((t, i), refusal) ↦
            let off : (rf.dead || ltb args.term rf.current_term) ≡ false = ground arith in
            rw (off, refusal)
              (
                logs,
                commit,
                base,
                check_prev_refuses rf' args t i (omega (arith, ap length logs, v.some_log)) refusal,
              )
      ]
