-- ===== src/Raft/Merging.antt =====
-- src/raft1/raft.go, AppendEntries: what the log holds after the merge.
use raft_sharded_kv.Prelude.{
  ℕ, zero, suc, ◌+◌, ◌-◌, ◌<◌, ◌≤◌, ◌≡◌, ◌≢◌, refl, sym, ap, ◌∙◌, ◌⊎◌, inl, inr, true, arith, List,
  [], ◌∷◌, ◌++◌, map, length, length-append, length-take, take, get_or-append_left,
  get_or-append_right, get_or-take, map-append_lem, map-take,
}
use raft_sharded_kv.Raft.Types.{Raft, LogEntry, Coding}
use raft_sharded_kv.Raft.Log.{entry_at, no_entry, term_at, append_logs, truncate_logs}
use raft_sharded_kv.Raft.Append.{merge}

module _ {A : Type 0} (c : Coding A) where
  -- One turn of the loop, by what it finds at the index.
  pub merge_cases :
      (rf : Raft A) (index : ℕ) (e : LogEntry A) (es : List (LogEntry A))
      → rf.last_included_index ≤ index
      → 0 < length rf.logs
      → let offset = index - rf.last_included_index in
        ((offset < length rf.logs)
          × ((entry_at rf.logs offset).term ≡ e.term)
          × (merge c rf index (e ∷ es) ≡ merge c rf (index + 1) es))
        ⊎ ((offset < length rf.logs)
            × ((entry_at rf.logs offset).term ≢ e.term)
            × (merge c rf index (e ∷ es)
                ≡ (append_logs c (truncate_logs rf offset) (e ∷ es), true)))
        ⊎ ((length rf.logs ≤ offset)
            × (merge c rf index (e ∷ es) ≡ (append_logs c rf (e ∷ es), true)))
  unfolding merge term_at
  merge_cases rf index e es low some_log = ground arith

  -- The log after the merge of entries at an index: what is below stays, and from there on the
  -- terms are those of the entries.
  pub record Merged (rf : Raft A) (index : ℕ) (es : List (LogEntry A)) (rf' : Raft A) : Type 0 where
    pub base : rf'.last_included_index ≡ rf.last_included_index
    pub longer : index - rf.last_included_index + length es ≤ length rf'.logs
    pub below :
        (k : ℕ) → k < index - rf.last_included_index → entry_at rf'.logs k ≡ entry_at rf.logs k
    pub terms :
        (k : ℕ)
        → k < length es
        → (entry_at rf'.logs (index - rf.last_included_index + k)).term ≡ (entry_at es k).term
    pub cached : rf.encoded_logs ≡ map c.encode rf.logs → rf'.encoded_logs ≡ map c.encode rf'.logs

  appended-Merged :
      (rf : Raft A) (index : ℕ) (es front : List (LogEntry A)) (rf' : Raft A)
      → length front ≡ index - rf.last_included_index
      → ((k : ℕ) → k < length front → entry_at front k ≡ entry_at rf.logs k)
      → rf'.logs ≡ front ++ es
      → rf'.last_included_index ≡ rf.last_included_index
      → (rf.encoded_logs ≡ map c.encode rf.logs → rf'.encoded_logs ≡ map c.encode (front ++ es))
      → Merged rf index es rf'
  appended-Merged rf index es front rf' size same logs base cache = record {
    base = base;
    longer = omega (arith, ap length logs, length-append front es);
    below = λ k l.
        rw logs (get_or-append_left front es k no_entry (omega arith) ∙ same k (omega arith));
    terms = λ k l. rw (logs, ← size) (ap (λ e. e.term) (get_or-append_right front es k no_entry));
    cached = λ h. rw logs (cache h);
  }

  nothing-Merged :
      (rf : Raft A) (index : ℕ)
      → index - rf.last_included_index ≤ length rf.logs
      → Merged rf index [] rf
  nothing-Merged rf index fits = record {
    base = refl;
    longer = omega arith;
    below = λ k l. refl;
    terms = λ k l. absurd (omega arith);
    cached = λ h. h;
  }

  -- The entry at the index agrees, and the rest is merged behind it.
  agreeing-terms :
      (rf rf' : Raft A) (index : ℕ) (e : LogEntry A) (es : List (LogEntry A)) (k : ℕ)
      → rf.last_included_index ≤ index
      → (entry_at rf.logs (index - rf.last_included_index)).term ≡ e.term
      → Merged rf (index + 1) es rf'
      → k < length (e ∷ es)
      → (entry_at rf'.logs (index - rf.last_included_index + k)).term ≡ (entry_at (e ∷ es) k).term
  agreeing-terms rf rf' index e es zero low agree m l =
      let offset = index - rf.last_included_index in
      let here : offset + 0 ≡ offset = omega arith in
      rw here (ap (λ x. x.term) (m.below offset (omega arith)) ∙ agree)
  agreeing-terms rf rf' index e es (suc k) low agree m l =
      let there : index - rf.last_included_index + suc k ≡ index + 1 - rf.last_included_index + k =
        omega arith in
      rw there (m.terms k (omega arith))

  agreeing-Merged :
      (rf : Raft A) (index : ℕ) (e : LogEntry A) (es : List (LogEntry A)) (rf' : Raft A)
      → rf.last_included_index ≤ index
      → (entry_at rf.logs (index - rf.last_included_index)).term ≡ e.term
      → Merged rf (index + 1) es rf'
      → Merged rf index (e ∷ es) rf'
  agreeing-Merged rf index e es rf' low agree m = record {
    base = m.base;
    longer = omega (arith, m.longer);
    below = λ k l. m.below k (omega arith);
    terms = λ k l. agreeing-terms rf rf' index e es k low agree m l;
    cached = m.cached;
  }

  replaced-Merged :
      (rf : Raft A) (index : ℕ) (es : List (LogEntry A))
      → index - rf.last_included_index ≤ length rf.logs
      → Merged rf index es (append_logs c (truncate_logs rf (index - rf.last_included_index)) es)
  unfolding append_logs truncate_logs
  replaced-Merged rf index es fits =
      let offset = index - rf.last_included_index in
      appended-Merged rf index es (take offset rf.logs) _
        (omega (arith, length-take offset rf.logs))
        (λ k l. get_or-take offset k rf.logs no_entry (omega (arith, length-take offset rf.logs)))
        refl refl
        (λ h.
          ap (λ x. take offset x ++ map c.encode es) h
          ∙ (ap (λ x. x ++ map c.encode es) (map-take c.encode offset rf.logs)
              ∙ sym (map-append_lem c.encode (take offset rf.logs) es)))

  extended-Merged :
      (rf : Raft A) (index : ℕ) (es : List (LogEntry A))
      → index - rf.last_included_index ≡ length rf.logs
      → Merged rf index es (append_logs c rf es)
  unfolding append_logs
  extended-Merged rf index es fits =
      appended-Merged rf index es rf.logs _ (sym fits) (λ k l. refl) refl refl
        (λ h. ap (λ x. x ++ map c.encode es) h ∙ sym (map-append_lem c.encode rf.logs es))

  pub merge-Merged :
      (es : List (LogEntry A)) (rf : Raft A) (index : ℕ)
      → rf.last_included_index ≤ index
      → index - rf.last_included_index ≤ length rf.logs
      → 0 < length rf.logs
      → Merged rf index es (merge c rf index es).0
  merge-Merged [] rf index low fits some_log = unfold merge in nothing-Merged rf index fits
  merge-Merged (e ∷ es) rf index low fits some_log = elim (merge_cases rf index e es low some_log) [
    | inl (inside, agree, step) ↦ rw step (
        agreeing-Merged rf index e es _ low agree
          (merge-Merged es rf (index + 1) (omega arith) (omega arith) some_log))
    | inr (inl (inside, differ, step)) ↦ rw step (replaced-Merged rf index (e ∷ es) fits)
    | inr (inr (outside, step)) ↦ rw step (extended-Merged rf index (e ∷ es) (omega arith))
  ]
