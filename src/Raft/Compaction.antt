-- ===== src/Raft/Compaction.antt =====
-- src/raft1/raft.go, Snapshot and InstallSnapshot: which entries the shortened log still has.
use raft_sharded_kv.Prelude.{
  ℕ, suc, ◌+◌, ◌-◌, ◌<◌, ◌≤◌, ◌≡◌, refl, ap, ◌∙◌, ◌⊎◌, inl, inr, true, false, arith, Bool-cases,
  ◌||◌, get_or-drop, length-drop, leb, ltb,
}
use raft_sharded_kv.Raft.Types.{Raft, Coding, Bytes}
use raft_sharded_kv.Raft.Log.{last_log_index, term_at, entry_at, no_entry}
use raft_sharded_kv.Raft.Snapshots.{take_snapshot, compact}

module _ {A : Type 0} (c : Coding A) where
  -- The log from an index on is that of another.
  pub record SameFrom (index : ℕ) (rf rf' : Raft A) : Type 0 where
    pub last : last_log_index rf' ≡ last_log_index rf
    pub terms : (k : ℕ) → index ≤ k → term_at rf' k ≡ term_at rf k
    pub entries :
        (k : ℕ)
        → index < k
        → k ≤ last_log_index rf
        → entry_at rf'.logs (k - rf'.last_included_index)
          ≡ entry_at rf.logs (k - rf.last_included_index)

  compact_entry :
      (rf : Raft A) (index k : ℕ) (payload : Bytes)
      → rf.last_included_index < index
      → index < k
      → entry_at (compact c rf index payload).logs (k - index)
        ≡ entry_at rf.logs (k - rf.last_included_index)
  unfolding compact
  compact_entry rf index k payload low l =
      let cut = index - rf.last_included_index in
      let e : k - index ≡ suc (k - index - 1) = omega arith in
      let e' : cut + 1 + (k - index - 1) ≡ k - rf.last_included_index = omega arith in
      rw e (get_or-drop (cut + 1) (k - index - 1) rf.logs no_entry ∙ ap (entry_at rf.logs) e')

  compact_last :
      (rf : Raft A) (index : ℕ) (payload : Bytes)
      → rf.last_included_index < index
      → index ≤ last_log_index rf
      → last_log_index (compact c rf index payload) ≡ last_log_index rf
  unfolding compact
  compact_last rf index payload low high =
      omega (arith, length-drop (index - rf.last_included_index + 1) rf.logs)

  compact_base :
      (rf : Raft A) (index : ℕ) (payload : Bytes)
      → let rf' = compact c rf index payload in
        (rf'.last_included_index ≡ index)
        × ((entry_at rf'.logs 0).term ≡ (entry_at rf.logs (index - rf.last_included_index)).term)
  unfolding compact
  compact_base rf index payload = (refl, refl)

  compact_term :
      (rf : Raft A) (index k : ℕ) (payload : Bytes)
      → rf.last_included_index < index
      → index ≤ last_log_index rf
      → index ≤ k
      → term_at (compact c rf index payload) k ≡ term_at rf k
  unfolding term_at
  compact_term rf index k payload low high l =
      let (base, first) = compact_base rf index payload in
      let last = compact_last rf index payload low high in
      elim (Bool-cases (ltb index k)) [
        | inl above ↦
            ground (arith, base, last, compact_entry rf index k payload low (ground arith))
        | inr at ↦ (let e : k ≡ index = ground arith in ground (arith, e, base, last, first))
      ]

  compact_keeps :
      (rf : Raft A) (index : ℕ) (payload : Bytes)
      → rf.last_included_index < index
      → index ≤ last_log_index rf
      → SameFrom index rf (compact c rf index payload)
  compact_keeps rf index payload low high =
      let (base, first) = compact_base rf index payload in
      record {
        last = compact_last rf index payload low high;
        terms = λ k l. compact_term rf index k payload low high l;
        entries = λ k l u. rw base (compact_entry rf index k payload low l);
      }

  -- Snapshot at an index keeps the last index, the term of every index from the new boundary on,
  -- and every entry behind it. It moves the boundary to the index exactly when the node is alive,
  -- the index is ahead of the old boundary, in the log and already applied, and else changes
  -- nothing.
  pub take_snapshot_keeps :
      (rf : Raft A) (index : ℕ) (payload : Bytes)
      → let rf' = take_snapshot c rf index payload in
        SameFrom rf'.last_included_index rf rf'
        × (((rf' ≡ rf)
              × ((rf.dead ≡ true)
                  ⊎ (index ≤ rf.last_included_index)
                  ⊎ (rf.last_applied < index)
                  ⊎ (last_log_index rf < index)))
            ⊎ ((rf'.last_included_index ≡ index)
                × (rf'.snapshot ≡ payload)
                × (rf.dead ≡ false)
                × (rf.last_included_index < index)
                × (index ≤ rf.last_applied)
                × (index ≤ last_log_index rf)))
  unfolding take_snapshot
  take_snapshot_keeps rf index payload =
      elim (Bool-cases (
        rf.dead
        || (leb index rf.last_included_index
            || (ltb rf.last_applied index || ltb (last_log_index rf) index)))) [
              | inl skip ↦ rw skip (
                record { last = refl; terms = λ k l. refl; entries = λ k l u. refl },
                inl (refl, ground arith),
              )
              | inr go ↦
                  let low : rf.last_included_index < index = ground arith in
                  let high : index ≤ last_log_index rf = ground arith in
                  rw go (
                    compact_keeps rf index payload low high,
                    inr (refl, refl, ground arith, low, ground arith, high),
                  )
            ]
