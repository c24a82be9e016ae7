-- ===== src/Raft/Majority.antt =====
-- src/raft1/raft.go, advanceCommitIndexLocked: which index a leader commits.
use raft_sharded_kv.Prelude.{
  ℕ, zero, suc, ◌+◌, ◌-◌, ◌*◌, length, get_or, ◌<◌, ◌≤◌, ◌≡◌, refl, ◌⊎◌, inl, inr, true, false,
  arith, Bool-cases, Option, none, some, ltb, leb,
}
use raft_sharded_kv.Raft.Types.{Raft, is_leader}
use raft_sharded_kv.Raft.Log.{last_log_index, term_at, no_entry}
use raft_sharded_kv.Cluster.Counting.{count}
use raft_sharded_kv.Raft.Commit.{advance_commit_index, find_commit, can_commit, count_replicated}

module _ {A : Type 0} where
  -- The search finds the greatest index that can be committed between the commit index and n.
  abbrev Found : Raft A → ℕ → Option ℕ → Type 0
  Found rf n none = (k : ℕ) → rf.commit_index < k → k ≤ n → can_commit rf k ≡ false
  Found rf n (some m) =
      (rf.commit_index < m)
      × (m ≤ n)
      × (can_commit rf m ≡ true)
      × ((k : ℕ) → m < k → k ≤ n → can_commit rf k ≡ false)

  still :
      (rf : Raft A) (n : ℕ) (found : Option ℕ)
      → can_commit rf (suc n) ≡ false
      → Found rf n found
      → Found rf (suc n) found
  still rf n none off h = λ k l u. elim (Bool-cases (leb k n)) [
    | inl in_range ↦ h k l (ground arith)
    | inr at_top ↦ (let e : k ≡ suc n = ground arith in rw e off)
  ]
  still rf n (some m) off (low, high, on, above) = (
    low,
    omega arith,
    on,
    (λ k l u. elim (Bool-cases (leb k n)) [
      | inl in_range ↦ above k l (ground arith)
      | inr at_top ↦ (let e : k ≡ suc n = ground arith in rw e off)
    ]),
  )

  find_commit_lem : (rf : Raft A) (n : ℕ) → Found rf n (find_commit rf n)
  unfolding find_commit
  find_commit_lem rf zero = λ k l u. absurd (omega arith)
  find_commit_lem rf (suc n) = elim (Bool-cases (ltb rf.commit_index (suc n))) [
    | inr out ↦ rw out (λ k l u. absurd (ground arith))
    | inl within ↦ elim (Bool-cases (can_commit rf (suc n))) [
      | inl on ↦ rw (within, on) (ground arith, omega arith, on, (λ k l u. absurd (omega arith)))
      | inr off ↦ rw (within, off) (still rf n (find_commit rf n) off (find_commit_lem rf n))
    ]
  ]

  -- What it takes to commit an index of the log: its entry has the leader's own term, and of the
  -- peers more than half are known to hold the log up to it.
  pub record Replicated (rf : Raft A) (n : ℕ) : Type 0 where
    pub behind_snapshot : rf.last_included_index ≤ n
    pub own_term : (get_or rf.logs (n - rf.last_included_index) no_entry).term ≡ rf.current_term
    pub held : rf.peers < 2 * count (λ peer. leb n (get_or rf.match_index peer 0)) rf.peers

  count_replicated_lem :
      (rf : Raft A) (n k : ℕ)
      → count_replicated rf n k ≡ count (λ peer. leb n (get_or rf.match_index peer 0)) k
  unfolding count_replicated count
  count_replicated_lem rf n zero = refl
  count_replicated_lem rf n (suc k) = ground (arith, count_replicated_lem rf n k)

  can_commit-Replicated : (rf : Raft A) (n : ℕ) → can_commit rf n ≡ true → Replicated rf n
  unfolding can_commit term_at
  can_commit-Replicated rf n h = record {
    behind_snapshot = ground arith;
    own_term = ground arith;
    held = ground (arith, count_replicated_lem rf n rf.peers);
  }

  Replicated-can_commit :
      (rf : Raft A) (n : ℕ)
      → 0 < n
      → n < rf.last_included_index + length rf.logs
      → Replicated rf n
      → can_commit rf n ≡ true
  unfolding can_commit term_at
  Replicated-can_commit rf n positive within h =
      ground (arith, h.behind_snapshot, h.own_term, h.held, count_replicated_lem rf n rf.peers)

  no_more :
      (rf : Raft A) (n : ℕ)
      → can_commit rf n ≡ false
      → rf.commit_index < n
      → n < rf.last_included_index + length rf.logs
      → ¬ Replicated rf n
  no_more rf n off l u r =
      let on = Replicated-can_commit rf n (omega arith) u r in absurd (cc (off, on))

  inside :
      (rf : Raft A) (m : ℕ)
      → rf.commit_index < m
      → m ≤ last_log_index rf
      → m < rf.last_included_index + length rf.logs
  inside rf m low high = omega arith

  advanced :
      (rf : Raft A)
      → is_leader rf.state ≡ true
      → (found : Option ℕ) → find_commit rf (last_log_index rf) ≡ found
      → Found rf (last_log_index rf) found
      → let (rf', moved) = advance_commit_index rf in
        ((moved ≡ false)
          × (rf' ≡ rf)
          × ((n : ℕ)
              → rf.commit_index < n
              → n < rf.last_included_index + length rf.logs
              → ¬ Replicated rf n))
        ⊎ ((moved ≡ true)
            × (rf.commit_index < rf'.commit_index)
            × (rf'.commit_index < rf.last_included_index + length rf.logs)
            × Replicated rf rf'.commit_index
            × ((n : ℕ)
                → rf'.commit_index < n
                → n < rf.last_included_index + length rf.logs
                → ¬ Replicated rf n))
  unfolding advance_commit_index
  advanced rf leads none e h =
      rw (leads, e) (inl (refl, refl, (λ n l u r. no_more rf n (h n l (omega arith)) l u r)))
  advanced rf leads (some m) e (low, high, on, above) =
      rw (leads, e)
        (inr (
          refl,
          low,
          inside rf m low high,
          can_commit-Replicated rf m on,
          (λ n l u r. no_more rf n (above n l (omega arith)) (omega arith) u r),
        ))

  -- A leader moves its commit index to the greatest index of its log above the old one that has an
  -- entry of its own term which a majority of the peers holds, and leaves everything as it is if
  -- there is none.
  pub advance_commit_index_greatest :
      (rf : Raft A)
      → is_leader rf.state ≡ true
      → let (rf', moved) = advance_commit_index rf in
        ((moved ≡ false)
          × (rf' ≡ rf)
          × ((n : ℕ)
              → rf.commit_index < n
              → n < rf.last_included_index + length rf.logs
              → ¬ Replicated rf n))
        ⊎ ((moved ≡ true)
            × (rf.commit_index < rf'.commit_index)
            × (rf'.commit_index < rf.last_included_index + length rf.logs)
            × Replicated rf rf'.commit_index
            × ((n : ℕ)
                → rf'.commit_index < n
                → n < rf.last_included_index + length rf.logs
                → ¬ Replicated rf n))
  advance_commit_index_greatest rf leads =
      advanced rf leads (find_commit rf (last_log_index rf)) refl
        (find_commit_lem rf (last_log_index rf))
