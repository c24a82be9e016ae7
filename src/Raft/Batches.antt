-- ===== src/Raft/Batches.antt =====
-- src/raft1/raft.go, applier: the messages of a batch are the committed entries in order.
use raft_sharded_kv.Prelude.{
  ℕ, zero, suc, ◌+◌, ◌-◌, ◌<◌, ◌≡◌, refl, ◌⊎◌, inl, inr, false, arith, Bool-cases, List, [], ◌∷◌,
  ◌≤◌, get_elem?, some, none, length, get_or, leb,
}
use raft_sharded_kv.Raft.Types.{Raft, LogEntry, ApplyMsg, command_msg, Coding}
use raft_sharded_kv.Raft.Log.{entry_at}
use raft_sharded_kv.Raft.Apply.{wait, send, messages_from, apply_start, applier_turn}
use raft_sharded_kv.Raft.Invariant.{IsWellFormed}

module _ {A : Type 0} where
  -- A batch of rounds messages, from an index on.
  record Range (rf : Raft A) (rounds index : ℕ) (messages : List (ApplyMsg A)) : Type 0 where
    runs : messages_from rf rounds index ≡ some messages
    size : length messages ≡ rounds
    each :
        (k : ℕ)
        → k < rounds
        → get_or messages k (command_msg none 0)
          ≡ command_msg (entry_at rf.logs (index + k - rf.last_included_index)).command (index + k)

  get_elem?-entry_at :
      (logs : List (LogEntry A)) (k : ℕ)
      → k < length logs
      → get_elem? logs k ≡ some (entry_at logs k)
  get_elem?-entry_at [] k l = absurd (omega arith)
  get_elem?-entry_at (e ∷ logs) zero l = refl
  get_elem?-entry_at (e ∷ logs) (suc k) l = get_elem?-entry_at logs k (omega arith)

  each_next :
      (rf : Raft A) (rounds index : ℕ) (rest : List (ApplyMsg A))
      → Range rf rounds (index + 1) rest
      → (k : ℕ) → k < suc rounds
      → get_or
          (command_msg (entry_at rf.logs (index - rf.last_included_index)).command index ∷ rest)
          k
          (command_msg none 0)
        ≡ command_msg (entry_at rf.logs (index + k - rf.last_included_index)).command (index + k)
  each_next rf rounds index rest range zero l = let e : index + 0 ≡ index = omega arith in rw e refl
  each_next rf rounds index rest range (suc k) l =
      let e : index + suc k ≡ index + 1 + k = omega arith in rw e (range.each k (omega arith))

  messages_from-Range :
      (rf : Raft A) (rounds index : ℕ)
      → rf.last_included_index ≤ index
      → index + rounds ≤ rf.last_included_index + length rf.logs
      → (messages : List (ApplyMsg A)) × Range rf rounds index messages
  unfolding messages_from
  messages_from-Range rf zero index low high =
      ([], record { runs = refl; size = refl; each = λ k l. absurd (omega arith) })
  messages_from-Range rf (suc rounds) index low high =
      let (rest, range) = messages_from-Range rf rounds (index + 1) (omega arith) (omega arith) in
      let inside = get_elem?-entry_at rf.logs (index - rf.last_included_index) (omega arith) in
      let entry = entry_at rf.logs (index - rf.last_included_index) in
      (
        command_msg entry.command index ∷ rest,
        record {
          runs = rw (messages_from, inside, range.runs) refl;
          size = omega (arith, range.size);
          each = λ k l. each_next rf rounds index rest range k l;
        },
      )

  -- A batch: each committed entry that is not applied yet, in order, with its index.
  pub record Batch (rf : Raft A) (messages : List (ApplyMsg A)) : Type 0 where
    pub size : rf.last_applied + length messages ≡ rf.commit_index
    pub each :
        (k : ℕ)
        → k < length messages
        → get_or messages k (command_msg none 0)
          ≡ command_msg
              (entry_at rf.logs (rf.last_applied + 1 + k - rf.last_included_index)).command
              (rf.last_applied + 1 + k)

  -- A living, well-formed node with no pending snapshot, whose commit index is in its log, sends
  -- each committed entry that is not applied yet, exactly once and in the order of the log, and
  -- then has applied them all; it waits only if there is none, and it does not panic.
  pub applier_turn-Batch :
      (c : Coding A) (rf : Raft A)
      → IsWellFormed c rf
      → rf.dead ≡ false
      → rf.pending_snapshot ≡ none
      → rf.commit_index < rf.last_included_index + length rf.logs
      → let (rf', turn) = applier_turn rf in
        (rf'.last_applied ≡ rf.commit_index)
        × (((turn ≡ wait) × (rf.last_applied ≡ rf.commit_index))
            ⊎ ((messages : List (ApplyMsg A)) × (turn ≡ send messages) × Batch rf messages))
  unfolding applier_turn
  applier_turn-Batch c rf v alive quiet logged =
      let begin : apply_start rf ≡ rf.last_applied + 1 = ground (arith, v.base_applied) in
      elim (Bool-cases (leb rf.commit_index rf.last_applied)) [
        | inl idle ↦ ground (arith, v.applied)
        | inr busy ↦
            let (messages, range) =
              messages_from-Range rf (rf.commit_index + 1 - (rf.last_applied + 1))
                (rf.last_applied + 1) (omega (arith, v.base_applied))
                (omega (arith, v.applied, logged)) in
            rw (alive, quiet, busy, begin, range.runs)
              (
                refl,
                inr (
                  messages,
                  refl,
                  record {
                    size = omega (arith, range.size, v.applied);
                    each = λ k l. range.each k (omega (arith, range.size));
                  },
                ),
              )
      ]
