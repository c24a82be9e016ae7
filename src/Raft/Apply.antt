-- ===== src/Raft/Apply.antt =====
-- src/raft1/raft.go, applier: the batch of messages that the applier claims under the mutex.
use raft_sharded_kv.Prelude.{
  ℕ, zero, suc, ◌+◌, ◌-◌, List, [], ◌∷◌, Option, none, some, ltb, leb, if◌then◌else◌, get_elem?,
}
use raft_sharded_kv.Raft.Types.{Raft, ApplyMsg, command_msg, snapshot_msg}
use raft_sharded_kv.Raft.Log.{to_offset}

-- What the applier does next: it returns, waits on the condition, sends messages, or panics.
pub data Turn (A : Type 0) : Type 0 where
  quit : Turn A
  wait : Turn A
  send : List (ApplyMsg A) → Turn A
  panics : Turn A

module _ {A : Type 0} where
  abbrev snapshot_index : ApplyMsg A → ℕ
  snapshot_index (command_msg command index) = 0
  snapshot_index (snapshot_msg payload term index) = index

  -- The commands of `rounds` entries from `index` on; `none` is the panic beyond the log.
  unfoldable pub messages_from : Raft A → ℕ → ℕ → Option (List (ApplyMsg A))
  messages_from rf zero index = some []
  messages_from rf (suc rounds) index = elim (get_elem? rf.logs (to_offset rf index)) [
    | none ↦ none
    | some entry ↦ elim (messages_from rf rounds (index + 1)) [
      | none ↦ none
      | some messages ↦ some (command_msg entry.command index ∷ messages)
    ]
  ]

  abbrev pub apply_start : Raft A → ℕ
  apply_start rf =
      let start = rf.last_applied + 1 in
      if leb start rf.last_included_index then rf.last_included_index + 1 else start

  abbrev claim : Raft A → Option (ApplyMsg A) → Raft A × Turn A
  claim rf (some message) = (
    record rf {
      pending_snapshot = none;
      last_applied =
          if ltb rf.last_applied (snapshot_index message)
          then snapshot_index message
          else rf.last_applied;
    },
    send (message ∷ []),
  )
  claim rf none =
      if leb rf.commit_index rf.last_applied
      then (rf, wait)
      else elim (messages_from rf (rf.commit_index + 1 - apply_start rf) (apply_start rf)) [
        | some messages ↦ (record rf { last_applied = rf.commit_index }, send messages)
        | none ↦ (rf, panics)
      ]

  unfoldable pub applier_turn : Raft A → Raft A × Turn A
  unfolding messages_from
  applier_turn rf = if rf.dead then (rf, quit) else claim rf rf.pending_snapshot
