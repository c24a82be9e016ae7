-- ===== src/Raft/Progress.antt =====
-- src/raft1/raft.go: what a leader knows of its peers, as the replies move it.
use raft_sharded_kv.Prelude.{
  ℕ, ◌+◌, ◌<◌, ◌≤◌, ◌≡◌, inl, inr, arith, Option-cases, length, get_or-set_self, length-set,
}
use raft_sharded_kv.Raft.Types.{Raft, Clock, AppendEntriesArgs, AppendEntriesReply}
use raft_sharded_kv.Raft.Log.{last_log_index}
use raft_sharded_kv.Raft.Roles.{become_follower, reset_election_deadline}
use raft_sharded_kv.Raft.Commit.{advance_commit_index, find_commit}
use raft_sharded_kv.Raft.Replicate.{
  next_of, match_of, handle_append_reply, handle_success, handle_conflict, clamp_next,
  raise_progress, suggested,
}

module _ {A : Type 0} where
  -- A peer's entry in the leader's tables: the next index to send is past what the peer holds and
  -- at most one past the log.
  abbrev pub InStep : Raft A → ℕ → Type 0
  InStep rf peer =
      (match_of rf peer < next_of rf peer)
      × (next_of rf peer ≤ last_log_index rf + 1)
      × (peer < length rf.next_index)
      × (peer < length rf.match_index)

  clamp_next_bounds :
      (rf : Raft A) (peer next : ℕ)
      → match_of rf peer ≤ last_log_index rf
      → (match_of rf peer < clamp_next rf peer next)
        × (clamp_next rf peer next ≤ last_log_index rf + 1)
  unfolding clamp_next
  clamp_next_bounds rf peer next h = ground arith

  abbrev pub Advances : Raft A → Raft A → ℕ → Type 0
  Advances rf rf' peer = InStep rf' peer × (match_of rf peer ≤ match_of rf' peer)

  raise_progress-Advances :
      (rf : Raft A) (peer through : ℕ)
      → InStep rf peer
      → through ≤ last_log_index rf
      → Advances rf (raise_progress rf peer through) peer
  unfolding raise_progress
  raise_progress-Advances rf peer through h u = ground (
    arith,
    get_or-set_self rf.next_index peer (through + 1) 0,
    get_or-set_self rf.match_index peer through 0,
    length-set rf.next_index peer (through + 1),
    length-set rf.match_index peer through,
  )

  advance_same :
      (rf : Raft A)
      → let rf' = (advance_commit_index rf).0 in
        (rf'.next_index ≡ rf.next_index)
        × (rf'.match_index ≡ rf.match_index)
        × (last_log_index rf' ≡ last_log_index rf)
  unfolding advance_commit_index
  advance_same rf = elim (Option-cases (find_commit rf (last_log_index rf))) [
    | inl e ↦ ground arith
    | inr (m, e) ↦ ground arith
  ]

  handle_success-Advances :
      (rf : Raft A) (peer : ℕ) (args : AppendEntriesArgs A)
      → InStep rf peer
      → args.prev_log_index + length args.entries ≤ last_log_index rf
      → Advances rf (handle_success rf peer args).0 peer
  unfolding handle_success
  handle_success-Advances rf peer args h u =
      let through = args.prev_log_index + length args.entries in
      ground (
        arith,
        raise_progress-Advances rf peer through h u,
        advance_same (raise_progress rf peer through),
      )

  handle_conflict-Advances :
      (rf : Raft A) (peer : ℕ) (args : AppendEntriesArgs A) (reply : AppendEntriesReply)
      → InStep rf peer
      → Advances rf (handle_conflict rf peer args reply).0 peer
  unfolding handle_conflict
  handle_conflict-Advances rf peer args reply h =
      let next = clamp_next rf peer (suggested rf reply.conflict_term reply.conflict_index) in
      ground (
        arith,
        clamp_next_bounds rf peer (suggested rf reply.conflict_term reply.conflict_index),
        get_or-set_self rf.next_index peer next 0,
        length-set rf.next_index peer next,
      )

  become_follower_same :
      (clock : Clock) (rf : Raft A) (term : ℕ)
      → let rf' = reset_election_deadline clock (become_follower rf term) in
        (rf'.next_index ≡ rf.next_index)
        × (rf'.match_index ≡ rf.match_index)
        × (last_log_index rf' ≡ last_log_index rf)
  unfolding become_follower reset_election_deadline
  become_follower_same clock rf term = ground arith

  -- A reply to an append request that ends inside the leader's log never lowers what the leader
  -- knows a peer to hold, and leaves the next index to send past that and at most one past the log,
  -- whatever a refusal suggests.
  pub handle_append_reply-InStep :
      (clock : Clock) (rf : Raft A) (peer : ℕ) (args : AppendEntriesArgs A)
      (reply : AppendEntriesReply)
      → InStep rf peer
      → args.prev_log_index + length args.entries ≤ last_log_index rf
      → let rf' = (handle_append_reply clock rf peer args reply).0 in
        InStep rf' peer × (match_of rf peer ≤ match_of rf' peer)
  unfolding handle_append_reply
  handle_append_reply-InStep clock rf peer args reply h u = ground (
    arith,
    handle_success-Advances rf peer args h u,
    handle_conflict-Advances rf peer args reply h,
    become_follower_same clock rf reply.term,
  )
