-- ===== src/Raft/Commit.antt =====
-- src/raft1/raft.go, advanceCommitIndexLocked: the commit index of a leader.
use raft_sharded_kv.Prelude.{
  ℕ, zero, suc, ◌+◌, Bool, true, false, Option, none, some, ltb, leb, ◌&&◌, if◌then◌else◌, get_or,
}
use raft_sharded_kv.Raft.Types.{Raft, is_leader}
use raft_sharded_kv.Raft.Log.{last_log_index, term_at}
use raft_sharded_kv.Raft.Append.{has_term}
use raft_sharded_kv.Raft.Vote.{majority}

module _ {A : Type 0} where
  -- How many of the first `peers` peers are known to hold the log up to n.
  unfoldable pub count_replicated : Raft A → ℕ → ℕ → ℕ
  count_replicated rf n zero = 0
  count_replicated rf n (suc peer) =
      (if leb n (get_or rf.match_index peer 0) then 1 else 0) + count_replicated rf n peer

  -- An entry of the leader's own term that a majority holds.
  unfoldable pub can_commit : Raft A → ℕ → Bool
  unfolding count_replicated
  can_commit rf n =
      has_term (term_at rf n) rf.current_term && leb (majority rf) (count_replicated rf n rf.peers)

  -- The loop downwards from n to the commit index.
  unfoldable pub find_commit : Raft A → ℕ → Option ℕ
  find_commit rf zero = none
  find_commit rf (suc n) =
      let rest = find_commit rf n in
      if ltb rf.commit_index (suc n)
      then (if can_commit rf (suc n) then some (suc n) else rest)
      else none

  abbrev pub committed : Raft A → Option ℕ → Raft A × Bool
  committed rf none = (rf, false)
  committed rf (some n) = (record rf { commit_index = n }, true)

  unfoldable pub advance_commit_index : Raft A → Raft A × Bool
  unfolding find_commit
  advance_commit_index rf =
      if is_leader rf.state then committed rf (find_commit rf (last_log_index rf)) else (rf, false)
