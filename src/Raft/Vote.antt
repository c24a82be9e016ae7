-- ===== src/Raft/Vote.antt =====
-- src/raft1/raft.go: RequestVote, and startElection with its handling of the replies. The variable
-- `votes` that the goroutines of one election share is a value of its own.
use raft_sharded_kv.Prelude.{
  ℕ, ◌+◌, ◌/◌, Bool, true, false, not, Option, none, some, pos, minus_one, int_eq, ltb, leb, ◌==◌,
  ◌&&◌, ◌||◌, if◌then◌else◌,
}
use raft_sharded_kv.Raft.Types.{
  Raft, candidate, is_leader, is_candidate, RequestVoteArgs, RequestVoteReply, Clock,
}
use raft_sharded_kv.Raft.Log.{last_log_index, last_log_term}
use raft_sharded_kv.Raft.Encoding.{persist}
use raft_sharded_kv.Raft.Roles.{become_follower, become_leader, reset_election_deadline}

module _ {A : Type 0} where
  abbrev pub majority : Raft A → ℕ
  majority rf = rf.peers / 2 + 1

  -- Whether the candidate's log is at least as new as the node's.
  unfoldable pub up_to_date : Raft A → RequestVoteArgs → Bool
  up_to_date rf args =
      ltb (last_log_term rf) args.last_log_term
      || (args.last_log_term == last_log_term rf && leb (last_log_index rf) args.last_log_index)

  unfoldable pub can_vote : Raft A → ℕ → Bool
  can_vote rf candidate_id = int_eq rf.voted_for minus_one || int_eq rf.voted_for (pos candidate_id)

  -- The answer once the node's term is the candidate's.
  unfoldable pub cast_vote : Clock → Raft A → RequestVoteArgs → Bool → RequestVoteReply × Raft A
  unfolding can_vote persist reset_election_deadline
  cast_vote clock rf args fresh =
      if can_vote rf args.candidate_id && fresh
      then (
        record { term = rf.current_term; vote_granted = true },
        persist (reset_election_deadline clock (record rf { voted_for = pos args.candidate_id })),
      )
      else (record { term = rf.current_term; vote_granted = false }, rf)

  unfoldable pub request_vote : Clock → Raft A → RequestVoteArgs → RequestVoteReply × Raft A
  unfolding cast_vote become_follower
  request_vote clock rf args =
      if rf.dead || ltb args.term rf.current_term
      then (record { term = rf.current_term; vote_granted = false }, rf)
      else cast_vote clock
          (if ltb rf.current_term args.term then become_follower rf args.term else rf) args
          (up_to_date rf args)

  -- The node cannot start an election: it was killed, it leads, or its deadline is ahead.
  abbrev pub may_not_start : Clock → Raft A → Bool
  may_not_start clock rf = rf.dead || (is_leader rf.state || ltb clock.now rf.election_deadline)

  unfoldable pub become_candidate : Clock → Raft A → Raft A
  unfolding persist reset_election_deadline
  become_candidate clock rf = reset_election_deadline clock (
      persist (record rf {
        state = candidate;
        current_term = rf.current_term + 1;
        voted_for = pos rf.me;
      }))

  abbrev pub vote_args : Raft A → RequestVoteArgs
  vote_args rf = record {
    term = rf.current_term;
    candidate_id = rf.me;
    last_log_index = last_log_index rf;
    last_log_term = last_log_term rf;
  }

  -- The node, and the request that goes to every other peer unless the node leads at once.
  unfoldable pub start_election : Clock → Raft A → Raft A × Option RequestVoteArgs
  unfolding become_candidate become_leader
  start_election clock rf =
      if may_not_start clock rf
      then (rf, none)
      else (let rf' = become_candidate clock rf in
          if leb (majority rf) 1 then (become_leader rf', none) else (rf', some (vote_args rf')))

  -- A reply to the election of `term`, with the votes counted so far; the last part says that the
  -- node has won.
  unfoldable pub handle_vote_reply : Clock → Raft A → ℕ → ℕ → RequestVoteReply → Raft A × ℕ × Bool
  unfolding become_follower become_leader reset_election_deadline
  handle_vote_reply clock rf term votes reply =
      if rf.dead
      then (rf, votes, false)
      else if ltb rf.current_term reply.term
      then (reset_election_deadline clock (become_follower rf reply.term), votes, false)
      else if not (is_candidate rf.state) || not (rf.current_term == term)
      then (rf, votes, false)
      else if not reply.vote_granted
      then (rf, votes, false)
      else if leb (majority rf) (votes + 1)
      then (become_leader rf, votes + 1, true)
      else (rf, votes + 1, false)

  -- One tick of ticker: whether an election is due.
  unfoldable pub should_start : Clock → Raft A → Bool
  should_start clock rf =
      not rf.dead && (not (is_leader rf.state) && not (ltb clock.now rf.election_deadline))
