-- ===== src/Raft/Ballots.antt =====
-- What a node's handlers may do to its term, its vote and its role (src/raft1/raft.go): the facts
-- on which elections rest.
use raft_sharded_kv.Prelude.{
  length, List, [], ◌∷◌, ℕ, ◌+◌, ◌≤◌, ◌≡◌, ◌≢◌, refl, ◌⊎◌, true, false, arith, pos, minus_one,
}
use raft_sharded_kv.Raft.Types.{
  Raft, follower, candidate, leader, Clock, RequestVoteArgs, RequestVoteReply, AppendEntriesArgs,
  AppendEntriesReply, InstallSnapshotArgs, InstallSnapshotReply, Bytes, Coding, LogEntry,
}
use raft_sharded_kv.Raft.Roles.{become_leader, kill, reset_election_deadline, become_follower}
use raft_sharded_kv.Raft.Vote.{
  majority, request_vote, start_election, handle_vote_reply, may_not_start,
}
use raft_sharded_kv.Raft.Append.{append_entries, accept, merge, merge_and_save}
use raft_sharded_kv.Raft.Snapshots.{take_snapshot, install_snapshot}
use raft_sharded_kv.Raft.Replicate.{
  raise_progress, append_command, handle_install_reply, handle_append_reply, handle_heartbeat_reply,
  start,
}
use raft_sharded_kv.Raft.Commit.{advance_commit_index}
use raft_sharded_kv.Raft.Apply.{applier_turn}

module _ {A : Type 0} where
  -- The term does not fall, a vote in it does not change, and no candidacy or leadership is gained.
  pub record Yields (rf rf' : Raft A) : Type 0 where
    pub term : rf.current_term ≤ rf'.current_term
    pub vote :
        rf'.current_term ≡ rf.current_term → rf.voted_for ≢ minus_one → rf'.voted_for ≡ rf.voted_for
    pub role : rf'.state ≢ follower → (rf'.state ≡ rf.state) × (rf'.current_term ≡ rf.current_term)
    pub size : (rf'.peers ≡ rf.peers) × (rf'.me ≡ rf.me)

  -- The fields of an election are left alone.
  abbrev SameBallot : Raft A → Raft A → Type 0
  SameBallot rf rf' =
      (rf'.current_term ≡ rf.current_term)
      × (rf'.voted_for ≡ rf.voted_for)
      × (rf'.state ≡ rf.state)
      × (rf'.peers ≡ rf.peers)
      × (rf'.me ≡ rf.me)

  merge-SameBallot :
      (c : Coding A) (rf : Raft A) (index : ℕ) (entries : List (LogEntry A))
      → SameBallot rf (merge c rf index entries).0
  unfolding merge
  merge-SameBallot c rf index [] = (refl, refl, refl, refl, refl)
  merge-SameBallot c rf index (e ∷ es) = ground (arith, merge-SameBallot c rf (index + 1) es)

  accept-SameBallot :
      (c : Coding A) (rf : Raft A) (args : AppendEntriesArgs A) → SameBallot rf (accept c rf args)
  unfolding accept merge_and_save
  accept-SameBallot c rf args =
      ground (arith, merge-SameBallot c rf (args.prev_log_index + 1) args.entries)

  advance-SameBallot : (rf : Raft A) → SameBallot rf (advance_commit_index rf).0
  unfolding advance_commit_index
  advance-SameBallot rf = ground arith

  module _ (clock : Clock) (rf : Raft A) where
    pub request_vote-Yields : (args : RequestVoteArgs) → Yields rf (request_vote clock rf args).1
    unfolding request_vote
    request_vote-Yields args = ground arith

    pub kill-Yields : Yields rf (kill rf)
    unfolding kill
    kill-Yields = ground arith

    pub install_snapshot-Yields :
        (c : Coding A) (args : InstallSnapshotArgs) → Yields rf (install_snapshot c clock rf args).1
    unfolding install_snapshot
    install_snapshot-Yields c args = ground arith

    pub append_entries-Yields :
        (c : Coding A) (args : AppendEntriesArgs A) → Yields rf (append_entries c clock rf args).1
    unfolding append_entries
    append_entries-Yields c args = ground (
      arith,
      accept-SameBallot c (reset_election_deadline clock (become_follower rf args.term)) args,
    )

    pub take_snapshot-Yields :
        (c : Coding A) (index : ℕ) (payload : Bytes) → Yields rf (take_snapshot c rf index payload)
    unfolding take_snapshot
    take_snapshot-Yields c index payload = ground arith

    pub handle_install_reply-Yields :
        (peer : ℕ) (args : InstallSnapshotArgs) (reply : InstallSnapshotReply)
        → Yields rf (handle_install_reply clock rf peer args reply).0
    unfolding handle_install_reply
    handle_install_reply-Yields peer args reply = ground arith

    pub handle_append_reply-Yields :
        (peer : ℕ) (args : AppendEntriesArgs A) (reply : AppendEntriesReply)
        → Yields rf (handle_append_reply clock rf peer args reply).0
    unfolding handle_append_reply
    handle_append_reply-Yields peer args reply = ground (
      arith,
      advance-SameBallot (raise_progress rf peer (args.prev_log_index + length args.entries)),
    )

    pub handle_heartbeat_reply-Yields :
        (reply : AppendEntriesReply) → Yields rf (handle_heartbeat_reply clock rf reply)
    unfolding handle_heartbeat_reply
    handle_heartbeat_reply-Yields reply = ground arith

    pub start-Yields : (c : Coding A) (command : A) → Yields rf (start c rf command).3
    unfolding start
    start-Yields c command = ground (arith, advance-SameBallot (append_command c rf command))

    pub applier_turn-Yields : Yields rf (applier_turn rf).0
    unfolding applier_turn
    applier_turn-Yields = ground arith

    -- A vote is granted only in the candidate's term, and not after one for another candidate.
    pub request_vote_granted :
        (args : RequestVoteArgs)
        → (request_vote clock rf args).0.vote_granted ≡ true
        → ((request_vote clock rf args).1.current_term ≡ args.term)
          × ((request_vote clock rf args).1.voted_for ≡ pos args.candidate_id)
          × (rf.current_term ≤ args.term)
          × (rf.current_term ≡ args.term
              → (rf.voted_for ≡ minus_one) ⊎ (rf.voted_for ≡ pos args.candidate_id))
    unfolding request_vote
    request_vote_granted args h = (ground arith, ground arith, ground arith, (λ e. ground arith))

    -- A node that starts an election opens a new term, in which it votes for itself.
    pub start_election_started :
        may_not_start clock rf ≡ false
        → ((start_election clock rf).0.current_term ≡ rf.current_term + 1)
          × ((start_election clock rf).0.voted_for ≡ pos rf.me)
          × ((start_election clock rf).0.peers ≡ rf.peers)
          × ((start_election clock rf).0.me ≡ rf.me)
          × ((start_election clock rf).0.state ≡ leader → majority rf ≤ 1)
    unfolding start_election
    start_election_started h = ground arith

    -- A reply either is not counted, and then the node does what any node may do; or it is a vote
    -- for this candidacy.
    pub handle_vote_reply_cases :
        (term votes : ℕ) (reply : RequestVoteReply)
        → let r = handle_vote_reply clock rf term votes reply in
          (Yields rf r.0 × (r.1 ≡ votes))
          ⊎ ((rf.state ≡ candidate)
              × (rf.current_term ≡ term)
              × (reply.vote_granted ≡ true)
              × (r.1 ≡ votes + 1)
              × ((r.0 ≡ rf) ⊎ ((r.0 ≡ become_leader rf) × (majority rf ≤ votes + 1))))
    unfolding handle_vote_reply
    handle_vote_reply_cases term votes reply = ground arith

  pub become_leader_fields :
      (rf : Raft A)
      → ((become_leader rf).current_term ≡ rf.current_term)
        × ((become_leader rf).voted_for ≡ rf.voted_for)
        × ((become_leader rf).state ≡ leader)
        × ((become_leader rf).peers ≡ rf.peers)
        × ((become_leader rf).me ≡ rf.me)
  unfolding become_leader
  become_leader_fields rf = (refl, refl, refl, refl, refl)
