-- ===== src/Cluster/System.antt =====
-- A cluster of nodes of src/raft1/raft.go as a step relation. A vote request and its reply are
-- delivered at most once, late, or never, in any order; all other messages are arbitrary.
use raft_sharded_kv.Prelude.{ℕ, ◌<◌, ◌≡◌, false, ◌==◌, ◌&&◌, ltb, if◌then◌else◌}
use raft_sharded_kv.Raft.Types.{
  Raft, Clock, RequestVoteArgs, RequestVoteReply, AppendEntriesArgs, AppendEntriesReply,
  InstallSnapshotArgs, InstallSnapshotReply, Bytes, Coding, follower,
}
use raft_sharded_kv.Raft.Roles.{kill}
use raft_sharded_kv.Raft.Vote.{
  request_vote, start_election, handle_vote_reply, may_not_start, vote_args,
}
use raft_sharded_kv.Raft.Append.{append_entries}
use raft_sharded_kv.Raft.Snapshots.{take_snapshot, install_snapshot}
use raft_sharded_kv.Raft.Replicate.{
  handle_install_reply, handle_append_reply, handle_heartbeat_reply, start,
}
use raft_sharded_kv.Raft.Apply.{applier_turn}

-- What has become of the request of one candidate, in one term, to one voter.
pub data Ballot : Type 0 where
  idle : Ballot
  asked : RequestVoteArgs → Ballot
  answered : RequestVoteReply → Ballot
  counted : Ballot
  discarded : Ballot

-- `ballots i t s` is the request of node i in its election of term t to node s, and `votes i t` the
-- variable of that election.
pub record Cluster (A : Type 0) : Type 0 where
  pub nodes : ℕ → Raft A
  pub ballots : ℕ → ℕ → ℕ → Ballot
  pub votes : ℕ → ℕ → ℕ

module _ {A : Type 0} where
  abbrev pub set_node : Cluster A → ℕ → Raft A → Cluster A
  set_node s i rf = record s { nodes = λ j. if i == j then rf else s.nodes j }

  abbrev pub set_ballot : Cluster A → ℕ → ℕ → ℕ → Ballot → Cluster A
  set_ballot s i t v b = record s {
    ballots = λ i' t' v'. if (i == i') && ((t == t') && (v == v')) then b else s.ballots i' t' v';
  }

  abbrev pub set_votes : Cluster A → ℕ → ℕ → ℕ → Cluster A
  set_votes s i t n = record s {
    votes = λ i' t'. if (i == i') && (t == t') then n else s.votes i' t';
  }

  -- Every voter is asked, and the candidate has its own vote.
  abbrev pub open_ballots : Cluster A → ℕ → ℕ → RequestVoteArgs → Cluster A
  open_ballots s i t args = record s {
    ballots = λ i' t' v.
        if (i == i') && (t == t')
        then (if v == i then counted else asked args)
        else s.ballots i' t' v;
  }

  -- What a node does without votes: any message or call may come.
  pub data Local (c : Coding A) (rf : Raft A) : Raft A → Type 0 where
    kills : Local c rf (kill rf)
    appends :
        (clock : Clock) (args : AppendEntriesArgs A) → Local c rf (append_entries c clock rf args).1
    installs :
        (clock : Clock) (args : InstallSnapshotArgs)
        → Local c rf (install_snapshot c clock rf args).1
    compacts : (index : ℕ) (payload : Bytes) → Local c rf (take_snapshot c rf index payload)
    install_replies :
        (clock : Clock) (peer : ℕ) (args : InstallSnapshotArgs) (reply : InstallSnapshotReply)
        → Local c rf (handle_install_reply clock rf peer args reply).0
    append_replies :
        (clock : Clock) (peer : ℕ) (args : AppendEntriesArgs A) (reply : AppendEntriesReply)
        → Local c rf (handle_append_reply clock rf peer args reply).0
    heartbeat_replies :
        (clock : Clock) (reply : AppendEntriesReply)
        → Local c rf (handle_heartbeat_reply clock rf reply)
    starts : (command : A) → Local c rf (start c rf command).3
    applies : Local c rf (applier_turn rf).0

  -- The state after node i has run startElection past its check.
  unfoldable pub elected : Cluster A → ℕ → Raft A → Cluster A
  elected s i rf =
      set_votes (open_ballots (set_node s i rf) i rf.current_term (vote_args rf)) i rf.current_term
        1

  -- The state after node i has handled the reply of voter v to its election of term t.
  unfoldable pub received : Clock → Cluster A → ℕ → ℕ → ℕ → RequestVoteReply → Cluster A
  received clock s i t v reply =
      let (rf, votes, won) = handle_vote_reply clock (s.nodes i) t (s.votes i t) reply in
      set_votes
        (set_ballot (set_node s i rf) i t v
          (if ltb (s.votes i t) votes then counted else discarded))
        i t votes

  unfoldable pub asked_of : Clock → Cluster A → ℕ → ℕ → ℕ → RequestVoteArgs → Cluster A
  asked_of clock s i t v args =
      let (reply, rf) = request_vote clock (s.nodes v) args in
      set_ballot (set_node s v rf) i t v (answered reply)

  -- One step of a cluster of n nodes.
  pub data Step (c : Coding A) (n : ℕ) (s : Cluster A) : Cluster A → Type 0 where
    elect :
        (clock : Clock) (i : ℕ)
        → i < n
        → may_not_start clock (s.nodes i) ≡ false
        → Step c n s (elected s i (start_election clock (s.nodes i)).0)
    ask :
        (clock : Clock) (i t v : ℕ) (args : RequestVoteArgs)
        → i < n
        → v < n
        → s.ballots i t v ≡ asked args
        → Step c n s (asked_of clock s i t v args)
    receive :
        (clock : Clock) (i t v : ℕ) (reply : RequestVoteReply)
        → i < n
        → v < n
        → s.ballots i t v ≡ answered reply
        → Step c n s (received clock s i t v reply)
    local : (i : ℕ) (rf : Raft A) → i < n → Local c (s.nodes i) rf → Step c n s (set_node s i rf)

  pub data Reach (c : Coding A) (n : ℕ) (s : Cluster A) : Cluster A → Type 0 where
    here : Reach c n s s
    next : {t u : Cluster A} → Reach c n s t → Step c n t u → Reach c n s u

  -- A cluster at the start: followers in some terms, no election under way.
  pub record IsInitial (n : ℕ) (s : Cluster A) : Type 0 where
    pub sized : (i : ℕ) → i < n → ((s.nodes i).peers ≡ n) × ((s.nodes i).me ≡ i)
    pub following : (i : ℕ) → i < n → (s.nodes i).state ≡ follower
    pub quiet : (i t v : ℕ) → s.ballots i t v ≡ idle
