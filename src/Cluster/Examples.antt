-- ===== src/Cluster/Examples.antt =====
-- Tests of a cluster of three nodes of src/raft1.
use raft_sharded_kv.Prelude.{
  ℕ, ◌≡◌, refl, arith, [], ◌∷◌, Option, none, some, true, false, minus_one,
}
use raft_sharded_kv.Raft.Types.{
  Raft, LogEntry, Coding, Clock, follower, leader, RequestVoteArgs, RequestVoteReply, Bytes,
}
use raft_sharded_kv.Raft.Log.{last_log_term}
use raft_sharded_kv.Raft.Vote.{
  start_election, request_vote, handle_vote_reply, vote_args, up_to_date,
}
use raft_sharded_kv.Cluster.System.{
  idle, asked, answered, Cluster, Step, Reach, IsInitial, elected, asked_of, received,
}
use raft_sharded_kv.Cluster.Safety.{election_safety}

-- An encoding of entries that have no command.
abbrev entry : ℕ → Option ⊥ → LogEntry ⊥
entry t o = record { term = t; command = o }

abbrev decode_term : Bytes → Option (LogEntry ⊥)
decode_term [] = none
decode_term (t ∷ ts) = some (entry t none)

no_command : (t : ℕ) (o : Option ⊥) → some (entry t none) ≡ some (entry t o)
no_command t none = refl
no_command t (some x) = absurd x

abbrev plain : Coding ⊥
plain = record {
  encode = λ e. e.term ∷ [];
  decode = decode_term;
  decode_encode = λ e. no_command e.term e.command;
}

abbrev clock : Clock
clock = record { now = 1000; rand = 7 }

abbrev fresh_node : ℕ → Raft ⊥
fresh_node me = record {
  peers = 3;
  me = me;
  dead = false;
  current_term = 0;
  voted_for = minus_one;
  logs = record { term = 0; command = none } ∷ [];
  encoded_logs = (0 ∷ []) ∷ [];
  next_index = [];
  match_index = [];
  state = follower;
  election_deadline = 500;
  commit_index = 0;
  last_applied = 0;
  replicate_notify = false ∷ (false ∷ (false ∷ []));
  replicate_busy = false ∷ (false ∷ (false ∷ []));
  last_rescue_sent = 0 ∷ (0 ∷ (0 ∷ []));
  last_included_index = 0;
  last_included_term = 0;
  snapshot = [];
  pending_snapshot = none;
  persister = record { raft_state = []; snapshot = [] };
  panicked = false;
}

abbrev three : Cluster ⊥
three = record { nodes = λ i. fresh_node i; ballots = λ i t v. idle; votes = λ i t. 0 }

three-IsInitial : IsInitial 3 three
three-IsInitial = record {
  sized = λ i l. (refl, refl);
  following = λ i l. refl;
  quiet = λ i t v. refl;
}

-- Node 0 starts an election, node 1 votes for it, and node 0 counts the vote.
abbrev electing : Cluster ⊥
electing = elected three 0 (start_election clock (three.nodes 0)).0

abbrev request : RequestVoteArgs
request = vote_args (start_election clock (three.nodes 0)).0

abbrev voted : Cluster ⊥
voted = asked_of clock electing 0 1 1 request

abbrev grant : RequestVoteReply
grant = record { term = 1; vote_granted = true }

abbrev won : Cluster ⊥
won = received clock voted 0 1 1 grant

one_asked : electing.ballots 0 1 1 ≡ asked request
unfolding elected start_election
one_asked = refl

one_answered : voted.ballots 0 1 1 ≡ answered grant
unfolding asked_of elected start_election request_vote up_to_date last_log_term
one_answered = refl

zero_leads : (won.nodes 0).state ≡ leader
unfolding received asked_of elected start_election request_vote up_to_date last_log_term
    handle_vote_reply
zero_leads = refl

history : Reach plain 3 three won
history =
    Reach.next
      (Reach.next (Reach.next Reach.here (Step.elect clock 0 (omega arith) refl))
        (Step.ask clock 0 1 1 request (omega arith) (omega arith) one_asked))
      (Step.receive clock 0 1 1 grant (omega arith) (omega arith) one_answered)

election_safety_example : ◌≡◌ {A = ℕ} 0 0
election_safety_example =
    election_safety plain 3 three won 0 0 three-IsInitial history (omega arith) (omega arith)
      zero_leads zero_leads refl
