-- ===== src/Raft/Roles.antt =====
-- src/raft1/raft.go: the changes of role, the clock of elections, GetState and Kill.
use raft_sharded_kv.Prelude.{
  ℕ, ◌+◌, ◌%◌, Bool, true, not, minus_one, ltb, ◌==◌, ◌&&◌, if◌then◌else◌, length, set, replicate,
}
use raft_sharded_kv.Raft.Types.{Raft, follower, leader, is_leader, Clock}
use raft_sharded_kv.Raft.Log.{last_log_index}
use raft_sharded_kv.Raft.Encoding.{persist}

-- randomElectionTimeout: 400 + rand.Int63()%300 milliseconds.
unfoldable pub random_election_timeout : ℕ → ℕ
random_election_timeout rand = 400 + rand % 300

module _ {A : Type 0} where
  unfoldable pub reset_election_deadline : Clock → Raft A → Raft A
  unfolding random_election_timeout
  reset_election_deadline clock rf = record rf {
    election_deadline = clock.now + random_election_timeout clock.rand;
  }

  unfoldable pub become_follower : Raft A → ℕ → Raft A
  unfolding persist
  become_follower rf term =
      let rf' =
        if ltb rf.current_term term
        then persist (record rf { current_term = term; voted_for = minus_one })
        else rf in
      record rf' { state = follower }

  unfoldable pub become_leader : Raft A → Raft A
  become_leader rf =
      let last = last_log_index rf in
      record rf {
        state = leader;
        next_index = set (replicate rf.peers (last + 1)) rf.me (last + 1);
        match_index = set (replicate rf.peers 0) rf.me last;
        last_rescue_sent =
            if length rf.last_rescue_sent == rf.peers
            then replicate rf.peers 0
            else rf.last_rescue_sent;
      }

  unfoldable pub get_state : Raft A → ℕ × Bool
  get_state rf = (rf.current_term, not rf.dead && is_leader rf.state)

  -- The second call returns at once.
  unfoldable pub kill : Raft A → Raft A
  kill rf = if rf.dead then rf else record rf { dead = true; state = follower }
