-- ===== src/Raft/Types.antt =====
-- src/raft1/raft.go: the types of a node's state and of its messages, over the type of commands.
use raft_sharded_kv.Prelude.{ℕ, Bool, ℤ, List, Option, ◌≡◌, some}

-- The constants Follower, Candidate and Leader.
pub data Role : Type 0 where
  follower candidate leader : Role

abbrev pub is_leader : Role → Bool
is_leader leader = Bool.true
is_leader _ = Bool.false

abbrev pub is_candidate : Role → Bool
is_candidate candidate = Bool.true
is_candidate _ = Bool.false

-- A nil command is `none`.
pub record LogEntry (A : Type 0) : Type 0 where
  pub term : ℕ
  pub command : Option A

abbrev pub Bytes : Type 0
Bytes = List ℕ

-- src/raftapi/raftapi.go: a message holds a command or a snapshot.
pub data ApplyMsg (A : Type 0) : Type 0 where
  command_msg : Option A → ℕ → ApplyMsg A  -- Command, CommandIndex
  snapshot_msg : Bytes → ℕ → ℕ → ApplyMsg A  -- Snapshot, SnapshotTerm, SnapshotIndex

-- src/tester1/persister.go: what Save has stored last.
pub record Persister : Type 0 where
  pub raft_state : Bytes
  pub snapshot : Bytes

-- The state that the mutex guards. A channel of replicateNotify holds at most one notice, so it is
-- a Boolean. `panicked` records that the code panicked on its encoding cache.
pub record Raft (A : Type 0) : Type 0 where
  pub peers : ℕ
  pub me : ℕ
  pub dead : Bool
  pub current_term : ℕ
  pub voted_for : ℤ
  pub logs : List (LogEntry A)
  pub encoded_logs : List Bytes
  pub next_index : List ℕ
  pub match_index : List ℕ
  pub state : Role
  pub election_deadline : ℕ
  pub commit_index : ℕ
  pub last_applied : ℕ
  pub replicate_notify : List Bool
  pub replicate_busy : List Bool
  pub last_rescue_sent : List ℕ
  pub last_included_index : ℕ
  pub last_included_term : ℕ
  pub snapshot : Bytes
  pub pending_snapshot : Option (ApplyMsg A)
  pub persister : Persister
  pub panicked : Bool

pub record AppendEntriesArgs (A : Type 0) : Type 0 where
  pub term : ℕ
  pub leader_id : ℕ
  pub prev_log_index : ℕ
  pub prev_log_term : ℕ
  pub entries : List (LogEntry A)
  pub leader_commit : ℕ

pub record AppendEntriesReply : Type 0 where
  pub term : ℕ
  pub success : Bool
  pub stopped : Bool
  pub conflict_term : ℤ
  pub conflict_index : ℕ

pub record InstallSnapshotArgs : Type 0 where
  pub term : ℕ
  pub leader_id : ℕ
  pub last_included_index : ℕ
  pub last_included_term : ℕ
  pub payload : Bytes  -- Data

pub record InstallSnapshotReply : Type 0 where
  pub term : ℕ
  pub stopped : Bool

pub record RequestVoteArgs : Type 0 where
  pub term : ℕ
  pub candidate_id : ℕ
  pub last_log_index : ℕ
  pub last_log_term : ℕ

pub record RequestVoteReply : Type 0 where
  pub term : ℕ
  pub vote_granted : Bool

-- What a handler reads from its environment: the time in milliseconds and a random number.
pub record Clock : Type 0 where
  pub now : ℕ
  pub rand : ℕ

-- The encoding of one entry by labgob, with what the code relies on.
pub record Coding (A : Type 0) : Type 0 where
  pub encode : LogEntry A → Bytes
  pub decode : Bytes → Option (LogEntry A)
  pub decode_encode : (e : LogEntry A) → decode (encode e) ≡ some e
