-- ===== src/Raft/Examples.antt =====
-- Tests of src/raft1 on concrete inputs.
use raft_sharded_kv.Prelude.{
  ℕ, ◌+◌, ◌-◌, ◌<◌, ◌≤◌, ◌≡◌, ◌⊎◌, refl, arith, List, [], ◌∷◌, Option, none, some, true, false,
  minus_one, max, min, pos, length, get_or,
}
use raft_sharded_kv.Raft.Types.{
  Raft, LogEntry, Bytes, Coding, Clock, AppendEntriesArgs, AppendEntriesReply, follower, leader,
  Role, ApplyMsg,
}
use raft_sharded_kv.Raft.Log.{last_log_index, entry_at, term_at}
use raft_sharded_kv.Raft.Encoding.{Persistent, loaded, encode_state, read_cached_persist, persist}
use raft_sharded_kv.Raft.Boot.{make}
use raft_sharded_kv.Raft.Append.{append_entries}
use raft_sharded_kv.Raft.Vote.{start_election}
use raft_sharded_kv.Raft.Commit.{advance_commit_index, can_commit}
use raft_sharded_kv.Raft.Replicate.{handle_append_reply, match_of}
use raft_sharded_kv.Raft.Apply.{applier_turn, wait, send}
use raft_sharded_kv.Raft.Snapshots.{take_snapshot}
use raft_sharded_kv.Raft.Invariant.{IsWellFormed}
use raft_sharded_kv.Raft.Agreement.{Agrees, Refusal, append_entries_success, append_entries_refused}
use raft_sharded_kv.Raft.Committed.{append_entries_keeps_committed}
use raft_sharded_kv.Raft.Majority.{Replicated, advance_commit_index_greatest}
use raft_sharded_kv.Raft.Batches.{Batch, applier_turn-Batch}
use raft_sharded_kv.Raft.Format.{Saveable, read_cached_persist-encode_state}
use raft_sharded_kv.Raft.Restart.{Restored, make-persist}
use raft_sharded_kv.Raft.Node.{Reachable, Step, Sound, Reachable-Sound}
use raft_sharded_kv.Raft.Progress.{InStep, handle_append_reply-InStep}
use raft_sharded_kv.Raft.Heartbeat.{
  Among, IsBeat, SameLog, heartbeat_or_notify_replication, heartbeat_reaches_all,
}
use raft_sharded_kv.Raft.Compaction.{SameFrom, take_snapshot_keeps}

-- An encoding of entries whose commands are numbers.
abbrev encode_parts : ℕ → Option ℕ → Bytes
encode_parts term none = term ∷ []
encode_parts term (some n) = term ∷ (n ∷ [])

abbrev decode_parts : Bytes → Option (LogEntry ℕ)
decode_parts [] = none
decode_parts (term ∷ []) = some (record { term = term; command = none })
decode_parts (term ∷ (n ∷ rest)) = some (record { term = term; command = some n })

decode_parts-encode_parts :
    (term : ℕ) (command : Option ℕ)
    → decode_parts (encode_parts term command) ≡ some (record { term = term; command = command })
decode_parts-encode_parts term none = refl
decode_parts-encode_parts term (some n) = refl

abbrev plain : Coding ℕ
plain = record {
  encode = λ e. encode_parts e.term e.command;
  decode = decode_parts;
  decode_encode = λ e. decode_parts-encode_parts e.term e.command;
}

abbrev no_legacy : Bytes → Option (Persistent ℕ)
no_legacy bytes = none

abbrev clock : Clock
clock = record { now = 1000; rand = 7 }

abbrev at_term : ℕ → LogEntry ℕ
at_term term = record { term = term; command = some 5 }

-- Node 0 of three in term 2, with entries of terms 1 and 2 of which the first is committed.
abbrev node_with : Role → Raft ℕ
node_with state = record {
  peers = 3;
  me = 0;
  dead = false;
  current_term = 2;
  voted_for = minus_one;
  logs = record { term = 0; command = none } ∷ (at_term 1 ∷ (at_term 2 ∷ []));
  encoded_logs = (0 ∷ []) ∷ ((1 ∷ (5 ∷ [])) ∷ ((2 ∷ (5 ∷ [])) ∷ []));
  next_index = 3 ∷ (3 ∷ (1 ∷ []));
  match_index = 2 ∷ (2 ∷ (0 ∷ []));
  state = state;
  election_deadline = 0;
  commit_index = 1;
  last_applied = 1;
  replicate_notify = false ∷ (false ∷ (false ∷ []));
  replicate_busy = false ∷ (false ∷ (false ∷ []));
  last_rescue_sent = 0 ∷ (0 ∷ (0 ∷ []));
  last_included_index = 0;
  last_included_term = 0;
  snapshot = [];
  pending_snapshot = none;
  persister = record { raft_state = []; snapshot = [] };
  panicked = false;
}

abbrev node : Raft ℕ
node = node_with follower

abbrev leading : Raft ℕ
leading = node_with leader

node-IsWellFormed : (state : Role) → IsWellFormed plain (node_with state)
node-IsWellFormed state = record {
  some_log = omega arith;
  cached = refl;
  base_term = refl;
  base_applied = omega arith;
  applied = omega arith;
  pending = tt;
  sound = refl;
}

node-Saveable : Saveable plain node
node-Saveable = record {
  some_log = omega arith;
  cached = refl;
  term = omega arith;
  vote = omega arith;
  index = omega arith;
  base = omega arith;
  count = omega arith;
  short = (omega arith, (omega arith, (omega arith, tt)));
}

-- The leader of term 3 replaces the second entry.
abbrev request : AppendEntriesArgs ℕ
request = record {
  term = 3;
  leader_id = 1;
  prev_log_index = 1;
  prev_log_term = 1;
  entries = at_term 3 ∷ (at_term 3 ∷ []);
  leader_commit = 2;
}

abbrev ahead : AppendEntriesArgs ℕ
ahead = record request { prev_log_index = 7 }

accepted : (append_entries plain clock node request).0.success ≡ true
unfolding append_entries term_at
accepted = refl

refused : (append_entries plain clock node ahead).0.success ≡ false
unfolding append_entries
refused = refl

append_entries_success_example :
    Agrees plain (append_entries plain clock node request).1 request
    × ((append_entries plain clock node request).1.commit_index ≡ max 1 (min 2 (1 + 2)))
append_entries_success_example =
    append_entries_success plain clock node request (node-IsWellFormed follower) accepted

append_entries_refused_example :
    let (reply, rf') = append_entries plain clock node ahead in
    (rf'.logs ≡ node.logs)
    × (rf'.commit_index ≡ 1)
    × (rf'.last_included_index ≡ 0)
    × Refusal plain rf' ahead reply.conflict_term reply.conflict_index
append_entries_refused_example =
    append_entries_refused plain clock node ahead (node-IsWellFormed follower) refl (omega arith)
      refused

append_entries_keeps_committed_example :
    let rf' = (append_entries plain clock node request).1 in
    (rf'.commit_index ≤ last_log_index rf')
    × ((index : ℕ)
        → 0 ≤ index
        → index ≤ 1
        → entry_at rf'.logs (index - rf'.last_included_index) ≡ entry_at node.logs (index - 0))
append_entries_keeps_committed_example =
    append_entries_keeps_committed plain clock node request (node-IsWellFormed follower)
      (omega arith) (λ k l b. absurd (omega arith)) accepted

advance_commit_index_greatest_example :
    let (rf', moved) = advance_commit_index leading in
    ((moved ≡ false)
      × (rf' ≡ leading)
      × ((n : ℕ)
          → 1 < n
          → n < leading.last_included_index + length leading.logs
          → ¬ Replicated leading n))
    ⊎ ((moved ≡ true)
        × (1 < rf'.commit_index)
        × (rf'.commit_index < leading.last_included_index + length leading.logs)
        × Replicated leading rf'.commit_index
        × ((n : ℕ)
            → rf'.commit_index < n
            → n < leading.last_included_index + length leading.logs
            → ¬ Replicated leading n))
advance_commit_index_greatest_example = advance_commit_index_greatest leading refl

commits_two : (advance_commit_index leading).0.commit_index ≡ 2
unfolding advance_commit_index can_commit term_at
commits_two = refl

abbrev unapplied : Raft ℕ
unapplied = record node { commit_index = 2 }

unapplied-IsWellFormed : IsWellFormed plain unapplied
unapplied-IsWellFormed = record {
  some_log = omega arith;
  cached = refl;
  base_term = refl;
  base_applied = omega arith;
  applied = omega arith;
  pending = tt;
  sound = refl;
}

applier_turn-Batch_example :
    let (rf', turn) = applier_turn unapplied in
    (rf'.last_applied ≡ unapplied.commit_index)
    × (((turn ≡ wait) × (unapplied.last_applied ≡ unapplied.commit_index))
        ⊎ ((messages : List (ApplyMsg ℕ)) × (turn ≡ send messages) × Batch unapplied messages))
applier_turn-Batch_example =
    applier_turn-Batch plain unapplied unapplied-IsWellFormed refl refl (omega arith)

take_snapshot_keeps_example :
    let rf' = take_snapshot plain node 1 (9 ∷ []) in
    SameFrom plain rf'.last_included_index node rf'
    × (((rf' ≡ node)
          × ((node.dead ≡ true) ⊎ (1 ≤ 0) ⊎ (node.last_applied < 1) ⊎ (last_log_index node < 1)))
        ⊎ ((rf'.last_included_index ≡ 1)
            × (rf'.snapshot ≡ 9 ∷ [])
            × (node.dead ≡ false)
            × (node.last_included_index < 1)
            × (1 ≤ node.last_applied)
            × (1 ≤ last_log_index node)))
take_snapshot_keeps_example = take_snapshot_keeps plain node 1 (9 ∷ [])

abbrev success : AppendEntriesReply
success = record {
  term = 2;
  success = true;
  stopped = false;
  conflict_term = minus_one;
  conflict_index = 0;
}

abbrev sent : AppendEntriesArgs ℕ
sent = record {
  term = 2;
  leader_id = 0;
  prev_log_index = 0;
  prev_log_term = 0;
  entries = at_term 1 ∷ (at_term 2 ∷ []);
  leader_commit = 1;
}

handle_append_reply-InStep_example :
    let rf' = (handle_append_reply clock leading 2 sent success).0 in
    InStep rf' 2 × (0 ≤ match_of rf' 2)
handle_append_reply-InStep_example =
    handle_append_reply-InStep clock leading 2 sent success
      (omega arith, omega arith, omega arith, omega arith) (omega arith)

read_cached_persist-encode_state_example :
    read_cached_persist plain (encode_state node)
    ≡ loaded (record {
      current_term = pos 2;
      voted_for = minus_one;
      last_included_index = pos 0;
      last_included_term = pos 0;
      logs = node.logs;
      encoded_logs = node.encoded_logs;
    })
read_cached_persist-encode_state_example = read_cached_persist-encode_state plain node node-Saveable

make-persist_example :
    (rf' : Raft ℕ) × (make plain no_legacy clock 3 0 (persist node).persister ≡ some rf')
    × Restored plain node rf'
make-persist_example = make-persist plain no_legacy clock 3 0 node node-Saveable

-- A cluster of one node that has just started.
abbrev alone : Raft ℕ
alone = record {
  peers = 1;
  me = 0;
  dead = false;
  current_term = 0;
  voted_for = minus_one;
  logs = record { term = 0; command = none } ∷ [];
  encoded_logs = (0 ∷ []) ∷ [];
  next_index = [];
  match_index = [];
  state = follower;
  election_deadline = 1407;
  commit_index = 0;
  last_applied = 0;
  replicate_notify = false ∷ [];
  replicate_busy = false ∷ [];
  last_rescue_sent = 0 ∷ [];
  last_included_index = 0;
  last_included_term = 0;
  snapshot = [];
  pending_snapshot = none;
  persister = record { raft_state = []; snapshot = [] };
  panicked = false;
}

makes : make plain no_legacy clock 1 0 (record { raft_state = []; snapshot = [] }) ≡ some alone
unfolding make
makes = refl

abbrev late : Clock
late = record { now = 2000; rand = 1 }

reachable : Reachable plain no_legacy (start_election late alone).0
reachable = Reachable.after (Reachable.fresh clock 1 0 [] alone makes) (Step.elects late)

leads_alone : (start_election late alone).0.state ≡ leader
unfolding start_election
leads_alone = refl

Reachable-Sound_example : Sound plain no_legacy (start_election late alone).0
Reachable-Sound_example = Reachable-Sound plain no_legacy reachable

abbrev busy_leading : Raft ℕ
busy_leading = record leading { replicate_busy = false ∷ (true ∷ (false ∷ [])) }

heartbeat_reaches_all_example :
    let (rf', beat) = heartbeat_or_notify_replication clock busy_leading in
    (((get_or busy_leading.replicate_busy 1 false ≡ false)
        × (get_or rf'.replicate_notify 1 false ≡ true))
      ⊎ ((get_or busy_leading.replicate_busy 1 false ≡ true)
          × (args : AppendEntriesArgs ℕ) × Among (1, args) beat.tasks
          × IsBeat busy_leading args))
    × SameLog busy_leading rf'
heartbeat_reaches_all_example =
    heartbeat_reaches_all clock busy_leading 1 refl refl (omega arith) refl (omega arith)
      (λ e. absurd (omega (arith, e)))
