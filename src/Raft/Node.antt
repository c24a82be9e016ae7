-- ===== src/Raft/Node.antt =====
-- src/raft1/raft.go: the life of one node, as the sequence of the critical sections that its
-- handlers and workers run.
use raft_sharded_kv.Prelude.{
  some-injective, minus_one, ◌⊎◌, inl, inr, ◌∙◌, Bool, ℕ, ◌≡◌, refl, sym, ap, arith, [], ◌∷◌,
  Option, some,
}
use raft_sharded_kv.Raft.Types.{
  Raft, Coding, Clock, Bytes, AppendEntriesArgs, AppendEntriesReply, InstallSnapshotArgs,
  InstallSnapshotReply, RequestVoteArgs, RequestVoteReply, Persister,
}
use raft_sharded_kv.Raft.Encoding.{Persistent, persist, saved, encode_state}
use raft_sharded_kv.Raft.Log.{no_entry}
use raft_sharded_kv.Raft.Boot.{make, read_persist, blank}
use raft_sharded_kv.Raft.Roles.{kill}
use raft_sharded_kv.Raft.Vote.{request_vote, start_election, handle_vote_reply}
use raft_sharded_kv.Raft.Append.{append_entries}
use raft_sharded_kv.Raft.Snapshots.{take_snapshot, install_snapshot}
use raft_sharded_kv.Raft.Replicate.{
  handle_install_reply, handle_append_reply, handle_heartbeat_reply, start,
  broadcast_append_entries, set_busy,
}
use raft_sharded_kv.Raft.Apply.{applier_turn}
use raft_sharded_kv.Raft.Invariant.{
  IsWellFormed, request_vote-IsWellFormed, start_election-IsWellFormed,
  handle_vote_reply-IsWellFormed, applier_turn-IsWellFormed, kill-IsWellFormed,
  take_snapshot-IsWellFormed, install_snapshot-IsWellFormed, append_entries-IsWellFormed,
  start-IsWellFormed, handle_append_reply-IsWellFormed, handle_install_reply-IsWellFormed,
  handle_heartbeat_reply-IsWellFormed, broadcast_append_entries-IsWellFormed,
}
use raft_sharded_kv.Raft.Durable.{
  Same, Same-IsDurable, IsDurable, Saves, request_vote-Saves, start_election-Saves,
  handle_vote_reply-Saves, append_entries-Saves, install_snapshot-Saves, take_snapshot-Saves,
  start-Saves, handle_append_reply-Saves, handle_install_reply-Saves, heartbeat-Saves,
  broadcast-Saves, applier_turn-Saves, kill-Saves,
}
use raft_sharded_kv.Raft.Heartbeat.{heartbeat_or_notify_replication}
use raft_sharded_kv.Raft.Ticks.{
  tick-Saves, tick-IsWellFormed, set_busy-Saves, set_busy-IsWellFormed,
}
use raft_sharded_kv.Raft.Restart.{make-persist, Restored, saved_cached}
use raft_sharded_kv.Raft.Format.{Saveable}

module _ {A : Type 0} (c : Coding A) (decode_legacy : Bytes → Option (Persistent A)) where
  -- One critical section.
  pub data Step (rf : Raft A) : Raft A → Type 0 where
    votes : (clock : Clock) (args : RequestVoteArgs) → Step rf (request_vote clock rf args).1
    elects : (clock : Clock) → Step rf (start_election clock rf).0
    counts :
        (clock : Clock) (term votes : ℕ) (reply : RequestVoteReply)
        → Step rf (handle_vote_reply clock rf term votes reply).0
    follows :
        (clock : Clock) (args : AppendEntriesArgs A) → Step rf (append_entries c clock rf args).1
    installs :
        (clock : Clock) (args : InstallSnapshotArgs) → Step rf (install_snapshot c clock rf args).1
    compacts : (index : ℕ) (payload : Bytes) → Step rf (take_snapshot c rf index payload)
    starts : (command : A) → Step rf (start c rf command).3
    learns :
        (clock : Clock) (peer : ℕ) (args : AppendEntriesArgs A) (reply : AppendEntriesReply)
        → Step rf (handle_append_reply clock rf peer args reply).0
    ships :
        (clock : Clock) (peer : ℕ) (args : InstallSnapshotArgs) (reply : InstallSnapshotReply)
        → Step rf (handle_install_reply clock rf peer args reply).0
    beats :
        (clock : Clock) (reply : AppendEntriesReply)
        → Step rf (handle_heartbeat_reply clock rf reply)
    ticks : (clock : Clock) → Step rf (heartbeat_or_notify_replication clock rf).0
    notifies : Step rf (broadcast_append_entries rf)
    applies : Step rf (applier_turn rf).0
    works : (peer : ℕ) (busy : Bool) → Step rf (set_busy rf peer busy)
    dies : Step rf (kill rf)

  -- The states of a node that Make has started on an empty disk.
  pub data Reachable : Raft A → Type 0 where
    fresh :
        (clock : Clock) (peers me : ℕ) (payload : Bytes) (rf : Raft A)
        → make c decode_legacy clock peers me (record { raft_state = []; snapshot = payload })
          ≡ some rf
        → Reachable rf
    after : {rf rf' : Raft A} → Reachable rf → Step rf rf' → Reachable rf'
    restarted :
        (clock : Clock) (peers me : ℕ) {rf : Raft A} (rf' : Raft A)
        → Reachable rf
        → Saveable c rf
        → make c decode_legacy clock peers me rf.persister ≡ some rf'
        → Reachable rf'

  Step-Saves : {rf rf' : Raft A} → Step rf rf' → Saves rf rf'
  Step-Saves {rf} (votes clock args) = request_vote-Saves clock rf args
  Step-Saves {rf} (elects clock) = start_election-Saves clock rf
  Step-Saves {rf} (counts clock term n reply) = handle_vote_reply-Saves clock rf term n reply
  Step-Saves {rf} (follows clock args) = append_entries-Saves c clock rf args
  Step-Saves {rf} (installs clock args) = install_snapshot-Saves c clock rf args
  Step-Saves {rf} (compacts index payload) = take_snapshot-Saves c rf index payload
  Step-Saves {rf} (starts command) = start-Saves c rf command
  Step-Saves {rf} (learns clock peer args reply) =
      handle_append_reply-Saves clock rf peer args reply
  Step-Saves {rf} (ships clock peer args reply) =
      handle_install_reply-Saves clock rf peer args reply
  Step-Saves {rf} (beats clock reply) = heartbeat-Saves clock rf reply
  Step-Saves {rf} (ticks clock) = tick-Saves clock rf
  Step-Saves {rf} notifies = broadcast-Saves rf
  Step-Saves {rf} applies = applier_turn-Saves rf
  Step-Saves {rf} (works peer busy) = set_busy-Saves rf peer busy
  Step-Saves {rf} dies = kill-Saves rf

  Step-IsWellFormed : {rf rf' : Raft A} → Step rf rf' → IsWellFormed c rf → IsWellFormed c rf'
  Step-IsWellFormed {rf} (votes clock args) v = request_vote-IsWellFormed c clock rf v args
  Step-IsWellFormed {rf} (elects clock) v = start_election-IsWellFormed c clock rf v
  Step-IsWellFormed {rf} (counts clock term n reply) v =
      handle_vote_reply-IsWellFormed c clock rf v term n reply
  Step-IsWellFormed {rf} (follows clock args) v = append_entries-IsWellFormed c clock rf v args
  Step-IsWellFormed {rf} (installs clock args) v = install_snapshot-IsWellFormed c clock rf v args
  Step-IsWellFormed {rf} (compacts index payload) v =
      take_snapshot-IsWellFormed c (record { now = 0; rand = 0 }) rf v index payload
  Step-IsWellFormed {rf} (starts command) v =
      start-IsWellFormed c (record { now = 0; rand = 0 }) rf v command
  Step-IsWellFormed {rf} (learns clock peer args reply) v =
      handle_append_reply-IsWellFormed c clock rf v peer args reply
  Step-IsWellFormed {rf} (ships clock peer args reply) v =
      handle_install_reply-IsWellFormed c clock rf v peer args reply
  Step-IsWellFormed {rf} (beats clock reply) v =
      handle_heartbeat_reply-IsWellFormed c clock rf v reply
  Step-IsWellFormed {rf} (ticks clock) v = tick-IsWellFormed clock c rf v
  Step-IsWellFormed {rf} notifies v =
      broadcast_append_entries-IsWellFormed c (record { now = 0; rand = 0 }) rf v
  Step-IsWellFormed {rf} applies v = applier_turn-IsWellFormed c (record { now = 0; rand = 0 }) rf v
  Step-IsWellFormed {rf} (works peer busy) v = set_busy-IsWellFormed c rf peer busy v
  Step-IsWellFormed {rf} dies v = kill-IsWellFormed c (record { now = 0; rand = 0 }) rf v

  make-IsWellFormed :
      (clock : Clock) (peers me : ℕ) (persister : Persister) (rf : Raft A)
      → persister.raft_state ≡ []
      → make c decode_legacy clock peers me persister ≡ some rf
      → IsWellFormed c rf
  unfolding make read_persist blank
  make-IsWellFormed clock peers me persister rf empty h = ground arith

  Restored-IsWellFormed :
      (rf rf' : Raft A) → IsWellFormed c rf → Restored c rf rf' → IsWellFormed c rf'
  Restored-IsWellFormed rf rf' v r = record {
    some_log = rw r.logs v.some_log;
    cached = rw (r.encoded, r.logs) v.cached;
    base_term = rw (r.logs, r.base) v.base_term;
    base_applied = omega (arith, r.index, r.applied);
    applied = omega (arith, r.commit, r.applied);
    pending = rw r.quiet tt;
    sound = r.sound;
  }

  -- A node that has not saved anything yet.
  pub record Fresh (rf : Raft A) : Type 0 where
    pub nothing : rf.persister.raft_state ≡ []
    pub term : rf.current_term ≡ 0
    pub vote : rf.voted_for ≡ minus_one
    pub logs : rf.logs ≡ no_entry ∷ []
    pub index : rf.last_included_index ≡ 0
    pub base : rf.last_included_term ≡ 0
    pub payload : rf.snapshot ≡ rf.persister.snapshot

  make-Fresh :
      (clock : Clock) (peers me : ℕ) (persister : Persister) (rf : Raft A)
      → persister.raft_state ≡ []
      → make c decode_legacy clock peers me persister ≡ some rf
      → Fresh rf
  unfolding make read_persist blank
  make-Fresh clock peers me persister rf empty h = ground arith

  Same-Fresh : {rf rf' : Raft A} → Same rf rf' → Fresh rf → Fresh rf'
  Same-Fresh s f = record {
    nothing = rw s.persister f.nothing;
    term = s.term ∙ f.term;
    vote = s.vote ∙ f.vote;
    logs = s.logs ∙ f.logs;
    index = s.index ∙ f.index;
    base = s.base ∙ f.base;
    payload = rw s.persister (s.payload ∙ f.payload);
  }

  -- What is on the disk of a node: nothing before its state changes for the first time, and then
  -- its state.
  abbrev pub OnDisk : Raft A → Type 0
  OnDisk rf = Fresh rf ⊎ IsDurable rf

  Step-OnDisk : {rf rf' : Raft A} → Step rf rf' → OnDisk rf → OnDisk rf'
  Step-OnDisk s d = elim (Step-Saves s) [
    | inl durable ↦ inr durable
    | inr same ↦ elim d [
      | inl initial ↦ inl (Same-Fresh same initial)
      | inr durable ↦ inr (Same-IsDurable same durable)
    ]
  ]

  Restored-encode_state : (rf rf' : Raft A) → Restored c rf rf' → encode_state rf' ≡ encode_state rf
  unfolding encode_state
  Restored-encode_state rf rf' r = rw (r.term, r.vote, r.index, r.base, r.encoded) refl

  Restored-Saveable : (rf rf' : Raft A) → Saveable c rf → Restored c rf rf' → Saveable c rf'
  Restored-Saveable rf rf' h r = record {
    some_log = rw r.logs h.some_log;
    cached = rw (r.encoded, r.logs) h.cached;
    term = rw r.term h.term;
    vote = rw r.vote h.vote;
    index = rw r.index h.index;
    base = rw r.base h.base;
    count = rw r.logs h.count;
    short = rw r.logs h.short;
  }

  Restored-IsDurable : (rf rf' : Raft A) → Saveable c rf → Restored c rf rf' → IsDurable rf'
  Restored-IsDurable rf rf' h r =
      rw
        (
          saved_cached c rf' (Restored-Saveable rf rf' h r),
          Restored-encode_state rf rf' r,
          r.payload,
        )
        r.disk

  -- Both, of each reachable node.
  pub record Sound (rf : Raft A) : Type 0 where
    pub valid : IsWellFormed c rf
    pub disk : OnDisk rf

  persist_disk : (rf : Raft A) → (persist rf).persister ≡ saved rf
  unfolding persist
  persist_disk rf = refl

  Restored-Sound :
      (clock : Clock) (peers me : ℕ) (rf rf' : Raft A)
      → Saveable c rf
      → make c decode_legacy clock peers me rf.persister ≡ some rf'
      → Sound rf
      → Sound rf'
  Restored-Sound clock peers me rf rf' h made s = elim s.disk [
    | inl initial ↦ record {
      valid = make-IsWellFormed clock peers me rf.persister rf' initial.nothing made;
      disk = inl (make-Fresh clock peers me rf.persister rf' initial.nothing made);
    }
    | inr durable ↦
        let (rf'', made', r) = make-persist c decode_legacy clock peers me rf h in
        let same : rf'' ≡ rf' = some-injective rf'' rf' (
          sym made'
          ∙ (ap (make c decode_legacy clock peers me) (persist_disk rf ∙ sym durable) ∙ made)) in
        rw (← same) (record {
          valid = Restored-IsWellFormed rf rf'' s.valid r;
          disk = inr (Restored-IsDurable rf rf'' h r);
        })
  ]

  -- Whatever it is sent, and through restarts from its own disk, a node that was started on an
  -- empty disk is well formed: its encoding cache is its log's encoding, its first entry is the
  -- boundary of its snapshot, the snapshot is behind the applied index and that behind the commit
  -- index, and it never panics on its cache. And its disk holds its whole persistent state, or
  -- nothing if that is still the initial one.
  pub Reachable-Sound : {rf : Raft A} → Reachable rf → Sound rf
  Reachable-Sound (fresh clock peers me payload rf h) = record {
    valid = make-IsWellFormed clock peers me _ rf refl h;
    disk = inl (make-Fresh clock peers me _ rf refl h);
  }
  Reachable-Sound (after r s) =
      let before = Reachable-Sound r in
      record { valid = Step-IsWellFormed s before.valid; disk = Step-OnDisk s before.disk }
  Reachable-Sound (restarted clock peers me {rf} rf' r saveable made) =
      Restored-Sound clock peers me rf rf' saveable made (Reachable-Sound r)
