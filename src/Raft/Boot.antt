-- ===== src/Raft/Boot.antt =====
-- src/raft1/raft.go: readPersist and Make. The workers that Make launches are the functions of
-- Raft/Replicate, Raft/Vote and Raft/Apply.
use raft_sharded_kv.Prelude.{
  ℕ, ◌+◌, false, [], ◌∷◌, Option, none, some, ℤ, pos, minus_one, replicate, map,
}
use raft_sharded_kv.Raft.Types.{Raft, follower, Bytes, Coding, Persister, Clock}
use raft_sharded_kv.Raft.Log.{no_entry}
use raft_sharded_kv.Raft.Encoding.{
  Persistent, Loaded, not_cached, panic, loaded, read_cached_persist,
}
use raft_sharded_kv.Raft.Roles.{random_election_timeout}

module _ {A : Type 0} where
  -- persist writes no negative term or index; the model takes a negative one for a panic.
  abbrev adopt_numbers : Raft A → Persistent A → ℤ → ℤ → ℤ → Option (Raft A)
  adopt_numbers rf p (pos term) (pos index) (pos base) = some (record rf {
    current_term = term;
    voted_for = p.voted_for;
    logs = p.logs;
    encoded_logs = p.encoded_logs;
    last_included_index = index;
    last_included_term = base;
  })
  adopt_numbers rf p _ _ _ = none

  unfoldable pub adopt : Raft A → Persistent A → Option (Raft A)
  adopt rf p = adopt_numbers rf p p.current_term p.last_included_index p.last_included_term

  unfoldable pub blank : ℕ → ℕ → Persister → Raft A
  blank peers me persister = record {
    peers = peers;
    me = me;
    dead = false;
    current_term = 0;
    voted_for = minus_one;
    logs = no_entry ∷ [];
    encoded_logs = [];
    next_index = [];
    match_index = [];
    state = follower;
    election_deadline = 0;
    commit_index = 0;
    last_applied = 0;
    replicate_notify = replicate peers false;
    replicate_busy = replicate peers false;
    last_rescue_sent = replicate peers 0;
    last_included_index = 0;
    last_included_term = 0;
    snapshot = [];
    pending_snapshot = none;
    persister = persister;
    panicked = false;
  }

-- The old format is one labgob stream, whose decoder is a parameter; `none` is a panic.
module _ {A : Type 0} (c : Coding A) (decode_legacy : Bytes → Option (Persistent A)) where
  abbrev adopt_legacy : Raft A → Option (Persistent A) → Option (Raft A)
  adopt_legacy rf none = none
  adopt_legacy rf (some p) = elim p.logs [
    | [] ↦ none
    | e ∷ es ↦ adopt rf (record p { encoded_logs = map c.encode p.logs })
  ]

  abbrev pub adopt_loaded : Raft A → Bytes → Loaded A → Option (Raft A)
  adopt_loaded rf bytes not_cached = adopt_legacy rf (decode_legacy bytes)
  adopt_loaded rf bytes panic = none
  adopt_loaded rf bytes (loaded p) = adopt rf p

  unfoldable pub read_persist : Raft A → Bytes → Option (Raft A)
  unfolding read_cached_persist adopt
  read_persist rf [] = some rf
  read_persist rf (b ∷ bs) = adopt_loaded rf (b ∷ bs) (read_cached_persist c (b ∷ bs))

  abbrev pub booted : Clock → Persister → Option (Raft A) → Option (Raft A)
  booted clock persister none = none
  booted clock persister (some rf) = some (record rf {
    snapshot = persister.snapshot;
    commit_index = rf.last_included_index;
    last_applied = rf.last_included_index;
    election_deadline = clock.now + random_election_timeout clock.rand;
  })

  unfoldable pub make : Clock → ℕ → ℕ → Persister → Option (Raft A)
  unfolding read_persist blank random_election_timeout
  make clock peers me persister = booted clock persister (
      read_persist (record (blank peers me persister) { encoded_logs = c.encode no_entry ∷ [] })
        persister.raft_state)
