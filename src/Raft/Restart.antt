-- ===== src/Raft/Restart.antt =====
-- src/raft1/raft.go, Make: what a restarted node has is what it has saved.
use raft_sharded_kv.Prelude.{
  ℕ, ◌≡◌, refl, ap, true, false, arith, [], ◌∷◌, Option, none, some, length, length-map,
}
use raft_sharded_kv.Raft.Types.{Raft, Bytes, Coding, Clock, follower, Persister}
use raft_sharded_kv.Raft.Boot.{make, read_persist, adopt, adopt_loaded, blank, booted}
use raft_sharded_kv.Raft.Log.{no_entry}
use raft_sharded_kv.Raft.Encoding.{Persistent, encode_state, persist, saved, is_cached}
use raft_sharded_kv.Raft.Format.{Saveable, read_cached_persist-encode_state}

module _ {A : Type 0} (c : Coding A) where
  -- A node that restarts from what another has saved has its term, its vote and its log, starts
  -- at the boundary of its snapshot, and leads no term.
  pub record Restored (rf rf' : Raft A) : Type 0 where
    pub term : rf'.current_term ≡ rf.current_term
    pub vote : rf'.voted_for ≡ rf.voted_for
    pub logs : rf'.logs ≡ rf.logs
    pub encoded : rf'.encoded_logs ≡ rf.encoded_logs
    pub index : rf'.last_included_index ≡ rf.last_included_index
    pub base : rf'.last_included_term ≡ rf.last_included_term
    pub payload : rf'.snapshot ≡ rf.snapshot
    pub applied : rf'.last_applied ≡ rf.last_included_index
    pub commit : rf'.commit_index ≡ rf.last_included_index
    pub state : rf'.state ≡ follower
    pub quiet : rf'.pending_snapshot ≡ none
    pub sound : rf'.panicked ≡ false
    pub disk : rf'.persister ≡ record { raft_state = encode_state rf; snapshot = rf.snapshot }

  read_persist_saved :
      (decode_legacy : Bytes → Option (Persistent A)) (rf0 rf : Raft A)
      → Saveable c rf
      → read_persist c decode_legacy rf0 (encode_state rf)
        ≡ some (record rf0 {
          current_term = rf.current_term;
          voted_for = rf.voted_for;
          logs = rf.logs;
          encoded_logs = rf.encoded_logs;
          last_included_index = rf.last_included_index;
          last_included_term = rf.last_included_term;
        })
  unfolding read_persist adopt encode_state
  read_persist_saved decode_legacy rf0 rf h =
      ap (adopt_loaded c decode_legacy rf0 (encode_state rf))
        (read_cached_persist-encode_state c rf h)

  pub saved_cached :
      (rf : Raft A)
      → Saveable c rf
      → saved rf ≡ record { raft_state = encode_state rf; snapshot = rf.snapshot }
  unfolding saved
  saved_cached rf h =
      let full : is_cached rf ≡ true =
        ground (arith, ap length h.cached, length-map rf.logs c.encode) in
      rw full refl

  -- Make restores what persist has saved: the new node has the term, the vote, the log and the
  -- snapshot of the old one, whatever its other arguments are.
  pub make-persist :
      (decode_legacy : Bytes → Option (Persistent A)) (clock : Clock) (peers me : ℕ) (rf : Raft A)
      → Saveable c rf
      → (rf' : Raft A) × (make c decode_legacy clock peers me (persist rf).persister ≡ some rf')
        × Restored rf rf'
  unfolding make persist blank
  make-persist decode_legacy clock peers me rf h =
      let p : Persister = record { raft_state = encode_state rf; snapshot = rf.snapshot } in
      let rf0 = record (blank peers me p) { encoded_logs = c.encode no_entry ∷ [] } in
      rw (saved_cached rf h) (
        _,
        ap (booted c decode_legacy clock p) (read_persist_saved decode_legacy rf0 rf h),
        record {
          term = refl;
          vote = refl;
          logs = refl;
          encoded = refl;
          index = refl;
          base = refl;
          payload = refl;
          applied = refl;
          commit = refl;
          state = refl;
          quiet = refl;
          sound = refl;
          disk = refl;
        },
      )
