-- ===== src/Ctrler/Swap.antt =====
-- src/shardkv1/shardctrler/shardctrler.go, compareAndSwap: what its result says, and that a
-- controller with an old version cannot write.
use raft_sharded_kv.Prelude.{
  ℕ, ◌+◌, ◌<◌, ◌≤◌, ◌^◌, ◌≡◌, ◌≢◌, ◌⊎◌, inl, inr, refl, arith, Bool, true, false, List, [], ◌∷◌,
  Option, none, some,
}
use raft_sharded_kv.Rpc.{Err, PutArgs, ok, err_no_key, err_version, err_maybe}
use raft_sharded_kv.Kvsrv.Server.{KvServer, put, run, version_of}
use raft_sharded_kv.Kvsrv.Clerk.{Attempt, Called, put_loop, put_result, clerk_put}
use raft_sharded_kv.Kvsrv.Versions.{put_ok_iff, run_version_grows}
use raft_sharded_kv.Kvsrv.Retries.{
  count_ok, all_puts, Meaning, clerk_put-Meaning, put_answers, run_version_bound,
}
use raft_sharded_kv.Ctrler.State.{
  Encoding, ControllerState, Outcome, running, panics, returns, Read, failed, found, confirm,
  read_state, decided, compare_and_swap, current_config_key,
}

-- A Put whose version is behind is never executed.
stale_loop :
    (as' : List Attempt) (resent : Bool) (kv : KvServer) (a : PutArgs)
    → a.version < version_of kv a.key
    → version_of kv a.key + all_puts as' < 2 ^ 64
    → count_ok (put_loop resent kv a as').answers ≡ 0
unfolding put_loop put_result
stale_loop [] resent kv a h b = refl
stale_loop (x ∷ rest) resent kv a h b =
    let kv' = run kv x.others in
    let grows = run_version_grows kv x.others a.key (omega arith) in
    let refused : (put kv' a).0.err ≢ ok = λ e. absurd (omega (arith, (put_ok_iff kv' a).0.0 e)) in
    ground (
      arith,
      refused,
      put_answers kv' a,
      (put_ok_iff kv' a).1 refused,
      run_version_bound kv x.others a.key (omega arith),
      stale_loop rest true kv' a (omega (arith, grows)),
    )

module _ (e : Encoding) where
  -- The record that is read back, by the attempts and from the server that the write has left, is
  -- the one written.
  abbrev pub Confirmed : KvServer → List Attempt → ControllerState → Type 0
  Confirmed kv gets state =
      (stored : ControllerState) × (version : ℕ) × ((read_state e kv gets).0
        ≡ returns (found stored version))
      × (e.deep_equal stored state ≡ true)

  Confirmed-decided :
      (state : ControllerState) (kv : KvServer) (gets : List Attempt) (read : Outcome Read)
      → (read_state e kv gets).0 ≡ read
      → confirm e state read ≡ returns true
      → Confirmed kv gets state
  Confirmed-decided state kv gets running r h = absurd (ground arith)
  Confirmed-decided state kv gets panics r h = absurd (ground arith)
  Confirmed-decided state kv gets (returns (failed err version)) r h = absurd (ground arith)
  Confirmed-decided state kv gets (returns (found stored version)) r h =
      (stored, version, r, returns_bool (e.deep_equal stored state) h)
    where
      returns_bool : (b : Bool) → ◌≡◌ {A = Outcome Bool} (returns b) (returns true) → b ≡ true
      returns_bool true h = refl
      returns_bool false h = absurd (ground arith)

  -- What a true answer says of a Put: it was answered OK and executed exactly once, or the Put
  -- leaves that open and the record is confirmed.
  abbrev pub Succeeded : Called Err → List Attempt → ControllerState → Type 0
  Succeeded c gets state =
      ((c.result ≡ some ok) × (count_ok c.answers ≡ 1))
      ⊎ ((c.result ≡ some err_maybe) × Confirmed c.server gets state)

  decided-true :
      (state : ControllerState) (gets : List Attempt) (result : Option Err) (answers : List Err)
      (kv : KvServer)
      → Meaning result (count_ok answers)
      → (decided e state gets (record { result = result; answers = answers; server = kv })).outcome
        ≡ returns true
      → Succeeded (record { result = result; answers = answers; server = kv }) gets state
  unfolding decided
  decided-true state gets none answers kv m h = absurd (ground arith)
  decided-true state gets (some ok) answers kv m h = inl (refl, m)
  decided-true state gets (some err_maybe) answers kv m h =
      inr (refl, Confirmed-decided state kv gets (read_state e kv gets).0 refl h)
  decided-true state gets (some _) answers kv m h = absurd (ground arith)

  Meaning-at_most_once : (result : Option Err) (n : ℕ) → Meaning result n → n ≤ 1
  Meaning-at_most_once none n m = m
  Meaning-at_most_once (some ok) n m = omega (arith, m)
  Meaning-at_most_once (some err_no_key) n m = omega (arith, m)
  Meaning-at_most_once (some err_version) n m = omega (arith, m)
  Meaning-at_most_once (some err_maybe) n m = m
  Meaning-at_most_once (some _) n m = absurd m

  decided_answers :
      (state : ControllerState) (gets : List Attempt) (c : Called Err)
      → (decided e state gets c).answers ≡ c.answers
  unfolding decided
  decided_answers state gets c = ground arith

  -- The compare-and-swap of the control state, whatever becomes of its requests: it answers true
  -- only if its Put was answered OK, and the server has executed the write exactly once, or its Put
  -- ended with ErrMaybe, and the record read back from the server then is deeply equal to the one
  -- written; it never writes twice; and it never writes when the version is behind that of the
  -- record, as it is for a controller that another has replaced since it read the record. (The
  -- version counter is assumed not to reach 2^64.)
  pub compare_and_swap_lem :
      (kv : KvServer) (version : ℕ) (state : ControllerState) (puts gets : List Attempt)
      → version_of kv current_config_key + all_puts puts < 2 ^ 64
      → let s = compare_and_swap e kv version state puts gets in
        let c = clerk_put kv current_config_key (e.marshal state) version puts in
        (s.outcome ≡ returns true → Succeeded c gets state)
        × (s.answers ≡ c.answers)
        × (count_ok s.answers ≤ 1)
        × (version < version_of kv current_config_key → count_ok s.answers ≡ 0)
  unfolding compare_and_swap clerk_put
  compare_and_swap_lem kv version state puts gets b =
      let c = clerk_put kv current_config_key (e.marshal state) version puts in
      let m = clerk_put-Meaning kv current_config_key (e.marshal state) version puts b in
      let same = decided_answers state gets c in
      (
        (λ h. decided-true state gets c.result c.answers c.server m h),
        same,
        rw same (Meaning-at_most_once c.result (count_ok c.answers) m),
        (λ h. rw same (stale_loop puts false kv _ h b)),
      )
