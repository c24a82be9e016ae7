-- ===== src/Kvsrv/Versions.antt =====
-- The versions of src/kvsrv1/server.go as a compare-and-swap counter.
use raft_sharded_kv.Prelude.{
  ◌+◌, ◌%◌, subst, ◌≤◌, ◌<◌, ◌^◌, String, ◌≡◌, ◌≢◌, ◌↔◌, List, [], ◌∷◌, arith, length, string_eq,
  beq_refl,
}
use raft_sharded_kv.Rpc.{PutArgs, ok}
use raft_sharded_kv.Kvsrv.Server.{KvServer, get, put, run, version_of}

module _ (kv : KvServer) (a : PutArgs) where
  -- A Put answers OK exactly when its version is the key's current one, where a missing key has
  -- version 0; after any other answer the server is as it was.
  pub put_ok_iff :
      (((put kv a).0.err ≡ ok) ↔ (version_of kv a.key ≡ a.version))
      × ((put kv a).0.err ≢ ok → (put kv a).1 ≡ kv)
  unfolding put version_of
  put_ok_iff = (((λ h. ground arith), (λ h. ground arith)), (λ h. ground arith))

  -- Right after a Put that answered OK, a Get of its key returns its value with the next version
  -- (modulo 2^64), and every other key reads as before.
  pub get-put :
      (put kv a).0.err ≡ ok
      → (k : String)
      → (k ≡ a.key
          → get (put kv a).1 (record { key = k })
            ≡ record { value = a.value; version = (a.version + 1) % 2 ^ 64; err = ok })
        × (k ≢ a.key → get (put kv a).1 (record { key = k }) ≡ get kv (record { key = k }))
  unfolding put get
  get-put h k = (
    (λ e. ground (arith, string_eq.beq_iff a.key k)),
    (λ e. ground (arith, string_eq.beq_iff a.key k)),
  )

  pub put_version_grows :
      (k : String)
      → version_of kv k + 1 < 2 ^ 64
      → (version_of kv k ≤ version_of (put kv a).1 k)
        × (version_of (put kv a).1 k ≤ version_of kv k + 1)
  unfolding put version_of
  put_version_grows k h = ground (arith, string_eq.beq_iff a.key k)

  pub put_ok_step :
      version_of kv a.key + 1 < 2 ^ 64
      → (put kv a).0.err ≡ ok
      → version_of (put kv a).1 a.key ≡ a.version + 1
  unfolding put version_of
  put_ok_step b h = ground (arith, beq_refl a.key)

pub run_version_grows :
    (kv : KvServer) (as' : List PutArgs) (k : String)
    → version_of kv k + length as' < 2 ^ 64
    → version_of kv k ≤ version_of (run kv as') k
unfolding run
run_version_grows kv [] k h = omega arith
run_version_grows kv (a ∷ rest) k h = omega (
  arith,
  put_version_grows kv a k (omega arith),
  run_version_grows (put kv a).1 rest k (omega (arith, put_version_grows kv a k (omega arith))),
)

-- Of the Puts to one key with one version at most one is answered OK: after an OK, and whatever
-- Puts come between, a second one is refused and changes nothing. (The version counter is assumed
-- not to reach 2^64.)
pub put_once :
    (kv : KvServer) (a b : PutArgs) (between : List PutArgs)
    → version_of kv a.key + length between + 1 < 2 ^ 64
    → (put kv a).0.err ≡ ok
    → b.key ≡ a.key
    → b.version ≡ a.version
    → ((put (run (put kv a).1 between) b).0.err ≢ ok)
      × ((put (run (put kv a).1 between) b).1 ≡ run (put kv a).1 between)
put_once kv a b between bound h same_key same_version =
    let later = run (put kv a).1 between in
    let refused : (put later b).0.err ≢ ok = λ again. omega (
      arith,
      put_ok_step kv a (omega arith) h,
      run_version_grows (put kv a).1 between a.key
          (omega (arith, put_version_grows kv a a.key (omega arith))),
      subst (λ k. version_of later k ≡ b.version) same_key ((put_ok_iff later b).0.0 again),
    ) in
    (refused, (put_ok_iff later b).1 refused)
