-- ===== src/Kvsrv/Retries.antt =====
-- src/kvsrv1/client.go, Put: what its result says of the attempts.
use raft_sharded_kv.Prelude.{
  String, ℕ, ◌+◌, ◌<◌, ◌≤◌, ◌^◌, ◌≡◌, ◌≢◌, refl, ◌⊎◌, inl, inr, arith, Bool, true, false, Option,
  none, some, List, [], ◌∷◌, length,
}
use raft_sharded_kv.Rpc.{Err, PutArgs, ok, err_no_key, err_version, err_maybe}
use raft_sharded_kv.Kvsrv.Server.{KvServer, put, run, version_of}
use raft_sharded_kv.Kvsrv.Clerk.{Attempt, put_loop, put_result, clerk_put}
use raft_sharded_kv.Kvsrv.Versions.{put_ok_iff, put_ok_step, put_version_grows, run_version_grows}

-- How often the server has executed the Put.
abbrev pub count_ok : List Err → ℕ
count_ok [] = 0
count_ok (ok ∷ es) = 1 + count_ok es
count_ok (_ ∷ es) = count_ok es

pub put_answers :
    (kv : KvServer) (a : PutArgs)
    → ((put kv a).0.err ≡ ok) ⊎ ((put kv a).0.err ≡ err_no_key) ⊎ ((put kv a).0.err ≡ err_version)
unfolding put
put_answers kv a = ground arith

put_no_key : (kv : KvServer) (a : PutArgs) → (put kv a).0.err ≡ err_no_key → version_of kv a.key ≡ 0
unfolding put version_of
put_no_key kv a h = ground arith

-- The number of Puts in a sequence of attempts.
abbrev pub all_puts : List Attempt → ℕ
all_puts [] = 0
all_puts (a ∷ rest) = length a.others + 1 + all_puts rest

-- The version of the request is behind: no attempt is executed, and the result is not that of a
-- first answer.
abbrev Behind : Option Err → ℕ → Type 0
Behind (some err_maybe) n = n ≡ 0
Behind none n = n ≡ 0
Behind (some _) n = ⊥

pub run_version_bound :
    (kv : KvServer) (as' : List PutArgs) (k : String)
    → version_of kv k + length as' < 2 ^ 64
    → version_of (run kv as') k ≤ version_of kv k + length as'
unfolding run
run_version_bound kv [] k h = omega arith
run_version_bound kv (a ∷ rest) k h = omega (
  arith,
  put_version_grows kv a k (omega arith),
  run_version_bound (put kv a).1 rest k (omega (arith, put_version_grows kv a k (omega arith))),
)

Behind-loop :
    (as' : List Attempt) (kv : KvServer) (a : PutArgs)
    → a.version < version_of kv a.key
    → version_of kv a.key + all_puts as' < 2 ^ 64
    → Behind (put_loop true kv a as').result (count_ok (put_loop true kv a as').answers)
unfolding put_loop put_result
Behind-loop [] kv a h b = refl
Behind-loop (x ∷ rest) kv a h b =
    let kv' = run kv x.others in
    let grows = run_version_grows kv x.others a.key (omega arith) in
    let refused : (put kv' a).0.err ≢ ok = λ e. absurd (omega (arith, (put_ok_iff kv' a).0.0 e)) in
    ground (
      arith,
      refused,
      put_answers kv' a,
      put_no_key kv' a,
      (put_ok_iff kv' a).1 refused,
      run_version_bound kv x.others a.key (omega arith),
      Behind-loop rest kv' a (omega (arith, grows)),
    )

-- What the result of the loop says of the answers.
abbrev pub Meaning : Option Err → ℕ → Type 0
Meaning (some ok) n = n ≡ 1
Meaning (some err_no_key) n = n ≡ 0
Meaning (some err_version) n = n ≡ 0
Meaning (some err_maybe) n = n ≤ 1
Meaning none n = n ≤ 1
Meaning (some _) n = ⊥

Meaning-loop :
    (as' : List Attempt) (resent : Bool) (kv : KvServer) (a : PutArgs)
    → version_of kv a.key + all_puts as' < 2 ^ 64
    → Meaning (put_loop resent kv a as').result (count_ok (put_loop resent kv a as').answers)
unfolding put_loop put_result
Meaning-loop [] resent kv a b = omega arith
Meaning-loop (x ∷ rest) resent kv a b =
    let kv' = run kv x.others in
    let bound = run_version_bound kv x.others a.key (omega arith) in
    elim (put_answers kv' a) [
      | inl done ↦
          let step = put_ok_step kv' a (omega (arith, bound)) done in
          let version = (put_ok_iff kv' a).0.0 done in
          ground (
            arith,
            done,
            Behind-loop rest (put kv' a).1 a (omega (arith, step))
                (omega (arith, step, bound, version)),
            Meaning-loop rest true kv' a (omega (arith, bound)),
          )
      | inr refused ↦
          let not_ok : (put kv' a).0.err ≢ ok = λ e. ground arith in
          ground (
            arith,
            not_ok,
            (put_ok_iff kv' a).1 not_ok,
            Meaning-loop rest true kv' a (omega (arith, bound)),
          )
    ]

-- The result of Put, whatever becomes of its attempts and whatever other Puts come between: OK says
-- that the server has executed it exactly once, ErrVersion and ErrNoKey that it has not, and
-- ErrMaybe that it has at most once, as it has while the loop still runs; there is no other result.
-- (The version counter is assumed not to reach 2^64.)
pub clerk_put-Meaning :
    (kv : KvServer) (key value : String) (version : ℕ) (attempts : List Attempt)
    → version_of kv key + all_puts attempts < 2 ^ 64
    → let c = clerk_put kv key value version attempts in Meaning c.result (count_ok c.answers)
unfolding clerk_put
clerk_put-Meaning kv key value version attempts b = Meaning-loop attempts false kv _ b
