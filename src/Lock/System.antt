-- ===== src/Lock/System.antt =====
-- Any number of clients that run src/kvsrv1/lock/lock.go on one key of src/kvsrv1/server.go. The
-- network may lose, delay, repeat and reorder requests, and lose and delay replies.
use raft_sharded_kv.Prelude.{
  ℕ, ◌+◌, ◌<◌, ◌^◌, String, ◌≡◌, ◌≢◌, ◌⊎◌, Bool, true, List, [], ◌∷◌, ◌==◌, if◌then◌else◌,
}
use raft_sharded_kv.Rpc.{Err, PutArgs, GetReply}
use raft_sharded_kv.Kvsrv.Server.{KvServer, get, put, version_of}
use raft_sharded_kv.Lock.Client.{
  Lock, Reason, acquire, release, Pc, idle, reading, read, writing, written, holding, on_get,
  on_put,
}

-- Each request for a Put that was ever sent, with its client, stays in the network.
pub record System : Type 0 where
  pub server : KvServer
  pub pc : ℕ → Pc
  pub sent : List (ℕ × PutArgs)

abbrev pub Sent : ℕ → PutArgs → List (ℕ × PutArgs) → Type 0
Sent i a [] = ⊥
Sent i a ((j, b) ∷ rest) = ((j ≡ i) × (b ≡ a)) ⊎ Sent i a rest

abbrev pub set_pc : System → ℕ → Pc → System
set_pc s i p = record s { pc = λ j. if i == j then p else s.pc j }

-- A client that starts a Put sends its request.
abbrev pub send : ℕ → Pc → List (ℕ × PutArgs) → List (ℕ × PutArgs)
send i (writing releasing a resent) sent = (i, a) ∷ sent
send i _ sent = sent

unfoldable pub goes_on : System → ℕ → Pc → System
goes_on s i p = record (set_pc s i p) { sent = send i p s.sent }

module _ (key : String) (id : ℕ → String) where
  abbrev pub lock_of : ℕ → Lock
  lock_of i = record { key = key; id = id i }

  pub data Step (s : System) : System → Type 0 where
    begin_acquire : (i : ℕ) → s.pc i ≡ idle → Step s (set_pc s i (reading acquire))
    begin_release : (i : ℕ) → s.pc i ≡ holding → Step s (set_pc s i (reading release))
    release_unheld : (i : ℕ) → s.pc i ≡ idle → Step s (set_pc s i (reading release))
    -- The server answers a Get; a Get with no answer changes nothing.
    answer_get :
        (i : ℕ) (why : Reason)
        → s.pc i ≡ reading why
        → Step s (set_pc s i (read why (get s.server (record { key = key }))))
    -- The reply arrives.
    take_get :
        (i : ℕ) (why : Reason) (r : GetReply)
        → s.pc i ≡ read why r
        → Step s (goes_on s i (on_get (lock_of i) why r))
    -- The server executes a copy of a request, and no reply of this copy arrives.
    execute :
        (i : ℕ) (a : PutArgs)
        → Sent i a s.sent
        → version_of s.server key + 1 < 2 ^ 64
        → Step s (record s { server = (put s.server a).1 })
    -- The server executes a copy of the request that the client waits for, and answers.
    answer_put :
        (i : ℕ) (releasing : Bool) (a : PutArgs) (resent : Bool)
        → s.pc i ≡ writing releasing a resent
        → version_of s.server key + 1 < 2 ^ 64
        → Step s (record (set_pc s i (written releasing a resent (put s.server a).0.err)) {
          server = (put s.server a).1;
        })
    take_put :
        (i : ℕ) (releasing : Bool) (a : PutArgs) (resent : Bool) (err : Err)
        → s.pc i ≡ written releasing a resent err
        → Step s (goes_on s i (on_put (lock_of i) releasing a resent err))
    -- The clerk gives an attempt up and sends the request again.
    resend :
        (i : ℕ) (releasing : Bool) (a : PutArgs) (resent : Bool)
        → s.pc i ≡ writing releasing a resent
        → Step s (set_pc s i (writing releasing a true))
    -- A client of other keys.
    elsewhere : (a : PutArgs) → a.key ≢ key → Step s (record s { server = (put s.server a).1 })

  pub data Reach (s : System) : System → Type 0 where
    here : Reach s s
    next : {t u : System} → Reach s t → Step t u → Reach s u

  -- No client runs, and the network is empty; the server may hold anything.
  pub record IsInitial (s : System) : Type 0 where
    pub quiet : (i : ℕ) → s.pc i ≡ idle
    pub silent : s.sent ≡ []
