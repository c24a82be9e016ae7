-- ===== src/Dedup/Once.antt =====
-- A write with an identity is executed at most once (src/kvraft1/dedup/dedup.go, Table.Do).
use raft_sharded_kv.Prelude.{ℕ, ◌≤◌, ◌<◌, ◌≡◌, ◌≢◌, ◌⊎◌, none, some, List, [], ◌∷◌, arith, nat_eq}
use raft_sharded_kv.Rpc.{PutArgs, PutReply, put_reply, err_stale_request}
use raft_sharded_kv.Dedup.Table.{Table, session_of, do_request}

-- The table has an answer for the request: it is acknowledged, or its reply is stored.
abbrev pub IsSettled : Table → ℕ → ℕ → PutReply → Type 0
IsSettled t client sequence reply =
    (sequence ≤ (session_of t client).ack) ⊎ ((session_of t client).replies sequence ≡ some reply)

-- The request is not refused before the table is consulted.
abbrev pub IsAdmissible : PutArgs → Type 0
IsAdmissible a = (a.client_id ≢ 0) × (a.sequence ≢ 0) × (a.ack < a.sequence)

module _ {ℓ} {S : Type ℓ} (t : Table) (a : PutArgs) (apply : S → PutReply × S) (s : S) where
  -- Whatever request comes, what is settled stays settled.
  pub do_request-IsSettled :
      (client sequence : ℕ) (reply : PutReply)
      → IsSettled t client sequence reply
      → IsSettled (do_request t a apply s).1 client sequence reply
  unfolding do_request
  do_request-IsSettled client sequence reply h = ground (arith, nat_eq.beq_iff a.client_id client)

  pub do_request_settles :
      IsAdmissible a
      → IsSettled (do_request t a apply s).1 a.client_id a.sequence (do_request t a apply s).0
  unfolding do_request
  do_request_settles h = ground arith

  pub do_request_settled :
      (reply : PutReply)
      → a.client_id ≢ 0
      → IsSettled t a.client_id a.sequence reply
      → ((do_request t a apply s).2 ≡ s)
        × (((do_request t a apply s).0 ≡ reply)
            ⊎ ((do_request t a apply s).0 ≡ put_reply err_stale_request))
  unfolding do_request
  do_request_settled reply c h = ground arith

-- A request with an identity whose sequence number is above its own watermark and the session's,
-- and which has no stored reply, is executed: the answer and the caller's state are those of the
-- closure, and the sessions of other clients stay as they were.
pub fresh_executed {ℓ} :
    {S : Type ℓ} (t : Table) (a : PutArgs) (apply : S → PutReply × S) (s : S)
    → IsAdmissible a
    → (session_of t a.client_id).ack < a.sequence
    → (session_of t a.client_id).replies a.sequence ≡ none
    → ((do_request t a apply s).0 ≡ (apply s).0)
      × ((do_request t a apply s).2 ≡ (apply s).1)
      × ((client : ℕ)
          → client ≢ a.client_id
          → session_of (do_request t a apply s).1 client ≡ session_of t client)
unfolding do_request
fresh_executed t a apply s admissible above unknown = (
  ground arith,
  ground arith,
  (λ client other. ground (arith, nat_eq.beq_iff a.client_id client)),
)

-- A sequence of requests, each with the state change that it asks for.
unfoldable pub run {ℓ} :
    {S : Type ℓ} → (PutArgs → S → PutReply × S) → Table × S → List PutArgs → Table × S
run apply (t, s) [] = (t, s)
run apply (t, s) (a ∷ as') = let r = do_request t a (apply a) s in run apply (r.1, r.2) as'

run-IsSettled {ℓ} :
    {S : Type ℓ} (apply : PutArgs → S → PutReply × S) (as' : List PutArgs) (t : Table) (s : S)
    (client sequence : ℕ) (reply : PutReply)
    → IsSettled t client sequence reply
    → IsSettled (run apply (t, s) as').0 client sequence reply
unfolding run
run-IsSettled apply [] t s client sequence reply h = h
run-IsSettled apply (a ∷ as') t s client sequence reply h =
    let r = do_request t a (apply a) s in
    run-IsSettled apply as' r.1 r.2 client sequence reply
      (do_request-IsSettled t a (apply a) s client sequence reply h)

-- A request that carries an identity and was not refused as malformed, and is sent again after any
-- other requests, leaves the caller's state as it is; the second answer is the first one, or says
-- that the request is stale.
pub retry_harmless {ℓ} :
    {S : Type ℓ} (apply : PutArgs → S → PutReply × S) (t : Table) (s : S) (a b : PutArgs)
    (between : List PutArgs)
    → IsAdmissible a
    → b.client_id ≡ a.client_id
    → b.sequence ≡ a.sequence
    → let first = do_request t a (apply a) s in
      let later = run apply (first.1, first.2) between in
      let second = do_request later.0 b (apply b) later.1 in
      (second.2 ≡ later.1) × ((second.0 ≡ first.0) ⊎ (second.0 ≡ put_reply err_stale_request))
retry_harmless apply t s a b between admissible same_client same_sequence =
    let first = do_request t a (apply a) s in
    let later = run apply (first.1, first.2) between in
    do_request_settled later.0 b (apply b) later.1 first.0 (ground (arith, admissible.0)) (
      rw (same_client, same_sequence)
        (run-IsSettled apply between first.1 first.2 a.client_id a.sequence first.0
          (do_request_settles t a (apply a) s admissible)))
