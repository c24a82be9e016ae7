-- ===== src/Kvraft/Exactly.antt =====
-- src/kvraft1/client.go: a call of Put takes effect once, and returns what it did.
use raft_sharded_kv.Prelude.{
  ℕ, String, ◌<◌, ◌≤◌, ◌^◌, ◌≡◌, ◌≢◌, inl, inr, ◌∙◌, subst, false, List, [], ◌∷◌, length, none,
  some,
}
use raft_sharded_kv.Rpc.{Err, PutArgs}
use raft_sharded_kv.Dedup.Client.{Client, contains, run, begin}
use raft_sharded_kv.Dedup.Watermark.{Inv, IsStopped, AllBelow}
use raft_sharded_kv.Dedup.Pending.{IsPending, finished-IsPending, IsPending-ack, begin-IsPending}
use raft_sharded_kv.Dedup.Table.{session_of}
use raft_sharded_kv.Kvraft.Server.{KvServer}
use raft_sharded_kv.Kvraft.Leader.{
  moves, InRange, AllInRange, moves-InRange, advance_leader, advance_leader-InRange, get_elem?_lt,
}
use raft_sharded_kv.Kvraft.Clerk.{
  Clerk, running, panics, returns, World, commits, Round, Called, put_loop, clerk_put,
}
use raft_sharded_kv.Kvraft.Answers.{Told, verdict_lem, HasReply, answered_final}
use raft_sharded_kv.Kvraft.Copies.{
  Once, Consistent, IsIdentified, AllUnder, AllApart, commits-Consistent,
}

-- What is assumed of an attempt: other calls complete other sequence numbers, remember only
-- servers of the clerk, and their Puts are apart from this one.
pub record IsFair (n client sequence : ℕ) (r : Round) : Type 0 where
  pub numbers : AllBelow (2 ^ 64) r.finished
  pub unfinished : contains sequence r.finished ≡ false
  pub before : AllInRange n r.before
  pub during : AllInRange n r.during
  pub others : AllApart client sequence r.committed

abbrev pub AllFair : ℕ → ℕ → ℕ → List Round → Type 0
AllFair n client sequence [] = Unit {0}
AllFair n client sequence (r ∷ rest) = IsFair n client sequence r × AllFair n client sequence rest

-- The outcome of a call: it never panics, its copies count as one, what it returns is the result
-- of the first, and it returns when a reply arrives.
pub record IsExact (args : PutArgs) (rounds : List Round) (c : Called Err) : Type 0 where
  pub calm : c.ended ≢ panics
  pub once : Once args c.world.copies
  pub told : (err : Err) → c.ended ≡ returns err → Told c.world.copies err
  pub ends : HasReply rounds → c.ended ≢ running

no_rounds-IsExact :
    (args : PutArgs) (sent : List ℕ) (ck : Clerk) (w : World)
    → Consistent args w
    → IsExact args [] (put_loop args sent [] ck w)
unfolding put_loop
no_rounds-IsExact args sent ck w k = record {
  calm = λ e. cc e;
  once = k.once;
  told = λ err e. cc e;
  ends = λ h e. h;
}

put_loop-IsExact :
    (args : PutArgs) (rounds : List Round) (sent : List ℕ) (ck : Clerk) (w : World)
    → IsIdentified args
    → InRange ck.place
    → IsPending args.sequence ck.requests
    → AllUnder args.sequence sent
    → AllFair (length ck.place.servers) args.client_id args.sequence rounds
    → Consistent args w
    → IsExact args rounds (put_loop args sent rounds ck w)
unfolding put_loop
put_loop-IsExact args [] sent ck w known in_range v under fair k =
    no_rounds-IsExact args sent ck w k
put_loop-IsExact args (r ∷ rest) sent ck w known in_range v under fair k =
    let place = moves-InRange r.before ck.place in_range fair.0.before in
    let place' =
      moves-InRange r.during (moves r.before ck.place) place.0 (rw place.1 fair.0.during) in
    let now =
      finished-IsPending args.sequence ck.requests r.finished v fair.0.numbers fair.0.unfinished in
    let ack = (run ck.requests r.finished).ack in
    let acks : AllUnder args.sequence (ack ∷ sent) =
      (IsPending-ack args.sequence _ known.sequence now, under) in
    let after = commits-Consistent args (ack ∷ sent) r.committed w known acks fair.0.others k in
    let (server, there) =
      get_elem?_lt (moves r.before ck.place).servers (moves r.before ck.place).leader place.0 in
    elim (verdict_lem args (commits args (ack ∷ sent) r.committed w).copies r.answer after.once) [
      | inr (err, stops, told) ↦
          rw (there, put_loop, stops)
            (record {
              calm = λ e. cc e;
              once = after.once;
              told = λ err' e.
                  subst (Told (commits args (ack ∷ sent) r.committed w).copies)
                    (let same : err ≡ err' = cc e in same) told;
              ends = λ h e. cc e;
            })
      | inl goes_on ↦
          let moved =
            advance_leader-InRange (moves r.before ck.place).leader
              (moves r.during (moves r.before ck.place)) place'.0 in
          let later =
            put_loop-IsExact args rest (ack ∷ sent)
              (record {
                place =
                    advance_leader (moves r.before ck.place).leader
                      (moves r.during (moves r.before ck.place));
                requests = run ck.requests r.finished;
              })
              (commits args (ack ∷ sent) r.committed w) known moved.0 now acks
              (rw (moved.1 ∙ place'.1 ∙ place.1) fair.1) after in
          rw (there, put_loop, goes_on)
            (record {
              calm = later.calm;
              once = later.once;
              told = later.told;
              ends = λ h. elim h [
                | inl answered ↦
                    absurd (answered_final args ack sent r w (inl answered) after.once goes_on)
                | inr more ↦ later.ends more
              ];
            })
    ]

-- Take a clerk whose leader is one of its servers and which has completed only what it has begun,
-- and let Begin give an identity for which the server has neither a reply nor an acknowledgement.
-- While other calls complete other sequence numbers, remember only servers of the clerk and commit
-- Puts that are apart from this one, and while copies of this call's request are lost, delayed and
-- committed in any order: the call never panics; the first committed copy does what a Put does;
-- every later one is answered alike and leaves the values as they are; the call returns nothing but
-- the error of the first copy, and it does not run on once an attempt's own copy is the last
-- committed in it and the reply to that arrives.
pub put_exactly_once :
    (ck : Clerk) (kv : KvServer) (key value : String) (version : ℕ) (draws : List ℕ)
    (rounds : List Round) (done : ℕ → Type 0) (id sequence : ℕ) (requests : Client)
    → InRange ck.place
    → Inv ck.requests done
    → IsStopped ck.requests
    → ((q : ℕ) → done q → q ≤ ck.requests.next)
    → ck.requests.next < 2 ^ 64
    → begin ck.requests draws ≡ some (id, sequence, requests)
    → AllFair (length ck.place.servers) id sequence rounds
    → (session_of kv.requests id).ack < sequence
    → (session_of kv.requests id).replies sequence ≡ none
    → IsExact
        (record {
          key = key;
          value = value;
          version = version;
          client_id = id;
          sequence = sequence;
          ack = 0;
        })
        rounds
        (clerk_put ck kv key value version draws rounds)
unfolding clerk_put
put_exactly_once ck kv key value version draws rounds done id sequence requests in_range v stopped
      begun bound e fair below unknown =
    let (nonzero, numbered, pending) =
      begin-IsPending ck.requests draws done id sequence requests v stopped begun bound e in
    let exact =
      put_loop-IsExact
        (record {
          key = key;
          value = value;
          version = version;
          client_id = id;
          sequence = sequence;
          ack = 0;
        })
        rounds [] (record ck { requests = requests }) (record { server = kv; copies = [] })
        (record { client = nonzero; sequence = numbered }) in_range pending tt fair
        (record { once = tt; below = below; stored = unknown }) in
    rw (e, clerk_put)
      (record { calm = exact.calm; once = exact.once; told = exact.told; ends = exact.ends })
