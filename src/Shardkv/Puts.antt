-- ===== src/Shardkv/Puts.antt =====
-- src/shardkv1/client.go: the Put of a clerk of the sharded store.
use raft_sharded_kv.Prelude.{
  ℕ, string_eq, ◌<◌, ◌≤◌, ◌^◌, ◌%◌, String, ◌≡◌, ◌≢◌, inl, inr, refl, sym, subst, Bool, true, false,
  List, [], ◌∷◌, length, some, Option-cases,
}
use raft_sharded_kv.Rpc.{Err, PutArgs, err_maybe}
use raft_sharded_kv.Dedup.Client.{Client, begin, contains, run}
use raft_sharded_kv.Dedup.Watermark.{Inv, IsStopped, AllBelow}
use raft_sharded_kv.Dedup.Pending.{IsPending, finished-IsPending, IsPending-ack, begin-IsPending}
use raft_sharded_kv.Shardcfg.Constants.{n_shards}
use raft_sharded_kv.Kvraft.Leader.{Leader}
use raft_sharded_kv.Kvraft.Clerk.{returns, Visit}
use raft_sharded_kv.Shardgrp.Clerk.{put_request}
use raft_sharded_kv.Shardgrp.Results.{put_request-PutMeaning}
use raft_sharded_kv.Shardkv.Routing.{
  IsNewer, IsNewer-refl, IsNewer-trans, refreshes-IsNewer, load_config-IsNewer,
}
use raft_sharded_kv.Shardkv.Outcome.{
  AllMine, IsResult, IsRouted, group_clerk_servers, route_lem, PutMeaning-maybe, Ended-Concludes,
}
use raft_sharded_kv.Shardkv.Clerk.{
  Clerk, group_clerk, refreshes, route, Route, loaded, keep, put_loop, clerk_put,
}

-- Other calls complete other sequence numbers.
abbrev pub AllOthers : ℕ → List (Route Err) → Type 0
AllOthers sequence [] = Unit {0}
AllOthers sequence (r ∷ rest) =
    (AllBelow (2 ^ 64) r.finished × (contains sequence r.finished ≡ false))
    × AllOthers sequence rest

loaded_lem :
    (r : Route Err) (force : Bool) (ck : Clerk)
    → IsNewer ck.config (loaded r force ck).1.config
      × ((loaded r force ck).1.requests ≡ run ck.requests r.finished)
unfolding loaded
loaded_lem r force ck = (
  IsNewer-trans ck.config _ _ (refreshes-IsNewer ck.config r.loaded)
      (load_config-IsNewer force (refreshes ck.config r.loaded) r.query),
  refl,
)

-- The call of the group makes no doubtful answer of a request with an identity.
call_sure :
    (request : PutArgs) (visits : List (Visit Err)) (rck : Leader)
    → 0 < length rck.servers
    → request.client_id ≢ 0
    → (err : Err) → (put_request request visits rck).ended ≡ returns err
    → err ≢ err_maybe
call_sure request visits rck some_server known err e =
    PutMeaning-maybe (length rck.servers) request.client_id _ err
      ((put_request-PutMeaning request visits rck some_server).0 err e) known

no_routes-IsRouted :
    (shard : ℕ) (args : PutArgs) (force : Bool) (sent : List PutArgs) (ck : Clerk)
    → AllMine args sent
    → IsRouted args ck.config (put_loop shard args [] force sent ck)
unfolding put_loop
no_routes-IsRouted shard args force sent ck mine = record {
  told = λ err e. absurd (cc e);
  sent = mine;
  cached = IsNewer-refl ck.config;
}

put_loop-IsRouted :
    (shard : ℕ) (args : PutArgs) (routes : List (Route Err)) (force : Bool) (sent : List PutArgs)
    (ck : Clerk)
    → args.client_id ≢ 0
    → args.sequence ≢ 0
    → IsPending args.sequence ck.requests
    → AllOthers args.sequence routes
    → AllMine args sent
    → IsRouted args ck.config (put_loop shard args routes force sent ck)
unfolding put_loop
put_loop-IsRouted shard args [] force sent ck known numbered v others mine =
    no_routes-IsRouted shard args force sent ck mine
put_loop-IsRouted shard args (r ∷ rest) force sent ck known numbered v others mine =
    let ck' = (loaded r force ck).1 in
    let (newer, requests) = loaded_lem r force ck in
    let pending : IsPending args.sequence ck'.requests =
      subst (IsPending args.sequence) (sym requests)
        (finished-IsPending args.sequence ck.requests r.finished v others.0.0 others.0.1) in
    elim (Option-cases (route (loaded r force ck).0 shard)) [
      | inl lost ↦
          let later =
            put_loop-IsRouted shard args rest true sent ck' known numbered pending others.1 mine in
          rw (lost, put_loop)
            (record {
              told = later.told;
              sent = later.sent;
              cached = IsNewer-trans ck.config ck'.config _ newer later.cached;
            })
      | inr (place, there) ↦
          let rck = group_clerk ck' place.0 place.1 in
          let request : PutArgs = record args { ack = ck'.requests.ack } in
          let some_server : 0 < length rck.servers =
            rw (group_clerk_servers ck' place.0 place.1)
              (route_lem _ shard place.0 place.1 there) in
          let call = put_request request r.visits rck in
          let mine' : AllMine args (request ∷ sent) = (
            (ck'.requests.ack, refl, IsPending-ack args.sequence ck'.requests numbered pending),
            mine,
          ) in
          elim (Ended-Concludes call.ended (call_sure request r.visits rck some_server known)) [
            | inl e ↦
                rw (there, put_loop, e)
                  (record { told = λ err x. absurd (cc x); sent = mine'; cached = newer })
            | inr (inl e) ↦
                rw (there, put_loop, e)
                  (record { told = λ err x. absurd (cc x); sent = mine'; cached = newer })
            | inr (inr (inl e)) ↦
                rw (there, put_loop, e)
                  (record { told = λ err x. absurd (cc x); sent = mine'; cached = newer })
            | inr (inr (inr (inl e))) ↦
                let later =
                  put_loop-IsRouted shard args rest true (request ∷ sent)
                    (keep ck' place.0 call.place) known numbered pending others.1 mine' in
                rw (there, put_loop, e)
                  (record {
                    told = later.told;
                    sent = later.sent;
                    cached = IsNewer-trans ck.config ck'.config _ newer later.cached;
                  })
            | inr (inr (inr (inr (err, e, result)))) ↦
                rw (there, put_loop, e)
                  (record {
                    told = λ err' x. subst IsResult (let same : err ≡ err' = cc x in same) result;
                    sent = mine';
                    cached = newer;
                  })
          ]
    ]

module _ (sum32 : String → ℕ) where
  -- However the calls of the groups go, for a client that has completed only what it has begun, and
  -- while other calls complete other sequence numbers: all requests that one Put hands to groups,
  -- over all configurations, are the same but for their acks, which stay below their sequence
  -- number. A configuration that is cached is never replaced by one with a smaller number. A Put
  -- that returns returns OK, ErrNoKey or ErrVersion: it never leaves open whether it was executed.
  pub clerk_put-IsRouted :
      (ck : Clerk) (key value : String) (version : ℕ) (draws : List ℕ) (routes : List (Route Err))
      (done : ℕ → Type 0) (id sequence : ℕ) (requests : Client)
      → Inv ck.requests done
      → IsStopped ck.requests
      → ((q : ℕ) → done q → q ≤ ck.requests.next)
      → ck.requests.next < 2 ^ 64
      → begin ck.requests draws ≡ some (id, sequence, requests)
      → AllOthers sequence routes
      → IsRouted
          (record {
            key = key;
            value = value;
            version = version;
            client_id = id;
            sequence = sequence;
            ack = 0;
          })
          ck.config
          (clerk_put sum32 ck key value version draws routes)
  unfolding clerk_put
  clerk_put-IsRouted ck key value version draws routes done id sequence requests v stopped begun
        bound e others =
      let (nonzero, numbered, pending) =
        begin-IsPending ck.requests draws done id sequence requests v stopped begun bound e in
      let routed =
        put_loop-IsRouted (sum32 key % n_shards)
          (record {
            key = key;
            value = value;
            version = version;
            client_id = id;
            sequence = sequence;
            ack = 0;
          })
          routes false [] (record ck { requests = requests }) nonzero numbered pending others tt in
      rw (e, clerk_put) (record { told = routed.told; sent = routed.sent; cached = routed.cached })
