-- ===== src/Shardkv/Clerk.antt =====
-- src/shardkv1/client.go: routing a call to the group that the configuration gives for its key.
use raft_sharded_kv.Prelude.{
  ℕ, ◌%◌, String, string_eq, nat_eq, Bool, true, false, ◌&&◌, List, [], ◌∷◌, Option, none, some, ℤ,
  int_eq, leb, if◌then◌else◌,
}
use raft_sharded_kv.Rpc.{
  Err, PutArgs, GetReply, ok, err_no_key, err_version, err_maybe, err_wrong_leader, err_wrong_group,
  err_stale_request,
}
use raft_sharded_kv.Dedup.Client.{Client, begin, complete, run}
use raft_sharded_kv.Shardcfg.Config.{ShardConfig, gid_servers}
use raft_sharded_kv.Shardcfg.Constants.{n_shards}
use raft_sharded_kv.Kvraft.Leader.{Leader}
use raft_sharded_kv.Kvraft.Clerk.{Ended, running, panics, returns, Visit}
use raft_sharded_kv.Shardgrp.Clerk.{get, put_request}

-- The clerks of the groups, by gid, each with its servers: rcks and rckServers.
pub record Clerk : Type 0 where
  pub rcks : ℤ → Option Leader
  pub config : Option ShardConfig
  pub requests : Client

unfoldable pub same_servers : List String → List String → Bool
same_servers [] [] = true
same_servers (x ∷ left) (y ∷ right) = string_eq.beq x y && same_servers left right
same_servers _ _ = false

-- The clerk that is kept, if its servers are those of the configuration.
abbrev pub kept_clerk : Option Leader → List String → Option Leader
kept_clerk none servers = none
kept_clerk (some rck) servers = if same_servers rck.servers servers then some rck else none

abbrev pub or_made : Option Leader → List String → Leader
or_made none servers = record { servers = servers; leader = 0 }
or_made (some rck) servers = rck

unfoldable pub group_clerk : Clerk → ℤ → List String → Leader
unfolding same_servers
group_clerk ck gid servers = or_made (kept_clerk (ck.rcks gid) servers) servers

abbrev pub keep : Clerk → ℤ → Leader → Clerk
keep ck gid rck = record ck { rcks = λ g. if int_eq gid g then some rck else ck.rcks g }

-- The newer of the cached and the queried configuration.
abbrev pub newer : Option ShardConfig → ShardConfig → ShardConfig
newer none queried = queried
newer (some cached) queried = if leb cached.num queried.num then queried else cached

-- loadConfig after its query, and a refresh by another call.
unfoldable pub refresh :
    Option ShardConfig → Option ShardConfig → Option ShardConfig × Option ShardConfig
refresh cached none = (none, cached)
refresh cached (some queried) = let c = newer cached queried in (some c, some c)

-- loadConfig, with what Query would answer.
unfoldable pub load_config :
    Bool → Option ShardConfig → Option ShardConfig → Option ShardConfig × Option ShardConfig
unfolding refresh
load_config false (some cached) query = (some cached, some cached)
load_config false none query = refresh none query
load_config true cached query = refresh cached query

unfoldable pub refreshes : Option ShardConfig → List (Option ShardConfig) → Option ShardConfig
unfolding refresh
refreshes cached [] = cached
refreshes cached (q ∷ rest) = refreshes (refresh cached q).1 rest

-- The group of a shard, if it has servers.
abbrev pub with_servers : ℤ → Option (List String) → Option (ℤ × List String)
with_servers gid none = none
with_servers gid (some []) = none
with_servers gid (some (s ∷ rest)) = some (gid, s ∷ rest)

abbrev pub route : Option ShardConfig → ℕ → Option (ℤ × List String)
route none shard = none
route (some cfg) shard = let (gid, servers) = gid_servers cfg shard in with_servers gid servers

-- A turn of the loop: what other calls on the clerk load and complete and which group clerks they
-- make before it, what Query answers, and the attempts of the call of the group.
pub record Route (A : Type 0) : Type 0 where
  pub loaded : List (Option ShardConfig)
  pub made : List (ℤ × List String)
  pub finished : List ℕ
  pub query : Option ShardConfig
  pub visits : List (Visit A)

-- The clerks of the groups after other calls of groupClerk.
unfoldable pub make_all : List (ℤ × List String) → Clerk → Clerk
unfolding group_clerk
make_all [] ck = ck
make_all ((gid, servers) ∷ rest) ck = make_all rest (keep ck gid (group_clerk ck gid servers))

-- The start of a turn: the configuration that is loaded, and the clerk.
unfoldable pub loaded : {A : Type 0} → Route A → Bool → Clerk → Option ShardConfig × Clerk
unfolding load_config refreshes make_all
loaded r force ck =
    let (config, cached) = load_config force (refreshes ck.config r.loaded) r.query in
    (config, record (make_all r.made ck) { config = cached; requests = run ck.requests r.finished })

pub data Verdict : Type 0 where
  final : Err → Verdict
  panic reroute : Verdict

unfoldable pub put_verdict : Err → Verdict
put_verdict ok = final ok
put_verdict err_no_key = final err_no_key
put_verdict err_maybe = final err_maybe
put_verdict err_version = final err_version
put_verdict err_stale_request = panic
put_verdict err_wrong_group = reroute
put_verdict err_wrong_leader = reroute

abbrev pub ended_verdict : Ended Err → Ended Verdict
ended_verdict running = running
ended_verdict panics = panics
ended_verdict (returns err) = returns (put_verdict err)

-- A call of Put: how it ended, the clerk, and the requests that it has handed to groups, the latest
-- first.
pub record Put : Type 0 where
  pub ended : Ended Err
  pub clerk : Clerk
  pub sent : List PutArgs

-- The loop of Put, with the shard of the key. `force` is forceRefresh.
unfoldable pub put_loop : ℕ → PutArgs → List (Route Err) → Bool → List PutArgs → Clerk → Put
unfolding put_verdict loaded group_clerk put_request
put_loop shard args [] force sent ck = record { ended = running; clerk = ck; sent = sent }
put_loop shard args (r ∷ rest) force sent ck =
    let (config, ck') = loaded r force ck in
    elim (route config shard) [
      | none ↦ put_loop shard args rest true sent ck'
      | some (gid, servers) ↦
          let request : PutArgs = record args { ack = ck'.requests.ack } in
          let call = put_request request r.visits (group_clerk ck' gid servers) in
          let after = keep ck' gid call.place in
          let sent' = request ∷ sent in
          elim (ended_verdict call.ended) [
            | running ↦ record { ended = running; clerk = after; sent = sent' }
            | panics ↦ record { ended = panics; clerk = after; sent = sent' }
            | returns (final err) ↦ record { ended = returns err; clerk = after; sent = sent' }
            | returns panic ↦ record { ended = panics; clerk = after; sent = sent' }
            | returns reroute ↦ put_loop shard args rest true sent' after
          ]
    ]

-- The switch of Get.
unfoldable pub get_verdict : GetReply → Option GetReply
get_verdict r = elim r.err [ ok ↦ some r | err_no_key ↦ some r | _ ↦ none ]

abbrev pub ended_get : Ended GetReply → Ended (Option GetReply)
ended_get running = running
ended_get panics = panics
ended_get (returns r) = returns (get_verdict r)

-- The loop of Get.
unfoldable pub get_loop : ℕ → List (Route GetReply) → Bool → Clerk → Ended GetReply × Clerk
unfolding get_verdict loaded group_clerk get
get_loop shard [] force ck = (running, ck)
get_loop shard (r ∷ rest) force ck =
    let (config, ck') = loaded r force ck in
    elim (route config shard) [
      | none ↦ get_loop shard rest true ck'
      | some (gid, servers) ↦
          let call = get r.visits (group_clerk ck' gid servers) in
          let after = keep ck' gid call.place in
          elim (ended_get call.ended) [
            | running ↦ (running, after)
            | panics ↦ (panics, after)
            | returns (some reply) ↦ (returns reply, after)
            | returns none ↦ get_loop shard rest true after
          ]
    ]

-- Get and Put, with hash/fnv's 32-bit sum of a key.
module _ (sum32 : String → ℕ) where
  unfoldable pub clerk_get : Clerk → String → List (Route GetReply) → Ended GetReply × Clerk
  unfolding get_loop
  clerk_get ck key routes = get_loop (sum32 key % n_shards) routes false ck

  -- The deferred Complete.
  abbrev pub completed : ℕ → Put → Put
  completed sequence p = record p {
    clerk = record p.clerk { requests = complete p.clerk.requests sequence };
  }

  unfoldable pub clerk_put : Clerk → String → String → ℕ → List ℕ → List (Route Err) → Put
  unfolding put_loop
  clerk_put ck key value version draws routes = elim (begin ck.requests draws) [
    | none ↦ record { ended = panics; clerk = ck; sent = [] }
    | some (id, sequence, requests) ↦ completed sequence (
        put_loop (sum32 key % n_shards)
          (record {
            key = key;
            value = value;
            version = version;
            client_id = id;
            sequence = sequence;
            ack = 0;
          })
          routes false [] (record ck { requests = requests }))
  ]
