-- ===== src/Shardkv/Outcome.antt =====
-- src/shardkv1/client.go: what a clerk of the sharded store caches, sends and returns.
use raft_sharded_kv.Prelude.{
  ℕ, string_eq, ◌<◌, String, ◌≡◌, ◌≢◌, ◌⊎◌, inl, inr, refl, ap, subst, arith, true, List, [], ◌∷◌,
  length, Option, none, some, ℤ, Bool-cases,
}
use raft_sharded_kv.Rpc.{
  Err, PutArgs, ok, err_no_key, err_version, err_maybe, err_wrong_leader, err_wrong_group,
  err_stale_request,
}
use raft_sharded_kv.Shardcfg.Config.{ShardConfig, gid_servers}
use raft_sharded_kv.Kvraft.Leader.{Leader}
use raft_sharded_kv.Kvraft.Clerk.{Ended, running, panics, returns}
use raft_sharded_kv.Shardgrp.Results.{PutMeaning, out_of_reach, doubted}
use raft_sharded_kv.Shardkv.Routing.{IsNewer}
use raft_sharded_kv.Shardkv.Clerk.{
  same_servers, kept_clerk, or_made, with_servers, Clerk, group_clerk, route, Verdict, final, panic,
  reroute, put_verdict, ended_verdict, Put,
}

-- The requests of a call: they differ in nothing but their acks, which are below the sequence
-- number.
abbrev pub AllMine : PutArgs → List PutArgs → Type 0
AllMine args [] = Unit {0}
AllMine args (q ∷ rest) =
    ((ack : ℕ) × (q ≡ record args { ack = ack }) × (ack < args.sequence)) × AllMine args rest

-- What a Put may return.
abbrev pub IsResult : Err → Type 0
IsResult err = (err ≡ ok) ⊎ (err ≡ err_no_key) ⊎ (err ≡ err_version)

pub record IsRouted (args : PutArgs) (config : Option ShardConfig) (p : Put) : Type 0 where
  pub told : (err : Err) → p.ended ≡ returns err → IsResult err
  pub sent : AllMine args p.sent
  pub cached : IsNewer config p.clerk.config

same_servers_lem : (xs ys : List String) → same_servers xs ys ≡ true → xs ≡ ys
unfolding same_servers
same_servers_lem [] [] e = refl
same_servers_lem (x ∷ xs) (y ∷ ys) e = elim (Bool-cases (string_eq.beq x y)) [
  | inl first ↦
      let p = (string_eq.beq_iff x y).0 first in
      let q = same_servers_lem xs ys (rw first at e) in cc (p, q)
  | inr other ↦ absurd (let h = rw other at e in cc h)
]
same_servers_lem [] (y ∷ ys) e = absurd (cc e)
same_servers_lem (x ∷ xs) [] e = absurd (cc e)

-- A kept clerk has the servers of the configuration.
made_servers :
    (kept : Option Leader) (servers : List String)
    → (or_made (kept_clerk kept servers) servers).servers ≡ servers
made_servers none servers = refl
made_servers (some rck) servers = elim (Bool-cases (same_servers rck.servers servers)) [
  | inl same ↦ rw same (same_servers_lem rck.servers servers same)
  | inr other ↦ rw other refl
]

pub group_clerk_servers :
    (ck : Clerk) (gid : ℤ) (servers : List String) → (group_clerk ck gid servers).servers ≡ servers
unfolding group_clerk
group_clerk_servers ck gid servers = made_servers (ck.rcks gid) servers

with_servers_lem :
    (gid : ℤ) (o : Option (List String)) (g : ℤ) (servers : List String)
    → with_servers gid o ≡ some (g, servers)
    → 0 < length servers
with_servers_lem gid none g servers e = absurd (cc e)
with_servers_lem gid (some []) g servers e = absurd (cc e)
with_servers_lem gid (some (s ∷ rest)) g servers e =
    let same : s ∷ rest ≡ servers = cc e in subst (λ xs. 0 < length xs) same (omega arith)

pub route_lem :
    (config : Option ShardConfig) (shard : ℕ) (gid : ℤ) (servers : List String)
    → route config shard ≡ some (gid, servers)
    → 0 < length servers
route_lem none shard gid servers e = absurd (cc e)
route_lem (some c) shard gid servers e =
    with_servers_lem (gid_servers c shard).0 (gid_servers c shard).1 gid servers e

pub PutMeaning-maybe :
    (n client : ℕ) (replies : List (Option Err)) (err : Err)
    → PutMeaning n client replies err
    → client ≢ 0
    → err ≢ err_maybe
PutMeaning-maybe n client _ _ (out_of_reach replies failed) known e = cc e
PutMeaning-maybe n client _ _ (PutMeaning.told err past last sure) known e = last.1 e
PutMeaning-maybe n client _ _ (doubted past zero_client doubt) known e = known zero_client

final-IsResult : (e err : Err) → put_verdict e ≡ final err → e ≢ err_maybe → IsResult err
unfolding put_verdict
final-IsResult ok err h sure = inl (cc h)
final-IsResult err_no_key err h sure = inr (inl (cc h))
final-IsResult err_version err h sure = inr (inr (cc h))
final-IsResult err_maybe err h sure = absurd (sure refl)
final-IsResult err_wrong_leader err h sure = absurd (cc h)
final-IsResult err_wrong_group err h sure = absurd (cc h)
final-IsResult err_stale_request err h sure = absurd (cc h)

-- What the loop does after the call of a group.
Verdict-cases : (v : Verdict) → (v ≡ panic) ⊎ (v ≡ reroute) ⊎ ((err : Err) × (v ≡ final err))
Verdict-cases panic = inl refl
Verdict-cases reroute = inr (inl refl)
Verdict-cases (final err) = inr (inr (err, refl))

-- The end of a turn, for the outcome of the call of the group.
abbrev pub Concludes : Ended Err → Type 0
Concludes e =
    (ended_verdict e ≡ running)
    ⊎ (ended_verdict e ≡ panics)
    ⊎ (ended_verdict e ≡ returns panic)
    ⊎ (ended_verdict e ≡ returns reroute)
    ⊎ ((err : Err) × (ended_verdict e ≡ returns (final err)) × IsResult err)

pub Ended-Concludes :
    (e : Ended Err) → ((err : Err) → e ≡ returns err → err ≢ err_maybe) → Concludes e
Ended-Concludes running sure = inl refl
Ended-Concludes panics sure = inr (inl refl)
Ended-Concludes (returns err) sure = elim (Verdict-cases (put_verdict err)) [
  | inl p ↦ inr (inr (inl (ap (λ v. returns v) p)))
  | inr (inl p) ↦ inr (inr (inr (inl (ap (λ v. returns v) p))))
  | inr (inr (out, p)) ↦
      inr (inr (inr (inr (out, ap (λ v. returns v) p, final-IsResult err out p (sure err refl)))))
]
