-- ===== src/Shardgrp/Results.antt =====
-- src/shardkv1/shardgrp/client.go: the result of each call of a clerk, against what its attempts
-- brought.
use raft_sharded_kv.Prelude.{
  ℕ, ◌<◌, ◌≡◌, ◌≢◌, ◌⊎◌, inl, inr, refl, sym, ◌∙◌, subst, arith, Bool, true, false, ◌&&◌, ◌==◌,
  ==_iff, List, [], ◌∷◌, length, Option, none, some, Bool-cases,
}
use raft_sharded_kv.Rpc.{
  Err, PutArgs, ok, err_no_key, err_version, err_maybe, err_wrong_leader, err_wrong_group,
  err_stale_request,
}
use raft_sharded_kv.Kvraft.Leader.{Leader, InRange}
use raft_sharded_kv.Kvraft.Clerk.{running, panics, returns, Visit}
use raft_sharded_kv.Shardgrp.Clerk.{stops, goes, put_switch, put_request}
use raft_sharded_kv.Shardgrp.Rounds.{AllVisits, Failed}
use raft_sharded_kv.Shardgrp.Calls.{doubt_after, doubt_of, HasFinal, group_loop-IsSettling}

-- An attempt was not answered, or its server lost the lead, so that its request may have been
-- executed.
abbrev pub is_doubtful : List (Option Err) → Bool
is_doubtful [] = false
is_doubtful (none ∷ past) = true
is_doubtful (some err_wrong_leader ∷ past) = true
is_doubtful (some _ ∷ past) = is_doubtful past

-- A reply that ends a Put.
abbrev pub IsLast : Err → Type 0
IsLast e = (e ≢ err_wrong_leader) × (e ≢ err_maybe)

-- What a Put of a group returns, for the replies of its attempts, the latest first.
pub data PutMeaning (n client : ℕ) : List (Option Err) → Err → Type 0 where
  -- The latest n attempts, a whole round, have all failed.
  out_of_reach :
      (replies : List (Option Err))
      → Failed n replies
      → PutMeaning n client replies err_wrong_leader
  -- The latest reply. A refused version is told only where no earlier attempt is doubtful, or the
  -- request has an identity.
  told :
      (e : Err) (past : List (Option Err))
      → IsLast e
      → (e ≡ err_version → client ≡ 0 → is_doubtful past ≡ false)
      → PutMeaning n client (some e ∷ past) e
  -- A refused version, which the Put itself may have used up, for a request without an identity.
  doubted :
      (past : List (Option Err))
      → client ≡ 0
      → is_doubtful past ≡ true
      → PutMeaning n client (some err_version ∷ past) err_maybe

version_keeps :
    (client : ℕ) (old : Bool)
    → doubt_after (put_switch client) old (put_switch client old (some err_version)) ≡ old
unfolding put_switch
version_keeps client true = elim (Bool-cases (client == 0)) [
  | inl e ↦ rw e refl
  | inr e ↦ rw e refl
]
version_keeps client false = refl

doubt_of_doubtful :
    (client : ℕ) (past : List (Option Err)) → doubt_of (put_switch client) past ≡ is_doubtful past
unfolding put_switch
doubt_of_doubtful client [] = refl
doubt_of_doubtful client (none ∷ past) = refl
doubt_of_doubtful client (some ok ∷ past) = doubt_of_doubtful client past
doubt_of_doubtful client (some err_no_key ∷ past) = doubt_of_doubtful client past
doubt_of_doubtful client (some err_version ∷ past) =
    version_keeps client (doubt_of (put_switch client) past) ∙ doubt_of_doubtful client past
doubt_of_doubtful client (some err_maybe ∷ past) = doubt_of_doubtful client past
doubt_of_doubtful client (some err_wrong_leader ∷ past) = refl
doubt_of_doubtful client (some err_wrong_group ∷ past) = doubt_of_doubtful client past
doubt_of_doubtful client (some err_stale_request ∷ past) = doubt_of_doubtful client past

first_true : (a b : Bool) → (a && b) ≡ true → a ≡ true
first_true true b e = refl
first_true false b e = absurd (cc e)

second_true : (a : Bool) (n : ℕ) → (a && n == 0) ≡ true → n ≡ 0
second_true true n e = (==_iff n 0).0 e
second_true false n e = absurd (cc e)

same_told :
    (n client : ℕ) (e : Err) (past : List (Option Err)) (err : Err) (m m' : Bool)
    → IsLast e
    → (e ≡ err_version → client ≡ 0 → is_doubtful past ≡ false)
    → stops e m' ≡ stops err m
    → PutMeaning n client (some e ∷ past) err
same_told n client e past err m m' last sure h =
    let same : e ≡ err = cc h in
    subst (PutMeaning n client (some e ∷ past)) same (told e past last sure)

stop-PutMeaning :
    (n client : ℕ) (r : Option Err) (past : List (Option Err)) (err : Err) (m : Bool)
    → put_switch client (is_doubtful past) r ≡ stops err m
    → PutMeaning n client (r ∷ past) err
unfolding put_switch
stop-PutMeaning n client none past err m e = absurd (cc e)
stop-PutMeaning n client (some ok) past err m e =
    same_told n client ok past err m true (λ x. cc x, λ x. cc x) (λ x. absurd (cc x)) e
stop-PutMeaning n client (some err_no_key) past err m e =
    same_told n client err_no_key past err m true (λ x. cc x, λ x. cc x) (λ x. absurd (cc x)) e
stop-PutMeaning n client (some err_version) past err m e =
    elim (Bool-cases (is_doubtful past && client == 0)) [
      | inl both ↦
          let same : err_maybe ≡ err = let h = rw both at e in cc h in
          subst (PutMeaning n client (some err_version ∷ past)) same (
            doubted past (second_true (is_doubtful past) client both)
              (first_true (is_doubtful past) (client == 0) both))
      | inr clear ↦
          same_told n client err_version past err m true (λ x. cc x, λ x. cc x)
            (λ x zero_client. ground (arith, clear)) (rw clear at e)
    ]
stop-PutMeaning n client (some err_maybe) past err m e = absurd (cc e)
stop-PutMeaning n client (some err_wrong_leader) past err m e = absurd (cc e)
stop-PutMeaning n client (some err_wrong_group) past err m e =
    same_told n client err_wrong_group past err m true (λ x. cc x, λ x. cc x) (λ x. absurd (cc x)) e
stop-PutMeaning n client (some err_stale_request) past err m e =
    same_told n client err_stale_request past err m false (λ x. cc x, λ x. cc x)
      (λ x. absurd (cc x)) e

-- A reply that ends a Put arrives in one of the attempts.
abbrev pub HasLast : List (Visit Err) → Type 0
HasLast [] = ⊥
HasLast (v ∷ rest) = ((e : Err) × (v.reply ≡ some e) × IsLast e) ⊎ HasLast rest

last_stops :
    (client : ℕ) (e : Err) (u doubt : Bool) → IsLast e → put_switch client u (some e) ≢ goes doubt
unfolding put_switch
last_stops client ok u doubt last h = cc h
last_stops client err_no_key u doubt last h = cc h
last_stops client err_version u doubt last h = elim (Bool-cases (u && client == 0)) [
  | inl both ↦ let g = rw both at h in cc g
  | inr clear ↦ let g = rw clear at h in cc g
]
last_stops client err_maybe u doubt last h = last.1 refl
last_stops client err_wrong_leader u doubt last h = last.0 refl
last_stops client err_wrong_group u doubt last h = cc h
last_stops client err_stale_request u doubt last h = cc h

HasLast-HasFinal :
    (client : ℕ) (visits : List (Visit Err)) → HasLast visits → HasFinal (put_switch client) visits
HasLast-HasFinal client [] h = h
HasLast-HasFinal client (v ∷ rest) (inl (e, there, last)) =
    inl (λ u doubt h. last_stops client e u doubt last (rw there at h))
HasLast-HasFinal client (v ∷ rest) (inr h) = inr (HasLast-HasFinal client rest h)

-- For a clerk of at least one server: PutRequest returns ErrWrongLeader after a whole round of
-- attempts without a reply, and else the latest reply; but a refused version is ErrMaybe, and only
-- then, after an attempt that may have been executed, for a request without an identity. It does
-- not run on once a reply other than ErrWrongLeader and ErrMaybe arrives. If the leader is one of
-- the servers, and other calls remember only servers, it never indexes out of range.
pub put_request-PutMeaning :
    (args : PutArgs) (visits : List (Visit Err)) (ck : Leader)
    → 0 < length ck.servers
    → let c = put_request args visits ck in
      ((err : Err)
        → c.ended ≡ returns err
        → PutMeaning (length ck.servers) args.client_id c.replies err)
      × (HasLast visits → c.ended ≢ running)
      × (InRange ck → AllVisits (length ck.servers) visits → c.ended ≢ panics)
unfolding put_request
put_request-PutMeaning args visits ck some_server =
    let c = put_request args visits ck in
    let settled =
      group_loop-IsSettling (put_switch args.client_id) err_wrong_leader visits 0 false false [] ck
        some_server (λ e. (omega arith, refl)) refl in
    (
      λ err e. elim (settled.told err e) [
        | inl gave_up ↦
            subst (PutMeaning (length ck.servers) args.client_id c.replies) (sym gave_up.0)
              (out_of_reach c.replies gave_up.1)
        | inr (r, past, m, replies, stopped) ↦
            subst (λ rs. PutMeaning (length ck.servers) args.client_id rs err) (sym replies)
              (stop-PutMeaning (length ck.servers) args.client_id r past err m
                (rw (← doubt_of_doubtful args.client_id past) stopped))
      ],
      λ h. settled.ends (HasLast-HasFinal args.client_id visits h),
      settled.calm,
    )
