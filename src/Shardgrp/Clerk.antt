-- ===== src/Shardgrp/Clerk.antt =====
-- src/shardkv1/shardgrp/client.go: the calls of a clerk of a shard group, over what becomes of each
-- attempt.
use raft_sharded_kv.Prelude.{
  ℕ, ◌+◌, String, Bool, true, false, not, ◌&&◌, ◌==◌, List, [], ◌∷◌, Option, none, some, get_elem?,
  length, leb, if◌then◌else◌,
}
use raft_sharded_kv.Rpc.{
  Err, PutArgs, GetReply, get_error, ok, err_no_key, err_version, err_maybe, err_wrong_leader,
  err_wrong_group, err_stale_request,
}
use raft_sharded_kv.Dedup.Client.{Client, begin, complete}
use raft_sharded_kv.Kvraft.Leader.{Leader, remember_leader, advance_leader, moves}
use raft_sharded_kv.Kvraft.Clerk.{Ended, running, panics, returns, Visit}
use raft_sharded_kv.Shardgrp.Server.{Codec, FreezeReply}

-- What follows an attempt of Get or of PutRequest: a return, with the leader remembered or not, or
-- the next attempt, and whether an earlier one may have been executed unseen.
pub data Switch (B : Type 0) : Type 0 where
  stops : B → Bool → Switch B
  goes : Bool → Switch B

-- After a failed attempt: the next one, with the number of the attempts in this round and whether
-- one of them was answered, or the whole group is out of reach.
pub data Turn : Type 0 where
  continues : ℕ → Bool → Turn
  gives_up : Turn

-- The end of the inner loop, for n servers.
abbrev pub next_turn : ℕ → ℕ → Bool → Turn
next_turn n attempts received =
    if leb n attempts
    then if received then continues 0 false else gives_up
    else continues attempts received

abbrev pub is_received : {A : Type 0} → Option A → Bool
is_received none = false
is_received (some a) = true

-- A call: how it ended, and what its attempts have brought, the latest first.
pub record GroupCall (A B : Type 0) : Type 0 where
  pub ended : Ended B
  pub place : Leader
  pub replies : List (Option A)

-- Both loops of Get and of PutRequest. The attempts are those of the current round. The pauses
-- change nothing.
module _ {A B : Type 0} (switch : Bool → Option A → Switch B) (gave_up : B) where
  unfoldable pub group_loop :
      List (Visit A) → ℕ → Bool → Bool → List (Option A) → Leader → GroupCall A B
  group_loop [] attempts received uncertain seen ck = record {
    ended = running;
    place = ck;
    replies = seen;
  }
  group_loop (v ∷ rest) attempts received uncertain seen ck =
      let ck' = moves v.before ck in
      let ck'' = moves v.during ck' in
      let seen' = v.reply ∷ seen in
      elim (get_elem? ck'.servers ck'.leader) [
        | none ↦ record { ended = panics; place = ck'; replies = seen }
        | some server ↦ elim (switch uncertain v.reply) [
          | stops b remembered ↦ record {
            ended = returns b;
            place = if remembered then remember_leader ck'.leader ck'' else ck'';
            replies = seen';
          }
          | goes doubt ↦
              elim (next_turn (length ck'.servers) (attempts + 1)
                (if is_received v.reply then true else received)) [
                  | continues k received' ↦
                      group_loop rest k received' doubt seen' (advance_leader ck'.leader ck'')
                  | gives_up ↦ record {
                    ended = returns gave_up;
                    place = advance_leader ck'.leader ck'';
                    replies = seen';
                  }
                ]
        ]
      ]

unfoldable pub get_switch : Bool → Option GetReply → Switch GetReply
get_switch uncertain none = goes false
get_switch uncertain (some r) = elim r.err [
  | ok ↦ stops r true
  | err_no_key ↦ stops r true
  | err_wrong_group ↦ stops r true
  | _ ↦ goes false
]

unfoldable pub get : List (Visit GetReply) → Leader → GroupCall GetReply GetReply
unfolding group_loop get_switch
get visits ck = group_loop get_switch (get_error err_wrong_leader) visits 0 false false [] ck

-- The switch of PutRequest. `client` is args.ClientID.
unfoldable pub put_switch : ℕ → Bool → Option Err → Switch Err
put_switch client uncertain none = goes true
put_switch client uncertain (some ok) = stops ok true
put_switch client uncertain (some err_no_key) = stops err_no_key true
put_switch client uncertain (some err_version) =
    if uncertain && client == 0 then stops err_maybe true else stops err_version true
put_switch client uncertain (some err_stale_request) = stops err_stale_request false
put_switch client uncertain (some err_wrong_group) = stops err_wrong_group true
put_switch client uncertain (some err_wrong_leader) = goes true
put_switch client uncertain (some err_maybe) = goes uncertain

unfoldable pub put_request : PutArgs → List (Visit Err) → Leader → GroupCall Err Err
unfolding group_loop put_switch
put_request args visits ck =
    group_loop (put_switch args.client_id) err_wrong_leader visits 0 false false [] ck

-- Put: the request that it sends, and its call. `none` is the panic of Begin.
unfoldable pub put :
    Client
    → String
    → String
    → ℕ
    → List ℕ
    → List (Visit Err)
    → Leader
    → Option (PutArgs × GroupCall Err Err × Client)
unfolding put_request
put requests key value version draws visits ck = elim (begin requests draws) [
  | none ↦ none
  | some (id, sequence, requests') ↦
      let args : PutArgs = record {
        key = key;
        value = value;
        version = version;
        client_id = id;
        sequence = sequence;
        ack = requests'.ack;
      } in
      some (args, put_request args visits ck, complete requests' sequence)
]

-- An attempt of a migration call, with the answer of isCurrent before it.
pub record Try (A : Type 0) : Type 0 where
  pub current : Bool
  pub visit : Visit A

-- The loop of FreezeShard, InstallShard and DeleteShard. `guarded` says that the clerk has
-- isCurrent.
module _ {A B : Type 0} (verdict : A → Option B) (refused : B) (guarded : Bool) where
  abbrev pub verdict_of : Option A → Option B
  verdict_of none = none
  verdict_of (some a) = verdict a

  unfoldable pub migration_loop : List (Try A) → Leader → Ended B × Leader
  migration_loop [] ck = (running, ck)
  migration_loop (t ∷ rest) ck =
      let ck' = moves t.visit.before ck in
      let ck'' = moves t.visit.during ck' in
      elim (guarded && not t.current) [
        | true ↦ (returns refused, ck)
        | false ↦ elim (get_elem? ck'.servers ck'.leader) [
          | none ↦ (panics, ck')
          | some server ↦ elim (verdict_of t.visit.reply) [
            | some b ↦ (returns b, remember_leader ck'.leader ck'')
            | none ↦ migration_loop rest (advance_leader ck'.leader ck'')
          ]
        ]
      ]

module _ (c : Codec) where
  unfoldable pub freeze_verdict : ℕ → FreezeReply c → Option (c.Bytes × Err)
  freeze_verdict num r = elim r.err [
    | ok ↦ if not (r.num == num) then some (c.nil, err_wrong_group) else some (r.state, ok)
    | err_wrong_group ↦ some (c.nil, err_wrong_group)
    | _ ↦ none
  ]

  unfoldable pub freeze_shard :
      Bool → ℕ → List (Try (FreezeReply c)) → Leader → Ended (c.Bytes × Err) × Leader
  unfolding migration_loop freeze_verdict
  freeze_shard guarded num tries ck =
      migration_loop (freeze_verdict num) (c.nil, err_wrong_leader) guarded tries ck

unfoldable pub install_verdict : Err → Option Err
install_verdict ok = some ok
install_verdict err_wrong_group = some err_wrong_group
install_verdict _ = none

unfoldable pub install_shard : Bool → List (Try Err) → Leader → Ended Err × Leader
unfolding migration_loop install_verdict
install_shard guarded tries ck = migration_loop install_verdict err_wrong_leader guarded tries ck

unfoldable pub delete_verdict : Err → Option Err
delete_verdict ok = some ok
delete_verdict err_wrong_group = some err_wrong_group
delete_verdict _ = none

unfoldable pub delete_shard : Bool → List (Try Err) → Leader → Ended Err × Leader
unfolding migration_loop delete_verdict
delete_shard guarded tries ck = migration_loop delete_verdict err_wrong_leader guarded tries ck
