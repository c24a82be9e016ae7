-- ===== src/Kvraft/Clerk.antt =====
-- src/kvraft1/client.go: the calls of a clerk of the replicated server, over what becomes of each
-- attempt.
use raft_sharded_kv.Prelude.{ℕ, String, Map, List, [], ◌∷◌, Option, none, some, get_elem?}
use raft_sharded_kv.Rpc.{
  Err, PutArgs, PutReply, GetReply, ok, err_no_key, err_version, err_stale_request,
  err_wrong_leader,
}
use raft_sharded_kv.Dedup.Client.{Client, begin, complete, run}
use raft_sharded_kv.Dedup.Table.{do_request}
use raft_sharded_kv.Kvraft.Server.{KvServer, ValueEntry, put_locked}
use raft_sharded_kv.Kvraft.Leader.{Leader, Move, remember_leader, advance_leader, moves}

pub record Clerk : Type 0 where
  pub place : Leader
  pub requests : Client

-- What becomes of a call: its loop still runs, it panics, or it returns.
pub data Ended {ℓ} (A : Type ℓ) : Type ℓ where
  running panics : Ended A
  returns : A → Ended A

-- The switch of Put on the error of a reply.
pub data Verdict : Type 0 where
  final : Err → Verdict
  panic again : Verdict

unfoldable pub put_verdict : Err → Verdict
put_verdict ok = final ok
put_verdict err_no_key = final err_no_key
put_verdict err_version = final err_version
put_verdict err_stale_request = panic
put_verdict _ = again

-- What the log commits while an attempt lasts: a Put of another call, or a copy of this call's
-- request, the k-th latest that was sent. Reads and the operations of other services change
-- nothing.
pub data Commit : Type 0 where
  other : PutArgs → Commit
  copy : ℕ → Commit

-- A copy that was executed: its reply, and the values before and after.
pub record Copy : Type 0 where
  pub reply : PutReply
  pub before : Map String ValueEntry
  pub after : Map String ValueEntry

-- The server as the log has it, and the executed copies of this call's request, the latest first.
pub record World : Type 0 where
  pub server : KvServer
  pub copies : List Copy

-- DoOp of a Put.
abbrev pub executed : KvServer → PutArgs → PutReply × KvServer
executed kv a =
    let (reply, requests, values) = do_request kv.requests a (put_locked a) kv.values in
    (reply, record { values = values; requests = requests })

abbrev pub execute_copy : PutArgs → World → World
execute_copy a w =
    let (reply, kv) = executed w.server a in
    record {
      server = kv;
      copies = record { reply = reply; before = w.server.values; after = kv.values } ∷ w.copies;
    }

abbrev pub copied : PutArgs → Option ℕ → World → World
copied args none w = w
copied args (some ack) w = execute_copy (record args { ack = ack }) w

abbrev pub commit : PutArgs → List ℕ → Commit → World → World
commit args sent (other b) w = record w { server = (executed w.server b).1 }
commit args sent (copy k) w = copied args (get_elem? sent k) w

unfoldable pub commits : PutArgs → List ℕ → List Commit → World → World
commits args sent [] w = w
commits args sent (c ∷ cs) w = commits args sent cs (commit args sent c w)

-- What the call of an attempt brings: nothing, the refusal of a server that does not lead, or the
-- reply of the j-th latest executed copy.
pub data Answer : Type 0 where
  no_answer refusal : Answer
  reply_of : ℕ → Answer

abbrev pub copy_error : Option Copy → Option Err
copy_error none = none
copy_error (some c) = some c.reply.err

abbrev pub error_of : List Copy → Answer → Option Err
error_of cs no_answer = none
error_of cs refusal = some err_wrong_leader
error_of cs (reply_of j) = copy_error (get_elem? cs j)

-- An attempt: what other calls on the clerk complete before it, how they move the leader before and
-- during it, what is committed, and what it brings.
pub record Round : Type 0 where
  pub finished : List ℕ
  pub before : List Move
  pub during : List Move
  pub committed : List Commit
  pub answer : Answer

-- A call of Put: how it ended, the clerk and the world.
pub record Called (A : Type 0) : Type 0 where
  pub ended : Ended A
  pub clerk : Clerk
  pub world : World

-- After the call of an attempt: `none` tries again.
abbrev pub decided : Option Err → Verdict
decided none = again
decided (some err) = put_verdict err

-- The loop of Put over a sequence of attempts. `sent` are the acks that were sent, the latest
-- first. The pause after a round of failures changes nothing.
unfoldable pub put_loop : PutArgs → List ℕ → List Round → Clerk → World → Called Err
unfolding put_verdict
put_loop args sent [] ck w = record { ended = running; clerk = ck; world = w }
put_loop args sent (r ∷ rest) ck w =
    let requests = run ck.requests r.finished in
    let place = moves r.before ck.place in
    let place' = moves r.during place in
    let w' = commits args (requests.ack ∷ sent) r.committed w in
    elim (get_elem? place.servers place.leader) [
      | none ↦ record {
        ended = panics;
        clerk = record { place = place; requests = requests };
        world = w;
      }
      | some server ↦ elim (decided (error_of w'.copies r.answer)) [
        | final err ↦ record {
          ended = returns err;
          clerk = record { place = remember_leader place.leader place'; requests = requests };
          world = w';
        }
        | panic ↦ record {
          ended = panics;
          clerk = record { place = place'; requests = requests };
          world = w';
        }
        | again ↦
            put_loop args (requests.ack ∷ sent) rest
              (record { place = advance_leader place.leader place'; requests = requests }) w'
      ]
    ]

-- The deferred Complete.
abbrev pub completed : ℕ → Called Err → Called Err
completed sequence c = record c {
  clerk = record c.clerk { requests = complete c.clerk.requests sequence };
}

unfoldable pub clerk_put : Clerk → KvServer → String → String → ℕ → List ℕ → List Round → Called Err
unfolding put_loop
clerk_put ck kv key value version draws rounds =
    let w : World = record { server = kv; copies = [] } in
    elim (begin ck.requests draws) [
      | none ↦ record { ended = panics; clerk = ck; world = w }
      | some (id, sequence, requests) ↦ completed sequence (
          put_loop
            (record {
              key = key;
              value = value;
              version = version;
              client_id = id;
              sequence = sequence;
              ack = 0;
            })
            [] rounds (record ck { requests = requests }) w)
    ]

-- The switch of Get.
unfoldable pub get_final : Option GetReply → Option GetReply
get_final none = none
get_final (some r) = elim r.err [ ok ↦ some r | err_no_key ↦ some r | _ ↦ none ]

-- An attempt, with the reply that it brings, if one arrives.
pub record Visit (A : Type 0) : Type 0 where
  pub before : List Move
  pub during : List Move
  pub reply : Option A

-- The loop of Get.
unfoldable pub clerk_get : List (Visit GetReply) → Leader → Ended GetReply × Leader
unfolding get_final
clerk_get [] ck = (running, ck)
clerk_get (v ∷ rest) ck =
    let ck' = moves v.before ck in
    let ck'' = moves v.during ck' in
    elim (get_elem? ck'.servers ck'.leader) [
      | none ↦ (panics, ck')
      | some server ↦ elim (get_final v.reply) [
        | some r ↦ (returns r, remember_leader ck'.leader ck'')
        | none ↦ clerk_get rest (advance_leader ck'.leader ck'')
      ]
    ]
