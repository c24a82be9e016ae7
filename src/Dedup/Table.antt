-- ===== src/Dedup/Table.antt =====
-- src/kvraft1/dedup/dedup.go, Session and Table: the replicated side. The map of sessions holds
-- pointers that no other object shares, so a session is a value here.
use raft_sharded_kv.Prelude.{
  ℕ, Map, empty_map, insert, nat_eq, Option, none, some, ltb, leb, ◌==◌, ◌||◌, if◌then◌else◌,
}
use raft_sharded_kv.Rpc.{PutArgs, PutReply, put_reply, err_stale_request}

pub record Session : Type 0 where
  pub ack : ℕ
  pub replies : Map ℕ PutReply

-- A nil map of sessions reads as an empty one, and Do makes it before it writes.
pub record Table : Type 0 where
  pub sessions : Map ℕ Session

unfoldable pub empty_table : Table
empty_table = record { sessions = empty_map }

abbrev pub new_session : Session
new_session = record { ack = 0; replies = empty_map }

-- t.Sessions[args.ClientID], made when it is missing.
abbrev or_new : Option Session → Session
or_new none = new_session
or_new (some s) = s

unfoldable pub session_of : Table → ℕ → Session
session_of t client = or_new (t.sessions client)

-- The watermark moves up, and the replies at or below it are dropped.
unfoldable pub advance_ack : Session → ℕ → Session
advance_ack s ack =
    if ltb s.ack ack
    then record {
      ack = ack;
      replies = λ sequence. if leb sequence ack then none else s.replies sequence;
    }
    else s

abbrev pub store : Table → ℕ → Session → Table
store t client s = record { sessions = insert client s t.sessions }

module _ {ℓ} {S : Type ℓ} where
  -- `apply` is the closure: it reads and writes the caller's state.
  abbrev execute : Table → PutArgs → Session → (S → PutReply × S) → S → PutReply × Table × S
  execute t args session apply s =
      let (reply, s') = apply s in
      (
        reply,
        store t args.client_id
            (record session { replies = insert args.sequence reply session.replies }),
        s',
      )

  abbrev answer :
      Option PutReply → Table → PutArgs → Session → (S → PutReply × S) → S → PutReply × Table × S
  answer none t args session apply s = execute t args session apply s
  answer (some reply) t args session apply s = (reply, store t args.client_id session, s)

  abbrev with_session : Table → PutArgs → Session → (S → PutReply × S) → S → PutReply × Table × S
  with_session t args session apply s =
      if leb args.sequence session.ack
      then (put_reply err_stale_request, store t args.client_id session, s)
      else answer (session.replies args.sequence) t args session apply s

  unfoldable pub do_request : Table → PutArgs → (S → PutReply × S) → S → PutReply × Table × S
  unfolding session_of advance_ack
  do_request t args apply s =
      if args.client_id == 0
      then (let (reply, s') = apply s in (reply, t, s'))
      else if args.sequence == 0 || leb args.sequence args.ack
      then (put_reply err_stale_request, t, s)
      else with_session t args (advance_ack (session_of t args.client_id) args.ack) apply s
