-- ===== src/Kvraft/Copies.antt =====
-- src/kvraft1/dedup/dedup.go under src/kvraft1/client.go: all executed copies of a request count as
-- one.
use raft_sharded_kv.Prelude.{
  ℕ, String, Map, zero, suc, ◌<◌, ◌≡◌, ◌≢◌, ◌⊎◌, inl, inr, refl, sym, ◌∙◌, ap, arith, nat_eq, List,
  [], ◌∷◌, Option, none, some, Option-cases, get_elem?,
}
use raft_sharded_kv.Rpc.{PutArgs, PutReply}
use raft_sharded_kv.Dedup.Table.{Table, session_of, do_request}
use raft_sharded_kv.Dedup.Once.{IsAdmissible}
use raft_sharded_kv.Kvraft.Server.{KvServer, ValueEntry, put_locked}
use raft_sharded_kv.Kvraft.Clerk.{
  Commit, other, copy, Copy, World, executed, execute_copy, copied, commits,
}

-- The Put of another call: of another client, or of the same client, which has not acknowledged the
-- sequence number.
abbrev pub IsApart : ℕ → ℕ → PutArgs → Type 0
IsApart client sequence b = (b.client_id ≢ client) ⊎ ((b.sequence ≢ sequence) × (b.ack < sequence))

module _ {ℓ} {S : Type ℓ} (t : Table) (a : PutArgs) (apply : S → PutReply × S) (s : S) where
  do_request_apart :
      (client sequence : ℕ)
      → IsApart client sequence a
      → (session_of t client).ack < sequence
      → ((session_of (do_request t a apply s).1 client).ack < sequence)
        × ((session_of (do_request t a apply s).1 client).replies sequence
            ≡ (session_of t client).replies sequence)
  unfolding do_request
  do_request_apart client sequence (inl far) h = (
    ground (arith, nat_eq.beq_iff a.client_id client),
    ground (arith, nat_eq.beq_iff a.client_id client),
  )
  do_request_apart client sequence (inr near) h = (
    ground (arith, nat_eq.beq_iff a.client_id client),
    ground (arith, nat_eq.beq_iff a.client_id client, nat_eq.beq_iff a.sequence sequence),
  )

  do_request_stored :
      IsAdmissible a
      → (session_of t a.client_id).ack < a.sequence
      → ((session_of (do_request t a apply s).1 a.client_id).ack < a.sequence)
        × ((session_of (do_request t a apply s).1 a.client_id).replies a.sequence
            ≡ some (do_request t a apply s).0)
  unfolding do_request
  do_request_stored h below = (ground arith, ground arith)

  do_request_first :
      IsAdmissible a
      → (session_of t a.client_id).ack < a.sequence
      → (session_of t a.client_id).replies a.sequence ≡ none
      → ((do_request t a apply s).0 ≡ (apply s).0) × ((do_request t a apply s).2 ≡ (apply s).1)
  unfolding do_request
  do_request_first h below unknown = (ground arith, ground arith)

  do_request_repeated :
      (reply : PutReply)
      → IsAdmissible a
      → (session_of t a.client_id).ack < a.sequence
      → (session_of t a.client_id).replies a.sequence ≡ some reply
      → ((do_request t a apply s).0 ≡ reply) × ((do_request t a apply s).2 ≡ s)
  unfolding do_request
  do_request_repeated reply h below known = (ground arith, ground arith)

-- The first copy wrote what the Put writes; each later one was answered as the one before it and
-- left the values as they were.
abbrev pub Once : PutArgs → List Copy → Type 0
Once args [] = Unit {0}
Once args (c ∷ []) =
    ((put_locked args c.before).0 ≡ c.reply) × ((put_locked args c.before).1 ≡ c.after)
Once args (c ∷ d ∷ rest) = (c.reply ≡ d.reply) × (c.after ≡ c.before) × Once args (d ∷ rest)

abbrev latest_reply : List Copy → Option PutReply
latest_reply [] = none
latest_reply (c ∷ rest) = some c.reply

pub record Consistent (args : PutArgs) (w : World) : Type 0 where
  pub once : Once args w.copies
  pub below : (session_of w.server.requests args.client_id).ack < args.sequence
  pub stored :
      (session_of w.server.requests args.client_id).replies args.sequence ≡ latest_reply w.copies

-- The identity of the request is one.
pub record IsIdentified (args : PutArgs) : Type 0 where
  pub client : args.client_id ≢ 0
  pub sequence : args.sequence ≢ 0

other-Consistent :
    (args b : PutArgs) (w : World)
    → IsApart args.client_id args.sequence b
    → Consistent args w
    → Consistent args (record w { server = (executed w.server b).1 })
other-Consistent args b w apart v =
    let kept =
      do_request_apart w.server.requests b (put_locked b) w.server.values args.client_id
        args.sequence apart v.below in
    record { once = v.once; below = kept.0; stored = kept.1 ∙ v.stored }

put_locked_ack :
    (args : PutArgs) (ack : ℕ) (values : Map String ValueEntry)
    → put_locked (record args { ack = ack }) values ≡ put_locked args values
unfolding put_locked
put_locked_ack args ack values = elim (Option-cases (values args.key)) [
  | inl e ↦ rw e refl
  | inr (entry, e) ↦ rw e refl
]

execute_copy-Once :
    (args : PutArgs) (ack : ℕ) (kv : KvServer) (cs : List Copy)
    → IsIdentified args
    → ack < args.sequence
    → Consistent args (record { server = kv; copies = cs })
    → Once args
        (execute_copy (record args { ack = ack }) (record { server = kv; copies = cs })).copies
execute_copy-Once args ack kv [] known lt v =
    let a : PutArgs = record args { ack = ack } in
    let p =
      do_request_first kv.requests a (put_locked a) kv.values (known.client, known.sequence, lt)
        v.below v.stored in
    let same = put_locked_ack args ack kv.values in
    (sym (p.0 ∙ ap (λ x. x.0) same), sym (p.1 ∙ ap (λ x. x.1) same))
execute_copy-Once args ack kv (c ∷ rest) known lt v =
    let a : PutArgs = record args { ack = ack } in
    let p =
      do_request_repeated kv.requests a (put_locked a) kv.values c.reply
        (known.client, known.sequence, lt) v.below v.stored in
    (p.0, p.1, v.once)

execute_copy-Consistent :
    (args : PutArgs) (ack : ℕ) (w : World)
    → IsIdentified args
    → ack < args.sequence
    → Consistent args w
    → Consistent args (execute_copy (record args { ack = ack }) w)
execute_copy-Consistent args ack w known lt v =
    let a : PutArgs = record args { ack = ack } in
    let p =
      do_request_stored w.server.requests a (put_locked a) w.server.values
        (known.client, known.sequence, lt) v.below in
    record {
      once = execute_copy-Once args ack w.server w.copies known lt v;
      below = p.0;
      stored = p.1;
    }

copied-Consistent :
    (args : PutArgs) (o : Option ℕ) (w : World)
    → IsIdentified args
    → ((ack : ℕ) → o ≡ some ack → ack < args.sequence)
    → Consistent args w
    → Consistent args (copied args o w)
copied-Consistent args none w known under v = v
copied-Consistent args (some ack) w known under v =
    execute_copy-Consistent args ack w known (under ack refl) v

-- The acks that were sent are below the sequence number.
abbrev pub AllUnder : ℕ → List ℕ → Type 0
AllUnder n [] = Unit {0}
AllUnder n (a ∷ rest) = (a < n) × AllUnder n rest

get_elem?-AllUnder :
    (n k ack : ℕ) (sent : List ℕ) → AllUnder n sent → get_elem? sent k ≡ some ack → ack < n
get_elem?-AllUnder n k ack [] all e = absurd (cc e)
get_elem?-AllUnder n zero ack (a ∷ rest) all e = let same : a ≡ ack = cc e in omega arith
get_elem?-AllUnder n (suc k) ack (a ∷ rest) all e = get_elem?-AllUnder n k ack rest all.1 e

-- What may be committed: the Puts of other calls are apart.
abbrev pub AllApart : ℕ → ℕ → List Commit → Type 0
AllApart client sequence [] = Unit {0}
AllApart client sequence (other b ∷ rest) =
    IsApart client sequence b × AllApart client sequence rest
AllApart client sequence (copy k ∷ rest) = AllApart client sequence rest

pub commits-Consistent :
    (args : PutArgs) (sent : List ℕ) (cs : List Commit) (w : World)
    → IsIdentified args
    → AllUnder args.sequence sent
    → AllApart args.client_id args.sequence cs
    → Consistent args w
    → Consistent args (commits args sent cs w)
unfolding commits
commits-Consistent args sent [] w known under apart v = v
commits-Consistent args sent (other b ∷ rest) w known under apart v =
    commits-Consistent args sent rest _ known under apart.1 (other-Consistent args b w apart.0 v)
commits-Consistent args sent (copy k ∷ rest) w known under apart v =
    commits-Consistent args sent rest _ known under apart (
      copied-Consistent args (get_elem? sent k) w known
        (λ ack e. get_elem?-AllUnder args.sequence k ack sent under e) v)
