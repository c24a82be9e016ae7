-- ===== src/Dedup/Pending.antt =====
-- src/kvraft1/dedup/dedup.go: a request of a client between Begin and Complete.
use raft_sharded_kv.Prelude.{
  ℕ, ◌+◌, ◌<◌, ◌≤◌, ◌%◌, ◌^◌, ◌==◌, Bool-cases, ◌≡◌, ◌≢◌, ◌⊎◌, inl, inr, sym, ◌∙◌, ap, subst, arith,
  true, false, List, [], ◌∷◌, some, Option-cases,
}
use raft_sharded_kv.Dedup.Client.{Client, contains, run, begin, draw_id, next_draw}
use raft_sharded_kv.Dedup.Watermark.{Inv, IsStopped, AllBelow, run-Inv}

-- The client while the request of a sequence number is not completed.
pub record IsPending (sequence : ℕ) (c : Client) : Type 1 where
  pub done : ℕ → Type 0
  pub client : Inv c done × IsStopped c
  pub unfinished : done sequence → ⊥

-- Other calls complete.
pub finished-IsPending :
    (sequence : ℕ) (c : Client) (finished : List ℕ)
    → IsPending sequence c
    → AllBelow (2 ^ 64) finished
    → contains sequence finished ≡ false
    → IsPending sequence (run c finished)
finished-IsPending sequence c finished v below apart = record {
  done = λ q. v.done q ⊎ (contains q finished ≡ true);
  client = run-Inv c v.done finished v.client.0 v.client.1 below;
  unfinished = λ d. elim d [ inl e ↦ v.unfinished e | inr e ↦ cc (e, apart) ];
}

lt_or : (n k : ℕ) → (k < n) ⊎ (n ≤ k)
lt_or n k = omega arith

pub IsPending-ack :
    (sequence : ℕ) (c : Client) → sequence ≢ 0 → IsPending sequence c → c.ack < sequence
IsPending-ack sequence c nonzero v = elim (lt_or sequence c.ack) [
  | inl lt ↦ lt
  | inr le ↦ absurd (v.unfinished (v.client.0.acked sequence (omega (arith, nonzero)) le))
]

next_draw_lem : (draws : List ℕ) (d : ℕ) → next_draw draws ≡ some d → d ≢ 0
unfolding next_draw
next_draw_lem [] d e = absurd (cc e)
next_draw_lem (x ∷ xs) d e = ground (arith, next_draw_lem xs d)

draw_id_lem : (id : ℕ) (draws : List ℕ) (d : ℕ) → draw_id id draws ≡ some d → d ≢ 0
unfolding draw_id
draw_id_lem id draws d e = ground (arith, next_draw_lem draws d)

begin_lem :
    (c : Client) (draws : List ℕ) (id sequence : ℕ) (requests : Client)
    → c.next < 2 ^ 64
    → begin c draws ≡ some (id, sequence, requests)
    → (id ≢ 0)
      × (sequence ≡ c.next + 1)
      × (requests.ack ≡ c.ack)
      × (requests.completed ≡ c.completed)
unfolding begin
begin_lem c draws id sequence requests bound e = elim (Option-cases (draw_id c.id draws)) [
  | inl out ↦ absurd (let h = rw out at e in cc h)
  | inr (d, drawn) ↦
      let h = rw drawn at e in
      elim (Bool-cases ((c.next + 1) % 2 ^ 64 == 0)) [
        | inl exhausted ↦ absurd (let g = rw exhausted at h in cc g)
        | inr fresh ↦
            let g = rw fresh at h in
            let p : ◌≡◌ {A = ℕ × ℕ × Client}
                (d, (c.next + 1) % 2 ^ 64, record c { id = d; next = (c.next + 1) % 2 ^ 64 })
                (id, sequence, requests) =
              cc g in
            let nonzero = draw_id_lem c.id draws d drawn in
            let number : (c.next + 1) % 2 ^ 64 ≡ c.next + 1 = ground arith in
            (
              subst (λ k. k ≢ 0) (ap (λ x. x.0) p) nonzero,
              sym (ap (λ x. x.1) p) ∙ number,
              ap (λ x. x.2.ack) (sym p),
              ap (λ x. x.2.completed) (sym p),
            )
      ]
]

same_client :
    (c d : Client) (done : ℕ → Type 0)
    → d.ack ≡ c.ack
    → d.completed ≡ c.completed
    → Inv c done
    → IsStopped c
    → Inv d done × IsStopped d
unfolding IsStopped
same_client c d done e f v stopped = (
  record {
    acked_bounded = rw e v.acked_bounded;
    above = λ q m. rw e (v.above q (rw f at m));
    sound = λ q m. v.sound q (rw f at m);
    acked = λ q p m. v.acked q p (rw e at m);
    kept = λ q h. rw (e, f) (v.kept q h);
  },
  rw (e, f) stopped,
)

-- What Begin gives, for a client that has completed only what it has begun.
pub begin-IsPending :
    (c : Client) (draws : List ℕ) (done : ℕ → Type 0) (id sequence : ℕ) (requests : Client)
    → Inv c done
    → IsStopped c
    → ((q : ℕ) → done q → q ≤ c.next)
    → c.next < 2 ^ 64
    → begin c draws ≡ some (id, sequence, requests)
    → (id ≢ 0) × (sequence ≢ 0) × IsPending sequence requests
begin-IsPending c draws done id sequence requests v stopped begun bound e =
    let (nonzero, number, same_ack, same_completed) =
      begin_lem c draws id sequence requests bound e in
    (
      nonzero,
      omega arith,
      record {
        done = done;
        client = same_client c requests done same_ack same_completed v stopped;
        unfinished = λ d. let le = begun sequence d in omega arith;
      },
    )
