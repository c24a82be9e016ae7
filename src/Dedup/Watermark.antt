-- ===== src/Dedup/Watermark.antt =====
-- The watermark of src/kvraft1/dedup/dedup.go: what the table forgets, and what the client
-- acknowledges.
use raft_sharded_kv.Prelude.{
  ℕ, zero, suc, ◌+◌, ◌≤◌, ◌<◌, ◌^◌, ◌%◌, ◌≡◌, refl, ◌⊎◌, inl, inr, none, true, false, ◌||◌, List,
  [], ◌∷◌, arith, nat_eq, length, leb, Bool-cases, ◌==◌, ==_iff, if◌then◌else◌,
}
use raft_sharded_kv.Rpc.{PutArgs, PutReply}
use raft_sharded_kv.Dedup.Table.{Table, empty_table, session_of, do_request}
use raft_sharded_kv.Dedup.Client.{Client, new_client, contains, delete, advance, complete, run}

-- No session holds a reply at or below its watermark.
pub record IsClean (t : Table) : Type 0 where
  pub clean :
      (client sequence : ℕ)
      → sequence ≤ (session_of t client).ack
      → (session_of t client).replies sequence ≡ none

pub IsClean-empty_table : IsClean empty_table
unfolding empty_table session_of
IsClean-empty_table = record { clean = λ client sequence h. refl }

-- Whatever request comes, watermarks never fall, and no session holds a reply at or below its
-- watermark if none did before.
pub do_request-IsClean {ℓ} :
    {S : Type ℓ} (t : Table) (a : PutArgs) (apply : S → PutReply × S) (s : S)
    → IsClean t
    → IsClean (do_request t a apply s).1
      × ((client : ℕ)
          → (session_of t client).ack ≤ (session_of (do_request t a apply s).1 client).ack)
unfolding do_request
do_request-IsClean t a apply s v = (
  record {
    clean = λ client sequence h. ground (
      arith,
      v.clean client sequence,
      nat_eq.beq_iff a.client_id client,
      nat_eq.beq_iff a.sequence sequence,
    );
  },
  (λ client. ground (arith, nat_eq.beq_iff a.client_id client)),
)

contains-delete :
    (q x : ℕ) (xs : List ℕ) → contains q (delete x xs) ≡ (if x == q then false else contains q xs)
unfolding contains delete
contains-delete q x [] = ground arith
contains-delete q x (y ∷ ys) = ground (arith, contains-delete q x ys)

length-delete-le : (x : ℕ) (xs : List ℕ) → length (delete x xs) ≤ length xs
unfolding delete
length-delete-le x [] = omega arith
length-delete-le x (y ∷ ys) = ground (arith, length-delete-le x ys)

length-delete : (x : ℕ) (xs : List ℕ) → contains x xs ≡ true → length (delete x xs) < length xs
unfolding contains delete
length-delete x [] h = cc
length-delete x (y ∷ ys) h = ground (arith, length-delete x ys, length-delete-le x ys)

-- What holds between calls of Complete: the set is above the watermark and below 2^64, and the next
-- sequence number is not in it.
pub record Inv (c : Client) (done : ℕ → Type 0) : Type 0 where
  pub acked_bounded : c.ack < 2 ^ 64
  pub above : (q : ℕ) → contains q c.completed ≡ true → c.ack < q
  pub sound : (q : ℕ) → contains q c.completed ≡ true → done q × (q < 2 ^ 64)
  pub acked : (q : ℕ) → 0 < q → q ≤ c.ack → done q
  pub kept : (q : ℕ) → done q → (q ≤ c.ack) ⊎ (contains q c.completed ≡ true)

unfoldable pub IsStopped : Client → Type 0
IsStopped c = contains (c.ack + 1) c.completed ≡ false

advance_round :
    (c : Client) (done : ℕ → Type 0)
    → Inv c done
    → contains ((c.ack + 1) % 2 ^ 64) c.completed ≡ true
    → let n = (c.ack + 1) % 2 ^ 64 in
      (n ≡ c.ack + 1) × Inv (record c { ack = n; completed = delete n c.completed }) done
advance_round c done v h =
    let n = (c.ack + 1) % 2 ^ 64 in
    let step : n ≡ c.ack + 1 = omega (arith, v.above n h, v.acked_bounded) in
    (
      step,
      record {
        acked_bounded = omega (arith, v.acked_bounded);
        above = λ q m. ground (arith, step, contains-delete q n c.completed, v.above q);
        sound = λ q m. v.sound q (ground (arith, contains-delete q n c.completed));
        acked = λ q p m. elim (Bool-cases (q == n)) [
          | inl e ↦ rw ((==_iff q n).0 e) (v.sound n h).0
          | inr e ↦ v.acked q p (ground (arith, step))
        ];
        kept = λ q d. ground (arith, v.kept q d, step, contains-delete q n c.completed);
      },
    )

contains-nil_of_length : (q : ℕ) (xs : List ℕ) → length xs ≤ 0 → contains q xs ≡ false
unfolding contains
contains-nil_of_length q [] h = refl
contains-nil_of_length q (x ∷ xs) h = absurd (omega arith)

advance_stops :
    (c : Client) (done : ℕ → Type 0)
    → Inv c done
    → contains ((c.ack + 1) % 2 ^ 64) c.completed ≡ false
    → IsStopped c
unfolding IsStopped
advance_stops c done v h = elim (Bool-cases (contains (c.ack + 1) c.completed)) [
  | inl e ↦ ground (arith, v.sound (c.ack + 1) e, h)
  | inr e ↦ e
]

advance-Inv :
    (fuel : ℕ) (c : Client) (done : ℕ → Type 0)
    → Inv c done
    → length c.completed ≤ fuel
    → Inv (advance fuel c) done × IsStopped (advance fuel c)
unfolding advance
advance-Inv zero c done v h = (v, advance_stops c done v (contains-nil_of_length _ c.completed h))
advance-Inv (suc fuel) c done v h =
    elim (Bool-cases (contains ((c.ack + 1) % 2 ^ 64) c.completed)) [
      | inl more ↦ rw more (
          advance-Inv fuel _ done (advance_round c done v more).1
            (omega (arith, length-delete ((c.ack + 1) % 2 ^ 64) c.completed more)))
      | inr stop ↦ rw stop (v, advance_stops c done v stop)
    ]

abbrev Also : (ℕ → Type 0) → ℕ → ℕ → Type 0
Also done sequence q = done q ⊎ (q ≡ sequence)

abbrev mark : ℕ → List ℕ → List ℕ
mark sequence xs = if contains sequence xs then xs else sequence ∷ xs

contains-mark :
    (sequence q : ℕ) (xs : List ℕ)
    → contains q (mark sequence xs) ≡ (sequence == q || contains q xs)
unfolding contains
contains-mark sequence q xs = ground (arith, ==_iff sequence q)

mark-Inv :
    (c : Client) (done : ℕ → Type 0) (sequence : ℕ)
    → Inv c done
    → c.ack < sequence
    → sequence < 2 ^ 64
    → Inv (record c { completed = mark sequence c.completed }) (Also done sequence)
mark-Inv c done sequence v new bound = record {
  acked_bounded = v.acked_bounded;
  above = λ q m. ground (arith, contains-mark sequence q c.completed, v.above q);
  sound = λ q m. ground (arith, contains-mark sequence q c.completed, v.sound q);
  acked = λ q p m. inl (v.acked q p m);
  kept = λ q d. ground (arith, v.kept q, contains-mark sequence q c.completed, d);
}

complete-Inv :
    (c : Client) (done : ℕ → Type 0) (sequence : ℕ)
    → Inv c done
    → IsStopped c
    → sequence < 2 ^ 64
    → Inv (complete c sequence) (Also done sequence) × IsStopped (complete c sequence)
unfolding complete
complete-Inv c done sequence v stopped bound = elim (Bool-cases (leb sequence c.ack)) [
  | inl old ↦ rw old (
    record {
      acked_bounded = v.acked_bounded;
      above = v.above;
      sound = λ q m. (inl (v.sound q m).0, (v.sound q m).1);
      acked = λ q p m. inl (v.acked q p m);
      kept = λ q d. elim d [ inl e ↦ v.kept q e | inr e ↦ inl (ground arith) ];
    },
    stopped,
  )
  | inr new ↦ rw new (
      advance-Inv (length (mark sequence c.completed)) _ (Also done sequence)
        (mark-Inv c done sequence v (ground arith) bound) (omega arith))
]

-- All of a list are sequence numbers of uint64.
abbrev pub AllBelow : ℕ → List ℕ → Type 0
AllBelow n [] = Unit {0}
AllBelow n (q ∷ qs) = (q < n) × AllBelow n qs

pub run-Inv :
    (c : Client) (done : ℕ → Type 0) (qs : List ℕ)
    → Inv c done
    → IsStopped c
    → AllBelow (2 ^ 64) qs
    → Inv (run c qs) (λ q. done q ⊎ (contains q qs ≡ true)) × IsStopped (run c qs)
unfolding run contains
run-Inv c done [] v stopped b = (
  record {
    acked_bounded = v.acked_bounded;
    above = v.above;
    sound = λ q m. (inl (v.sound q m).0, (v.sound q m).1);
    acked = λ q p m. inl (v.acked q p m);
    kept = λ q d. elim d [ inl e ↦ v.kept q e | inr e ↦ cc ];
  },
  stopped,
)
run-Inv c done (x ∷ qs) v stopped b =
    let first = complete-Inv c done x v stopped b.0 in
    let (w, end) = run-Inv (complete c x) (Also done x) qs first.0 first.1 b.1 in
    (
      record {
        acked_bounded = w.acked_bounded;
        above = w.above;
        sound = λ q m. ground (arith, w.sound q m);
        acked = λ q p m. ground (arith, w.acked q p m);
        kept = λ q d. ground (arith, w.kept q, d);
      },
      end,
    )

pub new_client-Inv : Inv new_client (λ q. ⊥) × IsStopped new_client
unfolding new_client contains IsStopped
new_client-Inv = (
  record {
    acked_bounded = omega arith;
    above = λ q m. cc;
    sound = λ q m. cc;
    acked = λ q p m. omega arith;
    kept = λ q d. absurd d;
  },
  refl,
)

-- Whatever the order in which the requests of a new client complete, its watermark is the largest
-- number up to which all have completed: every number from 1 to the watermark has completed, and
-- the next one has not.
pub ack_exact :
    (qs : List ℕ)
    → AllBelow (2 ^ 64) qs
    → ((q : ℕ) → 0 < q → q ≤ (run new_client qs).ack → contains q qs ≡ true)
      × (contains ((run new_client qs).ack + 1) qs ≡ false)
unfolding IsStopped
ack_exact qs b =
    let (v, stopped) = run-Inv new_client (λ q. ⊥) qs new_client-Inv.0 new_client-Inv.1 b in
    (
      (λ q p m. elim (v.acked q p m) [ inl e ↦ absurd e | inr e ↦ e ]),
      elim (Bool-cases (contains ((run new_client qs).ack + 1) qs)) [
        | inl e ↦ absurd (unacked v stopped (v.kept ((run new_client qs).ack + 1) (inr e)))
        | inr e ↦ e
      ],
    )
  where
    unacked :
        Inv (run new_client qs) (λ q. ⊥ ⊎ (contains q qs ≡ true))
        → contains ((run new_client qs).ack + 1) (run new_client qs).completed ≡ false
        → ((run new_client qs).ack + 1 ≤ (run new_client qs).ack)
          ⊎ (contains ((run new_client qs).ack + 1) (run new_client qs).completed ≡ true)
        → ⊥
    unacked v stopped k = ground arith
