-- ===== src/Rsm/Replies.antt =====
-- src/kvraft1/rsm/rsm.go: what SubmitWithTimeout returns.
use raft_sharded_kv.Prelude.{
  ℕ, suc, ◌+◌, ◌<◌, ◌≡◌, ◌≢◌, ◌⊎◌, inl, inr, refl, sym, subst, arith, false, ◌||◌, ◌==◌, ==_iff,
  List, Option, none, some, Option-cases, Bool-cases, take, if◌then◌else◌,
}
use raft_sharded_kv.Rpc.{Err}
use raft_sharded_kv.Rsm.Server.{
  StateMachine, op_id_eq, same_id_iff, Op, ApplyMsg, Rsm, unused, starting, returned, Call,
  register, submit, Applied, apply, should_snapshot, finish,
}
use raft_sharded_kv.Rsm.System.{
  System, set_call, replay, Delivers, command, install, Step, submits, starts, wakes, applies,
  notifies, stops, finishes, Reach, here, next, IsInitial,
}
use raft_sharded_kv.Rsm.Replay.{applier_replays}
use raft_sharded_kv.Rsm.Waiters.{
  Answered, Settled, NoticeOk, Inv, started-Inv, wake-Inv, notify-Inv,
}

module _ (m : StateMachine) (first : m.State) (log : List (Op m)) where
  -- A message that is applied changes only the state, and its notice is a reply of the log.
  record Kept (rsm : Rsm m) (a : Applied m) : Type 0 where
    waiters : a.rsm.waiters ≡ rsm.waiters
    channels : a.rsm.channels ≡ rsm.channels
    made : a.rsm.made ≡ rsm.made
    notice : NoticeOk m first log a.notice

  apply-Kept :
      (rsm : Rsm m) (pb n n' : ℕ) (msg : ApplyMsg m) (a : Applied m)
      → replay m first (take n log) ≡ some rsm.sm
      → Delivers m first log n msg n'
      → apply m rsm msg pb ≡ some a
      → Kept rsm a
  unfolding apply
  apply-Kept rsm pb n _ _ a e (command op h) f = elim (Option-cases (m.do_op rsm.sm op.req)) [
    | inl p ↦ let f' : none ≡ some a = rw (apply, p) at f in absurd (ground arith)
    | inr ((r, s'), g) ↦
        let outcome : Applied m = record {
          rsm = record rsm { sm = s' };
          saved = if should_snapshot m rsm pb then some (n + 1, m.snapshot s') else none;
          notice = some (op.id, r);
        } in
        let f' : some outcome ≡ some a = rw (apply, g) at f in
        let answered : Answered m first log op.id r = record {
          index = n;
          op = op;
          before = rsm.sm;
          later = s';
          logged = h;
          same = refl;
          reached = e;
          executed = g;
        } in
        subst (Kept rsm) {x = outcome} {y = a} (cc f')
          (record { waiters = refl; channels = refl; made = refl; notice = answered })
  ]
  apply-Kept rsm pb n _ _ a e (install k term bytes s h q full) f =
      elim (Option-cases (m.restore rsm.sm bytes)) [
        | inl p ↦ let f' : none ≡ some a = rw (apply, full, p) at f in absurd (ground arith)
        | inr (s', g) ↦
            let outcome : Applied m = record {
              rsm = record rsm { sm = s' };
              saved = none;
              notice = none;
            } in
            let f' : some outcome ≡ some a = rw (apply, full, g) at f in
            subst (Kept rsm) {x = outcome} {y = a} (cc f')
              (record { waiters = refl; channels = refl; made = refl; notice = tt })
      ]

  Inv-same :
      (rsm rsm' : Rsm m) (calls : ℕ → Call m)
      → rsm'.waiters ≡ rsm.waiters
      → rsm'.channels ≡ rsm.channels
      → rsm'.made ≡ rsm.made
      → Inv m first log rsm calls
      → Inv m first log rsm' calls
  Inv-same rsm rsm' calls e f g v = record {
    waiters = λ id w h. rw g (v.waiters id w (subst (λ p. p id ≡ some w) e h));
    channels = λ w r h. v.channels w r (subst (λ p. p w ≡ some r) f h);
    own = λ i. rw g (v.own i);
    settled = v.settled;
  }

  -- A new call, and the others.
  by_new_call :
      (calls : ℕ → Call m) (n w : ℕ) (c : Call m) (P : Call m → Type 0)
      → (n ≡ w → P c)
      → ((n == w) ≡ false → P (calls w))
      → P (set_call calls n c w)
  by_new_call calls n w c P a b = elim (Bool-cases (n == w)) [
    | inl s ↦ subst P (rw s refl) (a ((==_iff n w).0 s))
    | inr o ↦ subst P (rw o refl) (b o)
  ]

  register-Inv :
      (rsm : Rsm m) (calls : ℕ → Call m) (req : m.Req)
      → Inv m first log rsm calls
      → Inv m first log (register m rsm req).1 (
          set_call calls rsm.made
            (record { op = (register m rsm req).0; waiter = rsm.made; stage = starting }))
  unfolding register
  register-Inv rsm calls req v =
      let n = rsm.made in
      let op = (register m rsm req).0 in
      let c : Call m = record { op = op; waiter = n; stage = starting } in
      record {
        waiters = λ id w h. elim (Bool-cases (op_id_eq.beq op.id id)) [
          | inl s ↦
              let h' : some n ≡ some w = rw s at h in
              let e : n ≡ w = cc h' in
              (
                omega (arith, e),
                by_new_call calls n w c (λ d. d.op.id ≡ id) (λ _. (same_id_iff op.id id).0 s)
                    (λ o. absurd (ground (arith, e))),
              )
          | inr o ↦
              let h' : rsm.waiters id ≡ some w = rw o at h in
              let (l, e) = v.waiters id w h' in
              (
                omega (arith, l),
                by_new_call calls n w c (λ d. d.op.id ≡ id) (λ f. absurd (omega (arith, l, f)))
                    (λ _. e),
              )
        ];
        channels = λ w r h. elim (Bool-cases (n == w)) [
          | inl s ↦ let h' : none ≡ some r = rw s at h in absurd (ground arith)
          | inr o ↦
              let h' : rsm.channels w ≡ some r = rw o at h in
              by_new_call calls n w c (λ d. Answered m first log d.op.id r)
                (λ f. absurd (ground (arith, f, o))) (λ _. v.channels w r h')
        ];
        own = λ i.
            by_new_call calls n i c (λ d. (d.stage ≡ unused) ⊎ ((d.waiter ≡ i) × (i < suc n)))
              (λ s. inr (s, omega (arith, s)))
              (λ _. elim (v.own i) [ inl u ↦ inl u | inr (e, l) ↦ inr (e, omega (arith, l)) ]);
        settled = λ i.
            by_new_call calls n i c (λ d. Settled m first log d.op.id d.stage) (λ _. tt)
              (λ _. v.settled i);
      }

  submit-Inv :
      (rsm rsm' : Rsm m) (calls : ℕ → Call m) (req : m.Req) (op : Op m)
      → Inv m first log rsm calls
      → submit m rsm req ≡ some (op, rsm')
      → Inv m first log rsm'
          (set_call calls rsm.made (record { op = op; waiter = rsm.made; stage = starting }))
  unfolding submit
  submit-Inv rsm rsm' calls req op v h = elim (Bool-cases (rsm.done || rsm.raft_done)) [
    | inl e ↦ let h' : none ≡ some (op, rsm') = rw (submit, e) at h in absurd (ground arith)
    | inr e ↦
        let h' : some (register m rsm req) ≡ some (op, rsm') = rw (submit, e) at h in
        subst
          (λ p.
            Inv m first log p.1
              (set_call calls rsm.made (record { op = p.0; waiter = rsm.made; stage = starting })))
          {x = register m rsm req} {y = (op, rsm')} (cc h') (register-Inv rsm calls req v)
  ]

  module _ (law : (s t : m.State) → m.restore s (m.snapshot t) ≡ some t) where
    -- A call that has a stage has its own channel.
    owned :
        (s : System m) (i : ℕ)
        → Inv m first log s.rsm s.calls
        → (s.calls i).stage ≢ unused
        → ((s.calls i).waiter ≡ i) × (i < s.rsm.made)
    owned s i v h = elim (v.own i) [ inl u ↦ absurd (h u) | inr o ↦ o ]

    Step-Inv :
        (s t : System m)
        → Step m first log s t
        → replay m first (take s.applied log) ≡ some s.rsm.sm
        → Inv m first log s.rsm s.calls × NoticeOk m first log s.notice
        → Inv m first log t.rsm t.calls × NoticeOk m first log t.notice
    unfolding finish
    Step-Inv s _ (submits req op rsm h) e (v, o) = (submit-Inv s.rsm rsm s.calls req op v h, o)
    Step-Inv s _ (starts i term l h) e (v, o) =
        let (mine, made) = owned s i v (λ f. absurd (cc (h, f))) in
        (started-Inv m first log s.rsm s.calls i term l v mine made, o)
    Step-Inv s _ (wakes i term event h) e (v, o) =
        let (mine, made) = owned s i v (λ f. absurd (cc (h, f))) in
        (wake-Inv m first log s.rsm s.calls i term event v mine made, o)
    Step-Inv s _ (applies msg pb n a h d f) e (v, o) =
        let k = apply-Kept s.rsm pb s.applied n msg a e d f in
        (Inv-same s.rsm a.rsm s.calls k.waiters k.channels k.made v, k.notice)
    Step-Inv s _ (notifies id r h) e (v, o) =
        (notify-Inv m first log s.rsm s.calls id r v (subst (NoticeOk m first log) h o), tt)
    Step-Inv s _ stops e (v, o) = (Inv-same s.rsm _ s.calls refl refl refl v, o)
    Step-Inv s _ (finishes h) e (v, o) = (Inv-same s.rsm _ s.calls refl refl refl v, o)

    Reach-Inv :
        (s t : System m)
        → IsInitial m first log s
        → Reach m first log s t
        → Inv m first log t.rsm t.calls × NoticeOk m first log t.notice
    Reach-Inv s _ start here = (
      record {
        waiters = λ id w h. absurd (cc (start.no_waiter id, h));
        channels = λ w r h. absurd (cc (start.no_reply w, h));
        own = λ i. inl (start.no_call i);
        settled = λ i. rw (start.no_call i) tt;
      },
      subst (NoticeOk m first log) (sym start.no_notice) tt,
    )
    Reach-Inv s t start (next {t = u} r step) =
        Step-Inv u t step (applier_replays m first log law s u start r).0 (Reach-Inv s u start r)

    -- In every run of a server, a call of SubmitWithTimeout that has returned has returned either
    -- OK with the reply of the log's entry that has the identity of its operation, executed after
    -- the entries before it, or ErrWrongLeader with no reply. (Restoring a snapshot gives the state
    -- that was saved.)
    pub submit_returns :
        (s t : System m)
        → IsInitial m first log s
        → Reach m first log s t
        → (i : ℕ) (err : Err) (reply : Option m.Reply) → (t.calls i).stage ≡ returned err reply
        → Settled m first log (t.calls i).op.id (returned err reply)
    submit_returns s t start r i err reply h =
        subst (Settled m first log (t.calls i).op.id) h ((Reach-Inv s t start r).0.settled i)
