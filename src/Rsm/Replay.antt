-- ===== src/Rsm/Replay.antt =====
-- src/kvraft1/rsm/rsm.go: the state machine is the log executed in order, also across snapshots.
use raft_sharded_kv.Prelude.{
  ℕ, suc, zero, ◌+◌, ◌≡◌, inl, inr, refl, sym, ap, subst, arith, Bool, true, false, List, [], ◌∷◌,
  ◌++◌, none, some, Option-cases, get_elem?, take, if◌then◌else◌,
}
use raft_sharded_kv.Rsm.Server.{
  StateMachine, OpId, op_id_eq, Op, ApplyMsg, Rsm, Call, Event, submit, started, wake,
  remove_waiter, notify, Applied, apply, should_snapshot, finish,
}
use raft_sharded_kv.Rsm.System.{
  System, kept, replay, Delivers, command, install, Step, submits, starts, wakes, applies, notifies,
  stops, finishes, Reach, here, next, IsInitial,
}

module _ (m : StateMachine) where
  replay-append :
      (s s' : m.State) (xs : List (Op m)) (op : Op m) (r : m.Reply) (s'' : m.State)
      → replay m s xs ≡ some s'
      → m.do_op s' op.req ≡ some (r, s'')
      → replay m s (xs ++ op ∷ []) ≡ some s''
  unfolding replay
  replay-append s s' [] op r s'' e f = let same : s ≡ s' = cc e in rw (same, f) refl
  replay-append s s' (x ∷ xs) op r s'' e f = elim (Option-cases (m.do_op s x.req)) [
    | inl n ↦ let e' : none ≡ some s' = rw (replay, n) at e in absurd (ground arith)
    | inr ((_, t), g) ↦
        let e' : replay m t xs ≡ some s' = rw (replay, g) at e in
        rw g (replay-append t s' xs op r s'' e' f)
  ]

  take-suc :
      {A : Type 0} (xs : List A) (n : ℕ) (x : A)
      → get_elem? xs n ≡ some x
      → take (suc n) xs ≡ take n xs ++ x ∷ []
  take-suc [] n x h = absurd (ground arith)
  take-suc (y ∷ ys) zero x h = ap (λ z. z ∷ []) (cc h)
  take-suc (y ∷ ys) (suc n) x h = ap (λ t. y ∷ t) (take-suc ys n x h)

  remove_waiter-sm : (rsm : Rsm m) (id : OpId) (w : ℕ) → (remove_waiter m rsm id w).sm ≡ rsm.sm
  unfolding remove_waiter
  remove_waiter-sm rsm id w = ground arith

  started-sm :
      (rsm : Rsm m) (c : Call m) (term : ℕ) (l : Bool) → (started m rsm c term l).0.sm ≡ rsm.sm
  unfolding started
  started-sm rsm c term l = ground (arith, remove_waiter-sm rsm c.op.id c.waiter)

  wake-sm :
      (rsm : Rsm m) (c : Call m) (term : ℕ) (e : Event m) → (wake m rsm c term e).0.sm ≡ rsm.sm
  unfolding wake
  wake-sm rsm c term e = ground arith

  notify-sm : (rsm : Rsm m) (id : OpId) (r : m.Reply) → (notify m rsm id r).sm ≡ rsm.sm
  unfolding notify
  notify-sm rsm id r = ground arith

  submit-sm :
      (rsm rsm' : Rsm m) (req : m.Req) (op : Op m)
      → submit m rsm req ≡ some (op, rsm')
      → rsm'.sm ≡ rsm.sm
  unfolding submit
  submit-sm rsm rsm' req op h = ground arith

module _ (m : StateMachine) (first : m.State) (log : List (Op m))
    (law : (s t : m.State) → m.restore s (m.snapshot t) ≡ some t) where
  -- The state after some entries of the log.
  abbrev pub Reaches : ℕ → m.State → Type 0
  Reaches n s = replay m first (take n log) ≡ some s

  -- Each snapshot is that of the state after the entries that its index counts.
  abbrev pub Faithful : List (ℕ × m.Bytes) → Type 0
  Faithful [] = Unit
  Faithful ((k, bytes) ∷ rest) =
      ((s : m.State) × Reaches k s × (bytes ≡ m.snapshot s)) × Faithful rest

  Reaches-suc :
      (n : ℕ) (s s' : m.State) (op : Op m) (r : m.Reply)
      → Reaches n s
      → get_elem? log n ≡ some op
      → m.do_op s op.req ≡ some (r, s')
      → Reaches (n + 1) s'
  Reaches-suc n s s' op r e h f =
      subst (λ k. Reaches k s') {x = suc n} (omega arith)
        (rw (take-suc m log n op h) (replay-append m first s (take n log) op r s' e f))

  saves_it :
      (n : ℕ) (bytes : m.Bytes) (saves : List (ℕ × m.Bytes)) (b : Bool)
      → (s : m.State) × Reaches n s × (bytes ≡ m.snapshot s)
      → Faithful saves
      → Faithful (kept saves (if b then some (n, bytes) else none))
  saves_it n bytes saves true h v = (h, v)
  saves_it n bytes saves false h v = v

  -- A message brings the state to the entries that it stands for.
  apply-Reaches :
      (rsm : Rsm m) (pb n n' : ℕ) (msg : ApplyMsg m) (a : Applied m) (saves : List (ℕ × m.Bytes))
      → Reaches n rsm.sm
      → Faithful saves
      → Delivers m first log n msg n'
      → apply m rsm msg pb ≡ some a
      → Reaches n' a.rsm.sm × Faithful (kept saves a.saved)
  unfolding apply
  apply-Reaches rsm pb n _ _ a saves e v (command op h) f =
      elim (Option-cases (m.do_op rsm.sm op.req)) [
        | inl p ↦ let f' : none ≡ some a = rw (apply, p) at f in absurd (ground arith)
        | inr ((r, s'), g) ↦
            let reaches = Reaches-suc n rsm.sm s' op r e h g in
            let outcome : Applied m = record {
              rsm = record rsm { sm = s' };
              saved = if should_snapshot m rsm pb then some (n + 1, m.snapshot s') else none;
              notice = some (op.id, r);
            } in
            let f' : some outcome ≡ some a = rw (apply, g) at f in
            subst (λ x. Reaches (n + 1) x.rsm.sm × Faithful (kept saves x.saved)) {x = outcome}
              {y = a} (cc f')
              (
                reaches,
                saves_it (n + 1) (m.snapshot s') saves (should_snapshot m rsm pb)
                    (s', reaches, refl) v,
              )
      ]
  apply-Reaches rsm pb n _ _ a saves e v (install k term bytes s h q full) f =
      let back : m.restore rsm.sm bytes ≡ some s = rw (← q) (law rsm.sm s) in
      let outcome : Applied m = record {
        rsm = record rsm { sm = s };
        saved = none;
        notice = none;
      } in
      let f' : some outcome ≡ some a = rw (apply, full, back) at f in
      subst (λ x. Reaches k x.rsm.sm × Faithful (kept saves x.saved)) {x = outcome} {y = a} (cc f')
        (h, v)

  Step-Reaches :
      (s t : System m)
      → Step m first log s t
      → Reaches s.applied s.rsm.sm
      → Faithful s.saves
      → Reaches t.applied t.rsm.sm × Faithful t.saves
  unfolding finish
  Step-Reaches s _ (submits req op rsm h) e v = (rw (submit-sm m s.rsm rsm req op h) e, v)
  Step-Reaches s _ (starts i term l h) e v = (rw (started-sm m s.rsm (s.calls i) term l) e, v)
  Step-Reaches s _ (wakes i term ev h) e v = (rw (wake-sm m s.rsm (s.calls i) term ev) e, v)
  Step-Reaches s _ (applies msg pb n a h d f) e v =
      apply-Reaches s.rsm pb s.applied n msg a s.saves e v d f
  Step-Reaches s _ (notifies id r h) e v = (rw (notify-sm m s.rsm id r) e, v)
  Step-Reaches s _ stops e v = (e, v)
  Step-Reaches s _ (finishes h) e v = (e, v)

  -- In every run of a server, whatever its calls do, the state machine is in the state that the
  -- entries delivered so far lead to, snapshots installed on the way included, and each snapshot
  -- that it has handed to Raft is that of the entries up to its index. (Restoring a snapshot gives
  -- the state that was saved.)
  pub applier_replays :
      (s t : System m)
      → IsInitial m first log s
      → Reach m first log s t
      → Reaches t.applied t.rsm.sm × Faithful t.saves
  applier_replays s _ start here = (start.state, subst Faithful (sym start.no_save) tt)
  applier_replays s t start (next {t = u} r step) =
      let (e, v) = applier_replays s u start r in Step-Reaches u t step e v
