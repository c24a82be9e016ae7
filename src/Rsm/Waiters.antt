-- ===== src/Rsm/Waiters.antt =====
-- src/kvraft1/rsm/rsm.go: the waiters of calls, and what their channels hold.
use raft_sharded_kv.Prelude.{
  ℕ, ◌<◌, ◌≡◌, ◌⊎◌, inl, inr, refl, sym, ◌∙◌, subst, arith, Bool, true, false, not, ◌&&◌, ◌||◌,
  ◌==◌, ==_iff, List, Option, none, some, Option-cases, Bool-cases, get_elem?, take, if◌then◌else◌,
}
use raft_sharded_kv.Rpc.{Err, ok, err_wrong_leader}
use raft_sharded_kv.Rsm.Server.{
  StateMachine, OpId, op_id_eq, Op, Rsm, Stage, unused, waiting, returned, Call, Event, received,
  deadline, ticked, raft_stopped, stopped, started, wake, remove_waiter, return, receive_or_fail,
  notify,
}
use raft_sharded_kv.Rsm.System.{set_call, replay}

module _ (m : StateMachine) (first : m.State) (log : List (Op m)) where
  -- The reply is that of an entry of the log with this identity, executed in the state that the
  -- entries before it lead to.
  pub record Answered (id : OpId) (r : m.Reply) : Type 0 where
    pub index : ℕ
    pub op : Op m
    pub before : m.State
    pub later : m.State
    pub logged : get_elem? log index ≡ some op
    pub same : op.id ≡ id
    pub reached : replay m first (take index log) ≡ some before
    pub executed : m.do_op before op.req ≡ some (r, later)

  abbrev pub Settled : OpId → Stage m → Type 0
  Settled id (returned err reply) =
      ((err ≡ ok) × ((r : m.Reply) × (reply ≡ some r) × Answered id r))
      ⊎ ((err ≡ err_wrong_leader) × (reply ≡ none))
  Settled id _ = Unit

  abbrev pub NoticeOk : Option (OpId × m.Reply) → Type 0
  NoticeOk none = Unit
  NoticeOk (some (id, r)) = Answered id r

  pub record Inv (rsm : Rsm m) (calls : ℕ → Call m) : Type 0 where
    pub waiters :
        (id : OpId) (w : ℕ) → rsm.waiters id ≡ some w → (w < rsm.made) × ((calls w).op.id ≡ id)
    pub channels : (w : ℕ) (r : m.Reply) → rsm.channels w ≡ some r → Answered (calls w).op.id r
    pub own : (i : ℕ) → ((calls i).stage ≡ unused) ⊎ (((calls i).waiter ≡ i) × (i < rsm.made))
    pub settled : (i : ℕ) → Settled (calls i).op.id (calls i).stage

  remove_waiter-waiters :
      (rsm : Rsm m) (id : OpId) (w : ℕ) (k : OpId) (v : ℕ)
      → (remove_waiter m rsm id w).waiters k ≡ some v
      → rsm.waiters k ≡ some v
  unfolding remove_waiter
  remove_waiter-waiters rsm id w k v h = ground arith

  remove_waiter_rest :
      (rsm : Rsm m) (id : OpId) (w : ℕ)
      → ((remove_waiter m rsm id w).made ≡ rsm.made)
        × ((remove_waiter m rsm id w).channels ≡ rsm.channels)
  unfolding remove_waiter
  remove_waiter_rest rsm id w = ground arith

  remove_waiter-Inv :
      (rsm : Rsm m) (calls : ℕ → Call m) (id : OpId) (w : ℕ)
      → Inv rsm calls
      → Inv (remove_waiter m rsm id w) calls
  remove_waiter-Inv rsm calls id w v =
      let (made, channels) = remove_waiter_rest rsm id w in
      record {
        waiters = λ k x h. rw made (v.waiters k x (remove_waiter-waiters rsm id w k x h));
        channels = λ x r h. v.channels x r (subst (λ f. f x ≡ some r) channels h);
        own = λ i. rw made (v.own i);
        settled = v.settled;
      }

  -- A call goes to another stage, with the same operation and the same channel.
  set_call-Inv :
      (rsm : Rsm m) (calls : ℕ → Call m) (i : ℕ) (stage : Stage m)
      → Inv rsm calls
      → (calls i).waiter ≡ i
      → i < rsm.made
      → Settled (calls i).op.id stage
      → Inv rsm (set_call calls i (record (calls i) { stage = stage }))
  set_call-Inv rsm calls i stage v e l h = record {
    waiters = λ id w g. ground (arith, v.waiters id w g, ==_iff i w);
    channels = λ w r g.
        by_call w (λ c. Answered c.op.id r) (λ s. rw s (v.channels w r g)) (v.channels w r g);
    own = λ w.
        by_call w (λ c. (c.stage ≡ unused) ⊎ ((c.waiter ≡ w) × (w < rsm.made)))
          (λ s. inr (e ∙ s, subst (λ k. k < rsm.made) s l)) (v.own w);
    settled = λ w. by_call w (λ c. Settled c.op.id c.stage) (λ s. h) (v.settled w);
  }
    where
      by_call :
          (w : ℕ) (P : Call m → Type 0)
          → (i ≡ w → P (record (calls i) { stage = stage }))
          → P (calls w)
          → P (set_call calls i (record (calls i) { stage = stage }) w)
      by_call w P a b = elim (Bool-cases (i == w)) [
        | inl s ↦ subst P (rw s refl) (a ((==_iff i w).0 s))
        | inr n ↦ subst P (rw n refl) b
      ]

  module _ (rsm : Rsm m) (calls : ℕ → Call m) (i : ℕ) (v : Inv rsm calls)
      (mine : (calls i).waiter ≡ i) (made : i < rsm.made) where
    return-Inv :
        (err : Err) (reply : Option m.Reply)
        → Settled (calls i).op.id (returned err reply)
        → Inv
            (return m rsm (calls i) err reply).0
            (set_call calls i (return m rsm (calls i) err reply).1)
    return-Inv err reply h =
        let id = (calls i).op.id in
        let w = (calls i).waiter in
        set_call-Inv (remove_waiter m rsm id w) calls i (returned err reply)
          (remove_waiter-Inv rsm calls id w v) mine (rw ((remove_waiter_rest rsm id w).0) made) h

    failed-Inv :
        Inv
          (return m rsm (calls i) err_wrong_leader none).0
          (set_call calls i (return m rsm (calls i) err_wrong_leader none).1)
    failed-Inv = return-Inv err_wrong_leader none (inr (refl, refl))

    stays-Inv : Inv rsm (set_call calls i (calls i))
    stays-Inv = set_call-Inv rsm calls i (calls i).stage v mine made (v.settled i)

    branch-Inv :
        (b : Bool) (p : Rsm m × Call m)
        → Inv p.0 (set_call calls i p.1)
        → Inv
            (if b then p else (rsm, calls i)).0
            (set_call calls i (if b then p else (rsm, calls i)).1)
    branch-Inv true p h = h
    branch-Inv false p h = stays-Inv

  -- Something is taken out of a channel, or put into it.
  fill-Inv :
      (rsm : Rsm m) (calls : ℕ → Call m) (w : ℕ) (filled : Option m.Reply)
      → Inv rsm calls
      → ((r : m.Reply) → filled ≡ some r → Answered (calls w).op.id r)
      → Inv (record rsm { channels = λ j. if w == j then filled else rsm.channels j }) calls
  fill-Inv rsm calls w filled v h = record {
    waiters = v.waiters;
    channels = λ j r g. elim (Bool-cases (w == j)) [
      | inl s ↦
          let g' : filled ≡ some r = rw s at g in
          subst (λ k. Answered (calls k).op.id r) ((==_iff w j).0 s) (h r g')
      | inr n ↦ let g' : rsm.channels j ≡ some r = rw n at g in v.channels j r g'
    ];
    own = v.own;
    settled = v.settled;
  }

  receive-Inv :
      (rsm : Rsm m) (calls : ℕ → Call m) (i : ℕ)
      → Inv rsm calls
      → (calls i).waiter ≡ i
      → i < rsm.made
      → Inv
          (receive_or_fail m rsm (calls i)).0
          (set_call calls i (receive_or_fail m rsm (calls i)).1)
  receive-Inv rsm calls i v mine made = elim (Option-cases (rsm.channels (calls i).waiter)) [
    | inl e ↦ rw (receive_or_fail, e) (failed-Inv rsm calls i v mine made)
    | inr (r, e) ↦
        let answered : Answered (calls i).op.id r =
          subst (λ k. Answered (calls k).op.id r) mine (v.channels (calls i).waiter r e) in
        let w = (calls i).waiter in
        rw (receive_or_fail, e)
          (return-Inv (record rsm { channels = λ j. if w == j then none else rsm.channels j }) calls
            i (fill-Inv rsm calls w none v (λ r e. absurd (ground arith))) mine made ok (some r)
            (inl (refl, (r, refl, answered))))
  ]

  pub started-Inv :
      (rsm : Rsm m) (calls : ℕ → Call m) (i term : ℕ) (l : Bool)
      → Inv rsm calls
      → (calls i).waiter ≡ i
      → i < rsm.made
      → Inv (started m rsm (calls i) term l).0 (set_call calls i (started m rsm (calls i) term l).1)
  unfolding started
  started-Inv rsm calls i term l v mine made = elim (Bool-cases (rsm.has_raft && l)) [
    | inl e ↦ rw e (set_call-Inv rsm calls i (waiting term) v mine made tt)
    | inr n ↦ rw n (failed-Inv rsm calls i v mine made)
  ]

  received-some :
      (rsm : Rsm m) (c : Call m) (term : ℕ) (r : m.Reply)
      → rsm.channels c.waiter ≡ some r
      → wake m rsm c term received ≡ receive_or_fail m rsm c
  unfolding wake
  received-some rsm c term r e = rw (wake, e) refl

  pub wake-Inv :
      (rsm : Rsm m) (calls : ℕ → Call m) (i term : ℕ) (event : Event m)
      → Inv rsm calls
      → (calls i).waiter ≡ i
      → i < rsm.made
      → Inv
          (wake m rsm (calls i) term event).0
          (set_call calls i (wake m rsm (calls i) term event).1)
  unfolding wake
  wake-Inv rsm calls i term received v mine made =
      elim (Option-cases (rsm.channels (calls i).waiter)) [
        | inl e ↦ rw (wake, e) (stays-Inv rsm calls i v mine made)
        | inr (r, e) ↦
            subst (λ p. Inv p.0 (set_call calls i p.1)) (sym (received-some rsm (calls i) term r e))
              (receive-Inv rsm calls i v mine made)
      ]
  wake-Inv rsm calls i term deadline v mine made = receive-Inv rsm calls i v mine made
  wake-Inv rsm calls i term (ticked now leads) v mine made =
      branch-Inv rsm calls i v mine made (not (now == term) || not leads)
        (receive_or_fail m rsm (calls i)) (receive-Inv rsm calls i v mine made)
  wake-Inv rsm calls i term raft_stopped v mine made =
      branch-Inv rsm calls i v mine made rsm.raft_done
        (return m rsm (calls i) err_wrong_leader none) (failed-Inv rsm calls i v mine made)
  wake-Inv rsm calls i term stopped v mine made =
      branch-Inv rsm calls i v mine made rsm.done (return m rsm (calls i) err_wrong_leader none)
        (failed-Inv rsm calls i v mine made)

  pub notify-Inv :
      (rsm : Rsm m) (calls : ℕ → Call m) (id : OpId) (r : m.Reply)
      → Inv rsm calls
      → Answered id r
      → Inv (notify m rsm id r) calls
  unfolding notify
  notify-Inv rsm calls id r v h = elim (Option-cases (rsm.waiters id)) [
    | inl e ↦ rw (notify, e) v
    | inr (w, e) ↦ elim (Option-cases (rsm.channels w)) [
      | inl f ↦
          rw (notify, e, f)
            (fill-Inv rsm calls w (some r) v (λ q g.
              subst (λ k. Answered k q) (sym (v.waiters id w e).1) (subst (Answered id) (cc g) h)))
      | inr (q, f) ↦ rw (notify, e, f) v
    ]
  ]
