-- ===== src/Lock/Mutex.antt =====
-- src/kvsrv1/lock/lock.go: mutual exclusion in every run.
use raft_sharded_kv.Prelude.{
  ℕ, ◌+◌, ◌<◌, ◌^◌, String, string_eq, ◌≡◌, ◌≢◌, sym, ap, ◌∙◌, inl, inr, arith, Bool, true, subst,
}
use raft_sharded_kv.Rpc.{PutArgs}
use raft_sharded_kv.Kvsrv.Server.{get, put, version_of}
use raft_sharded_kv.Lock.Client.{
  Reason, acquire, release, Pc, idle, reading, read, writing, written, holding, on_get, on_put,
}
use raft_sharded_kv.Lock.System.{
  Sent, System, set_pc, lock_of, Step, Reach, IsInitial, begin_acquire, begin_release,
  release_unheld, answer_get, take_get, execute, answer_put, take_put, resend, elsewhere, here,
  next,
}
use raft_sharded_kv.Lock.Invariant.{value_of, put_effect, put_elsewhere, get_effect, PcOk}
use raft_sharded_kv.Lock.Exclusion.{
  Inv, on_get-Ready, after_put-Ready, set_pc-Inv, goes_on-Inv, executed-Inv,
}

module _ (key : String) (id : ℕ → String) where
  -- What the invariant says of a client whose place is known.
  at :
      (s : System) (i : ℕ) (p : Pc)
      → Inv key id s
      → s.pc i ≡ p
      → PcOk (version_of s.server key) (value_of s.server key) (id i) i s.sent p
  at s i p v e =
      subst (λ q. PcOk (version_of s.server key) (value_of s.server key) (id i) i s.sent q) e
        (v.clients i)

  read-Inv :
      (s : System) (i : ℕ) (why : Reason)
      → Inv key id s
      → s.pc i ≡ reading why
      → Inv key id (set_pc s i (read why (get s.server (record { key = key }))))
  read-Inv s i why v e =
      let (version', value', missing') = get_effect s.server key in
      set_pc-Inv key id s i (read why (get s.server (record { key = key }))) v (
        at s i (reading why) v e,
        record { old = omega (arith, version'); fits = λ _. value'; missing = missing' },
        (λ _ _ own. sym value' ∙ own),
      )

  -- The server executes the request that a client waits for.
  answered :
      (s : System) (i : ℕ) (releasing : Bool) (a : PutArgs) (resent : Bool)
      → Inv key id s
      → s.pc i ≡ writing releasing a resent
      → version_of s.server key + 1 < 2 ^ 64
      → PcOk
          (version_of (put s.server a).1 key)
          (value_of (put s.server a).1 key)
          (id i)
          i
          s.sent
          (written releasing a resent (put s.server a).0.err)
  answered s i releasing a resent v e b =
      let (m, others, own) = at s i (writing releasing a resent) v e in
      let f = v.requests i a m in
      elim (put_effect s.server a key f.same_key f.old b) [
        | inl (now, answer, version', value') ↦ (
          (λ c n. elim (others c n) [
            | inl same ↦ omega (arith, ap (λ x. x.version) same, version', now)
            | inr behind ↦ omega (arith, version')
          ]),
          inl answer,
          (λ taking _. value' ∙ own taking),
        )
        | inr (late, answer, same) ↦ (
          (λ c n. elim (others c n) [
            | inl equal ↦
                omega (arith, ap (λ x. x.version) equal, ap (λ x. version_of x key) same, late)
            | inr behind ↦ omega (arith, ap (λ x. version_of x key) same)
          ]),
          inr answer,
          (λ _ good. absurd (cc (good, answer))),
        )
      ]

  elsewhere-Inv :
      (s : System) (a : PutArgs)
      → a.key ≢ key
      → Inv key id s
      → Inv key id (record s { server = (put s.server a).1 })
  elsewhere-Inv s a h v =
      let (version', value') = put_elsewhere s.server a key h in
      record {
        clients = λ i. rw (version', value') (v.clients i);
        requests = λ i b m. rw (version', value') (v.requests i b m);
      }

  module _ (apart : (i j : ℕ) → id i ≡ id j → i ≡ j) (named : (i : ℕ) → id i ≢ "") where
    Step-Inv : (s t : System) → Step key id s t → Inv key id s → Inv key id t
    Step-Inv s _ (begin_acquire i e) v = set_pc-Inv key id s i (reading acquire) v (at s i idle v e)
    Step-Inv s _ (begin_release i e) v =
        set_pc-Inv key id s i (reading release) v (at s i holding v e).0
    Step-Inv s _ (release_unheld i e) v =
        set_pc-Inv key id s i (reading release) v (at s i idle v e)
    Step-Inv s _ (answer_get i why e) v = read-Inv s i why v e
    Step-Inv s _ (take_get i why r e) v =
        goes_on-Inv key id s i (on_get (lock_of key id i) why r) v (
          on_get-Ready (version_of s.server key) (value_of s.server key) key (id i) i s.sent why r
            (at s i (read why r) v e))
    Step-Inv s _ (execute i a m b) v = executed-Inv key id apart named s i a v m b
    Step-Inv s _ (answer_put i releasing a resent e b) v =
        set_pc-Inv key id (record s { server = (put s.server a).1 }) i
          (written releasing a resent (put s.server a).0.err)
          (executed-Inv key id apart named s i a v (at s i (writing releasing a resent) v e).0 b)
          (answered s i releasing a resent v e b)
    Step-Inv s _ (take_put i releasing a resent err e) v =
        goes_on-Inv key id s i (on_put (lock_of key id i) releasing a resent err) v (
          after_put-Ready (version_of s.server key) (value_of s.server key) key (id i) i s.sent
            releasing a resent err (at s i (written releasing a resent err) v e))
    Step-Inv s _ (resend i releasing a resent e) v =
        set_pc-Inv key id s i (writing releasing a true) v (at s i (writing releasing a resent) v e)
    Step-Inv s _ (elsewhere a h) v = elsewhere-Inv s a h v

    initial-Inv : (s : System) → IsInitial key id s → Inv key id s
    initial-Inv s start = record {
      clients = λ i. rw (start.quiet i) (λ a m. absurd (nothing_sent i a m));
      requests = λ i a m. absurd (nothing_sent i a m);
    }
      where
        nothing_sent : (i : ℕ) (a : PutArgs) → Sent i a s.sent → ⊥
        nothing_sent i a m = subst (λ sent. Sent i a sent) start.silent m

    Reach-Inv : (s t : System) → Reach key id s t → Inv key id s → Inv key id t
    Reach-Inv s _ here v = v
    Reach-Inv s t (next {t = u} r step) v = Step-Inv u t step (Reach-Inv s u r v)

    -- Two clients that hold the lock are the same client, and the value of the key is its id.
    pub mutual_exclusion :
        (s t : System)
        → IsInitial key id s
        → Reach key id s t
        → (i j : ℕ) → t.pc i ≡ holding
        → t.pc j ≡ holding
        → (i ≡ j) × (value_of t.server key ≡ id i)
    mutual_exclusion s t start r i j hi hj =
        let v = Reach-Inv s t r (initial-Inv s start) in
        let (_, mine) = at t i holding v hi in
        let (_, theirs) = at t j holding v hj in (apart i j (sym mine ∙ theirs), mine)
