-- ===== src/Raft/Heartbeat.antt =====
-- src/raft1/raft.go, heartbeatOrNotifyReplication: what a tick of heartbeatTicker does for each
-- peer.
use raft_sharded_kv.Prelude.{
  ◌∙◌, ℕ, zero, suc, ◌+◌, ◌-◌, ◌<◌, ◌≤◌, ◌≡◌, ◌≢◌, refl, arith, Bool, true, false, not, Bool-cases,
  inl, inr, ◌⊎◌, List, [], ◌∷◌, ◌++◌, leb, ◌==◌, ==_iff, ◌||◌, if◌then◌else◌, get_or, set, length,
  length-set, get_or-set_self, get_or-set_ne,
}
use raft_sharded_kv.Raft.Types.{Raft, AppendEntriesArgs, Clock, is_leader}
use raft_sharded_kv.Raft.Log.{last_log_index, last_log_term, no_entry}

-- The tasks and the rescues that are launched after the mutex is given up.
pub record Beat (A : Type 0) : Type 0 where
  pub tasks : List (ℕ × AppendEntriesArgs A)
  pub rescue_peers : List ℕ

abbrev pub Among : {B : Type 0} → B → List B → Type 0
Among x [] = ⊥
Among x (y ∷ ys) = (y ≡ x) ⊎ Among x ys

Among-front : {B : Type 0} (x : B) (xs ys : List B) → Among x xs → Among x (xs ++ ys)
Among-front x [] ys m = elim m [ ]
Among-front x (z ∷ zs) ys (inl e) = inl e
Among-front x (z ∷ zs) ys (inr m) = inr (Among-front x zs ys m)

Among-last : {B : Type 0} (x : B) (xs : List B) → Among x (xs ++ (x ∷ []))
Among-last x [] = inl refl
Among-last x (z ∷ zs) = inr (Among-last x zs)

module _ {A : Type 0} where
  abbrev pub beat_args : Raft A → AppendEntriesArgs A
  beat_args rf = record {
    term = rf.current_term;
    leader_id = rf.me;
    prev_log_index = last_log_index rf;
    prev_log_term = last_log_term rf;
    entries = [];
    leader_commit = rf.commit_index;
  }

  -- The rescue is due. Go's zero time is 0, and the clock is beyond 500 milliseconds.
  abbrev pub rescue_due : Clock → Raft A → ℕ → Bool
  rescue_due clock rf peer = leb 500 (clock.now - get_or rf.last_rescue_sent peer 0)

  -- One round of the loop.
  unfoldable pub beat_peer : Clock → Raft A → Beat A → ℕ → Raft A × Beat A
  unfolding last_log_term
  beat_peer clock rf beat peer =
      if peer == rf.me
      then (rf, beat)
      else if not (get_or rf.replicate_busy peer false)
      then (record rf { replicate_notify = set rf.replicate_notify peer true }, beat)
      else if rescue_due clock rf peer
      then (
        record rf { last_rescue_sent = set rf.last_rescue_sent peer clock.now },
        record {
          tasks = beat.tasks ++ ((peer, beat_args rf) ∷ []);
          rescue_peers = beat.rescue_peers ++ (peer ∷ []);
        },
      )
      else (rf, record beat { tasks = beat.tasks ++ ((peer, beat_args rf) ∷ []) })

  -- The loop over the peers below a number.
  unfoldable pub beat_peers : Clock → Raft A → ℕ → Raft A × Beat A
  unfolding beat_peer
  beat_peers clock rf zero = (rf, record { tasks = []; rescue_peers = [] })
  beat_peers clock rf (suc peer) =
      let (rf', beat) = beat_peers clock rf peer in beat_peer clock rf' beat peer

  unfoldable pub heartbeat_or_notify_replication : Clock → Raft A → Raft A × Beat A
  unfolding beat_peers
  heartbeat_or_notify_replication clock rf =
      if rf.dead || not (is_leader rf.state)
      then (rf, record { tasks = []; rescue_peers = [] })
      else beat_peers clock rf rf.peers

  -- What a tick does not change.
  pub record Unmoved (rf rf' : Raft A) : Type 0 where
    pub me : rf'.me ≡ rf.me
    pub args : beat_args rf' ≡ beat_args rf
    pub busy : rf'.replicate_busy ≡ rf.replicate_busy
    pub notices : length rf'.replicate_notify ≡ length rf.replicate_notify

  beat_peer-Unmoved :
      (clock : Clock) (rf : Raft A) (beat : Beat A) (peer : ℕ)
      → Unmoved rf (beat_peer clock rf beat peer).0
  unfolding beat_peer
  beat_peer-Unmoved clock rf beat peer = ground (arith, length-set rf.replicate_notify peer true)

  Unmoved-trans : {rf1 rf2 rf3 : Raft A} → Unmoved rf1 rf2 → Unmoved rf2 rf3 → Unmoved rf1 rf3
  Unmoved-trans s t = record {
    me = t.me ∙ s.me;
    args = t.args ∙ s.args;
    busy = t.busy ∙ s.busy;
    notices = t.notices ∙ s.notices;
  }

  beat_peers-Unmoved : (clock : Clock) (rf : Raft A) (n : ℕ) → Unmoved rf (beat_peers clock rf n).0
  unfolding beat_peers
  beat_peers-Unmoved clock rf zero = record { me = refl; args = refl; busy = refl; notices = refl }
  beat_peers-Unmoved clock rf (suc n) =
      let rf1 = (beat_peers clock rf n).0 in
      let beat = (beat_peers clock rf n).1 in
      Unmoved-trans (beat_peers-Unmoved clock rf n) (beat_peer-Unmoved clock rf1 beat n)

  -- A peer is reached: by a notice to its idle worker, or past its busy one by a heartbeat.
  abbrev pub Reached : Raft A → Raft A × Beat A → ℕ → Type 0
  Reached rf (rf', beat) peer =
      ((get_or rf.replicate_busy peer false ≡ false)
        × (get_or rf'.replicate_notify peer false ≡ true))
      ⊎ ((get_or rf.replicate_busy peer false ≡ true) × Among (peer, beat_args rf) beat.tasks)

  beat_peer-Reached :
      (clock : Clock) (rf : Raft A) (beat : Beat A) (peer : ℕ)
      → peer ≢ rf.me
      → peer < length rf.replicate_notify
      → Reached rf (beat_peer clock rf beat peer) peer
  unfolding beat_peer
  beat_peer-Reached clock rf beat peer other h =
      elim (Bool-cases (get_or rf.replicate_busy peer false)) [
        | inr idle ↦ inl (
          idle,
          ground (arith, ==_iff peer rf.me, get_or-set_self rf.replicate_notify peer true false h),
        )
        | inl busy ↦
            inr
              (busy, ground (arith, ==_iff peer rf.me, Among-last (peer, beat_args rf) beat.tasks))
      ]

  beat_peer_keeps :
      (clock : Clock) (rf0 rf : Raft A) (beat : Beat A) (peer other : ℕ)
      → other ≢ peer
      → Reached rf0 (rf, beat) other
      → Reached rf0 (beat_peer clock rf beat peer) other
  unfolding beat_peer
  beat_peer_keeps clock rf0 rf beat peer other ne (inl (idle, noticed)) =
      inl (idle, ground (arith, get_or-set_ne rf.replicate_notify peer other true false))
  beat_peer_keeps clock rf0 rf beat peer other ne (inr (busy, m)) = inr (
    busy,
    ground (arith, Among-front (other, beat_args rf0) beat.tasks ((peer, beat_args rf) ∷ []) m),
  )

  moved-Reached :
      (rf0 rf : Raft A) (s : Raft A × Beat A) (peer : ℕ)
      → Unmoved rf0 rf
      → Reached rf s peer
      → Reached rf0 s peer
  moved-Reached rf0 rf s peer u (inl (idle, noticed)) = inl (rw (← u.busy) idle, noticed)
  moved-Reached rf0 rf s peer u (inr (busy, m)) = inr (rw (← u.busy) busy, rw (← u.args) m)

  beat_peers-Reached :
      (clock : Clock) (rf : Raft A) (n peer : ℕ)
      → n ≤ length rf.replicate_notify
      → peer < n
      → peer ≢ rf.me
      → Reached rf (beat_peers clock rf n) peer
  unfolding beat_peers
  beat_peers-Reached clock rf zero peer h l other = absurd (omega arith)
  beat_peers-Reached clock rf (suc n) peer h l other =
      let rf1 = (beat_peers clock rf n).0 in
      let beat = (beat_peers clock rf n).1 in
      let u = beat_peers-Unmoved clock rf n in
      elim (Bool-cases (peer == n)) [
        | inl same ↦
            let e : peer ≡ n = ground arith in
            rw e (
              moved-Reached rf rf1 (beat_peer clock rf1 beat n) n u (
                beat_peer-Reached clock rf1 beat n (λ q. other (e ∙ (q ∙ u.me)))
                  (omega (arith, u.notices))))
        | inr differ ↦
            beat_peer_keeps clock rf rf1 beat n peer (λ q. ground arith)
              (beat_peers-Reached clock rf n peer (omega arith) (ground arith) other)
      ]

  heartbeat_runs :
      (clock : Clock) (rf : Raft A)
      → rf.dead ≡ false
      → is_leader rf.state ≡ true
      → heartbeat_or_notify_replication clock rf ≡ beat_peers clock rf rf.peers
  unfolding heartbeat_or_notify_replication
  heartbeat_runs clock rf alive leads =
      let on : (rf.dead || not (is_leader rf.state)) ≡ false = ground arith in rw on refl

  -- An empty AppendEntries of the node's term that names the last entry of its log.
  pub record IsBeat (rf : Raft A) (args : AppendEntriesArgs A) : Type 0 where
    pub term : args.term ≡ rf.current_term
    pub sender : args.leader_id ≡ rf.me
    pub last : args.prev_log_index + 1 ≡ rf.last_included_index + length rf.logs
    pub last_term : args.prev_log_term ≡ (get_or rf.logs (length rf.logs - 1) no_entry).term
    pub empty : args.entries ≡ []
    pub commit : args.leader_commit ≡ rf.commit_index

  beat_args-IsBeat : (rf : Raft A) → 0 < length rf.logs → IsBeat rf (beat_args rf)
  unfolding last_log_term
  beat_args-IsBeat rf h = record {
    term = refl;
    sender = refl;
    last = omega (arith, h);
    last_term = refl;
    empty = refl;
    commit = refl;
  }

  -- Of the node, what a tick keeps of its log and its term.
  pub record SameLog (rf rf' : Raft A) : Type 0 where
    pub logs : rf'.logs ≡ rf.logs
    pub base : rf'.last_included_index ≡ rf.last_included_index
    pub term : rf'.current_term ≡ rf.current_term
    pub commit : rf'.commit_index ≡ rf.commit_index

  beat_peers-SameLog : (clock : Clock) (rf : Raft A) (n : ℕ) → SameLog rf (beat_peers clock rf n).0
  unfolding beat_peers beat_peer
  beat_peers-SameLog clock rf zero = record { logs = refl; base = refl; term = refl; commit = refl }
  beat_peers-SameLog clock rf (suc n) =
      let same = beat_peers-SameLog clock rf n in
      ground (arith, same.logs, same.base, same.term, same.commit)

  -- A tick of a living leader reaches every other peer: a worker that is idle has a notice, and
  -- past one that is busy an empty AppendEntries goes out that names the leader's term, commit
  -- index, and the index and the term of the last entry of its log. Log, term and commit index
  -- stay as they are. (The log has an entry, and there is a notice for each peer.)
  pub heartbeat_reaches_all :
      (clock : Clock) (rf : Raft A) (peer : ℕ)
      → rf.dead ≡ false
      → is_leader rf.state ≡ true
      → 0 < length rf.logs
      → length rf.replicate_notify ≡ rf.peers
      → peer < rf.peers
      → peer ≢ rf.me
      → let (rf', beat) = heartbeat_or_notify_replication clock rf in
        (((get_or rf.replicate_busy peer false ≡ false)
            × (get_or rf'.replicate_notify peer false ≡ true))
          ⊎ ((get_or rf.replicate_busy peer false ≡ true)
              × (args : AppendEntriesArgs A) × Among (peer, args) beat.tasks
              × IsBeat rf args))
        × SameLog rf rf'
  heartbeat_reaches_all clock rf peer alive leads some_log size l other =
      rw (heartbeat_runs clock rf alive leads) (
        elim (beat_peers-Reached clock rf rf.peers peer (omega (arith, size)) l other) [
          | inl noticed ↦ inl noticed
          | inr (busy, m) ↦ inr (busy, beat_args rf, m, beat_args-IsBeat rf some_log)
        ],
        beat_peers-SameLog clock rf rf.peers,
      )
