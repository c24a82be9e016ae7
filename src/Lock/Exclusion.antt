-- ===== src/Lock/Exclusion.antt =====
-- src/kvsrv1/lock/lock.go: mutual exclusion.
use raft_sharded_kv.Prelude.{
  ℕ, ◌+◌, ◌<◌, ◌≤◌, ◌^◌, String, string_eq, ◌≡◌, ◌≢◌, refl, sym, ◌∙◌, inl, inr, arith, Bool, false,
  List, ◌∷◌, Bool-cases, ◌==◌, ==_iff, subst,
}
use raft_sharded_kv.Rpc.{Err, PutArgs, GetReply}
use raft_sharded_kv.Kvsrv.Server.{put, version_of}
use raft_sharded_kv.Lock.Client.{
  Reason, acquire, confirm, release, Pc, idle, reading, read, writing, written, holding, on_get,
  on_put, after_get,
}
use raft_sharded_kv.Lock.System.{Sent, System, set_pc, goes_on}
use raft_sharded_kv.Lock.Invariant.{
  value_of, put_effect, AllBehind, PcOk, Fits, PcOk-later, Fits-later, PcOk-sent,
}

module _ (cur : ℕ) (val key id : String) (i : ℕ) (sent : List (ℕ × PutArgs)) where
  -- What must be known before a client goes on: a Put that it sends is the only one not behind.
  abbrev Ready : Pc → Type 0
  Ready (writing releasing a resent) =
      AllBehind cur i sent × Fits key cur val id a × (releasing ≡ false → a.value ≡ id)
  Ready p = PcOk cur val id i sent p

  after_get-Ready :
      (why : Reason) (r : GetReply)
      → PcOk cur val id i sent (read why r)
      → Ready (after_get (record { key = key; id = id }) why r)
  unfolding after_get
  after_get-Ready acquire r (behind, seen, sure) =
      ground (arith, behind, seen.missing, seen.fits, string_eq.beq_iff r.value "")
  after_get-Ready confirm r (behind, seen, sure) =
      ground (arith, behind, sure, string_eq.beq_iff r.value id)
  after_get-Ready release r (behind, seen, sure) =
      ground (arith, behind, seen.missing, seen.fits, string_eq.beq_iff r.value id)

  pub after_put-Ready :
      (releasing : Bool) (a : PutArgs) (resent : Bool) (err : Err)
      → PcOk cur val id i sent (written releasing a resent err)
      → Ready (on_put (record { key = key; id = id }) releasing a resent err)
  unfolding on_put
  after_put-Ready releasing a resent err (behind, answer, sure) = ground (arith, behind)

  pub on_get-Ready :
      (why : Reason) (r : GetReply)
      → PcOk cur val id i sent (read why r)
      → Ready (on_get (record { key = key; id = id }) why r)
  unfolding on_get
  on_get-Ready why r h = ground (arith, h.0, h.1.missing, after_get-Ready why r h)

module _ (key : String) (id : ℕ → String) where
  pub record Inv (s : System) : Type 0 where
    pub clients :
        (i : ℕ) → PcOk (version_of s.server key) (value_of s.server key) (id i) i s.sent (s.pc i)
    pub requests :
        (i : ℕ) (a : PutArgs)
        → Sent i a s.sent
        → Fits key (version_of s.server key) (value_of s.server key) (id i) a

  -- One client changes its place, and nothing else happens.
  pub set_pc-Inv :
      (s : System) (i : ℕ) (p : Pc)
      → Inv s
      → PcOk (version_of s.server key) (value_of s.server key) (id i) i s.sent p
      → Inv (set_pc s i p)
  set_pc-Inv s i p v h = record {
    clients = λ j. elim (Bool-cases (i == j)) [
      | inl same ↦ rw (same, ← (==_iff i j).0 same) h
      | inr other ↦ rw other (v.clients j)
    ];
    requests = v.requests;
  }

  send-Inv :
      (s : System) (i : ℕ) (releasing : Bool) (a : PutArgs) (resent : Bool)
      → Inv s
      → AllBehind (version_of s.server key) i s.sent
      → Fits key (version_of s.server key) (value_of s.server key) (id i) a
      → (releasing ≡ false → a.value ≡ id i)
      → Inv (goes_on s i (writing releasing a resent))
  unfolding goes_on
  send-Inv s i releasing a resent v behind fits named =
      let cur = version_of s.server key in
      let val = value_of s.server key in
      let sent = (i, a) ∷ s.sent in
      let own : PcOk cur val (id i) i sent (writing releasing a resent) = (
        inl (refl, refl),
        (λ b m. elim m [ inl (e, f) ↦ inl (sym f) | inr n ↦ inr (behind b n) ]),
        named,
      ) in
      record {
        clients = λ j. elim (Bool-cases (i == j)) [
          | inl same ↦ rw same (
              subst (λ k. PcOk cur val (id k) k sent (writing releasing a resent))
                ((==_iff i j).0 same) own)
          | inr other ↦ rw other (
              PcOk-sent j s.sent sent
                (λ b m. elim m [ inl (e, f) ↦ absurd (ground arith) | inr n ↦ n ]) (λ b m. inr m)
                cur val (id j) (s.pc j) (v.clients j))
        ];
        requests = λ j b m. elim m [
          | inl (e, f) ↦
              subst (λ k. Fits key cur val (id k) b) e
                (subst (λ x. Fits key cur val (id i) x) f fits)
          | inr n ↦ v.requests j b n
        ];
      }

  pub goes_on-Inv :
      (s : System) (i : ℕ) (p : Pc)
      → Inv s
      → Ready (version_of s.server key) (value_of s.server key) key (id i) i s.sent p
      → Inv (goes_on s i p)
  unfolding goes_on
  goes_on-Inv s i (writing releasing a resent) v h = send-Inv s i releasing a resent v h.0 h.1 h.2
  goes_on-Inv s i idle v h = set_pc-Inv s i idle v h
  goes_on-Inv s i (reading why) v h = set_pc-Inv s i (reading why) v h
  goes_on-Inv s i (read why r) v h = set_pc-Inv s i (read why r) v h
  goes_on-Inv s i (written releasing a resent err) v h =
      set_pc-Inv s i (written releasing a resent err) v h
  goes_on-Inv s i holding v h = set_pc-Inv s i holding v h

  module _ (apart : (i j : ℕ) → id i ≡ id j → i ≡ j) (named : (i : ℕ) → id i ≢ "") where
    -- A request that is current is not one that changes the holder's value.
    keeps_holder :
        {A : Type 0} (s : System) (j : ℕ) (a : PutArgs) (i : ℕ)
        → Inv s
        → Sent j a s.sent
        → a.version ≡ version_of s.server key
        → AllBehind (version_of s.server key) i s.sent
        → value_of s.server key ≡ id i
        → A
    keeps_holder s j a i v m now behind owned = elim ((v.requests j a m).fits now) [
      | inl (takes, free) ↦ absurd (named i (sym owned ∙ free))
      | inr (frees, held) ↦
          let e : j ≡ i = apart j i (sym held ∙ owned) in
          absurd (omega (arith, now, behind a (subst (λ k. Sent k a s.sent) e m)))
    ]

    -- The server executes a copy of a request.
    pub executed-Inv :
        (s : System) (j : ℕ) (a : PutArgs)
        → Inv s
        → Sent j a s.sent
        → version_of s.server key + 1 < 2 ^ 64
        → Inv (record s { server = (put s.server a).1 })
    executed-Inv s j a v m b =
        let cur = version_of s.server key in
        let f = v.requests j a m in
        elim (put_effect s.server a key f.same_key f.old b) [
          | inr (late, answer, same) ↦ rw same v
          | inl (now, answer, version', value') ↦
              let later : cur ≤ version_of (put s.server a).1 key = omega (arith, version') in
              let moved =
                λ (e : cur ≡ version_of (put s.server a).1 key). absurd (omega (arith, version')) in
              record {
                clients = λ i.
                    PcOk-later cur (version_of (put s.server a).1 key) (value_of s.server key)
                      (value_of (put s.server a).1 key) later moved (id i) i s.sent (s.pc i)
                      (λ behind owned. keeps_holder s j a i v m now behind owned) (v.clients i);
                requests = λ i c n.
                    Fits-later cur (version_of (put s.server a).1 key) (value_of s.server key)
                      (value_of (put s.server a).1 key) later moved key (id i) c (v.requests i c n);
              }
        ]
