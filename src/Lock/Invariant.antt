-- ===== src/Lock/Invariant.antt =====
-- src/kvsrv1/lock/lock.go: what is known of each client and of each request in the network.
use raft_sharded_kv.Prelude.{
  ℕ, ◌+◌, ◌<◌, ◌≤◌, ◌^◌, String, string_eq, ◌≡◌, ◌≢◌, sym, ◌∙◌, ◌⊎◌, inl, inr, arith, false, List,
  Option, none, some,
}
use raft_sharded_kv.Rpc.{PutArgs, GetReply, ok, err_no_key, err_version}
use raft_sharded_kv.Kvsrv.Server.{KvServer, Entry, get, put, version_of}
use raft_sharded_kv.Lock.Client.{confirm, Pc, idle, reading, read, writing, written, holding}
use raft_sharded_kv.Lock.System.{Sent}

abbrev value_in : Option Entry → String
value_in none = ""
value_in (some item) = item.value

pub value_of : KvServer → String → String
value_of kv k = value_in (kv.data_map k)

-- A Put of a version that is not ahead is executed, or is behind and refused.
pub put_effect :
    (kv : KvServer) (a : PutArgs) (key : String)
    → a.key ≡ key
    → a.version ≤ version_of kv key
    → version_of kv key + 1 < 2 ^ 64
    → ((a.version ≡ version_of kv key)
        × ((put kv a).0.err ≡ ok)
        × (version_of (put kv a).1 key ≡ version_of kv key + 1)
        × (value_of (put kv a).1 key ≡ a.value))
      ⊎ ((a.version < version_of kv key) × ((put kv a).0.err ≡ err_version) × ((put kv a).1 ≡ kv))
unfolding put version_of value_of
put_effect kv a key e h b = ground (arith, e, string_eq.beq_iff a.key key)

pub put_elsewhere :
    (kv : KvServer) (a : PutArgs) (key : String)
    → a.key ≢ key
    → (version_of (put kv a).1 key ≡ version_of kv key)
      × (value_of (put kv a).1 key ≡ value_of kv key)
unfolding put version_of value_of
put_elsewhere kv a key h = ground (arith, string_eq.beq_iff a.key key)

pub get_effect :
    (kv : KvServer) (key : String)
    → let r = get kv (record { key = key }) in
      (r.version ≡ version_of kv key)
      × (r.value ≡ value_of kv key)
      × (r.err ≡ err_no_key → (r.version ≡ 0) × (r.value ≡ ""))
unfolding get version_of value_of
get_effect kv key = ground arith

-- Each of a client's requests is behind the version.
abbrev pub AllBehind : ℕ → ℕ → List (ℕ × PutArgs) → Type 0
AllBehind cur i sent = (a : PutArgs) → Sent i a sent → a.version < cur

-- The value was current at its version.
pub record Seen (cur : ℕ) (val : String) (r : GetReply) : Type 0 where
  pub old : r.version ≤ cur
  pub fits : r.version ≡ cur → r.value ≡ val
  pub missing : r.err ≡ err_no_key → (r.version ≡ 0) × (r.value ≡ "")

-- What is known of a client with an id, where the key has a version and a value.
abbrev pub PcOk : ℕ → String → String → ℕ → List (ℕ × PutArgs) → Pc → Type 0
PcOk cur val id i sent idle = AllBehind cur i sent
PcOk cur val id i sent (reading why) = AllBehind cur i sent
PcOk cur val id i sent (read why r) =
    AllBehind cur i sent × Seen cur val r × (why ≡ confirm → r.err ≡ ok → r.value ≡ id → val ≡ id)
PcOk cur val id i sent (writing releasing a resent) =
    Sent i a sent
    × ((b : PutArgs) → Sent i b sent → (b ≡ a) ⊎ (b.version < cur))
    × (releasing ≡ false → a.value ≡ id)
PcOk cur val id i sent (written releasing a resent err) =
    AllBehind cur i sent
    × ((err ≡ ok) ⊎ (err ≡ err_version))
    × (releasing ≡ false → err ≡ ok → val ≡ id)
PcOk cur val id i sent holding = AllBehind cur i sent × (val ≡ id)

-- What is known of a request: it names the key, and if its version is current, it takes the free
-- lock or frees the lock of its client.
pub record Fits (key : String) (cur : ℕ) (val id : String) (a : PutArgs) : Type 0 where
  pub same_key : a.key ≡ key
  pub old : a.version ≤ cur
  pub fits : a.version ≡ cur → ((a.value ≡ id) × (val ≡ "")) ⊎ ((a.value ≡ "") × (val ≡ id))

-- The version moves on, and the holder's value stays.
module _ (cur cur' : ℕ) (val val' : String) (later : cur ≤ cur')
    (same : cur ≡ cur' → val ≡ val') where
  pub AllBehind-later :
      (i : ℕ) (sent : List (ℕ × PutArgs)) → AllBehind cur i sent → AllBehind cur' i sent
  AllBehind-later i sent h a m = omega (arith, later, h a m)

  pub PcOk-later :
      (id : String) (i : ℕ) (sent : List (ℕ × PutArgs)) (p : Pc)
      → (AllBehind cur i sent → val ≡ id → val' ≡ id)
      → PcOk cur val id i sent p
      → PcOk cur' val' id i sent p
  PcOk-later id i sent idle keep h = AllBehind-later i sent h
  PcOk-later id i sent (reading why) keep h = AllBehind-later i sent h
  PcOk-later id i sent (read why r) keep (behind, seen, sure) = (
    AllBehind-later i sent behind,
    record {
      old = omega (arith, later, seen.old);
      fits = λ e.
          let e' : cur ≡ cur' = omega (arith, later, seen.old) in seen.fits (e ∙ sym e') ∙ same e';
      missing = seen.missing;
    },
    (λ e o q. keep behind (sure e o q)),
  )
  PcOk-later id i sent (writing releasing a resent) keep (m, others, own) =
      (m, (λ b n. elim (others b n) [ inl e ↦ inl e | inr l ↦ inr (omega (arith, later)) ]), own)
  PcOk-later id i sent (written releasing a resent err) keep (behind, answer, sure) =
      (AllBehind-later i sent behind, answer, (λ e o. keep behind (sure e o)))
  PcOk-later id i sent holding keep (behind, owned) =
      (AllBehind-later i sent behind, keep behind owned)

  pub Fits-later : (key id : String) (a : PutArgs) → Fits key cur val id a → Fits key cur' val' id a
  Fits-later key id a f = record {
    same_key = f.same_key;
    old = omega (arith, later, f.old);
    fits = λ e.
        let e' : cur ≡ cur' = omega (arith, later, f.old) in rw (← same e') (f.fits (e ∙ sym e'));
  }

-- The network holds the same requests of the client.
module _ (i : ℕ) (sent sent' : List (ℕ × PutArgs))
    (fewer : (a : PutArgs) → Sent i a sent' → Sent i a sent)
    (more : (a : PutArgs) → Sent i a sent → Sent i a sent') where
  pub PcOk-sent :
      (cur : ℕ) (val id : String) (p : Pc) → PcOk cur val id i sent p → PcOk cur val id i sent' p
  PcOk-sent cur val id idle h = λ a m. h a (fewer a m)
  PcOk-sent cur val id (reading why) h = λ a m. h a (fewer a m)
  PcOk-sent cur val id (read why r) (behind, seen, sure) =
      ((λ a m. behind a (fewer a m)), seen, sure)
  PcOk-sent cur val id (writing releasing a resent) (m, others, own) =
      (more a m, (λ b n. others b (fewer b n)), own)
  PcOk-sent cur val id (written releasing a resent err) (behind, answer, sure) =
      ((λ b m. behind b (fewer b m)), answer, sure)
  PcOk-sent cur val id holding (behind, owned) = ((λ a m. behind a (fewer a m)), owned)
