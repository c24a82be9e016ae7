-- ===== src/Raft/Encoding.antt =====
-- src/raft1/raft.go, persist and readCachedPersist: the byte format of the persistent state, a
-- fixed-width header followed by the entries, each behind its length.
use raft_sharded_kv.Prelude.{
  ℕ, zero, suc, ◌+◌, ◌-◌, ◌*◌, ◌/◌, ◌%◌, ◌^◌, Bool, true, false, not, List, [], ◌∷◌, ◌++◌, Option,
  none, some, ℤ, pos, negsuc, ltb, ◌==◌, ◌&&◌, ◌||◌, if◌then◌else◌, length, take, drop,
}
use raft_sharded_kv.Raft.Types.{Raft, LogEntry, Bytes, Coding, Persister}

-- "RFT2"
abbrev pub persist_magic : Bytes
persist_magic = 0x52 ∷ 0x46 ∷ 0x54 ∷ 0x32 ∷ []

-- len(persistMagic) + 5*8
abbrev pub persist_header_size : ℕ
persist_header_size = 44

-- binary.LittleEndian over k bytes.
unfoldable pub put_le : ℕ → ℕ → Bytes
put_le zero n = []
put_le (suc k) n = (n % 256) ∷ put_le k (n / 256)

unfoldable pub get_le : Bytes → ℕ
get_le [] = 0
get_le (b ∷ bs) = b + 256 * get_le bs

-- uint64(int64(value)) and back.
abbrev pub to_u64 : ℤ → ℕ
to_u64 (pos n) = n % 2 ^ 64
to_u64 (negsuc n) = 2 ^ 64 - 1 - n % 2 ^ 64

abbrev pub of_u64 : ℕ → ℤ
of_u64 u = if ltb u (2 ^ 63) then pos u else negsuc (2 ^ 64 - 1 - u)

unfoldable pub put_int : ℤ → Bytes
unfolding put_le
put_int value = put_le 8 (to_u64 value)

unfoldable pub put_encoded : List Bytes → Bytes
unfolding put_le
put_encoded [] = []
put_encoded (e ∷ es) = put_le 8 (length e % 2 ^ 64) ++ (e ++ put_encoded es)

-- The part of the state that is persistent.
pub record Persistent (A : Type 0) : Type 0 where
  pub current_term : ℤ
  pub voted_for : ℤ
  pub last_included_index : ℤ
  pub last_included_term : ℤ
  pub logs : List (LogEntry A)
  pub encoded_logs : List Bytes

module _ {A : Type 0} where
  unfoldable pub encode_state : Raft A → Bytes
  unfolding put_int put_encoded
  encode_state rf =
      persist_magic
      ++ (put_int (pos rf.current_term)
          ++ (put_int rf.voted_for
              ++ (put_int (pos rf.last_included_index)
                  ++ (put_int (pos rf.last_included_term)
                      ++ (put_le 8 (length rf.encoded_logs % 2 ^ 64)
                          ++ put_encoded rf.encoded_logs)))))

  -- The check at the head of persist.
  abbrev pub is_cached : Raft A → Bool
  is_cached rf = length rf.encoded_logs == length rf.logs

  unfoldable pub saved : Raft A → Persister
  unfolding encode_state
  saved rf =
      if is_cached rf
      then record { raft_state = encode_state rf; snapshot = rf.snapshot }
      else rf.persister

  unfoldable pub persist : Raft A → Raft A
  persist rf = record rf { persister = saved rf; panicked = rf.panicked || not (is_cached rf) }

-- The outcome of reading: another format, a panic, or the persistent state.
pub data Loaded (A : Type 0) : Type 0 where
  not_cached : Loaded A
  panic : Loaded A
  loaded : Persistent A → Loaded A

-- The equality of byte strings.
unfoldable pub bytes_eq : Bytes → Bytes → Bool
bytes_eq [] [] = true
bytes_eq (x ∷ xs) (y ∷ ys) = x == y && bytes_eq xs ys
bytes_eq _ _ = false

-- A read at the offset: the bytes and what follows them.
abbrev pub read_u64 : Bytes → ℕ × Bytes
read_u64 rest = (get_le (take 8 rest), drop 8 rest)

module _ {A : Type 0} (c : Coding A) where
  abbrev pub cons_entry :
      Option (LogEntry A)
      → Bytes
      → Option (List (LogEntry A) × List Bytes × Bytes)
      → Option (List (LogEntry A) × List Bytes × Bytes)
  cons_entry (some e) encoded (some (es, encs, rest)) = some (e ∷ es, encoded ∷ encs, rest)
  cons_entry _ encoded _ = none

  -- The loop over the entries; `none` is a panic. The cursor is the rest of the data.
  unfoldable pub read_entries : ℕ → Bytes → Option (List (LogEntry A) × List Bytes × Bytes)
  unfolding get_le
  read_entries zero rest = some ([], [], rest)
  read_entries (suc n) rest =
      let len = (read_u64 rest).0 in
      let after = (read_u64 rest).1 in
      let more =
        cons_entry (c.decode (take len after)) (take len after) (read_entries n (drop len after)) in
      if ltb (length rest) 8 then none else if ltb (length after) len then none else more

  abbrev pub finish : ℤ → ℤ → ℤ → ℤ → Option (List (LogEntry A) × List Bytes × Bytes) → Loaded A
  finish term vote index base none = panic
  finish term vote index base (some (logs, encoded, [])) = loaded (record {
    current_term = term;
    voted_for = vote;
    last_included_index = index;
    last_included_term = base;
    logs = logs;
    encoded_logs = encoded;
  })
  finish term vote index base (some (logs, encoded, b ∷ bs)) = panic

  unfoldable pub read_header : Bytes → Loaded A
  unfolding read_entries
  read_header data0 =
      let (term, data1) = read_u64 data0 in
      let (vote, data2) = read_u64 data1 in
      let (index, data3) = read_u64 data2 in
      let (base, data4) = read_u64 data3 in
      let (count, data5) = read_u64 data4 in
      if count == 0 || ltb (length data5 / 8) count
      then panic
      else finish (of_u64 term) (of_u64 vote) (of_u64 index) (of_u64 base)
          (read_entries count data5)

  unfoldable pub read_cached_persist : Bytes → Loaded A
  unfolding read_header bytes_eq
  read_cached_persist bytes =
      if ltb (length bytes) persist_header_size || not (bytes_eq (take 4 bytes) persist_magic)
      then not_cached
      else read_header (drop 4 bytes)
