-- ===== src/Raft/Format.antt =====
-- src/raft1/raft.go, persist and readCachedPersist: the bytes that are saved are read back.
use raft_sharded_kv.Prelude.{
  ℕ, zero, suc, ◌-◌, ◌*◌, ◌/◌, ◌%◌, ◌^◌, ◌<◌, ◌≤◌, ◌≡◌, refl, sym, ap, ◌∙◌, true, false, arith,
  List, [], ◌∷◌, ◌++◌, map, some, length, length-append, length-map, take, drop, take-length-append,
  drop-length-append, ltb, ◌==◌, ℤ, pos, negsuc,
}
use raft_sharded_kv.Raft.Types.{Raft, LogEntry, Bytes, Coding}
use raft_sharded_kv.Raft.Encoding.{
  put_le, get_le, to_u64, of_u64, put_int, put_encoded, encode_state, loaded, read_u64,
  read_entries, read_header, read_cached_persist, cons_entry, finish, persist_magic,
  persist_header_size, bytes_eq,
}

put_le-length : (k n : ℕ) → length (put_le k n) ≡ k
unfolding put_le
put_le-length zero n = refl
put_le-length (suc k) n = ground (arith, put_le-length k (n / 256))

get_le-put_le : (k n : ℕ) → n < 256 ^ k → get_le (put_le k n) ≡ n
unfolding put_le get_le
get_le-put_le zero n h = omega arith
get_le-put_le (suc k) n h =
    let cut : n / 256 < 256 ^ k = omega arith in omega (arith, get_le-put_le k (n / 256) cut)

put_le_front : (n : ℕ) (rest : Bytes) → n < 2 ^ 64 → read_u64 (put_le 8 n ++ rest) ≡ (n, rest)
put_le_front n rest h =
    let size : length (put_le 8 n) ≡ 8 = put_le-length 8 n in
    let front : take 8 (put_le 8 n ++ rest) ≡ put_le 8 n =
      ap (λ k. take k (put_le 8 n ++ rest)) (sym size) ∙ take-length-append (put_le 8 n) rest in
    let back : drop 8 (put_le 8 n ++ rest) ≡ rest =
      ap (λ k. drop k (put_le 8 n ++ rest)) (sym size) ∙ drop-length-append (put_le 8 n) rest in
    rw (front, back) (ap (λ k. (k, rest)) (get_le-put_le 8 n h))

-- A number that an int of the source holds.
abbrev pub InRange : ℤ → Type 0
InRange (pos n) = n < 2 ^ 63
InRange (negsuc n) = n < 2 ^ 63

to_u64_bound : (z : ℤ) → to_u64 z < 2 ^ 64
to_u64_bound (pos n) = omega arith
to_u64_bound (negsuc n) = omega arith

of_u64-to_u64 : (z : ℤ) → InRange z → of_u64 (to_u64 z) ≡ z
of_u64-to_u64 (pos n) h =
    let e : n % 2 ^ 64 ≡ n = omega arith in
    let small : ltb n (2 ^ 63) ≡ true = ground arith in rw (e, small) refl
of_u64-to_u64 (negsuc n) h =
    let e : n % 2 ^ 64 ≡ n = omega arith in
    let big : ltb (2 ^ 64 - 1 - n) (2 ^ 63) ≡ false = ground arith in
    let back : 2 ^ 64 - 1 - (2 ^ 64 - 1 - n) ≡ n = omega arith in rw (e, big, back) refl

put_int_front : (z : ℤ) (rest : Bytes) → read_u64 (put_int z ++ rest) ≡ (to_u64 z, rest)
unfolding put_int
put_int_front z rest = put_le_front (to_u64 z) rest (to_u64_bound z)

put_encoded-length : (es : List Bytes) → 8 * length es ≤ length (put_encoded es)
unfolding put_encoded
put_encoded-length [] = omega arith
put_encoded-length (e ∷ es) =
    let size = put_le-length 8 (length e % 2 ^ 64) in
    omega (
      arith,
      put_encoded-length es,
      size,
      length-append (put_le 8 (length e % 2 ^ 64)) (e ++ put_encoded es),
      length-append e (put_encoded es),
    )

module _ {A : Type 0} (c : Coding A) where
  -- Each entry is short enough for its length to be an int.
  abbrev pub AllShort : List (LogEntry A) → Type 0
  AllShort [] = Unit {0}
  AllShort (e ∷ es) = (length (c.encode e) < 2 ^ 64) × AllShort es

  read_entries_step :
      (n len : ℕ) (rest after : Bytes)
      → read_u64 rest ≡ (len, after)
      → 8 ≤ length rest
      → len ≤ length after
      → read_entries c (suc n) rest
        ≡ cons_entry c
            (c.decode (take len after))
            (take len after)
            (read_entries c n (drop len after))
  unfolding read_entries
  read_entries_step n len rest after read room enough =
      let a : ltb (length rest) 8 ≡ false = ground arith in
      let b : ltb (length after) len ≡ false = ground arith in
      let r0 = ap (λ x. x.0) read in let r1 = ap (λ x. x.1) read in rw (a, r0, r1, b) refl

  put_encoded_step :
      (e : Bytes) (es : List Bytes)
      → put_encoded (e ∷ es) ≡ put_le 8 (length e % 2 ^ 64) ++ (e ++ put_encoded es)
  unfolding put_encoded
  put_encoded_step e es = refl

  read_entries-put_encoded :
      (es : List (LogEntry A))
      → AllShort es
      → read_entries c (length es) (put_encoded (map c.encode es)) ≡ some (es, map c.encode es, [])
  read_entries-put_encoded [] short = unfold read_entries put_encoded in refl
  read_entries-put_encoded (e ∷ es) (small, short) =
      let enc = c.encode e in
      let after = enc ++ put_encoded (map c.encode es) in
      let len : length enc % 2 ^ 64 ≡ length enc = omega arith in
      let step =
        read_entries_step (length es) (length enc) (put_le 8 (length enc) ++ after) after
          (put_le_front (length enc) after small)
          (omega (arith, length-append (put_le 8 (length enc)) after, put_le-length 8 (length enc)))
          (omega (arith, length-append enc (put_encoded (map c.encode es)))) in
      rw
        (
          put_encoded_step enc (map c.encode es),
          len,
          step,
          take-length-append enc (put_encoded (map c.encode es)),
          drop-length-append enc (put_encoded (map c.encode es)),
          c.decode_encode e,
          read_entries-put_encoded es short,
        )
        refl

  read_header_step :
      (term vote index base count : ℕ) (data0 data1 data2 data3 data4 data5 : Bytes)
      → read_u64 data0 ≡ (term, data1)
      → read_u64 data1 ≡ (vote, data2)
      → read_u64 data2 ≡ (index, data3)
      → read_u64 data3 ≡ (base, data4)
      → read_u64 data4 ≡ (count, data5)
      → 0 < count
      → 8 * count ≤ length data5
      → read_header c data0
        ≡ finish c
            (of_u64 term)
            (of_u64 vote)
            (of_u64 index)
            (of_u64 base)
            (read_entries c count data5)
  unfolding read_header
  read_header_step term vote index base count data0 data1 data2 data3 data4 data5 e1 e2 e3 e4 e5
        some_entry room =
      let a : (count == 0) ≡ false = ground arith in
      let b : ltb (length data5 / 8) count ≡ false = ground arith in
      rw
        (
          ap (λ x. x.1) e1,
          ap (λ x. x.1) e2,
          ap (λ x. x.1) e3,
          ap (λ x. x.1) e4,
          ap (λ x. x.1) e5,
          ap (λ x. x.0) e1,
          ap (λ x. x.0) e2,
          ap (λ x. x.0) e3,
          ap (λ x. x.0) e4,
          ap (λ x. x.0) e5,
          a,
          b,
        )
        refl

  -- What the save of a state takes for granted: its cache is the encoding of its log, and its
  -- numbers fit the integers of the format.
  pub record Saveable (rf : Raft A) : Type 0 where
    pub some_log : 0 < length rf.logs
    pub cached : rf.encoded_logs ≡ map c.encode rf.logs
    pub term : rf.current_term < 2 ^ 63
    pub vote : InRange rf.voted_for
    pub index : rf.last_included_index < 2 ^ 63
    pub base : rf.last_included_term < 2 ^ 63
    pub count : length rf.logs < 2 ^ 64
    pub short : AllShort rf.logs

  put_int-length : (z : ℤ) → length (put_int z) ≡ 8
  unfolding put_int
  put_int-length z = put_le-length 8 (to_u64 z)

  read_magic :
      (body : Bytes)
      → 40 ≤ length body
      → read_cached_persist c (persist_magic ++ body) ≡ read_header c body
  unfolding read_cached_persist bytes_eq
  read_magic body h =
      let room : ltb (length (persist_magic ++ body)) persist_header_size ≡ false = ground arith in
      rw room refl

  finish_loaded :
      (rf : Raft A)
      → Saveable rf
      → finish c
          (of_u64 (to_u64 (pos rf.current_term)))
          (of_u64 (to_u64 rf.voted_for))
          (of_u64 (to_u64 (pos rf.last_included_index)))
          (of_u64 (to_u64 (pos rf.last_included_term)))
          (read_entries c (length rf.logs) (put_encoded rf.encoded_logs))
        ≡ loaded (record {
          current_term = pos rf.current_term;
          voted_for = rf.voted_for;
          last_included_index = pos rf.last_included_index;
          last_included_term = pos rf.last_included_term;
          logs = rf.logs;
          encoded_logs = rf.encoded_logs;
        })
  finish_loaded rf h =
      rw
        (
          of_u64-to_u64 (pos rf.current_term) h.term,
          of_u64-to_u64 rf.voted_for h.vote,
          of_u64-to_u64 (pos rf.last_included_index) h.index,
          of_u64-to_u64 (pos rf.last_included_term) h.base,
          h.cached,
          read_entries-put_encoded rf.logs h.short,
        )
        refl

  -- The bytes that persist saves are read back as the state: the term, the vote, the snapshot's
  -- index and term, and the whole log with its cache.
  pub read_cached_persist-encode_state :
      (rf : Raft A)
      → Saveable rf
      → read_cached_persist c (encode_state rf)
        ≡ loaded (record {
          current_term = pos rf.current_term;
          voted_for = rf.voted_for;
          last_included_index = pos rf.last_included_index;
          last_included_term = pos rf.last_included_term;
          logs = rf.logs;
          encoded_logs = rf.encoded_logs;
        })
  unfolding encode_state
  read_cached_persist-encode_state rf h =
      let tail = put_le 8 (length rf.logs) ++ put_encoded rf.encoded_logs in
      let base = put_int (pos rf.last_included_term) ++ tail in
      let index = put_int (pos rf.last_included_index) ++ base in
      let vote = put_int rf.voted_for ++ index in
      let size : length rf.encoded_logs ≡ length rf.logs =
        ap length h.cached ∙ length-map rf.logs c.encode in
      let count : length rf.encoded_logs % 2 ^ 64 ≡ length rf.logs = omega (arith, size, h.count) in
      let step =
        read_header_step (to_u64 (pos rf.current_term)) (to_u64 rf.voted_for)
          (to_u64 (pos rf.last_included_index)) (to_u64 (pos rf.last_included_term))
          (length rf.logs) (put_int (pos rf.current_term) ++ vote) vote index base tail
          (put_encoded rf.encoded_logs) (put_int_front (pos rf.current_term) vote)
          (put_int_front rf.voted_for index) (put_int_front (pos rf.last_included_index) base)
          (put_int_front (pos rf.last_included_term) tail)
          (put_le_front (length rf.logs) (put_encoded rf.encoded_logs) h.count) h.some_log
          (omega (arith, size, put_encoded-length rf.encoded_logs)) in
      let body = put_int (pos rf.current_term) ++ vote in
      let room : 40 ≤ length body = omega (
        arith,
        length-append (put_int (pos rf.current_term)) vote,
        put_int-length (pos rf.current_term),
        length-append (put_int rf.voted_for) index,
        put_int-length rf.voted_for,
        length-append (put_int (pos rf.last_included_index)) base,
        put_int-length (pos rf.last_included_index),
        length-append (put_int (pos rf.last_included_term)) tail,
        put_int-length (pos rf.last_included_term),
        length-append (put_le 8 (length rf.logs)) (put_encoded rf.encoded_logs),
        put_le-length 8 (length rf.logs),
      ) in
      rw count (read_magic body room ∙ (step ∙ finish_loaded rf h))
