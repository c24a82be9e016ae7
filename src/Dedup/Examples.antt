-- ===== src/Dedup/Examples.antt =====
-- Tests of src/kvraft1/dedup on concrete inputs.
use raft_sharded_kv.Prelude.{ℕ, ◌+◌, ◌≤◌, ◌<◌, ◌≡◌, ◌⊎◌, refl, arith, [], ◌∷◌, none, true, false}
use raft_sharded_kv.Rpc.{PutArgs, PutReply, put_reply, ok, err_stale_request}
use raft_sharded_kv.Dedup.Table.{empty_table, session_of, do_request}
use raft_sharded_kv.Dedup.Client.{new_client, contains}
use raft_sharded_kv.Dedup.Client
use raft_sharded_kv.Dedup.Once.{IsAdmissible, run, retry_harmless}
use raft_sharded_kv.Dedup.Watermark.{IsClean, IsClean-empty_table, do_request-IsClean, ack_exact}

abbrev write : PutArgs
write = record { key = "x"; value = "a"; version = 0; client_id = 7; sequence = 1; ack = 0 }

abbrev later_write : PutArgs
later_write = record { key = "x"; value = "b"; version = 1; client_id = 7; sequence = 2; ack = 0 }

-- The caller's state counts the executions.
abbrev count_up : PutArgs → ℕ → PutReply × ℕ
count_up a n = (put_reply ok, n + 1)

executed_once :
    (run count_up (empty_table, 0) (write ∷ (write ∷ (later_write ∷ (write ∷ []))))).1 ≡ 2
unfolding run do_request empty_table
executed_once = refl

write-IsAdmissible : IsAdmissible write
write-IsAdmissible = (omega arith, omega arith, omega arith)

fresh_session : (session_of empty_table 7).ack < 1
unfolding session_of empty_table
fresh_session = omega arith

no_reply : (session_of empty_table 7).replies 1 ≡ none
unfolding session_of empty_table
no_reply = refl

retry_harmless_example :
    let first = do_request empty_table write (count_up write) 0 in
    let later = run count_up (first.1, first.2) (later_write ∷ []) in
    let second = do_request later.0 write (count_up write) later.1 in
    (second.2 ≡ later.1) × ((second.0 ≡ first.0) ⊎ (second.0 ≡ put_reply err_stale_request))
retry_harmless_example =
    retry_harmless count_up empty_table 0 write write (later_write ∷ []) write-IsAdmissible refl
      refl

do_request-IsClean_example :
    IsClean (do_request empty_table write (count_up write) 0).1
    × ((client : ℕ)
        → (session_of empty_table client).ack
          ≤ (session_of (do_request empty_table write (count_up write) 0).1 client).ack)
do_request-IsClean_example =
    do_request-IsClean empty_table write (count_up write) 0 IsClean-empty_table

ack_exact_example :
    ((q : ℕ)
      → 0 < q
      → q ≤ (Client.run new_client (2 ∷ (1 ∷ (4 ∷ [])))).ack
      → contains q (2 ∷ (1 ∷ (4 ∷ []))) ≡ true)
    × (contains ((Client.run new_client (2 ∷ (1 ∷ (4 ∷ [])))).ack + 1) (2 ∷ (1 ∷ (4 ∷ []))) ≡ false)
ack_exact_example = ack_exact (2 ∷ (1 ∷ (4 ∷ []))) (omega arith, (omega arith, (omega arith, tt)))
