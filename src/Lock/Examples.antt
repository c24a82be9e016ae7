-- ===== src/Lock/Examples.antt =====
-- A run of src/kvsrv1/lock/lock.go: one client of many takes the free lock.
use raft_sharded_kv.Prelude.{ℕ, zero, ◌≡◌, ◌≢◌, refl, ap, arith, [], false}
use Prim.Native.String.{count}
use raft_sharded_kv.Prelude.Names.{name_of, name_of-count, names_apart}
use raft_sharded_kv.Rpc.{PutArgs, GetReply, ok, err_no_key}
use raft_sharded_kv.Kvsrv.Server.{make_kv_server, get, put, version_of}
use raft_sharded_kv.Lock.Client.{
  acquire, idle, reading, read, written, holding, put_args, on_get, on_put,
}
use raft_sharded_kv.Lock.System.{
  lock_of, System, set_pc, goes_on, Reach, IsInitial, begin_acquire, answer_get, take_get,
  answer_put, take_put, here, next,
}
use raft_sharded_kv.Lock.Invariant.{value_of}
use raft_sharded_kv.Lock.Mutex.{mutual_exclusion}

not_empty : (i : ℕ) → name_of i ≢ ""
not_empty i e = omega (arith, name_of-count i, ap count e)

abbrev start : System
start = record { server = make_kv_server; pc = λ _. idle; sent = [] }

abbrev missing : GetReply
missing = record { value = ""; version = 0; err = err_no_key }

abbrev request : PutArgs
request = put_args "l" "a" 0

abbrev s1 : System
s1 = set_pc start 0 (reading acquire)

abbrev s2 : System
s2 = set_pc s1 0 (read acquire (get make_kv_server (record { key = "l" })))

abbrev s3 : System
s3 =
    goes_on s2 0
      (on_get (lock_of "l" name_of 0) acquire (get make_kv_server (record { key = "l" })))

abbrev s4 : System
s4 = record (set_pc s3 0 (written false request false ok)) {
  server = (put make_kv_server request).1;
}

abbrev taken : System
taken = goes_on s4 0 (on_put (lock_of "l" name_of 0) false request false ok)

start-IsInitial : IsInitial "l" name_of start
start-IsInitial = record { quiet = λ _. refl; silent = refl }

takes : Reach "l" name_of start taken
unfolding goes_on on_get on_put get put make_kv_server version_of name_of
takes =
    next
      (next
        (next (next (next here (begin_acquire 0 refl)) (answer_get 0 acquire refl))
          (take_get 0 acquire _ refl))
        (answer_put 0 false request false refl (omega arith)))
      (take_put 0 false request false ok refl)

taken_holds : taken.pc 0 ≡ holding
unfolding goes_on on_put
taken_holds = refl

mutual_exclusion_example : (zero ≡ zero) × (value_of taken.server "l" ≡ name_of 0)
mutual_exclusion_example =
    mutual_exclusion "l" name_of names_apart not_empty start taken start-IsInitial takes 0 0
      taken_holds taken_holds
