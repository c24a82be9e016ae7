-- ===== src/Rsm/Server.antt =====
-- src/kvraft1/rsm/rsm.go: SubmitWithTimeout, cut where it waits, and the loop body of applier.
use raft_sharded_kv.Prelude.{
  ℕ, suc, ◌+◌, ◌%◌, ◌^◌, ◌≡◌, ◌↔◌, arith, Bool, true, false, not, ◌&&◌, ◌||◌, ◌==◌, ==_iff, leb,
  Option, none, some, ℤ, pos, negsuc, Map, insert, remove, empty_map, Eq, if◌then◌else◌,
}
use raft_sharded_kv.Rpc.{Err, ok, err_wrong_leader}

-- The interface StateMachine, over its state, its requests, its replies and the byte strings of
-- its snapshots, which labgob makes; `none` is a panic.
pub record StateMachine : Type 1 where
  pub State : Type 0
  pub Bytes : Type 0
  pub is_empty : Bytes → Bool
  pub Req : Type 0
  pub Reply : Type 0
  pub do_op : State → Req → Option (Reply × State)
  pub snapshot : State → Bytes
  pub restore : State → Bytes → Option State

pub record OpId : Type 0 where
  pub server : ℕ
  pub epoch : ℕ
  pub sequence : ℕ

abbrev same_id : OpId → OpId → Bool
same_id a b = (a.server == b.server) && (a.epoch == b.epoch) && (a.sequence == b.sequence)

pub same_id_iff : (a b : OpId) → (same_id a b ≡ true) ↔ (a ≡ b)
same_id_iff a b =
    ground (arith, ==_iff a.server b.server, ==_iff a.epoch b.epoch, ==_iff a.sequence b.sequence)

instance abbrev pub op_id_eq : Eq OpId
op_id_eq = record { beq = same_id; beq_iff = same_id_iff }

module _ (m : StateMachine) where
  pub record Op : Type 0 where
    pub id : OpId  -- Server, Epoch and Sequence
    pub req : m.Req

  -- What arrives on applyCh.
  pub data ApplyMsg : Type 0 where
    command_msg : Option Op → ℕ → ApplyMsg  -- Command, CommandIndex
    snapshot_msg : m.Bytes → ℕ → ℕ → ApplyMsg  -- Snapshot, SnapshotTerm, SnapshotIndex

  -- A channel of one place is a number; `channels` says what is in it, and `made` is the number of
  -- those made. A closed `done` or `raftDone` is `true`, a nil `rf` is `false`.
  pub record Rsm : Type 0 where
    pub me : ℕ
    pub has_raft : Bool
    pub max_raft_state : ℤ
    pub sm : m.State
    pub epoch : ℕ
    pub next_sequence : ℕ
    pub waiters : Map OpId ℕ
    pub channels : ℕ → Option m.Reply
    pub made : ℕ
    pub done : Bool
    pub raft_done : Bool

  unfoldable pub make_rsm : ℕ → Bool → ℤ → m.State → ℕ → Rsm
  make_rsm me has_raft max_raft_state sm epoch = record {
    me = me;
    has_raft = has_raft;
    max_raft_state = max_raft_state;
    sm = sm;
    epoch = epoch;
    next_sequence = 0;
    waiters = empty_map;
    channels = λ _. none;
    made = 0;
    done = false;
    raft_done = false;
  }

  -- MakeRSM restores the snapshot that the persister holds, if it holds one.
  unfoldable pub make_restored : ℕ → Bool → ℤ → m.State → ℕ → m.Bytes → Option Rsm
  unfolding make_rsm
  make_restored me has_raft max_raft_state sm epoch bytes =
      if m.is_empty bytes
      then some (make_rsm me has_raft max_raft_state sm epoch)
      else elim (m.restore sm bytes) [
        | some sm' ↦ some (make_rsm me has_raft max_raft_state sm' epoch)
        | none ↦ none
      ]

  -- What Submit holds while it runs: its operation and its channel; the term that Start answered,
  -- once it has; or what it returns. The stage is `unused` where no call has made the channel.
  pub data Stage : Type 0 where
    unused starting : Stage
    waiting : ℕ → Stage
    returned : Err → Option m.Reply → Stage

  pub record Call : Type 0 where
    pub op : Op
    pub waiter : ℕ
    pub stage : Stage

  -- Under the mutex: the operation gets its identity and a waiter.
  unfoldable pub register : Rsm → m.Req → Op × Rsm
  register rsm req =
      let sequence = (rsm.next_sequence + 1) % 2 ^ 64 in
      let id : OpId = record { server = rsm.me; epoch = rsm.epoch; sequence = sequence } in
      (
        record { id = id; req = req },
        record rsm {
          next_sequence = sequence;
          waiters = insert id rsm.made rsm.waiters;
          channels = λ j. if rsm.made == j then none else rsm.channels j;
          made = suc rsm.made;
        },
      )

  -- `none` is the return of ErrWrongLeader at once.
  unfoldable pub submit : Rsm → m.Req → Option (Op × Rsm)
  unfolding register
  submit rsm req = if rsm.done || rsm.raft_done then none else some (register rsm req)

  unfoldable pub remove_waiter : Rsm → OpId → ℕ → Rsm
  remove_waiter rsm id waiter = elim (rsm.waiters id) [
    | some w ↦ if w == waiter then record rsm { waiters = remove id rsm.waiters } else rsm
    | none ↦ rsm
  ]

  -- A return runs the deferred call.
  abbrev pub return : Rsm → Call → Err → Option m.Reply → Rsm × Call
  return rsm c err reply =
      (remove_waiter rsm c.op.id c.waiter, record c { stage = returned err reply })

  -- Start has answered with a term and whether this server is the leader.
  unfoldable pub started : Rsm → Call → ℕ → Bool → Rsm × Call
  unfolding remove_waiter
  started rsm c term is_leader =
      if rsm.has_raft && is_leader
      then (rsm, record c { stage = waiting term })
      else return rsm c err_wrong_leader none

  -- A receive from the waiter, if there is something in it, goes before the return of an error.
  abbrev pub receive_or_fail : Rsm → Call → Rsm × Call
  receive_or_fail rsm c = elim (rsm.channels c.waiter) [
    | some r ↦
        return (record rsm { channels = λ j. if c.waiter == j then none else rsm.channels j }) c ok
          (some r)
    | none ↦ return rsm c err_wrong_leader none
  ]

  -- The cases of the select: the one taken is chosen by the scheduler. `received` needs a reply in
  -- the channel, and waits without one.
  pub data Event : Type 0 where
    received deadline raft_stopped stopped : Event
    ticked : (current_term : ℕ) → (still_leader : Bool) → Event

  unfoldable pub wake : Rsm → Call → ℕ → Event → Rsm × Call
  unfolding remove_waiter
  wake rsm c term received = elim (rsm.channels c.waiter) [
    | some r ↦ receive_or_fail rsm c
    | none ↦ (rsm, c)
  ]
  wake rsm c term deadline = receive_or_fail rsm c
  wake rsm c term (ticked current_term still_leader) =
      if not (current_term == term) || not still_leader then receive_or_fail rsm c else (rsm, c)
  wake rsm c term raft_stopped =
      if rsm.raft_done then return rsm c err_wrong_leader none else (rsm, c)
  wake rsm c term stopped = if rsm.done then return rsm c err_wrong_leader none else (rsm, c)

  unfoldable pub should_snapshot : Rsm → ℕ → Bool
  should_snapshot rsm persist_bytes =
      rsm.has_raft
      && elim rsm.max_raft_state [ pos limit ↦ leb limit persist_bytes | negsuc n ↦ false ]

  -- Under the mutex: the reply goes to the waiter of the operation, if there is one and it is
  -- empty.
  unfoldable pub notify : Rsm → OpId → m.Reply → Rsm
  notify rsm id reply = elim (rsm.waiters id) [
    | none ↦ rsm
    | some w ↦ elim (rsm.channels w) [
      | none ↦ record rsm { channels = λ j. if w == j then some reply else rsm.channels j }
      | some r ↦ rsm
    ]
  ]

  -- One message, with the number of bytes that Raft has persisted: the snapshot that the code hands
  -- to Raft, if it does, and the reply that it is about to hand to a waiter.
  pub record Applied : Type 0 where
    pub rsm : Rsm
    pub saved : Option (ℕ × m.Bytes)
    pub notice : Option (OpId × m.Reply)

  -- `none` is a panic.
  unfoldable pub apply : Rsm → ApplyMsg → ℕ → Option Applied
  unfolding should_snapshot
  apply rsm (snapshot_msg bytes term index) persist_bytes =
      if m.is_empty bytes
      then some (record { rsm = rsm; saved = none; notice = none })
      else elim (m.restore rsm.sm bytes) [
        | some sm ↦ some (record { rsm = record rsm { sm = sm }; saved = none; notice = none })
        | none ↦ none
      ]
  apply rsm (command_msg none index) persist_bytes = none
  apply rsm (command_msg (some op) index) persist_bytes = elim (m.do_op rsm.sm op.req) [
    | none ↦ none
    | some (reply, sm) ↦ some (record {
      rsm = record rsm { sm = sm };
      saved = if should_snapshot rsm persist_bytes then some (index, m.snapshot sm) else none;
      notice = some (op.id, reply);
    })
  ]

  -- The applier ends.
  unfoldable pub finish : Rsm → Rsm
  finish rsm = record rsm { done = true }
