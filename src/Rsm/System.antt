-- ===== src/Rsm/System.antt =====
-- src/kvraft1/rsm/rsm.go: one server's calls and its applier, in any order of their steps.
use raft_sharded_kv.Prelude.{
  ℕ, ◌+◌, ◌≡◌, Bool, true, false, List, [], ◌∷◌, Option, none, some, ◌==◌, get_elem?, take,
  if◌then◌else◌,
}
use raft_sharded_kv.Rsm.Server.{
  StateMachine, OpId, Op, ApplyMsg, command_msg, snapshot_msg, Rsm, unused, starting, waiting, Call,
  Event, submit, started, wake, notify, Applied, apply, finish,
}

-- `applied` counts the entries of the log that are in the state; `notice` is the reply that the
-- applier is about to hand over; `saves` are the snapshots that it has handed to Raft.
pub record System (m : StateMachine) : Type 0 where
  pub rsm : Rsm m
  pub calls : ℕ → Call m
  pub notice : Option (OpId × m.Reply)
  pub applied : ℕ
  pub saves : List (ℕ × m.Bytes)

abbrev pub kept : {B : Type 0} → List (ℕ × B) → Option (ℕ × B) → List (ℕ × B)
kept saves none = saves
kept saves (some save) = save ∷ saves

abbrev pub set_call : {m : StateMachine} → (ℕ → Call m) → ℕ → Call m → ℕ → Call m
set_call calls i c j = if i == j then c else calls j

-- A call has taken a step.
abbrev pub after : {m : StateMachine} → System m → ℕ → Rsm m × Call m → System m
after s i (rsm, c) = record s { rsm = rsm; calls = set_call s.calls i c }

-- A log executed from a state; `none` when an operation panics.
unfoldable pub replay : (m : StateMachine) → m.State → List (Op m) → Option m.State
replay m s [] = some s
replay m s (op ∷ rest) = elim (m.do_op s op.req) [
  | none ↦ none
  | some (reply, s') ↦ replay m s' rest
]

-- The committed log, and the state that it begins with.
module _ (m : StateMachine) (first : m.State) (log : List (Op m)) where
  -- What Raft may deliver when so many entries are in the state: the next command, or a snapshot
  -- of the state after some entries.
  pub data Delivers (n : ℕ) : ApplyMsg m → ℕ → Type 0 where
    command :
        (op : Op m) → get_elem? log n ≡ some op → Delivers n (command_msg (some op) (n + 1)) (n + 1)
    install :
        (k term : ℕ) (bytes : m.Bytes) (s : m.State)
        → replay m first (take k log) ≡ some s
        → m.snapshot s ≡ bytes
        → m.is_empty bytes ≡ false
        → Delivers n (snapshot_msg bytes term k) k

  pub data Step (s : System m) : System m → Type 0 where
    submits :
        (req : m.Req) (op : Op m) (rsm : Rsm m)
        → submit m s.rsm req ≡ some (op, rsm)
        → Step s (record s {
          rsm = rsm;
          calls =
              set_call s.calls s.rsm.made
                (record { op = op; waiter = s.rsm.made; stage = starting });
        })
    starts :
        (i term : ℕ) (is_leader : Bool)
        → (s.calls i).stage ≡ starting
        → Step s (after s i (started m s.rsm (s.calls i) term is_leader))
    wakes :
        (i term : ℕ) (event : Event m)
        → (s.calls i).stage ≡ waiting term
        → Step s (after s i (wake m s.rsm (s.calls i) term event))
    applies :
        (msg : ApplyMsg m) (persist_bytes n : ℕ) (a : Applied m)
        → s.notice ≡ none
        → Delivers s.applied msg n
        → apply m s.rsm msg persist_bytes ≡ some a
        → Step s
            (record s { rsm = a.rsm; notice = a.notice; applied = n; saves = kept s.saves a.saved })
    notifies :
        (id : OpId) (reply : m.Reply)
        → s.notice ≡ some (id, reply)
        → Step s (record s { rsm = notify m s.rsm id reply; notice = none })
    stops : Step s (record s { rsm = record s.rsm { raft_done = true } })
    finishes : s.notice ≡ none → Step s (record s { rsm = finish m s.rsm })

  pub data Reach (s : System m) : System m → Type 0 where
    here : Reach s s
    next : {t u : System m} → Reach s t → Step t u → Reach s u

  -- The server has just started, from the state after some entries, and no call runs.
  pub record IsInitial (s : System m) : Type 0 where
    pub state : replay m first (take s.applied log) ≡ some s.rsm.sm
    pub no_call : (i : ℕ) → (s.calls i).stage ≡ unused
    pub no_waiter : (id : OpId) → s.rsm.waiters id ≡ none
    pub no_reply : (i : ℕ) → s.rsm.channels i ≡ none
    pub no_notice : s.notice ≡ none
    pub no_save : s.saves ≡ []
    pub first_call : s.rsm.next_sequence ≡ s.rsm.made
