-- ===== src/Dedup/Client.antt =====
-- src/kvraft1/dedup/dedup.go, Client: the side that numbers requests and acknowledges replies.
use raft_sharded_kv.Prelude.{
  ℕ, zero, suc, ◌+◌, Option, none, some, Bool, false, List, [], ◌∷◌, leb, ◌==◌, ◌||◌, if◌then◌else◌,
  length,
}
use raft_sharded_kv.Rpc.{u64}

-- The set `completed` (the map's keys, all true) is a list of its keys.
pub record Client : Type 0 where
  pub id : ℕ
  pub next : ℕ
  pub ack : ℕ
  pub completed : List ℕ

unfoldable pub new_client : Client
new_client = record { id = 0; next = 0; ack = 0; completed = [] }

unfoldable pub contains : ℕ → List ℕ → Bool
contains q [] = false
contains q (x ∷ xs) = x == q || contains q xs

unfoldable pub delete : ℕ → List ℕ → List ℕ
delete q [] = []
delete q (x ∷ xs) = let rest = delete q xs in if x == q then rest else x ∷ rest

-- The random draws of `for c.id == 0`: the first that is not 0. None is left when they run out.
unfoldable pub next_draw : List ℕ → Option ℕ
next_draw [] = none
next_draw (d ∷ ds) = if d == 0 then next_draw ds else some d

unfoldable pub draw_id : ℕ → List ℕ → Option ℕ
unfolding next_draw
draw_id id draws = if id == 0 then next_draw draws else some id

-- Begin returns the client's id and a new sequence number; `none` is the panic on exhaustion, or
-- draws that never left 0.
abbrev begin_with : Client → Option ℕ → Option (ℕ × ℕ × Client)
begin_with c none = none
begin_with c (some id) =
    let next = u64 (c.next + 1) in
    if next == 0 then none else some (id, next, record c { id = id; next = next })

unfoldable pub begin : Client → List ℕ → Option (ℕ × ℕ × Client)
unfolding draw_id
begin c draws = begin_with c (draw_id c.id draws)

-- `for c.completed[c.ack+1] { c.ack++; delete(c.completed, c.ack) }`: a round deletes a key, so one
-- round for each key is enough.
unfoldable pub advance : ℕ → Client → Client
unfolding contains delete
advance zero c = c
advance (suc fuel) c =
    let rest =
      advance fuel
        (record c { ack = u64 (c.ack + 1); completed = delete (u64 (c.ack + 1)) c.completed }) in
    if contains (u64 (c.ack + 1)) c.completed then rest else c

unfoldable pub complete : Client → ℕ → Client
unfolding advance
complete c sequence =
    if leb sequence c.ack
    then c
    else (let marked =
          if contains sequence c.completed then c.completed else sequence ∷ c.completed in
        advance (length marked) (record c { completed = marked }))

unfoldable pub run : Client → List ℕ → Client
run c [] = c
run c (q ∷ qs) = run (complete c q) qs
