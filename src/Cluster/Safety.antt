-- ===== src/Cluster/Safety.antt =====
-- Election safety of src/raft1/raft.go.
use raft_sharded_kv.Prelude.{ℕ, ◌+◌, ◌/◌, ◌<◌, ◌≤◌, ◌≡◌, sym, arith, subst}
use raft_sharded_kv.Raft.Types.{Raft, Coding, leader}
use raft_sharded_kv.Raft.Ballots.{
  Yields, kill-Yields, append_entries-Yields, install_snapshot-Yields, take_snapshot-Yields,
  handle_install_reply-Yields, handle_append_reply-Yields, handle_heartbeat_reply-Yields,
  start-Yields, applier_turn-Yields,
}
use raft_sharded_kv.Cluster.Counting.{count_overlap}
use raft_sharded_kv.Cluster.System.{Cluster, Local, Step, Reach, IsInitial}
use raft_sharded_kv.Cluster.Votes.{
  is_counted, tally, Inv, local-Inv, ask-Inv, receive-Inv, elect-Inv,
}

module _ {A : Type 0} (c : Coding A) where
  Local-Yields : {rf rf' : Raft A} → Local c rf rf' → Yields rf rf'
  Local-Yields {rf} Local.kills = kill-Yields (record { now = 0; rand = 0 }) rf
  Local-Yields {rf} (Local.appends clock args) = append_entries-Yields clock rf c args
  Local-Yields {rf} (Local.installs clock args) = install_snapshot-Yields clock rf c args
  Local-Yields {rf} (Local.compacts index payload) =
      take_snapshot-Yields (record { now = 0; rand = 0 }) rf c index payload
  Local-Yields {rf} (Local.install_replies clock peer args reply) =
      handle_install_reply-Yields clock rf peer args reply
  Local-Yields {rf} (Local.append_replies clock peer args reply) =
      handle_append_reply-Yields clock rf peer args reply
  Local-Yields {rf} (Local.heartbeat_replies clock reply) =
      handle_heartbeat_reply-Yields clock rf reply
  Local-Yields {rf} (Local.starts command) =
      start-Yields (record { now = 0; rand = 0 }) rf c command
  Local-Yields {rf} Local.applies = applier_turn-Yields (record { now = 0; rand = 0 }) rf

  Step-Inv : (n : ℕ) {s t : Cluster A} → Step c n s t → Inv n s → Inv n t
  Step-Inv n {s} (Step.elect clock i li free) v = elect-Inv n s clock i li free v
  Step-Inv n {s} (Step.ask clock i t d args li ld e) v = ask-Inv n s clock i t d args li ld e v
  Step-Inv n {s} (Step.receive clock i t d reply li ld e) v =
      receive-Inv n s clock i t d reply li ld e v
  Step-Inv n {s} (Step.local i rf li l) v = local-Inv n s i rf li (Local-Yields l) v

  Reach-Inv : (n : ℕ) {s t : Cluster A} → Inv n s → Reach c n s t → Inv n t
  Reach-Inv n v Reach.here = v
  Reach-Inv n v (Reach.next r st) = Step-Inv n st (Reach-Inv n v r)

  initial-Inv : (n : ℕ) (s : Cluster A) → IsInitial n s → Inv n s
  initial-Inv n s h = record {
    sized = h.sized;
    asked_by = λ i t d args e. ground (arith, h.quiet i t d);
    opened = λ i t d l e. absurd (e (h.quiet i t d));
    cast = λ i t d l e. ground (arith, h.quiet i t d);
    unique = λ i j t d l e f. ground (arith, h.quiet i t d);
    tallied = λ i t l e. ground (arith, h.quiet i t i);
    held = λ i l e. absurd (e (h.following i l));
    won = λ i l e. ground (arith, h.following i l);
  }

  leader_majority :
      (n : ℕ) (s : Cluster A) (i : ℕ)
      → Inv n s
      → i < n
      → (s.nodes i).state ≡ leader
      → n / 2 + 1 ≤ tally s n i (s.nodes i).current_term
  leader_majority n s i v l lead =
      ground
        (arith, v.won i l lead, v.tallied i (s.nodes i).current_term l (v.held i l (ground arith)))

  -- In every cluster reached from an initial one, by elections, votes and replies in any order,
  -- late or never delivered, and any other messages, calls and kills, two nodes that lead in the
  -- same term are one node.
  pub election_safety :
      (n : ℕ) (s u : Cluster A) (i j : ℕ)
      → IsInitial n s
      → Reach c n s u
      → i < n
      → j < n
      → (u.nodes i).state ≡ leader
      → (u.nodes j).state ≡ leader
      → (u.nodes i).current_term ≡ (u.nodes j).current_term
      → i ≡ j
  election_safety n s u i j start r li lj lead_i lead_j same =
      let v = Reach-Inv n (initial-Inv n s start) r in
      let t = (u.nodes i).current_term in
      let (d, ld, p, q) =
        count_overlap (λ d. is_counted (u.ballots i t d)) (λ d. is_counted (u.ballots j t d)) n
          (omega (
            arith,
            leader_majority n u i v li lead_i,
            subst (λ x. n / 2 + 1 ≤ tally u n j x) (sym same) (leader_majority n u j v lj lead_j),
          )) in
      v.unique i j t d ld (ground (arith, p)) (ground (arith, q))
