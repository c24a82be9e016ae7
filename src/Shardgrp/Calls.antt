-- ===== src/Shardgrp/Calls.antt =====
-- src/shardkv1/shardgrp/client.go: what the results of Get and of PutRequest say.
use raft_sharded_kv.Prelude.{
  ℕ, ◌+◌, ◌<◌, ◌≡◌, ◌≢◌, ◌⊎◌, inl, inr, refl, sym, ◌∙◌, ap, subst, Bool, true, false, List, [], ◌∷◌,
  length, Option, Option-cases, get_elem?, if◌then◌else◌,
}
use raft_sharded_kv.Kvraft.Leader.{
  Leader, moves, InRange, AllInRange, moves-InRange, advance_leader, advance_leader-InRange,
  advance_leader_servers, moves_servers, get_elem?_lt,
}
use raft_sharded_kv.Kvraft.Clerk.{running, panics, returns, Visit}
use raft_sharded_kv.Shardgrp.Clerk.{
  Switch, stops, goes, Turn, continues, gives_up, next_turn, is_received, GroupCall, group_loop,
}
use raft_sharded_kv.Shardgrp.Rounds.{AllVisits, Failed, TurnOk, next_turn-TurnOk}

Switch-cases :
    {B : Type 0} (s : Switch B)
    → ((b : B) × (m : Bool) × (s ≡ stops b m)) ⊎ ((doubt : Bool) × (s ≡ goes doubt))
Switch-cases (stops b m) = inl (b, m, refl)
Switch-cases (goes doubt) = inr (doubt, refl)

Turn-cases :
    (t : Turn) → ((k : ℕ) × (received : Bool) × (t ≡ continues k received)) ⊎ (t ≡ gives_up)
Turn-cases (continues k received) = inl (k, received, refl)
Turn-cases gives_up = inr refl

module _ {A B : Type 0} (switch : Bool → Option A → Switch B) where
  -- Whether one of the replies leaves it uncertain that the request was executed.
  abbrev pub doubt_after : Bool → Switch B → Bool
  doubt_after old (stops b m) = old
  doubt_after old (goes doubt) = doubt

  abbrev pub doubt_of : List (Option A) → Bool
  doubt_of [] = false
  doubt_of (r ∷ past) = doubt_after (doubt_of past) (switch (doubt_of past) r)

  -- The latest reply ended the call.
  abbrev pub Stopped : List (Option A) → B → Type 0
  Stopped replies b =
      (r : Option A) × (past : List (Option A)) × (m : Bool) × (replies ≡ r ∷ past)
      × (switch (doubt_of past) r ≡ stops b m)

  -- One of the replies ends the call, whatever came before.
  abbrev pub HasFinal : List (Visit A) → Type 0
  HasFinal [] = ⊥
  HasFinal (v ∷ rest) = ((u : Bool) (doubt : Bool) → switch u v.reply ≢ goes doubt) ⊎ HasFinal rest

module _ {A B : Type 0} (switch : Bool → Option A → Switch B) (gave_up : B) where
  pub record IsSettling (ck : Leader) (visits : List (Visit A)) (c : GroupCall A B) : Type 0 where
    pub calm : InRange ck → AllVisits (length ck.servers) visits → c.ended ≢ panics
    pub told :
        (b : B)
        → c.ended ≡ returns b
        → ((b ≡ gave_up) × Failed (length ck.servers) c.replies) ⊎ Stopped switch c.replies b
    pub ends : HasFinal switch visits → c.ended ≢ running

  no_visits-IsSettling :
      (attempts : ℕ) (received uncertain : Bool) (seen : List (Option A)) (ck : Leader)
      → IsSettling ck [] (group_loop switch gave_up [] attempts received uncertain seen ck)
  unfolding group_loop
  no_visits-IsSettling attempts received uncertain seen ck = record {
    calm = λ r a e. cc e;
    told = λ b e. absurd (cc e);
    ends = λ h e. h;
  }

  -- An attempt leaves the leader among the servers.
  visit-InRange :
      (v : Visit A) (ck : Leader)
      → InRange ck
      → AllInRange (length ck.servers) v.before × AllInRange (length ck.servers) v.during
      → InRange (moves v.before ck)
        × InRange (advance_leader (moves v.before ck).leader (moves v.during (moves v.before ck)))
  visit-InRange v ck in_range all =
      let place = moves-InRange v.before ck in_range all.0 in
      let place' = moves-InRange v.during (moves v.before ck) place.0 (rw place.1 all.1) in
      (
        place.0,
        (advance_leader-InRange (moves v.before ck).leader (moves v.during (moves v.before ck))
            place'.0).0,
      )

  visit_servers :
      (v : Visit A) (ck : Leader)
      → (advance_leader (moves v.before ck).leader (moves v.during (moves v.before ck))).servers
        ≡ ck.servers
  visit_servers v ck =
      advance_leader_servers (moves v.before ck).leader (moves v.during (moves v.before ck))
      ∙ moves_servers v.during (moves v.before ck)
      ∙ moves_servers v.before ck

  pub group_loop-IsSettling :
      (visits : List (Visit A)) (attempts : ℕ) (received uncertain : Bool) (seen : List (Option A))
      (ck : Leader)
      → attempts < length ck.servers
      → (received ≡ false → Failed attempts seen)
      → uncertain ≡ doubt_of switch seen
      → IsSettling ck visits (group_loop switch gave_up visits attempts received uncertain seen ck)
  unfolding group_loop
  group_loop-IsSettling [] attempts received uncertain seen ck lt failed doubt_ok =
      no_visits-IsSettling attempts received uncertain seen ck
  group_loop-IsSettling (v ∷ rest) attempts received uncertain seen ck lt failed doubt_ok =
      let servers = visit_servers v ck in
      let received' = if is_received v.reply then true else received in
      let turn = next_turn-TurnOk (length ck.servers) attempts v.reply received seen lt failed in
      elim (Option-cases (get_elem? (moves v.before ck).servers (moves v.before ck).leader)) [
        | inl missing ↦
            rw (missing, group_loop)
              (record {
                calm = λ in_range all.
                    let (server, there) =
                      get_elem?_lt (moves v.before ck).servers (moves v.before ck).leader
                        (visit-InRange v ck in_range all.0).0 in
                    absurd (cc (missing, there));
                told = λ b e. absurd (cc e);
                ends = λ h e. cc e;
              })
        | inr (server, there) ↦ elim (Switch-cases (switch uncertain v.reply)) [
          | inl (b, m, stop) ↦
              rw (there, group_loop, stop)
                (record {
                  calm = λ in_range all e. cc e;
                  told = λ b' e. inr (
                    v.reply,
                    seen,
                    m,
                    refl,
                    let same : b ≡ b' = cc e in rw (← doubt_ok) (stop ∙ ap (λ x. stops x m) same),
                  );
                  ends = λ h e. cc e;
                })
          | inr (doubt, goes_on) ↦
              elim (Turn-cases (next_turn (length ck.servers) (attempts + 1) received')) [
                | inr over ↦
                    rw (there, group_loop, goes_on, moves_servers v.before ck, over)
                      (record {
                        calm = λ in_range all e. cc e;
                        told = λ b' e. inl (
                          let same : gave_up ≡ b' = cc e in sym same,
                          subst (TurnOk (length ck.servers) (v.reply ∷ seen)) over turn,
                        );
                        ends = λ h e. cc e;
                      })
                | inl (k, received'', more) ↦
                    let ok_turn = subst (TurnOk (length ck.servers) (v.reply ∷ seen)) more turn in
                    let ck' =
                      advance_leader (moves v.before ck).leader
                        (moves v.during (moves v.before ck)) in
                    let c =
                      group_loop switch gave_up rest k received'' doubt (v.reply ∷ seen) ck' in
                    let later =
                      group_loop-IsSettling rest k received'' doubt (v.reply ∷ seen) ck'
                        (rw servers ok_turn.0) ok_turn.1 (rw (← doubt_ok, goes_on) refl) in
                    rw (there, group_loop, goes_on, moves_servers v.before ck, more)
                      (record {
                        calm = λ in_range all.
                            later.calm (visit-InRange v ck in_range all.0).1 (rw servers all.1);
                        told = λ b e.
                            subst
                              (λ n.
                                ((b ≡ gave_up) × Failed n c.replies) ⊎ Stopped switch c.replies b)
                              (ap length servers) (later.told b e);
                        ends = λ h. elim h [
                          | inl last ↦ absurd (last uncertain doubt goes_on)
                          | inr further ↦ later.ends further
                        ];
                      })
              ]
        ]
      ]
