-- ===== src/Cluster/Votes.antt =====
-- The invariant of the votes in a cluster, and that every step keeps it.
use raft_sharded_kv.Prelude.{
  ℕ, ◌+◌, ◌/◌, ◌<◌, ◌≤◌, ◌≡◌, ◌≢◌, refl, sym, ◌∙◌, ◌⊎◌, inl, inr, Bool, true, false, arith,
  Bool-cases, ◌==◌, pos, ltb, if◌then◌else◌, ◌&&◌, subst,
}
use raft_sharded_kv.Raft.Types.{
  Raft, Clock, RequestVoteArgs, RequestVoteReply, follower, leader, candidate,
}
use raft_sharded_kv.Raft.Vote.{majority, request_vote, start_election, may_not_start, vote_args}
use raft_sharded_kv.Raft.Roles.{become_leader}
use raft_sharded_kv.Raft.Ballots.{
  become_leader_fields, handle_vote_reply_cases, start_election_started, Yields,
  request_vote-Yields, request_vote_granted,
}
use raft_sharded_kv.Cluster.Counting.{count, count-cong, count_insert, count_none}
use raft_sharded_kv.Cluster.System.{
  Ballot, idle, asked, answered, counted, discarded, Cluster, set_node, set_ballot, set_votes,
  elected, received, asked_of,
}

abbrev pub is_granted : Ballot → Bool
is_granted (answered r) = r.vote_granted
is_granted counted = true
is_granted _ = false

abbrev pub is_counted : Ballot → Bool
is_counted counted = true
is_counted _ = false

module _ {A : Type 0} where
  abbrev pub tally : Cluster A → ℕ → ℕ → ℕ → ℕ
  tally s n i t = count (λ v. is_counted (s.ballots i t v)) n

  pub record Inv (n : ℕ) (s : Cluster A) : Type 0 where
    pub sized : (i : ℕ) → i < n → ((s.nodes i).peers ≡ n) × ((s.nodes i).me ≡ i)
    pub asked_by :
        (i t v : ℕ) (args : RequestVoteArgs)
        → s.ballots i t v ≡ asked args
        → (args.term ≡ t) × (args.candidate_id ≡ i)
    pub opened : (i t v : ℕ) → i < n → s.ballots i t v ≢ idle → t ≤ (s.nodes i).current_term
    pub cast :
        (i t v : ℕ)
        → v < n
        → is_granted (s.ballots i t v) ≡ true
        → (t < (s.nodes v).current_term)
          ⊎ (((s.nodes v).current_term ≡ t) × ((s.nodes v).voted_for ≡ pos i))
    pub unique :
        (i j t v : ℕ)
        → v < n
        → is_granted (s.ballots i t v) ≡ true
        → is_granted (s.ballots j t v) ≡ true
        → i ≡ j
    pub tallied : (i t : ℕ) → i < n → s.ballots i t i ≡ counted → s.votes i t ≡ tally s n i t
    pub held :
        (i : ℕ)
        → i < n
        → (s.nodes i).state ≢ follower
        → s.ballots i (s.nodes i).current_term i ≡ counted
    pub won :
        (i : ℕ)
        → i < n
        → (s.nodes i).state ≡ leader
        → n / 2 + 1 ≤ s.votes i (s.nodes i).current_term

  pub local-Inv :
      (n : ℕ) (s : Cluster A) (i : ℕ) (rf : Raft A)
      → i < n
      → Yields (s.nodes i) rf
      → Inv n s
      → Inv n (set_node s i rf)
  local-Inv n s i rf b y v = record {
    sized = λ j l. ground (arith, v.sized j l, y.size);
    asked_by = v.asked_by;
    opened = λ a t d l h. ground (arith, v.opened a t d l h, y.term);
    cast = λ a t d l h. ground (arith, v.cast a t d l h, y.term, y.vote);
    unique = v.unique;
    tallied = v.tallied;
    held = λ j l h. ground (arith, v.held j l, y.role, h);
    won = λ j l h. ground (arith, v.won j l, y.role, h);
  }

  -- The ballot of voter v in the election of node i in term t changes, and is not counted.
  tally-set_ballot :
      (n : ℕ) (s : Cluster A) (i t v : ℕ) (b : Ballot) (i' t' : ℕ)
      → is_counted (s.ballots i t v) ≡ false
      → is_counted b ≡ false
      → tally (set_ballot s i t v b) n i' t' ≡ tally s n i' t'
  tally-set_ballot n s i t v b i' t' old new =
      count-cong (λ d. is_counted ((set_ballot s i t v b).ballots i' t' d))
        (λ d. is_counted (s.ballots i' t' d)) n (λ d l. ground (arith, old))

  answer-Inv :
      (n : ℕ) (s : Cluster A) (i t v : ℕ) (b : Ballot)
      → i < n
      → v < n
      → is_counted (s.ballots i t v) ≡ false
      → is_counted b ≡ false
      → s.ballots i t v ≢ idle
      → ((args : RequestVoteArgs) → b ≢ asked args)
      → (is_granted b ≡ true → ((s.nodes v).current_term ≡ t) × ((s.nodes v).voted_for ≡ pos i))
      → ((j : ℕ) → is_granted b ≡ true → is_granted (s.ballots j t v) ≡ true → j ≡ i)
      → Inv n s
      → Inv n (set_ballot s i t v b)
  answer-Inv n s i t v b li lv old new busy closed granted first w = record {
    sized = w.sized;
    asked_by = λ i' t' v' args h. ground (arith, w.asked_by i' t' v' args, closed args);
    opened = λ i' t' v' l h. ground (arith, w.opened i' t' v' l, w.opened i t v li busy);
    cast = λ i' t' v' l h. ground (arith, w.cast i' t' v' l, granted);
    unique = λ i' j' t' v' l h k. ground (arith, w.unique i' j' t' v' l, first i', first j', h, k);
    tallied = λ i' t' l h.
        ground (arith, w.tallied i' t' l, tally-set_ballot n s i t v b i' t' old new, h);
    held = λ i' l h. ground (arith, w.held i' l h);
    won = w.won;
  }

  pub ask-Inv :
      (n : ℕ) (s : Cluster A) (clock : Clock) (i t v : ℕ) (args : RequestVoteArgs)
      → i < n
      → v < n
      → s.ballots i t v ≡ asked args
      → Inv n s
      → Inv n (asked_of clock s i t v args)
  unfolding asked_of
  ask-Inv n s clock i t v args li lv e w =
      let (reply, rf) = request_vote clock (s.nodes v) args in
      let named = w.asked_by i t v args e in
      let yields = request_vote-Yields clock (s.nodes v) args in
      answer-Inv n (set_node s v rf) i t v (answered reply) li lv (ground arith) refl
        (λ p. ground arith) (λ a. cc)
        (λ g. ground (arith, request_vote_granted clock (s.nodes v) args g, named))
        (λ j g k.
          ground (arith, request_vote_granted clock (s.nodes v) args g, named, w.cast j t v lv k))
        (local-Inv n s v rf lv yields w)

  tally_eq :
      (n : ℕ) (s : Cluster A) (i t i' t' : ℕ) → i ≡ i' → t ≡ t' → tally s n i t ≡ tally s n i' t'
  tally_eq n s i t i' t' p q = rw (p, q) refl

  -- One more counted vote for the candidacy of node i in term t.
  count-Inv :
      (n : ℕ) (s : Cluster A) (i t v : ℕ) (reply : RequestVoteReply)
      → i < n
      → v < n
      → s.ballots i t v ≡ answered reply
      → reply.vote_granted ≡ true
      → s.ballots i t i ≡ counted
      → Inv n s
      → Inv n (set_votes (set_ballot s i t v counted) i t (s.votes i t + 1))
  count-Inv n s i t v reply li lv e g own w =
      let s' = set_votes (set_ballot s i t v counted) i t (s.votes i t + 1) in
      let one_more : tally s' n i t ≡ tally s n i t + 1 =
        count_insert (λ d. is_counted (s.ballots i t d)) (λ d. is_counted (s'.ballots i t d)) v n lv
          (ground arith) (ground arith) (λ k ne. ground arith) in
      let same : (a b d : ℕ) → is_granted (s.ballots a b d) ≡ is_granted (s'.ballots a b d) =
        λ a b d. ground (arith, e, g) in
      record {
        sized = w.sized;
        asked_by = λ i' t' v' args h. ground (arith, w.asked_by i' t' v' args, h);
        opened = λ i' t' v' l h. ground (arith, w.opened i' t' v' l, w.opened i t v li, h);
        cast = λ i' t' v' l h. w.cast i' t' v' l (same i' t' v' ∙ h);
        unique =
            λ i' j' t' v' l h k. w.unique i' j' t' v' l (same i' t' v' ∙ h) (same j' t' v' ∙ k);
        tallied = λ i' t' l h. elim (Bool-cases ((i == i') && (t == t'))) [
          | inl hit ↦ ground (
            arith,
            one_more,
            w.tallied i t li own,
            tally_eq n s' i t i' t' (ground arith) (ground arith),
          )
          | inr miss ↦ ground (
            arith,
            w.tallied i' t' l (ground arith),
            count-cong (λ d. is_counted (s.ballots i' t' d)) (λ d. is_counted (s'.ballots i' t' d))
                n (λ d k. ground arith),
          )
        ];
        held = λ i' l h. ground (arith, w.held i' l h);
        won = λ i' l h. ground (arith, w.won i' l h);
      }

  -- A candidate whose votes reach a majority leads.
  lead-Inv :
      (n : ℕ) (s : Cluster A) (i : ℕ)
      → i < n
      → (s.nodes i).state ≡ candidate
      → n / 2 + 1 ≤ s.votes i (s.nodes i).current_term
      → Inv n s
      → Inv n (set_node s i (become_leader (s.nodes i)))
  lead-Inv n s i li cand enough w =
      let f = become_leader_fields (s.nodes i) in
      record {
        sized = λ j l. ground (arith, w.sized j l, f);
        asked_by = w.asked_by;
        opened = λ a t d l h. ground (arith, w.opened a t d l h, f);
        cast = λ a t d l h. ground (arith, w.cast a t d l h, f);
        unique = w.unique;
        tallied = w.tallied;
        held = λ j l h. ground (arith, w.held j l, f, h);
        won = λ j l h. ground (arith, w.won j l, f, h);
      }

  set_votes-Inv :
      (n : ℕ) (s : Cluster A) (i t m : ℕ) → m ≡ s.votes i t → Inv n s → Inv n (set_votes s i t m)
  set_votes-Inv n s i t m e w = record {
    sized = w.sized;
    asked_by = w.asked_by;
    opened = w.opened;
    cast = w.cast;
    unique = w.unique;
    tallied = λ i' t' l h. sym (same i' t') ∙ w.tallied i' t' l h;
    held = w.held;
    won = λ i' l h. rw (← same i' (s.nodes i').current_term) (w.won i' l h);
  }
    where
      same : (i' t' : ℕ) → s.votes i' t' ≡ (set_votes s i t m).votes i' t'
      same i' t' = ground (arith, e)

  abbrev after_reply : Cluster A → ℕ → ℕ → ℕ → Raft A → ℕ → Cluster A
  after_reply s i t v rf votes =
      set_votes
        (set_ballot (set_node s i rf) i t v
          (if ltb (s.votes i t) votes then counted else discarded))
        i t votes

  discard-Inv :
      (n : ℕ) (s : Cluster A) (i t v : ℕ) (reply : RequestVoteReply) (rf : Raft A) (votes : ℕ)
      → i < n
      → v < n
      → s.ballots i t v ≡ answered reply
      → Yields (s.nodes i) rf
      → votes ≡ s.votes i t
      → Inv n s
      → Inv n (after_reply s i t v rf votes)
  discard-Inv n s i t v reply rf votes li lv e y same w =
      let off : ltb (s.votes i t) votes ≡ false = ground (arith, same) in
      rw off (
        set_votes-Inv n (set_ballot (set_node s i rf) i t v discarded) i t votes same (
          answer-Inv n (set_node s i rf) i t v discarded li lv (ground arith) refl
            (λ p. ground arith) (λ a. cc) (λ g. cc) (λ j g. cc) (local-Inv n s i rf li y w)))

  Yields-refl : (rf : Raft A) → Yields rf rf
  Yields-refl rf = record {
    term = omega arith;
    vote = λ p q. refl;
    role = λ p. (refl, refl);
    size = (refl, refl);
  }

  vote-Inv :
      (n : ℕ) (s : Cluster A) (i t v : ℕ) (reply : RequestVoteReply) (rf : Raft A) (votes : ℕ)
      → i < n
      → v < n
      → s.ballots i t v ≡ answered reply
      → (s.nodes i).state ≡ candidate
      → (s.nodes i).current_term ≡ t
      → reply.vote_granted ≡ true
      → votes ≡ s.votes i t + 1
      → ((rf ≡ s.nodes i)
          ⊎ ((rf ≡ become_leader (s.nodes i)) × (majority (s.nodes i) ≤ s.votes i t + 1)))
      → Inv n s
      → Inv n (after_reply s i t v rf votes)
  vote-Inv n s i t v reply rf votes li lv e cand term g more outcome w =
      let on : ltb (s.votes i t) votes ≡ true = ground (arith, more) in
      let own : s.ballots i t i ≡ counted =
        subst (λ x. s.ballots i x i ≡ counted) term (w.held i li (λ p. ground arith)) in
      let counted_state = count-Inv n s i t v reply li lv e g own w in
      rw (on, more)
        (elim outcome [
          | inl same ↦
              rw same (local-Inv n _ i (s.nodes i) li (Yields-refl (s.nodes i)) counted_state)
          | inr (leads, enough) ↦
              rw leads
                (lead-Inv n _ i li cand (ground (arith, term, enough, w.sized i li)) counted_state)
        ])

  pub receive-Inv :
      (n : ℕ) (s : Cluster A) (clock : Clock) (i t v : ℕ) (reply : RequestVoteReply)
      → i < n
      → v < n
      → s.ballots i t v ≡ answered reply
      → Inv n s
      → Inv n (received clock s i t v reply)
  unfolding received
  receive-Inv n s clock i t v reply li lv e w =
      elim (handle_vote_reply_cases clock (s.nodes i) t (s.votes i t) reply) [
        | inl (y, same) ↦ discard-Inv n s i t v reply _ _ li lv e y same w
        | inr (cand, term, g, more, outcome) ↦
            vote-Inv n s i t v reply _ _ li lv e cand term g more outcome w
      ]

  pub elect-Inv :
      (n : ℕ) (s : Cluster A) (clock : Clock) (i : ℕ)
      → i < n
      → may_not_start clock (s.nodes i) ≡ false
      → Inv n s
      → Inv n (elected s i (start_election clock (s.nodes i)).0)
  unfolding elected
  elect-Inv n s clock i li free w =
      let rf = (start_election clock (s.nodes i)).0 in
      let started = start_election_started clock (s.nodes i) free in
      let raw =
        count_insert (λ d. false)
          (λ d. is_counted (if d == i then counted else asked (vote_args rf))) i n li refl
          (ground arith) (λ k ne. ground arith) in
      record {
        sized = λ j l. ground (arith, w.sized j l, w.sized i li, started);
        asked_by = λ a t d args h. ground (arith, w.asked_by a t d args, started, w.sized i li, h);
        opened = λ a t d l h. ground (arith, w.opened a t d l, started, h);
        cast = λ a t d l h. ground (arith, w.cast a t d l, started, w.sized i li, h);
        unique = λ a b t d l h k.
            ground (arith, w.unique a b t d l, w.cast a t d l, w.cast b t d l, started, h, k);
        tallied = λ a t l h. elim (Bool-cases ((i == a) && (rf.current_term == t))) [
          | inl hit ↦ ground (arith, hit, raw, count_none n, new_tally a t hit)
          | inr miss ↦ ground (arith, miss, w.tallied a t l, old_tally a t miss, h)
        ];
        held = λ j l h. ground (arith, w.held j l, started, h);
        won = λ j l h. ground (arith, w.won j l, started, w.sized i li, h);
      }
    where
      new_tally :
          (a t : ℕ)
          → ((i == a) && ((start_election clock (s.nodes i)).0.current_term == t)) ≡ true
          → tally (elected s i (start_election clock (s.nodes i)).0) n a t
            ≡ count
                (λ d. is_counted (
                  if d == i
                  then counted
                  else asked (vote_args (start_election clock (s.nodes i)).0)))
                n
      new_tally a t hit = count-cong _ _ n (λ d k. ground (arith, hit))

      old_tally :
          (a t : ℕ)
          → ((i == a) && ((start_election clock (s.nodes i)).0.current_term == t)) ≡ false
          → tally (elected s i (start_election clock (s.nodes i)).0) n a t ≡ tally s n a t
      old_tally a t miss = count-cong _ _ n (λ d k. ground (arith, miss))
