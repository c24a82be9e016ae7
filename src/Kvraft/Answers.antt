-- ===== src/Kvraft/Answers.antt =====
-- src/kvraft1/client.go: what a call of Put makes of its answers.
use raft_sharded_kv.Prelude.{
  ℕ, zero, suc, String, Map, ◌≡◌, ◌≢◌, ◌⊎◌, inl, inr, refl, sym, ◌∙◌, ap, arith, List, [], ◌∷◌,
  Option, none, some, Option-cases, get_elem?, ◌++◌,
}
use raft_sharded_kv.Rpc.{Err, PutArgs}
use raft_sharded_kv.Kvraft.Server.{ValueEntry, put_locked}
use raft_sharded_kv.Kvraft.Clerk.{
  final, again, put_verdict, Commit, copy, Copy, World, commit, commits, Answer, no_answer, refusal,
  reply_of, copy_error, error_of, Round, decided,
}
use raft_sharded_kv.Kvraft.Copies.{Once}

abbrev pub first_copy : List Copy → Option Copy
first_copy [] = none
first_copy (c ∷ []) = some c
first_copy (c ∷ d ∷ rest) = first_copy (d ∷ rest)

-- An executed copy has the reply of the first one, which is that of the Put.
Once-first :
    (args : PutArgs) (c : Copy) (cs : List Copy) (j : ℕ) (d : Copy)
    → Once args (c ∷ cs)
    → get_elem? (c ∷ cs) j ≡ some d
    → (first : Copy) × (first_copy (c ∷ cs) ≡ some first)
      × (c.reply ≡ first.reply)
      × (d.reply ≡ first.reply)
      × (first.reply ≡ (put_locked args first.before).0)
Once-first args c [] zero d once e =
    (c, refl, refl, ap (λ x. x.reply) (let same : c ≡ d = cc e in sym same), sym once.0)
Once-first args c [] (suc j) d once e = absurd (cc e)
Once-first args c (b ∷ rest) zero d once e =
    let (first, is_first, same, other, wrote) = Once-first args b rest zero b once.2 refl in
    let eq : c ≡ d = cc e in
    (first, is_first, once.0 ∙ same, ap (λ x. x.reply) (sym eq) ∙ once.0 ∙ same, wrote)
Once-first args c (b ∷ rest) (suc j) d once e =
    let (first, is_first, same, other, wrote) = Once-first args b rest j d once.2 e in
    (first, is_first, once.0 ∙ same, other, wrote)

put_locked_final :
    (args : PutArgs) (values : Map String ValueEntry)
    → put_verdict (put_locked args values).0.err ≡ final (put_locked args values).0.err
unfolding put_locked put_verdict
put_locked_final args values = ground arith

-- What a call has told when it returns: the error of the first execution.
abbrev pub Told : List Copy → Err → Type 0
Told cs err = (first : Copy) × (first_copy cs ≡ some first) × (first.reply.err ≡ err)

pub verdict_lem :
    (args : PutArgs) (cs : List Copy) (answer : Answer)
    → Once args cs
    → (decided (error_of cs answer) ≡ again)
      ⊎ ((err : Err) × (decided (error_of cs answer) ≡ final err) × Told cs err)
unfolding put_verdict
verdict_lem args cs no_answer once = inl refl
verdict_lem args cs refusal once = inl refl
verdict_lem args [] (reply_of j) once = inl refl
verdict_lem args (c ∷ cs) (reply_of j) once = elim (Option-cases (get_elem? (c ∷ cs) j)) [
  | inl missing ↦ inl (ap (λ o. decided (copy_error o)) missing)
  | inr (d, e) ↦
      let (first, is_first, same, other, wrote) = Once-first args c cs j d once e in
      inr (
        first.reply.err,
        ap (λ o. decided (copy_error o)) e
            ∙ ap (λ r. put_verdict r.err) (other ∙ wrote)
            ∙ put_locked_final args first.before
            ∙ ap (λ r. final r.err) (sym wrote),
        (first, is_first, refl),
      )
]

-- In one of the attempts the request sent is committed at the end, and the reply to it arrives.
abbrev pub HasReply : List Round → Type 0
HasReply [] = ⊥
HasReply (r ∷ rest) =
    ((cs : List Commit) × (r.committed ≡ cs ++ (copy 0 ∷ [])) × (r.answer ≡ reply_of 0))
    ⊎ HasReply rest

commits_end :
    (args : PutArgs) (ack : ℕ) (sent : List ℕ) (cs : List Commit) (w : World)
    → (c : Copy) × (rest : List Copy) × ((commits args (ack ∷ sent) (cs ++ (copy 0 ∷ [])) w).copies
        ≡ c ∷ rest)
unfolding commits
commits_end args ack sent [] w = (_, _, refl)
commits_end args ack sent (c ∷ cs) w = commits_end args ack sent cs (commit args (ack ∷ sent) c w)

reply_final :
    (args : PutArgs) (c : Copy) (cs : List Copy)
    → Once args (c ∷ cs)
    → decided (error_of (c ∷ cs) (reply_of 0)) ≢ again
reply_final args c cs once e =
    let (first, is_first, same, other, wrote) = Once-first args c cs zero c once refl in
    let v : put_verdict c.reply.err ≡ final (put_locked args first.before).0.err =
      ap (λ r. put_verdict r.err) (other ∙ wrote) ∙ put_locked_final args first.before in
    cc (v, e)

pub answered_final :
    (args : PutArgs) (ack : ℕ) (sent : List ℕ) (r : Round) (w : World)
    → HasReply (r ∷ [])
    → Once args (commits args (ack ∷ sent) r.committed w).copies
    → decided (error_of (commits args (ack ∷ sent) r.committed w).copies r.answer) ≢ again
answered_final args ack sent r w (inl (cs, committed, answered)) once e =
    let (c, rest, copies) = commits_end args ack sent cs w in
    reply_final args c rest (rw (committed, copies) at once) (rw (committed, copies, answered) at e)
answered_final args ack sent r w (inr none_left) once e = none_left
