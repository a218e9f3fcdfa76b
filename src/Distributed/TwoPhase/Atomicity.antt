-- ===== src/Distributed/TwoPhase/Atomicity.antt =====
-- pkg/distributed/two_phase_commit.go: what `Execute`, with no other call before its end, does to
-- all the participants together.
use laura_db.Prelude.{
  ℕ, ◌≡◌, refl, ap, ap₂, ◌∙◌, ◌⊎◌, if◌then◌else◌, Bool, true, false, not, List, [], ◌∷◌, arith, any,
  All, inl, inr,
}
use laura_db.Prelude.Assoc.{Assoc, map_values, map_values-map_values}
use laura_db.Distributed.Coordinator.{
  Coordinator, CoordinatorState, Participant, ParticipantRecord, ParticipantState, Reply, Result,
  ok, failed, done, fail, is_ok, is_yes, is_init, is_preparing, is_committed, prepared_record,
  committed_record, aborted_record, replies, prepare_phase_failed, commit_phase_failed,
  not_all_voted_yes,
}
use laura_db.Distributed.TwoPhase.{
  prepare_result, prepare, finish_commit, commit, abort, conclude, execute,
}

prepare_result-refused :
    (answers : List (Reply Bool))
    → any (λ r. not (is_yes r)) answers ≡ true
    → (prepare_result answers ≡ fail prepare_phase_failed) ⊎ (prepare_result answers ≡ done false)
unfolding prepare_result
prepare_result-refused answers h = ground arith

ok_of_yes :
    (answers : List (Reply Bool))
    → any (λ r. not (is_yes r)) answers ≡ false
    → any (λ r. not (is_ok r)) answers ≡ false
unfolding is_yes is_ok
ok_of_yes [] h = refl
ok_of_yes (ok true ∷ rest) h = ok_of_yes rest h
ok_of_yes (ok false ∷ rest) h = cc
ok_of_yes (failed ∷ rest) h = cc

module _ {S : Type 0} (p : Participant S) (txn : ℕ) where
  -- The record of a participant after it has been asked to prepare, to commit or to abort.
  abbrev pub after_prepare : ParticipantRecord S → ParticipantRecord S
  after_prepare r = prepared_record r (p.prepare txn r.participant)

  abbrev pub after_commit : ParticipantRecord S → ParticipantRecord S
  after_commit r = committed_record r (p.commit txn r.participant)

  abbrev pub after_abort : ParticipantRecord S → ParticipantRecord S
  after_abort r = aborted_record r (p.abort txn r.participant)

  -- The participant has voted YES and committed.
  abbrev pub IsCommitted : ParticipantRecord S → Type 0
  IsCommitted r = (r.state ≡ ParticipantState.committed) × (r.prepare_vote ≡ true)

  agreed :
      (r : ParticipantRecord S) (a : S × Reply Bool) (b : S × Reply (Unit {0}))
      → is_yes a.1 ≡ true
      → is_ok b.1 ≡ true
      → IsCommitted (committed_record (prepared_record r a) b)
  unfolding is_yes is_ok prepared_record committed_record
  agreed r (s, ok true) (s', ok u) h k = (refl, refl)
  agreed r (s, ok false) b h k = cc
  agreed r (s, failed) b h k = cc
  agreed r (s, ok true) (s', failed) h k = cc

  agreed-All :
      {Key : Type 0} (m : Assoc Key (ParticipantRecord S))
      → any (λ r. not (is_yes r)) (replies (p.prepare txn) m) ≡ false
      → any (λ r. not (is_ok r)) (replies (p.commit txn) (map_values after_prepare m)) ≡ false
      → All (λ e. IsCommitted e.1) (map_values after_commit (map_values after_prepare m))
  unfolding replies map_values
  agreed-All [] h k = tt
  agreed-All ((id, r) ∷ m) h k = (
    agreed r (p.prepare txn r.participant) (p.commit txn (after_prepare r).participant)
        (ground arith) (ground arith),
    agreed-All m (ground arith) (ground arith),
  )

  -- The answer of the participant to the commit that follows its preparation
  abbrev commit_answer : ParticipantRecord S → S × Reply (Unit {0})
  commit_answer r = p.commit txn (p.prepare txn r.participant).0

  -- The record of a participant that has voted YES and was asked to commit
  abbrev pub split_record : ParticipantRecord S → ParticipantRecord S
  split_record r = record {
    participant = (commit_answer r).0;
    state =
        if is_ok (commit_answer r).1 then ParticipantState.committed else ParticipantState.prepared;
    prepare_vote = true;
  }

  voted :
      (r : ParticipantRecord S) (a : S × Reply Bool)
      → is_yes a.1 ≡ true
      → prepared_record r a
        ≡ record { participant = a.0; state = ParticipantState.prepared; prepare_vote = true }
  unfolding is_yes prepared_record
  voted r (s, ok true) h = refl
  voted r (s, ok false) h = cc
  voted r (s, failed) h = cc

  answered :
      (r : ParticipantRecord S) (b : S × Reply (Unit {0}))
      → committed_record r b ≡ record r {
        participant = b.0;
        state = if is_ok b.1 then ParticipantState.committed else r.state;
      }
  unfolding is_ok committed_record
  answered r (s, ok u) = refl
  answered r (s, failed) = refl

  split :
      (r : ParticipantRecord S)
      → is_yes (p.prepare txn r.participant).1 ≡ true
      → after_commit (after_prepare r) ≡ split_record r
  split r h =
      ap after_commit (voted r (p.prepare txn r.participant) h) ∙ answered _ (commit_answer r)

  split-All :
      {Key : Type 0} (m : Assoc Key (ParticipantRecord S))
      → any (λ r. not (is_yes r)) (replies (p.prepare txn) m) ≡ false
      → map_values after_commit (map_values after_prepare m) ≡ map_values split_record m
  unfolding replies map_values
  split-All [] h = refl
  split-All ((id, r) ∷ m) h =
      ap₂ (λ x xs. (id, x) ∷ xs) (split r (ground arith)) (split-All m (ground arith))

module _ {Key S : Type 0} (p : Participant S) (c : Coordinator Key S) where
  -- Some participant votes NO or answers with an error.
  abbrev pub refuses : Bool
  refuses = any (λ r. not (is_yes r)) (replies (p.prepare c.txn_id) c.participants)

  -- If some participant does not vote YES, the transaction is aborted everywhere: `Execute`, with
  -- no other call before its end, fails, the coordinator ends aborted, and what every participant
  -- has been asked is to prepare and then to abort, never to commit.
  pub execute-refused :
      c.state ≡ CoordinatorState.init
      → refuses ≡ true
      → ((execute p c).0 ≡ record c {
        state = CoordinatorState.aborted;
        participants =
            map_values (λ r. after_abort p c.txn_id (after_prepare p c.txn_id r)) c.participants;
      })
        × (((execute p c).1 ≡ fail prepare_phase_failed)
            ⊎ ((execute p c).1 ≡ fail not_all_voted_yes))
  unfolding execute prepare conclude abort is_init is_committed
  execute-refused start refused =
      let fused =
        map_values-map_values (after_prepare p c.txn_id) (after_abort p c.txn_id) c.participants in
      elim (prepare_result-refused (replies (p.prepare c.txn_id) c.participants) refused) [
        | inl e ↦ (ground (arith, e, fused), ground (arith, e))
        | inr e ↦ (ground (arith, e, fused), ground (arith, e))
      ]

  prepare-yes :
      (prepare p c).1 ≡ done true
      → (refuses ≡ false)
        × ((prepare p c).0 ≡ record c {
          state = CoordinatorState.preparing;
          participants = map_values (after_prepare p c.txn_id) c.participants;
        })
  unfolding prepare prepare_result
  prepare-yes h = ground arith

module _ {Key S : Type 0} (p : Participant S) (c : Coordinator Key S) where
  commit-done :
      (commit p c).1 ≡ done tt
      → (any (λ r. not (is_ok r)) (replies (p.commit c.txn_id) c.participants) ≡ false)
        × ((commit p c).0 ≡ record c {
          state = CoordinatorState.committed;
          participants = map_values (after_commit p c.txn_id) c.participants;
        })
  unfolding commit finish_commit
  commit-done h = ground arith

  conclude-done :
      (answer : Result Bool)
      → (conclude p c answer).1 ≡ done tt
      → (answer ≡ done true) × ((commit p c).1 ≡ done tt)
  unfolding conclude
  conclude-done (fail e) h = cc
  conclude-done (done false) h = cc
  conclude-done (done true) h = (refl, h)

module _ {Key S : Type 0} (p : Participant S) (c : Coordinator Key S) where
  -- `Execute`, with no other call before its end, succeeds only if every participant has voted YES
  -- and is recorded as committed.
  pub execute-agreed :
      (execute p c).1 ≡ done tt
      → ((execute p c).0.state ≡ CoordinatorState.committed)
        × (refuses p c ≡ false)
        × All (λ e. IsCommitted p c.txn_id e.1) (execute p c).0.participants
  unfolding execute conclude
  execute-agreed h =
      let (yes_all, run_commit) = conclude-done p (prepare p c).0 (prepare p c).1 h in
      let (agree, prepared) = prepare-yes p c yes_all in
      let (all_ok, committed) = commit-done p (prepare p c).0 run_commit in
      let end : Coordinator Key S → Coordinator Key S = λ x. record x {
        state = CoordinatorState.committed;
        participants = map_values (after_commit p x.txn_id) x.participants;
      } in
      let final : (execute p c).0
          ≡ end (record c {
            state = CoordinatorState.preparing;
            participants = map_values (after_prepare p c.txn_id) c.participants;
          }) =
        ap (λ (a : Result Bool). (conclude p (prepare p c).0 a).0) yes_all
        ∙ (committed ∙ ap end prepared) in
      rw final (refl, agree, agreed-All p c.txn_id c.participants agree (rw prepared at all_ok))

  -- A commit that fails at one participant does not undo the others: where every participant has
  -- voted YES and some answer to the commit is an error, `Execute`, with no other call before its
  -- end, fails and the coordinator ends
  -- aborted, and each participant, asked to prepare and then to commit and never to abort, is
  -- recorded as committed if it answered the commit without an error and as prepared if it did not.
  pub execute-partial :
      c.state ≡ CoordinatorState.init
      → refuses p c ≡ false
      → any
          (λ r. not (is_ok r))
          (replies (p.commit c.txn_id) (map_values (after_prepare p c.txn_id) c.participants))
        ≡ true
      → execute p c ≡ (
        record c {
          state = CoordinatorState.aborted;
          participants = map_values (split_record p c.txn_id) c.participants;
        },
        fail commit_phase_failed,
      )
  unfolding execute prepare prepare_result conclude commit finish_commit is_init is_preparing
  execute-partial start agree broken =
      rw (← split-All p c.txn_id c.participants agree)
        (ground (arith, ok_of_yes (replies (p.prepare c.txn_id) c.participants) agree))
