-- ===== src/Distributed/TwoPhase.antt =====
-- pkg/distributed/two_phase_commit.go: the phases `Prepare`, `Commit` and `Abort` of a coordinator,
-- and `Execute`, which runs them. Each call is one step: calls do not overlap. In the source the lock
-- is free while the participants answer, so that an Abort may run in the middle of a Commit, and a
-- Commit in the middle of a Prepare; such runs are not modelled.
pub mod Atomicity
pub mod Lifecycle
use laura_db.Prelude.{
  ℕ, Bool, true, false, not, List, [], ◌∷◌, Option, none, some, if◌then◌else◌, any, length,
}
use laura_db.Prelude.Assoc.{Assoc, get, map_values}
use laura_db.Distributed.Coordinator.{
  Coordinator, CoordinatorState, Participant, ParticipantRecord, ParticipantState, Reply, Error,
  Result, done, fail, is_ok, is_yes, is_preparing, is_init, is_committed, prepared_record,
  committed_record, aborted_record, replies, not_in_init_state, prepare_phase_failed,
  not_in_preparing_state, commit_phase_failed, already_committed, abort_phase_had_errors,
  not_all_voted_yes, not_found,
}

-- The answer of `Prepare`: the vote of all, or an error if some participant answered with one.
unfoldable pub prepare_result : List (Reply Bool) → Result Bool
unfolding is_ok is_yes
prepare_result answers =
    if any (λ r. not (is_ok r)) answers
    then fail prepare_phase_failed
    else done (not (any (λ r. not (is_yes r)) answers))

-- The end of `Abort`: errors are reported, and change nothing.
unfoldable pub abort_result : List (Reply (Unit {0})) → Result (Unit {0})
unfolding is_ok
abort_result answers =
    if any (λ r. not (is_ok r)) answers then fail abort_phase_had_errors else done tt

module _ {Key S : Type 0} (p : Participant S) where
  -- `Prepare`, with no other call before its end
  unfoldable pub prepare : Coordinator Key S → Coordinator Key S × Result Bool
  unfolding is_init map_values prepared_record replies prepare_result
  prepare c =
      let call = p.prepare c.txn_id in
      if is_init c.state
      then (
        record c {
          state = CoordinatorState.preparing;
          participants = map_values (λ r. prepared_record r (call r.participant)) c.participants;
        },
        prepare_result (replies call c.participants),
      )
      else (c, fail not_in_init_state)

  -- The end of `Commit`: the coordinator is committed if every participant is.
  unfoldable pub finish_commit :
      Coordinator Key S → List (Reply (Unit {0})) → Coordinator Key S × Result (Unit {0})
  unfolding is_ok
  finish_commit c answers =
      if any (λ r. not (is_ok r)) answers
      then (record c { state = CoordinatorState.aborted }, fail commit_phase_failed)
      else (record c { state = CoordinatorState.committed }, done tt)

  -- `Commit`, with no other call before its end
  unfoldable pub commit : Coordinator Key S → Coordinator Key S × Result (Unit {0})
  unfolding is_preparing map_values committed_record replies finish_commit
  commit c =
      let call = p.commit c.txn_id in
      let committed = map_values (λ r. committed_record r (call r.participant)) c.participants in
      let c' : Coordinator Key S = record c {
        state = CoordinatorState.committing;
        participants = committed;
      } in
      if is_preparing c.state
      then finish_commit c' (replies call c.participants)
      else (c, fail not_in_preparing_state)

  -- `Abort`, with no other call before its end
  unfoldable pub abort : Coordinator Key S → Coordinator Key S × Result (Unit {0})
  unfolding is_committed map_values aborted_record replies abort_result
  abort c =
      let call = p.abort c.txn_id in
      if is_committed c.state then (c, fail already_committed) else (
        record c {
          state = CoordinatorState.aborted;
          participants = map_values (λ r. aborted_record r (call r.participant)) c.participants;
        },
        abort_result (replies call c.participants),
      )

  -- What `Execute` does with the answer of `Prepare`.
  unfoldable pub conclude : Coordinator Key S → Result Bool → Coordinator Key S × Result (Unit {0})
  unfolding commit abort
  conclude c (fail e) = ((abort c).0, fail prepare_phase_failed)
  conclude c (done false) = ((abort c).0, fail not_all_voted_yes)
  conclude c (done true) = commit c

  unfoldable pub execute : Coordinator Key S → Coordinator Key S × Result (Unit {0})
  unfolding prepare conclude
  execute c = let (c', answer) = prepare c in conclude c' answer

unfoldable pub get_participant_state :
    {Key S : Type 0} → Discrete Key → Coordinator Key S → Key → Result ParticipantState
unfolding get
get_participant_state dec c id = elim (get dec id c.participants) [
  | none ↦ fail not_found
  | some r ↦ done r.state
]

pub get_participant_count : {Key S : Type 0} → Coordinator Key S → ℕ
get_participant_count c = length c.participants
