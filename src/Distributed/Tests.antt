-- ===== src/Distributed/Tests.antt =====
-- pkg/distributed: runs of a coordinator over participants that answer by their state.
use laura_db.Prelude.{
  ℕ, ◌+◌, ◌≡◌, refl, ◌⊎◌, false, not, [], ◌∷◌, ◌==◌, if◌then◌else◌, All, ℕ_discrete,
}
use laura_db.Prelude.Assoc.{map_values}
use laura_db.Distributed.Coordinator.{
  Coordinator, CoordinatorState, Participant, ParticipantRecord, ParticipantState, ok, failed, fail,
  prepare_phase_failed, commit_phase_failed, not_all_voted_yes, add_participant, new_coordinator,
}
use laura_db.Distributed.TwoPhase.{prepare, commit, abort, execute}
use laura_db.Distributed.TwoPhase.Atomicity.{
  refuses, after_prepare, after_abort, IsCommitted, execute-refused, execute-agreed,
  execute-partial, split_record,
}
use laura_db.Distributed.TwoPhase.Lifecycle.{Reach, here, next, adds, executes, aborts, Reach-final}

program : Unit {0}
unfolding execute prepare commit abort add_participant new_coordinator ℕ_discrete
program = tt

-- 9 votes NO, and the commit of 5 fails.
abbrev stub : Participant ℕ
stub = record {
  prepare = λ t s. (s, ok (not (s == 9)));
  commit = λ t s. (s + 100, if s == 5 then failed else ok tt);
  abort = λ t s. (s + 200, ok tt);
}

abbrev entry : ℕ → ParticipantRecord ℕ
entry s = record { participant = s; state = ParticipantState.init; prepare_vote = false }

abbrev over : ℕ → ℕ → Coordinator ℕ ℕ
over a b = record {
  txn_id = 1;
  state = CoordinatorState.init;
  participants = (1, entry a) ∷ (2, entry b) ∷ [];
  timeout = 30;
}

execute-refused_example :
    ((execute stub (over 4 9)).0 ≡ record (over 4 9) {
      state = CoordinatorState.aborted;
      participants =
          map_values (λ r. after_abort stub 1 (after_prepare stub 1 r)) (over 4 9).participants;
    })
    × (((execute stub (over 4 9)).1 ≡ fail prepare_phase_failed)
        ⊎ ((execute stub (over 4 9)).1 ≡ fail not_all_voted_yes))
unfolding program
execute-refused_example = execute-refused stub (over 4 9) refl refl

execute-agreed_example :
    ((execute stub (over 4 6)).0.state ≡ CoordinatorState.committed)
    × (refuses stub (over 4 6) ≡ false)
    × All (λ e. IsCommitted stub 1 e.1) (execute stub (over 4 6)).0.participants
unfolding program
execute-agreed_example = execute-agreed stub (over 4 6) refl

execute-partial_example : execute stub (over 4 5) ≡ (
  record (over 4 5) {
    state = CoordinatorState.aborted;
    participants = map_values (split_record stub 1) (over 4 5).participants;
  },
  fail commit_phase_failed,
)
unfolding program
execute-partial_example = execute-partial stub (over 4 5) refl refl refl

abbrev finished : Coordinator ℕ ℕ
unfolding program
finished = (execute stub (add_participant ℕ_discrete (new_coordinator 1 0) 1 4).0).0

finished-Reach : Reach ℕ_discrete stub (new_coordinator 1 0) finished
unfolding program
finished-Reach = next (next here (adds 1 4 refl)) (executes refl)

Reach-final_example :
    All (λ e. e.1.state ≡ ParticipantState.committed) finished.participants
    × ((abort stub finished).0 ≡ finished)
unfolding program
Reach-final_example = Reach-final ℕ_discrete stub 1 0 finished-Reach refl (next here (aborts refl))
