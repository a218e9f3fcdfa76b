-- ===== src/Distributed/Coordinator.antt =====
-- pkg/distributed/two_phase_commit.go: the coordinator of a two-phase commit. A participant is a
-- value of the `Participant` interface with a state of its own, which its methods change. In each
-- phase the goroutines call every participant once, each under the lock of its own record, so the
-- order in which they run does not show. The text of an error is not modelled.
use laura_db.Prelude.{ℕ, Bool, true, false, List, [], ◌∷◌, none, some, ◌==◌, if◌then◌else◌}
use laura_db.Prelude.Assoc.{Assoc, get, put}

pub data CoordinatorState : Type 0 where
  init preparing committing aborting committed aborted : CoordinatorState

pub data ParticipantState : Type 0 where
  init prepared committed aborted : ParticipantState

-- What a participant's method returns besides its new state: a value, or an error.
pub data Reply (A : Type 0) : Type 0 where
  ok : A → Reply A
  failed : Reply A

pub data Error : Type 0 where
  not_in_init_state already_added prepare_phase_failed not_in_preparing_state : Error
  commit_phase_failed already_committed abort_phase_had_errors not_all_voted_yes not_found : Error

pub data Result (A : Type 0) : Type 0 where
  done : A → Result A
  fail : Error → Result A

-- The interface `Participant`, over the participant's state.
pub record Participant (S : Type 0) : Type 0 where
  pub prepare : ℕ → S → S × Reply Bool
  pub commit : ℕ → S → S × Reply (Unit {0})
  pub abort : ℕ → S → S × Reply (Unit {0})

pub record ParticipantRecord (S : Type 0) : Type 0 where
  pub participant : S
  pub state : ParticipantState
  pub prepare_vote : Bool

-- `participants` is keyed by the participant's identifier.
pub record Coordinator (Key S : Type 0) : Type 0 where
  pub txn_id : ℕ
  pub state : CoordinatorState
  pub participants : Assoc Key (ParticipantRecord S)
  pub timeout : ℕ

unfoldable pub is_ok : {A : Type 0} → Reply A → Bool
is_ok (ok a) = true
is_ok failed = false

-- A vote that is YES.
unfoldable pub is_yes : Reply Bool → Bool
is_yes (ok vote) = vote
is_yes failed = false

unfoldable pub is_init : CoordinatorState → Bool
is_init init = true
is_init _ = false

unfoldable pub is_preparing : CoordinatorState → Bool
is_preparing init = false
is_preparing preparing = true
is_preparing _ = false

unfoldable pub is_committed : CoordinatorState → Bool
is_committed init = false
is_committed committed = true
is_committed _ = false

-- 30 seconds, in nanoseconds.
abbrev default_timeout : ℕ
default_timeout = 30_000_000_000

module _ {Key S : Type 0} where
  unfoldable pub new_coordinator : ℕ → ℕ → Coordinator Key S
  new_coordinator txn_id timeout = record {
    txn_id = txn_id;
    state = CoordinatorState.init;
    participants = [];
    timeout = if timeout == 0 then default_timeout else timeout;
  }

  unfoldable pub add_participant :
      Discrete Key → Coordinator Key S → Key → S → Coordinator Key S × Result (Unit {0})
  unfolding is_init get put
  add_participant dec c id s =
      if is_init c.state
      then elim (get dec id c.participants) [
        | some r ↦ (c, fail already_added)
        | none ↦
            let r : ParticipantRecord S = record {
              participant = s;
              state = ParticipantState.init;
              prepare_vote = false;
            } in
            (record c { participants = put dec id r c.participants }, done tt)
      ]
      else (c, fail not_in_init_state)

module _ {S : Type 0} where
  -- The goroutines of the phases, for one participant: the record after its answer.
  unfoldable pub prepared_record : ParticipantRecord S → S × Reply Bool → ParticipantRecord S
  prepared_record r (s, ok true) = record {
    participant = s;
    state = ParticipantState.prepared;
    prepare_vote = true;
  }
  prepared_record r (s, ok false) = record r { participant = s; prepare_vote = false }
  prepared_record r (s, failed) = record r { participant = s }

  unfoldable pub committed_record : ParticipantRecord S → S × Reply (Unit {0}) → ParticipantRecord S
  committed_record r (s, ok _) = record r { participant = s; state = ParticipantState.committed }
  committed_record r (s, failed) = record r { participant = s }

  unfoldable pub aborted_record : ParticipantRecord S → S × Reply (Unit {0}) → ParticipantRecord S
  aborted_record r (s, _) = record r { participant = s; state = ParticipantState.aborted }

  -- The answers that the channel of a phase carries.
  unfoldable pub replies :
      {Key A : Type 0} → (S → S × Reply A) → Assoc Key (ParticipantRecord S) → List (Reply A)
  replies call [] = []
  replies call ((id, r) ∷ rest) = (call r.participant).1 ∷ replies call rest
