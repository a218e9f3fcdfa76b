-- ===== src/Distributed/TwoPhase/Lifecycle.antt =====
-- pkg/distributed/two_phase_commit.go: the states of a coordinator over any sequence of calls that
-- do not overlap.
use laura_db.Prelude.{
  ℕ, ◌≡◌, refl, ap, ◌∙◌, Bool, true, false, not, [], ◌∷◌, arith, any, All, inl, inr, Bool-cases,
  Option-cases,
}
use laura_db.Prelude.Assoc.{Assoc, get, map_values}
use laura_db.Distributed.Coordinator.{
  Coordinator, CoordinatorState, Participant, ParticipantRecord, ParticipantState, Reply, Error,
  Result, ok, failed, done, fail, is_ok, is_init, is_preparing, is_committed, committed_record,
  replies, new_coordinator, add_participant,
}
use laura_db.Distributed.TwoPhase.{prepare, finish_commit, commit, abort, conclude, execute}

-- A committed coordinator has a committed record for every participant.
abbrev pub IsConsistent : {Key S : Type 0} → Coordinator Key S → Type 0
IsConsistent c =
    c.state ≡ CoordinatorState.committed
    → All (λ e. e.1.state ≡ ParticipantState.committed) c.participants

init-ne-committed : (s : CoordinatorState) → is_init s ≡ true → s ≡ CoordinatorState.committed → ⊥
unfolding is_init
init-ne-committed s e h = cc (rw h at e)

module _ {Key S : Type 0} (p : Participant S) (c : Coordinator Key S) where
  module _ (end : c.state ≡ CoordinatorState.committed) where
    committed-prepare : prepare p c ≡ (c, fail Error.not_in_init_state)
    unfolding prepare is_init
    committed-prepare = ground arith

    committed-commit : (commit p c).0 ≡ c
    unfolding commit is_preparing
    committed-commit = ground arith

    committed-abort : (abort p c).0 ≡ c
    unfolding abort is_committed
    committed-abort = ground arith

    committed-execute : (execute p c).0 ≡ c
    unfolding execute conclude
    committed-execute = rw committed-prepare committed-abort

  prepare-IsConsistent : IsConsistent c → IsConsistent (prepare p c).0
  unfolding prepare
  prepare-IsConsistent h = elim (Bool-cases (is_init c.state)) [
    | inl e ↦ rw e (λ end. cc)
    | inr e ↦ rw e h
  ]

  abort-IsConsistent : IsConsistent c → IsConsistent (abort p c).0
  unfolding abort
  abort-IsConsistent h = elim (Bool-cases (is_committed c.state)) [
    | inl e ↦ rw e h
    | inr e ↦ rw e (λ end. cc)
  ]

  committed-All :
      (m : Assoc Key (ParticipantRecord S))
      → any (λ r. not (is_ok r)) (replies (p.commit c.txn_id) m) ≡ false
      → All
          (λ e. e.1.state ≡ ParticipantState.committed)
          (map_values (λ r. committed_record r (p.commit c.txn_id r.participant)) m)
  unfolding replies map_values committed_record is_ok
  committed-All [] h = tt
  committed-All ((id, r) ∷ m) h =
      (one r (p.commit c.txn_id r.participant) (ground arith), committed-All m (ground arith))
    where
      one :
          (r : ParticipantRecord S) (a : S × Reply (Unit {0}))
          → is_ok a.1 ≡ true
          → (committed_record r a).state ≡ ParticipantState.committed
      one r (s, ok u) h = refl
      one r (s, failed) h = cc

  commit-IsConsistent : IsConsistent c → IsConsistent (commit p c).0
  unfolding commit finish_commit
  commit-IsConsistent h = elim (Bool-cases (is_preparing c.state)) [
    | inl e ↦
        rw e
          (elim (Bool-cases
            (any (λ r. not (is_ok r)) (replies (p.commit c.txn_id) c.participants))) [
              | inl broken ↦ rw broken (λ end. cc)
              | inr fine ↦ rw fine (λ end. committed-All c.participants fine)
            ])
    | inr e ↦ rw e h
  ]

module _ {Key S : Type 0} (p : Participant S) where
  conclude-IsConsistent :
      (c : Coordinator Key S) (answer : Result Bool)
      → IsConsistent c
      → IsConsistent (conclude p c answer).0
  unfolding conclude
  conclude-IsConsistent c (fail e) h = abort-IsConsistent p c h
  conclude-IsConsistent c (done false) h = abort-IsConsistent p c h
  conclude-IsConsistent c (done true) h = commit-IsConsistent p c h

module _ {Key S : Type 0} (dec : Discrete Key) (p : Participant S) where
  -- A call on the coordinator.
  pub data Step (c d : Coordinator Key S) : Type 0 where
    adds : (id : Key) (s : S) → d ≡ (add_participant dec c id s).0 → Step c d
    prepares : d ≡ (prepare p c).0 → Step c d
    commits : d ≡ (commit p c).0 → Step c d
    aborts : d ≡ (abort p c).0 → Step c d
    executes : d ≡ (execute p c).0 → Step c d

  pub data Reach (c : Coordinator Key S) : Coordinator Key S → Type 0 where
    here : Reach c c
    next : {d e : Coordinator Key S} → Reach c d → Step d e → Reach c e

  add_participant-IsConsistent :
      (c : Coordinator Key S) (id : Key) (s : S)
      → IsConsistent c
      → IsConsistent (add_participant dec c id s).0
  unfolding add_participant
  add_participant-IsConsistent c id s h = elim (Bool-cases (is_init c.state)) [
    | inl e ↦ elim (Option-cases (get dec id c.participants)) [
      | inl q ↦ rw (e, q, add_participant) (λ end. absurd (init-ne-committed c.state e end))
      | inr (r, q) ↦ rw (e, q, add_participant) h
    ]
    | inr e ↦ rw e h
  ]

  Step-IsConsistent : {c d : Coordinator Key S} → Step c d → IsConsistent c → IsConsistent d
  unfolding execute
  Step-IsConsistent {c} (adds id s e) h = rw e (add_participant-IsConsistent c id s h)
  Step-IsConsistent {c} (prepares e) h = rw e (prepare-IsConsistent p c h)
  Step-IsConsistent {c} (commits e) h = rw e (commit-IsConsistent p c h)
  Step-IsConsistent {c} (aborts e) h = rw e (abort-IsConsistent p c h)
  Step-IsConsistent {c} (executes e) h =
      rw e (conclude-IsConsistent p (prepare p c).0 (prepare p c).1 (prepare-IsConsistent p c h))

  Step-committed :
      {c d : Coordinator Key S} → Step c d → c.state ≡ CoordinatorState.committed → d ≡ c
  unfolding add_participant is_init
  Step-committed (adds id s e) h = ground arith
  Step-committed {c} (prepares e) h =
      e ∙ ap (λ (x : Coordinator Key S × Result Bool). x.0) (committed-prepare p c h)
  Step-committed {c} (commits e) h = e ∙ committed-commit p c h
  Step-committed {c} (aborts e) h = e ∙ committed-abort p c h
  Step-committed {c} (executes e) h = e ∙ committed-execute p c h

  Reach-IsConsistent : {c d : Coordinator Key S} → IsConsistent c → Reach c d → IsConsistent d
  Reach-IsConsistent h here = h
  Reach-IsConsistent h (next r s) = Step-IsConsistent s (Reach-IsConsistent h r)

  Reach-committed :
      {c d : Coordinator Key S} → Reach c d → c.state ≡ CoordinatorState.committed → d ≡ c
  Reach-committed here h = refl
  Reach-committed (next r s) h =
      let same = Reach-committed r h in
      Step-committed s (ap (λ (x : Coordinator Key S). x.state) same ∙ h) ∙ same

  -- Over calls that do not overlap, each one ending before the next begins, a coordinator that
  -- starts without participants and gets to the committed state has a committed record for each
  -- participant, and no later call changes it.
  pub Reach-final :
      (txn_id timeout : ℕ) {c d : Coordinator Key S}
      → Reach (new_coordinator txn_id timeout) c
      → c.state ≡ CoordinatorState.committed
      → Reach c d
      → All (λ e. e.1.state ≡ ParticipantState.committed) c.participants × (d ≡ c)
  unfolding new_coordinator
  Reach-final txn_id timeout r h later =
      (Reach-IsConsistent (λ start. tt) r h, Reach-committed later h)
