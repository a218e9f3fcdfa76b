-- ===== src/Lsm/Tree/Progress.antt =====
-- The flush worker of pkg/lsm/lsm.go gets through its queue, so that Flush returns.
use laura_db.Prelude.{
  ℕ, zero, suc, ◌*◌, ◌≤◌, ◌≡◌, inl, inr, refl, ap, subst, ◌∙◌, Option, none, some, List, [], ◌∷◌,
  length, arith, Option-cases, List-cases,
}
use laura_db.Lsm.SsTable.{Entry}
use laura_db.Lsm.Tree.{Numbered, Tree, begin_flush, start_flush, end_flush, worker_step, run_worker}
use laura_db.Lsm.Tree.Reach.{Reach, Inv}
use laura_db.Lsm.Tree.Flushes.{begin_flush-Inv, end_flush-Inv}
use laura_db.Lsm.Tree.Reads.{Reach-Inv}

-- The steps that the worker has to make
abbrev work_left : Option (ℕ × Numbered) → List Numbered → ℕ
work_left none chan = 2 * length chan
work_left (some pending) chan = suc (2 * length chan)

worker_step-Inv :
    (footer : List ℕ) (h : List Entry) (t : Tree) → Inv h t → Inv h (worker_step footer t)
unfolding worker_step
worker_step-Inv footer h t v = elim (Option-cases t.flushing) [
  | inl e ↦ rw (e, worker_step) (begin_flush-Inv h t v)
  | inr (pending, e) ↦ rw (e, worker_step) (end_flush-Inv footer h t v)
]

idle_worker : (t : Tree) → t.flushing ≡ none → t.flush_chan ≡ [] → begin_flush t ≡ t
unfolding begin_flush
idle_worker t e c = λ i. elim (e i) [
  | some pending ↦ t
  | none ↦ elim (c i) [ [] ↦ t | m ∷ rest ↦ start_flush m (record t { flush_chan = rest }) ]
]

taking_worker :
    (t : Tree) (m : Numbered) (rest : List Numbered)
    → t.flushing ≡ none
    → t.flush_chan ≡ m ∷ rest
    → begin_flush t ≡ start_flush m (record t { flush_chan = rest })
unfolding begin_flush
taking_worker t m rest e c = λ i. elim (e i) [
  | some pending ↦ t
  | none ↦ elim (c i) [ [] ↦ t | m ∷ rest ↦ start_flush m (record t { flush_chan = rest }) ]
]

end_flush-work :
    (footer : List ℕ) (t : Tree) (pending : ℕ × Numbered)
    → t.flushing ≡ some pending
    → work_left (end_flush footer t).flushing (end_flush footer t).flush_chan
      ≡ 2 * length t.flush_chan
unfolding end_flush
end_flush-work footer t pending e = rw (e, end_flush) refl

-- A step takes one off, or nothing is left.
worker_step-work :
    (footer : List ℕ) (t : Tree) (n : ℕ)
    → work_left t.flushing t.flush_chan ≤ suc n
    → work_left (worker_step footer t).flushing (worker_step footer t).flush_chan ≤ n
unfolding worker_step start_flush end_flush
worker_step-work footer t n h = elim (Option-cases t.flushing) [
  | inr (pending, e) ↦
      let h : work_left (some pending) t.flush_chan ≤ suc n =
        subst (λ f. work_left f t.flush_chan ≤ suc n) e h in
      rw (e, worker_step) (omega (arith, h, end_flush-work footer t pending e))
  | inl e ↦
      let h : work_left none t.flush_chan ≤ suc n =
        subst (λ f. work_left f t.flush_chan ≤ suc n) e h in
      elim (List-cases t.flush_chan) [
        | inl c ↦ rw (e, worker_step, idle_worker t e c) (rw (e, c) (omega arith))
        | inr (m, rest, c) ↦
            rw (e, worker_step, taking_worker t m rest e c) (omega (arith, h, ap length c))
      ]
]

idle-empty :
    (h : List Entry) (t : Tree)
    → Inv h t
    → work_left t.flushing t.flush_chan ≤ 0
    → t.immutables ≡ []
idle-empty h t v z = elim (Option-cases t.flushing) [
  | inr (pending, e) ↦
      let z : work_left (some pending) t.flush_chan ≤ 0 =
        subst (λ f. work_left f t.flush_chan ≤ 0) e z in
      absurd (omega (arith, z))
  | inl e ↦
      let z : work_left none t.flush_chan ≤ 0 = subst (λ f. work_left f t.flush_chan ≤ 0) e z in
      elim (List-cases t.flush_chan) [
        | inl c ↦ v.queue ∙ rw (e, c) refl
        | inr (m, rest, c) ↦ absurd (omega (arith, z, ap length c))
      ]
]

run_worker-empty :
    (n : ℕ) (footer : List ℕ) (h : List Entry) (t : Tree)
    → Inv h t
    → work_left t.flushing t.flush_chan ≤ n
    → (run_worker footer n t).immutables ≡ []
unfolding run_worker
run_worker-empty zero footer h t v z = idle-empty h t v z
run_worker-empty (suc n) footer h t v z =
    run_worker-empty n footer h (worker_step footer t) (worker_step-Inv footer h t v)
      (worker_step-work footer t n z)

-- After writes whose keys are not empty and whose lengths and timestamps fit their fields, twice as
-- many steps of the flush worker as there are immutable tables, while no call of Put comes, are
-- enough: no immutable table is left, which is what Flush waits for.
pub run_worker-drained :
    (h : List Entry) (t : Tree) (footer : List ℕ)
    → Reach h t
    → (run_worker footer (2 * length t.immutables) t).immutables ≡ []
run_worker-drained h t footer r =
    let v = Reach-Inv h t r in
    run_worker-empty (2 * length t.immutables) footer h t v (elim (Option-cases t.flushing) [
      | inl e ↦ rw (v.queue, e) (omega arith)
      | inr ((id, m), e) ↦ rw (v.queue, e) (omega arith)
    ])
