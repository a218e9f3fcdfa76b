-- ===== src/Mvcc/Trace/Atomicity.antt =====
-- pkg/mvcc: a commit takes effect as a whole, and a failed one not at all.
use laura_db.Prelude.{ℕ, suc, ◌≡◌, some, leb, if◌then◌else◌, Bool-cases, inl, inr}
use laura_db.Prelude.Assoc.{get}
use laura_db.Mvcc.VersionStore.{get_version}
use laura_db.Mvcc.Manager.{Transaction, TransactionManager, ok, active, find_txn}
use laura_db.Mvcc.Commit.{commit, commit_txn, has_conflict}
use laura_db.Mvcc.Commit.Effect.{answer, get_version-install}
use laura_db.Mvcc.Trace.Invariant.{Inv}
use laura_db.Mvcc.Trace.Preservation.{HasRoom}
use laura_db.Mvcc.Trace.Isolation.{with_active_lem}

module _ {ℓ} {K V : Type ℓ} (dec : Discrete K) where
  -- After a commit that succeeds, a snapshot taken from now on finds every write of the transaction
  -- and for the other keys what was there; an older snapshot finds what it found.
  pub get_version-commit :
      (tm : TransactionManager K V) (a now : ℕ) (t : Transaction K V) (j : K) (s : ℕ)
      → HasRoom 1 tm
      → Inv dec tm
      → find_txn tm a ≡ some t
      → t.state ≡ active
      → (commit dec tm a now).1 ≡ ok tt
      → get_version dec (commit dec tm a now).0.version_store j s ≡ (
          if leb (suc tm.next_version) s
          then answer (get dec j t.write_set) (get_version dec tm.version_store j s)
          else get_version dec tm.version_store j s)
  unfolding commit
  get_version-commit tm a now t j s room v e act done =
      let run_body = with_active_lem dec tm a t (commit_txn dec tm a now) e act in
      let d = (v.sound a t e).snapshot.writes_distinct in
      elim (Bool-cases (has_conflict dec tm.version_store t)) [
        | inl c ↦ cc (rw (run_body, c, commit_txn) at done)
        | inr c ↦ rw (run_body, c, commit_txn) (get_version-install dec tm a now t room.0 d j s)
      ]
