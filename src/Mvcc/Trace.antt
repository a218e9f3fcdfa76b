-- ===== src/Mvcc/Trace.antt =====
-- pkg/mvcc: the calls that clients make of a transaction manager, as a sequence of steps in which
-- the transactions interleave, and the collection that runs behind them.
pub mod Invariant
pub mod Preservation
pub mod Isolation
pub mod Atomicity
pub mod LostUpdate
pub mod Collection
use laura_db.Prelude.{ℕ, List, [], ◌∷◌, Option}
use laura_db.Mvcc.Manager.{TransactionManager, begin, abort, maybe_garbage_collect}
use laura_db.Mvcc.Access
use laura_db.Mvcc.Commit.{commit}

pub data Call {ℓ} (K V : Type ℓ) : Type ℓ where
  begins : ℕ → Call K V
  reads : ℕ → K → Call K V
  writes : ℕ → K → Option V → Call K V
  deletes : ℕ → K → Call K V
  commits : ℕ → ℕ → Call K V
  aborts : ℕ → Call K V
  collects : Call K V

module _ {ℓ} {K V : Type ℓ} (dec : Discrete K) where
  unfoldable pub step : TransactionManager K V → Call K V → TransactionManager K V
  unfolding begin Access.read Access.write Access.delete commit abort maybe_garbage_collect
  step tm (begins now) = (begin tm now).0
  step tm (reads addr key) = (Access.read dec tm addr key).0
  step tm (writes addr key value) = (Access.write dec tm addr key value).0
  step tm (deletes addr key) = (Access.delete dec tm addr key).0
  step tm (commits addr now) = (commit dec tm addr now).0
  step tm (aborts addr) = (abort tm addr).0
  step tm collects = maybe_garbage_collect tm

  unfoldable pub run : TransactionManager K V → List (Call K V) → TransactionManager K V
  unfolding step
  run tm [] = tm
  run tm (c ∷ cs) = run (step tm c) cs
