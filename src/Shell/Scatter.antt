-- ===== src/Shell/Scatter.antt =====
-- `scatter` of src/js.cpp: `RunScatterThread`, `DoScatteredWork` and the part of `Scatter` from the
-- creation of the threads to the last join, as one machine whose threads interleave in any order.
-- Each step is one section under the lock, or what a thread does between two of them. A thread that
-- waits on the condition variable is awakened by its notification only.
pub mod Barrier
pub mod Steps
pub mod Ending
pub mod Bound
pub mod Setup
use sysjs.Host.{JsVal, void}
use sysjs.Prelude.{Bool, false, suc, true, update, ℕ, ◌<◌, ◌≡◌}

pub data ScatterStatus : Type 0 where
  scatter_wait scatter_go scatter_cancel : ScatterStatus

-- How a call of a function of the array ends: with a value, with an exception that is pending, or
-- without one.
pub data Called : Type 0 where
  answered raised : JsVal → Called
  ended_silently : Called

-- What `DoScatteredWork` leaves in the result.
abbrev pub do_scattered_work : Called → JsVal
do_scattered_work (answered v) = v
do_scattered_work (raised v) = v
do_scattered_work ended_silently = void

-- Where `RunScatterThread` stands: not created, before PR_SetThreadPrivate, at the test of the
-- status, in PR_WaitCondVar, at its work, behind its work, or returned without it.
pub data ThreadAt : Type 0 where
  absent unset testing asleep working worked gave_up : ThreadAt

-- Where `Scatter` stands: it creates thread `i`, does its own work, joins thread `i`, joins thread
-- `i - 1` after a failed creation, or is at its end, with `ok`.
pub data MainAt : Type 0 where
  creating : ℕ → MainAt
  own_work : MainAt
  joining : ℕ → MainAt
  cancelling : ℕ → MainAt
  over : Bool → MainAt

pub record Scattered : Type 0 where
  pub status : ScatterStatus
  pub results : ℕ → JsVal
  pub threads : ℕ → ThreadAt
  pub main : MainAt

-- What NSPR and the engine answer: whether PR_SetThreadPrivate succeeds in thread `i`, and how the
-- call of function `i` ends.
pub record Workers : Type 0 where
  pub private_set : ℕ → Bool
  pub call : ℕ → Called

-- `PR_NotifyAllCondVar`, with the lock held.
abbrev pub notify_all : (ℕ → ThreadAt) → ℕ → ThreadAt
notify_all threads j = elim (threads j) [ asleep ↦ testing | t ↦ t ]

-- The threads that are joined have returned.
abbrev pub Returned : ThreadAt → Type 0
Returned worked = Unit {0}
Returned gave_up = Unit
Returned t = ⊥ × Unit

-- A step of `RunScatterThread` in thread `i`, under a status, with the result that it leaves.
pub data WorkerStep (workers : Workers) (status : ScatterStatus) (i : ℕ) (r : JsVal)
    : ThreadAt → ThreadAt → JsVal → Type 0 where
  sets : workers.private_set i ≡ true → WorkerStep workers status i r unset testing r
  cannot_set : workers.private_set i ≡ false → WorkerStep workers status i r unset gave_up r
  waits : status ≡ scatter_wait → WorkerStep workers status i r testing asleep r
  goes : status ≡ scatter_go → WorkerStep workers status i r testing working r
  cancels : status ≡ scatter_cancel → WorkerStep workers status i r testing gave_up r
  works : WorkerStep workers status i r working worked (do_scattered_work (workers.call i))

pub data Step (workers : Workers) (n : ℕ) (s : Scattered) : Scattered → Type 0 where
  worker :
      (i : ℕ) {t : ThreadAt} {v : JsVal}
      → 0 < i
      → i < n
      → WorkerStep workers s.status i (s.results i) (s.threads i) t v
      → Step workers n s
          (record s { threads = update s.threads i t; results = update s.results i v })
  creates :
      (i : ℕ)
      → s.main ≡ creating i
      → i < n
      → Step workers n s (record s { threads = update s.threads i unset; main = creating (suc i) })
  cannot_create :
      (i : ℕ)
      → s.main ≡ creating i
      → i < n
      → Step workers n s (record s {
        status = scatter_cancel;
        threads = notify_all s.threads;
        main = cancelling i;
      })
  starts_all :
      s.main ≡ creating n
      → Step workers n s
          (record s { status = scatter_go; threads = notify_all s.threads; main = own_work })
  works_itself :
      s.main ≡ own_work
      → Step workers n s (record s {
        results = update s.results 0 (do_scattered_work (workers.call 0));
        main = joining 1;
      })
  joins :
      (i : ℕ)
      → s.main ≡ joining i
      → i < n
      → Returned (s.threads i)
      → Step workers n s (record s { main = joining (suc i) })
  joined_all : s.main ≡ joining n → Step workers n s (record s { main = over true })
  joins_cancelled :
      (i : ℕ)
      → s.main ≡ cancelling (suc i)
      → 0 < i
      → Returned (s.threads i)
      → Step workers n s (record s { main = cancelling i })
  cancelled_all : s.main ≡ cancelling 1 → Step workers n s (record s { main = over false })

-- What is reached in `k` steps from the state before the first thread is created, the results all
-- set to void.
abbrev pub scattering : Scattered
scattering = record {
  status = scatter_wait;
  results = λ i. void;
  threads = λ i. absent;
  main = creating 1;
}

pub data Reach (workers : Workers) (n : ℕ) : ℕ → Scattered → Type 0 where
  begins : Reach workers n 0 scattering
  then_step :
      {k : ℕ} {s t : Scattered}
      → Reach workers n k s
      → Step workers n s t
      → Reach workers n (suc k) t
