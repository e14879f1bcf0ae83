-- ===== src/Shell/Scatter/Bound.antt =====
-- `Scatter` (src/js.cpp) comes to its end: every step of its machine takes from a number that is at
-- first at most six for each function.
use sysjs.Host.{JsVal}
use sysjs.Prelude.{
  ap, arith, refl, subst, sym, weight_below, weight_below_mono, weight_below-none,
  weight_below-update, ℕ, ◌*◌, ◌+◌, ◌-◌, ◌<◌, ◌≡◌, ◌≢◌, ◌≤◌,
}
use sysjs.Shell.Scatter.{
  MainAt, Reach, ScatterStatus, Scattered, Step, ThreadAt, WorkerStep, Workers, absent, asleep,
  begins, cancelled_all, cancelling, cancels, cannot_create, cannot_set, creates, creating, gave_up,
  goes, joined_all, joining, joins, joins_cancelled, notify_all, over, own_work, scatter_cancel,
  scatter_go, scatter_wait, sets, starts_all, testing, then_step, unset, waits, worked, worker,
  working, works, works_itself,
}
use sysjs.Shell.Scatter.Barrier.{IsSound}
use sysjs.Shell.Scatter.Steps.{Reach-IsSound, main_at}

-- What a thread can still do, at most.
abbrev steps_of : ScatterStatus → ThreadAt → ℕ
steps_of status absent = 0
steps_of status unset = 4
steps_of scatter_wait testing = 3
steps_of status testing = 2
steps_of status asleep = 2
steps_of status working = 1
steps_of status worked = 0
steps_of status gave_up = 0

abbrev steps_of_main : ℕ → MainAt → ℕ
steps_of_main n (creating i) = (n - i) * 5 + n + 3
steps_of_main n own_work = n + 2
steps_of_main n (joining i) = n - i + 1
steps_of_main n (cancelling i) = i
steps_of_main n (over ok) = 0

abbrev steps_left : ℕ → Scattered → ℕ
steps_left n s = steps_of_main n s.main + weight_below (λ _. steps_of s.status) n s.threads

WorkerStep-less :
    {workers : Workers} {status : ScatterStatus} {i : ℕ} {r v : JsVal} {t u : ThreadAt}
    → WorkerStep workers status i r t u v
    → steps_of status u < steps_of status t
WorkerStep-less {status = scatter_wait} (sets e) = omega arith
WorkerStep-less {status = scatter_go} (sets e) = omega arith
WorkerStep-less {status = scatter_cancel} (sets e) = omega arith
WorkerStep-less {status} (cannot_set e) = omega arith
WorkerStep-less {status = scatter_wait} (waits e) = omega arith
WorkerStep-less {status = scatter_go} (waits e) = absurd (cc)
WorkerStep-less {status = scatter_cancel} (waits e) = absurd (cc)
WorkerStep-less {status = scatter_wait} (goes e) = absurd (cc)
WorkerStep-less {status = scatter_go} (goes e) = omega arith
WorkerStep-less {status = scatter_cancel} (goes e) = absurd (cc)
WorkerStep-less {status = scatter_wait} (cancels e) = omega arith
WorkerStep-less {status = scatter_go} (cancels e) = omega arith
WorkerStep-less {status = scatter_cancel} (cancels e) = omega arith
WorkerStep-less works = omega arith

-- A signal adds no step.
steps_of-awake :
    (status : ScatterStatus) (t : ThreadAt)
    → status ≢ scatter_wait
    → steps_of status (elim t [ asleep ↦ testing | u ↦ u ]) ≤ steps_of scatter_wait t
steps_of-awake scatter_wait t ne = absurd (ne refl)
steps_of-awake scatter_go absent ne = omega arith
steps_of-awake scatter_go unset ne = omega arith
steps_of-awake scatter_go testing ne = omega arith
steps_of-awake scatter_go asleep ne = omega arith
steps_of-awake scatter_go working ne = omega arith
steps_of-awake scatter_go worked ne = omega arith
steps_of-awake scatter_go gave_up ne = omega arith
steps_of-awake scatter_cancel absent ne = omega arith
steps_of-awake scatter_cancel unset ne = omega arith
steps_of-awake scatter_cancel testing ne = omega arith
steps_of-awake scatter_cancel asleep ne = omega arith
steps_of-awake scatter_cancel working ne = omega arith
steps_of-awake scatter_cancel worked ne = omega arith
steps_of-awake scatter_cancel gave_up ne = omega arith

notified-less :
    (n : ℕ) (status : ScatterStatus) (s : Scattered)
    → status ≢ scatter_wait
    → s.status ≡ scatter_wait
    → weight_below (λ _. steps_of status) n (notify_all s.threads)
      ≤ weight_below (λ _. steps_of s.status) n s.threads
notified-less n status s ne e =
    weight_below_mono (λ _. steps_of status) (λ _. steps_of s.status) n (notify_all s.threads)
      s.threads
      (λ j.
        subst (λ st. steps_of status (notify_all s.threads j) ≤ steps_of st (s.threads j)) (sym e)
          (steps_of-awake status (s.threads j) ne))

main_steps :
    (n : ℕ) (s : Scattered) {m : MainAt} → s.main ≡ m → steps_of_main n s.main ≡ steps_of_main n m
main_steps n s e = ap (steps_of_main n) e

module _ {workers : Workers} {n : ℕ} where
  Step-less :
      {s t : Scattered} → Step workers n s t → IsSound workers n s → steps_left n t < steps_left n s
  Step-less {s} (worker i {t} lo hi st) inv =
      omega
        (arith, WorkerStep-less st, weight_below-update (λ _. steps_of s.status) n s.threads i t hi)
  Step-less {s} (creates i e lt) inv =
      let (w, lo, hi, made, rest, own) = main_at {s = s} e inv in
      omega (
        arith,
        main_steps n s e,
        weight_below-update (λ _. steps_of s.status) n s.threads i unset lt,
        ap (steps_of s.status) (rest i (omega arith)),
      )
  Step-less {s} (cannot_create i e lt) inv = omega (
    arith,
    main_steps n s e,
    notified-less n scatter_cancel s (λ q. cc) (main_at {s = s} e inv).0,
  )
  Step-less {s} (starts_all e) inv =
      omega
        (arith, main_steps n s e, notified-less n scatter_go s (λ q. cc) (main_at {s = s} e inv).0)
  Step-less {s} (works_itself e) inv = omega (arith, main_steps n s e, (main_at {s = s} e inv).3)
  Step-less {s} (joins i e lt h) inv = omega (arith, main_steps n s e)
  Step-less {s} (joined_all e) inv = omega (arith, main_steps n s e)
  Step-less {s} (joins_cancelled i e lo h) inv = omega (arith, main_steps n s e)
  Step-less {s} (cancelled_all e) inv = omega (arith, main_steps n s e)

  -- The steps made and those that are left are at most six for each function.
  Reach-steps : {k : ℕ} {s : Scattered} → 0 < n → Reach workers n k s → k + steps_left n s ≤ 6 * n
  Reach-steps lo begins =
      omega (arith, weight_below-none (λ _. steps_of scatter_wait) n (λ i. absent) (λ i. refl))
  Reach-steps lo (then_step r st) =
      omega (arith, Step-less st (Reach-IsSound lo r), Reach-steps lo r)

-- Whatever the order in which its threads run, `scatter` makes at most six steps for each function:
-- with the absence of a deadlock, it comes to its end, with or without success. An array with at
-- least one function is assumed, and that each of the functions returns.
pub scatter-ends :
    {workers : Workers} {n k : ℕ} {s : Scattered} → 0 < n → Reach workers n k s → k ≤ 6 * n
scatter-ends lo r = omega (arith, Reach-steps lo r)
