-- ===== src/Shell/Scatter/Ending.antt =====
-- How `Scatter` (src/js.cpp) ends: with which results, whether it can stop on the way, and after
-- how many steps.
use native.Mathlib.Decide.{dec_lt, ℕ_discrete}
use sysjs.Host.{JsVal, void}
use sysjs.Prelude.{
  Bool, Bool-cases, ap, arith, false, if◌then◌else◌, inl, inr, refl, subst, suc, true, zero, ℕ, ◌<◌,
  ◌∙◌, ◌≡◌, ◌≢◌, ◌⊎◌,
}
use sysjs.Shell.Scatter.{
  MainAt, Reach, Returned, ScatterStatus, Scattered, Step, ThreadAt, WorkerStep, Workers, absent,
  asleep, cancelled_all, cancelling, cancels, cannot_set, creates, creating, do_scattered_work,
  gave_up, goes, joined_all, joining, joins, joins_cancelled, over, own_work, scatter_cancel,
  scatter_go, scatter_wait, sets, starts_all, testing, unset, worked, worker, working, works,
  works_itself,
}
use sysjs.Shell.Scatter.Barrier.{Created, IsSound, Settled, Settled-absent, WorkerOk}
use sysjs.Shell.Scatter.Steps.{Reach-IsSound, main_at}

-- The result of a thread that is joined, while the status is SCATTER_GO.
result_of_Returned :
    (workers : Workers) (i : ℕ) (r : JsVal) (t : ThreadAt)
    → Returned t
    → WorkerOk workers scatter_go i t r
    → r ≡ (if workers.private_set i then do_scattered_work (workers.call i) else void)
result_of_Returned workers i r worked back (e, p, _) = rw (p, e)
result_of_Returned workers i r gave_up back (e, inl p) = rw (p, e)
result_of_Returned workers i r gave_up back (e, inr q) = absurd (cc)
result_of_Returned workers i r _ back ok = absurd back.0

-- When `scatter` has joined all its threads, whatever the order in which they ran, the result of
-- function 0 and of every function whose thread could set its private data is what
-- `DoScatteredWork` leaves for it, and the result of the others is void. An array with at least one
-- function is assumed.
pub scatter-results :
    {workers : Workers} {n k : ℕ} {s : Scattered}
    → 0 < n
    → Reach workers n k s
    → s.main ≡ over true
    → (s.results 0 ≡ do_scattered_work (workers.call 0))
      × ((j : ℕ)
          → 0 < j
          → j < n
          → s.results j
            ≡ (if workers.private_set j then do_scattered_work (workers.call j) else void))
scatter-results {workers} {s} lo r e =
    let inv = Reach-IsSound lo r in
    let (went, back, rest, own) = main_at {s = s} e inv in
    (
      own,
      λ j a b.
          result_of_Returned workers j (s.results j) (s.threads j) (back j a b)
            (subst (λ st. WorkerOk workers st j (s.threads j) (s.results j)) went (inv.each j a)),
    )

void_of_Settled :
    (workers : Workers) (i : ℕ) (r : JsVal) (t : ThreadAt)
    → Settled t
    → WorkerOk workers scatter_cancel i t r
    → r ≡ void
void_of_Settled workers i r absent h ok = ok.0
void_of_Settled workers i r worked h ok = absurd (cc)
void_of_Settled workers i r gave_up h ok = ok.0
void_of_Settled workers i r _ h ok = absurd h.0

-- When a thread could not be created, `scatter` ends without the result of any function: all the
-- results are void, whatever the order in which the threads ran. An array with at least one function
-- is assumed.
pub scatter-cancelled :
    {workers : Workers} {n k : ℕ} {s : Scattered}
    → 0 < n
    → Reach workers n k s
    → s.main ≡ over false
    → (j : ℕ) → s.results j ≡ void
scatter-cancelled {workers} {s} lo r e =
    let inv = Reach-IsSound lo r in
    let (gone, rest, own) = main_at {s = s} e inv in
    λ j. elim j as (λ m. s.results m ≡ void) [
      | zero ↦ own
      | suc i ↦
          void_of_Settled workers (suc i) (s.results (suc i)) (s.threads (suc i))
            (rest (suc i) (omega arith))
            (subst (λ st. WorkerOk workers st (suc i) (s.threads (suc i)) (s.results (suc i))) gone
              (inv.each (suc i) (omega arith)))
    ]

Returned-Settled : (t : ThreadAt) → Returned t → Settled t
Returned-Settled worked h = tt
Returned-Settled gave_up h = tt
Returned-Settled _ h = absurd h.0

-- When `scatter` ends, with or without success, no thread that it created still runs, so that none
-- uses the lock, the results and the data of the threads that are freed next. An array with at
-- least one function is assumed.
pub scatter-Settled :
    {workers : Workers} {n k : ℕ} {s : Scattered} {ok : Bool}
    → 0 < n
    → Reach workers n k s
    → s.main ≡ over ok
    → (j : ℕ) → 0 < j
    → Settled (s.threads j)
scatter-Settled {n = n} {s} {ok = true} lo r e j a =
    let (went, back, rest, own) = main_at {s = s} e (Reach-IsSound lo r) in
    elim (dec_lt j n) [
      | yes b ↦ Returned-Settled _ (back j a b)
      | no b ↦ Settled-absent _ (rest j (omega (arith, b)))
    ]
scatter-Settled {s} {ok = false} lo r e j a = (main_at {s = s} e (Reach-IsSound lo r)).1 j a

-- A thread that was created and the signal given can move, unless it has returned.
can_move :
    {workers : Workers} {i : ℕ} {r : JsVal} (status : ScatterStatus) (t : ThreadAt)
    → status ≢ scatter_wait
    → Created t
    → WorkerOk workers status i t r
    → Returned t ⊎ ((u : ThreadAt) × (v : JsVal) × WorkerStep workers status i r t u v)
can_move status absent ne h ok = absurd h.0
can_move {workers} {i} status unset ne h ok = elim (Bool-cases (workers.private_set i)) [
  | inl e ↦ inr (_, _, sets e)
  | inr e ↦ inr (_, _, cannot_set e)
]
can_move scatter_wait testing ne h ok = absurd (ne refl)
can_move scatter_go testing ne h ok = inr (_, _, goes refl)
can_move scatter_cancel testing ne h ok = inr (_, _, cancels refl)
can_move status asleep ne h ok = absurd (ne ok.2)
can_move status working ne h ok = inr (_, _, works)
can_move status worked ne h ok = inl tt
can_move status gave_up ne h ok = inl tt

abbrev pub CanStep : Workers → ℕ → Scattered → Type 0
CanStep workers n s = (t : Scattered) × Step workers n s t

module _ {workers : Workers} {n : ℕ} {s : Scattered} where
  -- The thread that the main thread waits for moves, or is joined.
  join_or_move :
      (i : ℕ)
      → 0 < i
      → i < n
      → s.status ≢ scatter_wait
      → Created (s.threads i)
      → IsSound workers n s
      → (Returned (s.threads i) → CanStep workers n s)
      → CanStep workers n s
  join_or_move i lo hi ne made inv join =
      elim (can_move {workers = workers} {i = i} {r = s.results i} s.status (s.threads i) ne made
        (inv.each i lo)) [ inl back ↦ join back | inr (u, v, st) ↦ (_, worker i lo hi st) ]

  main-CanStep :
      (m : MainAt)
      → s.main ≡ m
      → IsSound workers n s
      → ((ok : Bool) × (s.main ≡ over ok)) ⊎ CanStep workers n s
  main-CanStep (creating i) e inv =
      let (w, lo, hi, made, rest, own) = main_at {s = s} e inv in
      elim (ℕ_discrete i n) [
        | yes q ↦ inr (_, starts_all (e ∙ ap creating q))
        | no ne ↦ inr (_, creates i e (omega (arith, ne)))
      ]
  main-CanStep own_work e inv = inr (_, works_itself e)
  main-CanStep (joining i) e inv =
      let (w, made, rest, lo, hi, back, own) = main_at {s = s} e inv in
      elim (ℕ_discrete i n) [
        | yes q ↦ inr (_, joined_all (e ∙ ap joining q))
        | no ne ↦
            let lt : i < n = omega (arith, ne) in
            inr (join_or_move i lo lt (λ q. cc) (made i lo lt) inv (λ h. (_, joins i e lt h)))
      ]
  main-CanStep (cancelling zero) e inv = absurd (omega (arith, (main_at {s = s} e inv).3))
  main-CanStep (cancelling (suc zero)) e inv = inr (_, cancelled_all e)
  main-CanStep (cancelling (suc (suc i))) e inv =
      let (w, made, rest, lo, hi, own) = main_at {s = s} e inv in
      inr (
        join_or_move (suc i) (omega arith) (omega arith) (λ q. cc)
          (made (suc i) (omega arith) (omega arith)) inv
          (λ h. (_, joins_cancelled (suc i) e (omega arith) h)))
  main-CanStep (over ok) e inv = inl (ok, e)

-- No deadlock and no signal lost: from every state that `scatter` reaches, it has ended or some
-- thread can make a step. An array with at least one function is assumed.
pub scatter-no_deadlock :
    {workers : Workers} {n k : ℕ} {s : Scattered}
    → 0 < n
    → Reach workers n k s
    → ((ok : Bool) × (s.main ≡ over ok)) ⊎ CanStep workers n s
scatter-no_deadlock {s} lo r = main-CanStep s.main refl (Reach-IsSound lo r)
