-- ===== src/Shell/Scatter/Steps.antt =====
-- Each step of the machine of `Scatter` (src/js.cpp) keeps what holds of it.
use native.Mathlib.Decide.{ℕ_discrete}
use sysjs.Host.{JsVal}
use sysjs.Prelude.{
  arith, false, refl, subst, suc, sym, true, update, update_ne, update_self, ℕ, ◌<◌, ◌≡◌,
}
use sysjs.Shell.Scatter.{
  MainAt, Reach, Returned, ScatterStatus, Scattered, Step, ThreadAt, WorkerStep, Workers, absent,
  begins, cancelled_all, cancelling, cannot_create, creates, gave_up, joined_all, joining, joins,
  joins_cancelled, notify_all, over, own_work, scatter_cancel, scatter_go, scatter_wait, starts_all,
  then_step, unset, worked, worker, works_itself,
}
use sysjs.Shell.Scatter.Barrier.{
  Created, Created-awake, IsSound, MainOk, MainOk-worker, Settled, Settled-absent, WorkerOk,
  WorkerOk-awake, WorkerStep-live, WorkerStep-ok, absent-awake, update-split,
}

Settled-Returned : (t : ThreadAt) → Returned t → Settled t
Settled-Returned worked h = tt
Settled-Returned gave_up h = tt
Settled-Returned _ h = absurd h.0

module _ {workers : Workers} {n : ℕ} where
  pub main_at :
      {s : Scattered} {m : MainAt}
      → s.main ≡ m
      → IsSound workers n s
      → MainOk workers n m s.status s.threads (s.results 0)
  main_at {s} e inv = subst (λ m. MainOk workers n m s.status s.threads (s.results 0)) e inv.at_main

  worker-IsSound :
      {s : Scattered} (i : ℕ) {t : ThreadAt} {v : JsVal}
      → 0 < i
      → WorkerStep workers s.status i (s.results i) (s.threads i) t v
      → IsSound workers n s
      → IsSound workers n
          (record s { threads = update s.threads i t; results = update s.results i v })
  worker-IsSound {s} i {t} {v} lo st inv = record {
    each = λ j a. elim (ℕ_discrete j i) [
      | yes e ↦
          subst (λ k. WorkerOk workers s.status k (update s.threads i t k) (update s.results i v k))
            (sym e)
            (rw (update_self s.threads i t, update_self s.results i v)
              (WorkerStep-ok st (inv.each i lo)))
      | no ne ↦ rw (update_ne s.threads i t j ne, update_ne s.results i v j ne) (inv.each j a)
    ];
    at_main = rw (update_ne s.results i v 0 (λ q. omega (arith, q))) (
        MainOk-worker workers n s.main s.status s.threads (s.results 0) i t (WorkerStep-live st)
          inv.at_main);
  }

  -- A signal, given where the main thread then stands.
  notified-IsSound :
      {s : Scattered} (status : ScatterStatus) (main : MainAt)
      → s.status ≡ scatter_wait
      → IsSound workers n s
      → MainOk workers n main status (notify_all s.threads) (s.results 0)
      → IsSound workers n
          (record s { status = status; threads = notify_all s.threads; main = main })
  notified-IsSound {s} status main e inv at = record {
    each = λ j a.
        WorkerOk-awake workers j (s.threads j) (s.results j) status
          (subst (λ st. WorkerOk workers st j (s.threads j) (s.results j)) e (inv.each j a));
    at_main = at;
  }

  created :
      {s : Scattered} (i : ℕ)
      → 0 < i
      → s.threads i ≡ absent
      → IsSound workers n s
      → WorkerOk workers s.status i unset (s.results i)
  created {s} i lo e inv =
      subst (λ t. WorkerOk workers s.status i t (s.results i)) e (inv.each i lo)

  -- The main thread moves alone.
  moved-IsSound :
      {s : Scattered} (main : MainAt)
      → IsSound workers n s
      → MainOk workers n main s.status s.threads (s.results 0)
      → IsSound workers n (record s { main = main })
  moved-IsSound main inv at = record { each = inv.each; at_main = at }

  pub Step-IsSound :
      {s t : Scattered} → Step workers n s t → IsSound workers n s → IsSound workers n t
  Step-IsSound (worker i lo hi st) inv = worker-IsSound i lo st inv
  Step-IsSound {s} (creates i e lt) inv =
      let (w, lo, hi, made, rest, own) = main_at {s = s} e inv in
      record {
        each = λ j a.
            update-split (λ k t. WorkerOk workers s.status k t (s.results k)) s.threads i unset
              (created {s = s} i lo (rest i (omega arith)) inv) j (λ _. inv.each j a);
        at_main = (
          w,
          omega arith,
          omega arith,
          (λ j a b.
              update-split (λ _ t. Created t) s.threads i unset tt j
                (λ ne. made j a (omega (arith, ne)))),
          (λ j a.
              rw (update_ne s.threads i unset j (λ q. omega (arith, q))) (rest j (omega arith))),
          own,
        );
      }
  Step-IsSound {s} (cannot_create i e lt) inv =
      let (w, lo, hi, made, rest, own) = main_at {s = s} e inv in
      notified-IsSound {s = s} scatter_cancel (cancelling i) w inv (
        refl,
        (λ j a b. Created-awake (s.threads j) (made j a b)),
        (λ j a. Settled-absent _ (absent-awake (s.threads j) (rest j a))),
        lo,
        hi,
        own,
      )
  Step-IsSound {s} (starts_all e) inv =
      let (w, lo, hi, made, rest, own) = main_at {s = s} e inv in
      notified-IsSound {s = s} scatter_go own_work w inv (
        refl,
        (λ j a b. Created-awake (s.threads j) (made j a b)),
        (λ j a. absent-awake (s.threads j) (rest j a)),
        omega arith,
        own,
      )
  Step-IsSound {s} (works_itself e) inv =
      let (w, made, rest, lo, own) = main_at {s = s} e inv in
      record {
        each = λ j a. rw (update_ne s.results 0 _ j (λ q. omega (arith, q))) (inv.each j a);
        at_main = (w, made, rest, omega arith, lo, (λ j a b. absurd (omega arith)), refl);
      }
  Step-IsSound {s} (joins i e lt h) inv =
      let (w, made, rest, lo, hi, back, own) = main_at {s = s} e inv in
      moved-IsSound {s = s} (joining (suc i)) inv (
        w,
        made,
        rest,
        omega arith,
        omega arith,
        (λ j a b. elim (ℕ_discrete j i) [
          | yes q ↦ subst (λ k. Returned (s.threads k)) (sym q) h
          | no ne ↦ back j a (omega (arith, ne))
        ]),
        own,
      )
  Step-IsSound {s} (joined_all e) inv =
      let (w, made, rest, lo, hi, back, own) = main_at {s = s} e inv in
      moved-IsSound {s = s} (over true) inv (w, back, rest, own)
  Step-IsSound {s} (joins_cancelled i e lo h) inv =
      let (w, made, rest, lo', hi, own) = main_at {s = s} e inv in
      moved-IsSound {s = s} (cancelling i) inv (
        w,
        (λ j a b. made j a (omega arith)),
        (λ j a. elim (ℕ_discrete j i) [
          | yes q ↦ subst (λ k. Settled (s.threads k)) (sym q) (Settled-Returned _ h)
          | no ne ↦ rest j (omega (arith, ne))
        ]),
        lo,
        omega arith,
        own,
      )
  Step-IsSound {s} (cancelled_all e) inv =
      let (w, made, rest, lo, hi, own) = main_at {s = s} e inv in
      moved-IsSound {s = s} (over false) inv (w, rest, own)

  -- In every state that is reached, each thread with its result, and the main thread, are as said.
  pub Reach-IsSound : {k : ℕ} {s : Scattered} → 0 < n → Reach workers n k s → IsSound workers n s
  Reach-IsSound lo begins = record {
    each = λ j a. (refl, tt);
    at_main = (refl, omega arith, lo, (λ j a b. absurd (omega arith)), (λ j a. refl), refl);
  }
  Reach-IsSound lo (then_step r st) = Step-IsSound st (Reach-IsSound lo r)
