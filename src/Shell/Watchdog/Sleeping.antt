-- ===== src/Shell/Watchdog/Sleeping.antt =====
-- How long `sleep` of src/js.cpp sleeps.
use sysjs.Prelude.{
  List, [], arith, false, le→not_ltb, lt→ltb, refl, ℕ, ◌++◌, ◌+◌, ◌-◌, ◌<◌, ◌^◌, ◌∙◌, ◌∷◌, ◌≡◌, ◌≤◌,
}
use sysjs.Shell.Watchdog.{Woken, sleep_loop, slept_until, still_waiting}
use sysjs.Shell.Watchdog.Ticks.{is_before-ticks, ticks_between}

-- A wait that ends before the time, with no cancellation.
abbrev IsEarly : ℕ → Woken → Type 0
IsEarly to_wakeup w = (w.was_canceled ≡ false) × (w.at < to_wakeup) × (to_wakeup < w.at + 2 ^ 31)

abbrev AllEarly : ℕ → List Woken → Type 0
AllEarly to_wakeup [] = Unit {0}
AllEarly to_wakeup (w ∷ ws) = IsEarly to_wakeup w × AllEarly to_wakeup ws

sleep_loop-goes_on :
    (to_wakeup n : ℕ) (w : Woken) (ws : List Woken)
    → IsEarly to_wakeup w
    → sleep_loop to_wakeup n (w ∷ ws) ≡ sleep_loop to_wakeup (to_wakeup - w.at) ws
unfolding sleep_loop
sleep_loop-goes_on to_wakeup n w ws early =
    let compares = is_before-ticks w.at to_wakeup (omega (arith, early)) early.2 in
    let rest = ticks_between w.at to_wakeup (omega (arith, early)) (omega (arith, early)) in
    rw (sleep_loop, early.0, compares, lt→ltb w.at to_wakeup early.1, rest) refl

sleep_loop-due :
    (to_wakeup n : ℕ) (w : Woken)
    → w.was_canceled ≡ false
    → to_wakeup ≤ w.at
    → w.at < to_wakeup + 2 ^ 31
    → sleep_loop to_wakeup n (w ∷ []) ≡ slept_until w.at
unfolding sleep_loop
sleep_loop-due to_wakeup n w ok le near =
    let compares = is_before-ticks w.at to_wakeup near (omega (arith, le)) in
    rw (sleep_loop, ok, compares, le→not_ltb to_wakeup w.at le) refl

-- After any number of waits that end early, `sleep` waits again for the rest of the time; it returns
-- at the first wait that ends, without cancellation, when the time has come.
pub sleep_loop-early :
    (to_wakeup n : ℕ) (ws : List Woken) (early due : Woken)
    → AllEarly to_wakeup ws
    → IsEarly to_wakeup early
    → due.was_canceled ≡ false
    → to_wakeup ≤ due.at
    → due.at < to_wakeup + 2 ^ 31
    → (sleep_loop to_wakeup n (ws ++ early ∷ []) ≡ still_waiting (to_wakeup - early.at))
      × (sleep_loop to_wakeup n (ws ++ due ∷ []) ≡ slept_until due.at)
unfolding sleep_loop
sleep_loop-early to_wakeup n [] early due all e ok le near =
    (sleep_loop-goes_on to_wakeup n early [] e, sleep_loop-due to_wakeup n due ok le near)
sleep_loop-early to_wakeup n (w ∷ ws) early due all e ok le near =
    let rest = sleep_loop-early to_wakeup (to_wakeup - w.at) ws early due all.1 e ok le near in
    (
      sleep_loop-goes_on to_wakeup n w (ws ++ early ∷ []) all.0 ∙ rest.0,
      sleep_loop-goes_on to_wakeup n w (ws ++ due ∷ []) all.0 ∙ rest.1,
    )
