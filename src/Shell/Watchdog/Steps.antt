-- ===== src/Shell/Watchdog/Steps.antt =====
-- The steps of the watchdog of src/js.cpp and of the thread that schedules it, before `KillWatchdog`,
-- and what they preserve.
use sysjs.Prelude.{
  Bool, Bool-cases, Option, arith, false, inl, inr, ltb, ltb→lt, none, pos, refl, some, true, ℕ, ℤ,
  ◌+◌, ◌<◌, ◌^◌, ◌≡◌, ◌≢◌, ◌≤◌, ◌⊎◌,
}
use sysjs.Shell.Watchdog.{
  Dog, Phase, Scheduled, absent, assertion_failed, cancel_execution, cancelling, done_with,
  finished, looping, no_watchdog, notified, round, schedule, waiting, wake,
}
use sysjs.Shell.Watchdog.Ticks.{is_before-ticks, not_ltb→le, ticks_between}

-- Times that the ticks can compare.
abbrev pub Near : ℕ → ℕ → Type 0
Near a b = (a < b + 2 ^ 31) × (b < a + 2 ^ 31)

-- The start of the program.
abbrev pub no_dog : Dog
no_dog = record {
  running = false;
  has_timeout = false;
  timeout = 0;
  phase = absent;
  canceled = false;
  exit_code = pos 0;
}

-- A step of the script's thread, which schedules, or of the watchdog's. A wait may end at any time.
pub data Step : Dog → Dog → Type 0 where
  schedules :
      (d d' : Dog) (creates : Bool) (now interval : ℕ)
      → (d.has_timeout ≡ true → Near (now + interval) d.timeout)
      → (schedule creates now (some interval) d ≡ done_with d')
        ⊎ (schedule creates now (some interval) d ≡ no_watchdog d')
      → Step d d'
  clears : (d : Dog) → Step d (record d { has_timeout = false })
  rounds :
      (d : Dog) (now : ℕ)
      → d.phase ≡ looping
      → (d.has_timeout ≡ true → Near now d.timeout)
      → Step d (round now d)
  cancels : (d : Dog) → d.phase ≡ cancelling → Step d (cancel_execution d)
  wakes :
      (d : Dog) (deadline : Option ℕ)
      → d.phase ≡ waiting deadline
      → Step d (record d { phase = looping })
  reacts : (d : Dog) → d.phase ≡ notified → Step d (record d { phase = looping })

pub data Reaches : Dog → Type 0 where
  begins : Reaches no_dog
  goes_on : (d d' : Dog) → Reaches d → Step d d' → Reaches d'

-- The thread waits no longer than up to the time.
abbrev pub InTime : Phase → ℕ → Type 0
InTime (waiting none) t = ⊥ × Unit {0}
InTime (waiting (some u)) t = u ≤ t
InTime p t = Unit {0}

abbrev Alive : Phase → Type 0
Alive absent = ⊥ × Unit {0}
Alive finished = ⊥ × Unit {0}
Alive p = Unit {0}

-- A thread that runs is in its loop, and in time for the timeout, if there is one; without a thread
-- there is no timeout.
abbrev pub Guards : Bool → Bool → Phase → ℕ → Type 0
Guards true true p t = Alive p × InTime p t
Guards true false p t = Alive p
Guards false true p t = ⊥ × Unit {0}
Guards false false p t = p ≡ absent

abbrev pub IsAlert : Dog → Type 0
IsAlert d = Guards d.running d.has_timeout d.phase d.timeout

abbrev pub Schedules : Scheduled → Type 0
Schedules (done_with d) = IsAlert d
Schedules (no_watchdog d) = IsAlert d
Schedules assertion_failed = ⊥ × Unit {0}

wake-Alive : (p : Phase) (t : ℕ) → Alive p → Alive (wake p) × InTime (wake p) t
wake-Alive absent t h = absurd h.0
wake-Alive finished t h = absurd h.0
wake-Alive looping t h = (tt, tt)
wake-Alive cancelling t h = (tt, tt)
wake-Alive (waiting u) t h = (tt, tt)
wake-Alive notified t h = (tt, tt)

InTime-le : (p : Phase) (t u : ℕ) → t ≤ u → InTime p t → InTime p u
InTime-le (waiting none) t u le h = h
InTime-le (waiting (some v)) t u le h = omega (arith, le, h)
InTime-le absent t u le h = tt
InTime-le finished t u le h = tt
InTime-le looping t u le h = tt
InTime-le cancelling t u le h = tt
InTime-le notified t u le h = tt

pub schedule-Schedules :
    (creates : Bool) (now interval : ℕ) (running has : Bool) (time : ℕ) (p : Phase)
    (canceled : Bool) (code : ℤ)
    → Guards running has p time
    → (has ≡ true → Near (now + interval) time)
    → Schedules (
        schedule creates now (some interval) (record {
          running = running;
          has_timeout = has;
          timeout = time;
          phase = p;
          canceled = canceled;
          exit_code = code;
        }))
unfolding schedule
schedule-Schedules creates now interval true true time p canceled code h near =
    let new = now + interval in
    let n = near refl in
    let compares = is_before-ticks new time n.0 n.1 in
    elim (Bool-cases (ltb new time)) [
      | inl sooner ↦ rw (compares, sooner) (wake-Alive p new h.0)
      | inr later ↦ rw (compares, later) (h.0, InTime-le p time new (not_ltb→le new time later) h.1)
    ]
schedule-Schedules creates now interval true false time p canceled code h near =
    wake-Alive p (now + interval) h
schedule-Schedules creates now interval false true time p canceled code h near = absurd h.0
schedule-Schedules true now interval false false time p canceled code h near = (tt, tt)
schedule-Schedules false now interval false false time p canceled code h near = h

pub clear-Guards :
    (running has : Bool) (p : Phase) (t : ℕ) → Guards running has p t → Guards running false p t
clear-Guards true true p t h = h.0
clear-Guards true false p t h = h
clear-Guards false true p t h = absurd h.0
clear-Guards false false p t h = h

pub looping-Guards :
    (running has : Bool) (p : Phase) (t : ℕ)
    → Guards running has p t
    → p ≢ absent
    → Guards running has looping t
looping-Guards true true p t h there = (tt, tt)
looping-Guards true false p t h there = tt
looping-Guards false true p t h there = absurd h.0
looping-Guards false false p t h there = absurd (there h)

pub round-IsAlert :
    (now : ℕ) (running has : Bool) (time : ℕ) (canceled : Bool) (code : ℤ)
    → Guards running has looping time
    → (has ≡ true → Near now time)
    → IsAlert (
        round now (record {
          running = running;
          has_timeout = has;
          timeout = time;
          phase = looping;
          canceled = canceled;
          exit_code = code;
        }))
unfolding round
round-IsAlert now true true time canceled code h near =
    let n = near refl in
    let compares = is_before-ticks now time n.0 n.1 in
    elim (Bool-cases (ltb now time)) [
      | inl sooner ↦
          let lt = ltb→lt now time sooner in
          let sleep = ticks_between now time (omega (arith, lt)) (omega (arith, n)) in
          rw (compares, sooner) (tt, omega (arith, sleep, lt))
      | inr later ↦ rw (compares, later) tt
    ]
round-IsAlert now true false time canceled code h near = tt
round-IsAlert now false true time canceled code h near = absurd h.0
round-IsAlert now false false time canceled code h near = ground (arith, h)
