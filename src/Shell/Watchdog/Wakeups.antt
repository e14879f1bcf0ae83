-- ===== src/Shell/Watchdog/Wakeups.antt =====
-- When the watchdog of src/js.cpp wakes: the steps of the machine before `KillWatchdog`, and what holds
-- in each state that they reach.
use sysjs.Prelude.{
  Bool, Option, ap, arith, false, inl, inr, le→not_ltb, lt→ltb, negsuc, none, pos, refl, some,
  subst, suc, true, zero, ℕ, ℤ, ◌%◌, ◌+◌, ◌-◌, ◌<◌, ◌^◌, ◌≡◌, ◌≢◌, ◌≤◌, ◌⊎◌,
}
use sysjs.Shell.Watchdog.{
  Dog, Phase, Scheduled, absent, assertion_failed, cancel_execution, cancelling, done_with,
  exitcode_timeout, finished, kill, looping, no_watchdog, notified, round, schedule, ticks, waiting,
  wake,
}
use sysjs.Shell.Watchdog.Steps.{
  Guards, InTime, IsAlert, Near, Reaches, Schedules, Step, begins, cancels, clear-Guards, clears,
  goes_on, looping-Guards, reacts, round-IsAlert, rounds, schedule-Schedules, schedules, wakes,
}
use sysjs.Shell.Watchdog.Ticks.{is_before-ticks, ticks_between}

scheduled-IsAlert :
    (s : Scheduled) (d : Dog) → (s ≡ done_with d) ⊎ (s ≡ no_watchdog d) → Schedules s → IsAlert d
scheduled-IsAlert s d (inl e) h = subst Schedules e h
scheduled-IsAlert s d (inr e) h = subst Schedules e h

Step-IsAlert : (d d' : Dog) → Step d d' → IsAlert d → IsAlert d'
unfolding round cancel_execution
Step-IsAlert d d' (schedules _ _ creates now interval near e) h =
    scheduled-IsAlert (schedule creates now (some interval) d) d' e (
      schedule-Schedules creates now interval d.running d.has_timeout d.timeout d.phase d.canceled
        d.exit_code h near)
Step-IsAlert d d' (clears _) h = clear-Guards d.running d.has_timeout d.phase d.timeout h
Step-IsAlert d d' (rounds _ now e near) h =
    round-IsAlert now d.running d.has_timeout d.timeout d.canceled d.exit_code
      (subst (λ p. Guards d.running d.has_timeout p d.timeout) e h) near
Step-IsAlert d d' (cancels _ e) h =
    looping-Guards d.running d.has_timeout cancelling d.timeout
      (subst (λ p. Guards d.running d.has_timeout p d.timeout) e h) (ground arith)
Step-IsAlert d d' (wakes _ deadline e) h =
    looping-Guards d.running d.has_timeout (waiting deadline) d.timeout
      (subst (λ p. Guards d.running d.has_timeout p d.timeout) e h) (ground arith)
Step-IsAlert d d' (reacts _ e) h =
    looping-Guards d.running d.has_timeout notified d.timeout
      (subst (λ p. Guards d.running d.has_timeout p d.timeout) e h) (ground arith)

Reaches-IsAlert : (d : Dog) → Reaches d → IsAlert d
Reaches-IsAlert d begins = refl
Reaches-IsAlert d (goes_on d0 _ before step) = Step-IsAlert d0 d step (Reaches-IsAlert d0 before)

in_time :
    (running : Bool) (p : Phase) (deadline : Option ℕ) (t : ℕ)
    → Guards running true p t
    → p ≡ waiting deadline
    → (u : ℕ) × (deadline ≡ some u) × (u ≤ t)
in_time true p none t h e = absurd (subst (λ q. InTime q t) e h.1).0
in_time true p (some u) t h e = (u, refl, subst (λ q. InTime q t) e h.1)
in_time false p deadline t h e = absurd h.0

-- The watchdog never oversleeps: in each state that is reached before the end, with any timeouts set,
-- brought forward, put off and cleared, a watchdog that waits while there is a timeout waits up to a
-- time that is no later than the timeout.
pub Reaches-deadline :
    (d : Dog) (deadline : Option ℕ)
    → Reaches d
    → d.has_timeout ≡ true
    → d.phase ≡ waiting deadline
    → (u : ℕ) × (deadline ≡ some u) × (u ≤ d.timeout)
Reaches-deadline d deadline reached has waits =
    in_time d.running d.phase deadline d.timeout
      (subst (λ b. Guards d.running b d.phase d.timeout) has (Reaches-IsAlert d reached)) waits

-- The assertion of `ScheduleWatchdog`, that there is no timeout where there is no thread, holds in
-- each state that is reached.
pub Reaches-asserted :
    (d : Dog) (creates : Bool) (now interval : ℕ)
    → Reaches d
    → (d.has_timeout ≡ true → Near (now + interval) d.timeout)
    → schedule creates now (some interval) d ≢ assertion_failed
Reaches-asserted d creates now interval reached near e =
    (subst Schedules e (
      schedule-Schedules creates now interval d.running d.has_timeout d.timeout d.phase d.canceled
        d.exit_code (Reaches-IsAlert d reached) near)).0

failing_code : (code : ℤ) → elim code [ pos zero ↦ exitcode_timeout | c ↦ c ] ≢ pos 0
failing_code (pos zero) e = ground (arith, e)
failing_code (pos (suc n)) e = ground (arith, e)
failing_code (negsuc n) e = ground (arith, e)

until_timeout :
    (now t : ℕ) → now < t → t < now + 2 ^ 32 → now + (ticks t + 2 ^ 32 - ticks now) % 2 ^ 32 ≡ t
until_timeout now t lt near = omega (arith, ticks_between now t (omega (arith, lt)) near, lt)

-- At the head of its loop the watchdog cancels the script exactly where the timeout has passed: then
-- the exit code is not 0; before, it waits up to the timeout.
pub round-timeout :
    (d : Dog) (now : ℕ)
    → d.running ≡ true
    → d.has_timeout ≡ true
    → Near now d.timeout
    → (d.timeout ≤ now
        → ((round now d).phase ≡ cancelling)
          × ((cancel_execution (round now d)).canceled ≡ true)
          × ((cancel_execution (round now d)).exit_code ≢ pos 0))
      × (now < d.timeout → (round now d).phase ≡ waiting (some d.timeout))
unfolding round cancel_execution
round-timeout d now runs has near =
    let compares = is_before-ticks now d.timeout near.0 near.1 in
    (
      λ due.
          rw (runs, has, compares, le→not_ltb d.timeout now due)
            (refl, refl, failing_code d.exit_code),
      λ early.
          rw (runs, has, compares, lt→ltb now d.timeout early)
            (ap (λ t. waiting (some t)) (until_timeout now d.timeout early (omega (arith, near)))),
    )

woken : (p : Phase) (deadline : Option ℕ) → wake p ≢ waiting deadline
woken (waiting u) deadline e = ground (arith, e)
woken absent deadline e = ground (arith, e)
woken looping deadline e = ground (arith, e)
woken cancelling deadline e = ground (arith, e)
woken finished deadline e = ground (arith, e)
woken notified deadline e = ground (arith, e)

-- `KillWatchdog` ends a thread that runs: it waits no more, and where it next comes to the head of its
-- loop, at any time and whatever the timeout, it leaves the loop, so the join returns.
pub round-kill :
    (d : Dog) (now : ℕ) (deadline : Option ℕ)
    → d.running ≡ true
    → ((kill d).phase ≢ waiting deadline)
      × ((round now (record (kill d) { phase = looping })).phase ≡ finished)
unfolding round kill
round-kill d now deadline runs = rw runs (woken d.phase deadline, refl)
