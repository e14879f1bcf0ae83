-- ===== src/Shell/Watchdog.antt =====
-- The watchdog of src/js.cpp that ends scripts which run too long, and the function `sleep`: the
-- thread-safe versions of `ScheduleWatchdog`, `WatchdogMain`, `KillWatchdog`, `CancelExecution` and
-- `Sleep_fn`. The machine's steps are the regions that hold `gWatchdogLock`.
pub mod Ticks
pub mod Steps
pub mod Wakeups
pub mod Sleeping
use sysjs.Host.{Outcome, excessive, fault, no_watchdog_thread, returned, thrown, void}
use sysjs.Prelude.{
  Bool, List, Option, [], false, if◌then◌else◌, leb, none, not, pos, some, true, zero, ℕ, ℤ, ◌%◌,
  ◌+◌, ◌-◌, ◌^◌, ◌||◌, ◌∷◌,
}

-- `PRIntervalTime` counts modulo 2^32.
abbrev pub ticks : ℕ → ℕ
ticks t = t % 2 ^ 32

-- `IsBefore`: `int32(t1 - t2) < 0`.
unfoldable pub is_before : ℕ → ℕ → Bool
is_before t1 t2 = leb (2 ^ 31) ((t1 + 2 ^ 32 - t2) % 2 ^ 32)

-- Where the watchdog thread is: not created, at the head of its loop with the lock, outside the lock
-- to call `CancelExecution`, in `PR_WaitCondVar` until a time, if any, or past its loop. The wait ends
-- where it has been notified, too.
pub data Phase : Type 0 where
  absent looping cancelling finished : Phase
  waiting : Option ℕ → Phase
  notified : Phase

-- The times are those of a clock that does not wrap; the code sees their `ticks`. `running` is that
-- `gWatchdogThread` is set.
pub record Dog : Type 0 where
  pub running : Bool
  pub has_timeout : Bool
  pub timeout : ℕ
  pub phase : Phase
  pub canceled : Bool
  pub exit_code : ℤ

-- `PR_NotifyCondVar(gWatchdogWakeup)`
abbrev pub wake : Phase → Phase
wake (waiting deadline) = notified
wake p = p

abbrev pub exitcode_timeout : ℤ
exitcode_timeout = pos 6

pub data Scheduled : Type 0 where
  done_with : Dog → Scheduled
  no_watchdog : Dog → Scheduled
  assertion_failed : Scheduled

-- `ScheduleWatchdog`, with the interval in ticks, `none` for t <= 0, and whether the thread can be
-- created.
unfoldable pub schedule : Bool → ℕ → Option ℕ → Dog → Scheduled
unfolding is_before
schedule creates now none d = done_with (record d { has_timeout = false })
schedule creates now (some interval) d =
    if d.running
    then done_with (record set_dog {
      phase =
          if not d.has_timeout || is_before (ticks (now + interval)) (ticks d.timeout)
          then wake d.phase
          else d.phase;
    })
    else if d.has_timeout
    then assertion_failed
    else if creates
    then done_with (record set_dog { running = true; phase = looping })
    else no_watchdog d
  where
    set_dog : Dog
    set_dog = record d { has_timeout = true; timeout = now + interval }

-- One round of the loop of `WatchdogMain`, from its head up to where the lock is given up. The sleep
-- lasts from `now` for the difference of the ticks.
unfoldable pub round : ℕ → Dog → Dog
unfolding is_before
round now d =
    if d.running
    then if d.has_timeout
      then if is_before (ticks now) (ticks d.timeout)
        then record d {
          phase = waiting (some (now + (ticks d.timeout + 2 ^ 32 - ticks now) % 2 ^ 32));
        }
        else record d { has_timeout = false; phase = cancelling }
      else record d { phase = waiting none }
    else record d { phase = finished }

-- `CancelExecution`, after which the thread takes the lock again.
pub cancel_execution : Dog → Dog
cancel_execution d = record d {
  canceled = true;
  exit_code = elim d.exit_code [ pos zero ↦ exitcode_timeout | code ↦ code ];
  phase = looping;
}

-- The first part of `KillWatchdog`, up to where it waits for the thread.
pub kill : Dog → Dog
kill d = if d.running then record d { running = false; phase = wake d.phase } else d

-- `SetTimeoutValue`, with `gTimeoutInterval` before and after: `too_long` where the value is above
-- `MAX_TIMEOUT_INTERVAL` or not a number.
abbrev pub set_timeout_value :
    Bool → Bool → ℕ → Option ℕ → Dog × Option ℕ → Outcome (Dog × Option ℕ)
unfolding schedule
set_timeout_value too_long creates now t state =
    if too_long then thrown excessive state else elim (schedule creates now t state.0) [
      | done_with d ↦ returned void (d, t)
      | no_watchdog d ↦ thrown no_watchdog_thread (d, t)
      | assertion_failed ↦ fault
    ]

-- What a wait of `Sleep_fn` ends with: whether the script has been canceled, and the time.
pub record Woken : Type 0 where
  pub was_canceled : Bool
  pub at : ℕ

-- How `sleep` ends: canceled, slept, or it still waits, for this many ticks.
pub data Slept : Type 0 where
  interrupted : Slept
  slept_until : ℕ → Slept
  still_waiting : ℕ → Slept

-- The loop of `Sleep_fn`, over the ends of its waits.
pub sleep_loop : ℕ → ℕ → List Woken → Slept
unfolding is_before
sleep_loop to_wakeup t_ticks [] = still_waiting t_ticks
sleep_loop to_wakeup t_ticks (w ∷ ws) =
    let later = sleep_loop to_wakeup ((ticks to_wakeup + 2 ^ 32 - ticks w.at) % 2 ^ 32) ws in
    if w.was_canceled
    then interrupted
    else if is_before (ticks w.at) (ticks to_wakeup)
    then later
    else slept_until w.at
