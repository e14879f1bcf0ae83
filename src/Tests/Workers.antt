-- ===== src/Tests/Workers.antt =====
-- Runs of `scatter`, of the error reporter, of the count of the heap and of an interactive session.
use sysjs.Host.{int}
use sysjs.Prelude.{
  Bool, Bool-cases, List, [], arith, false, if◌then◌else◌, inl, inr, length, map, none, pos, refl,
  some, suc, true, ℕ, ◌*◌, ◌++◌, ◌<◌, ◌==◌, ◌∷◌, ◌≡◌, ◌≢◌, ◌≤◌, ◌⊎◌,
}
use sysjs.Shell.CountHeap.{Heap, Memories, count_from, count_unfinished, object_thing}
use sysjs.Shell.CountHeap.Counting.Reached.{IsCount, count_from-reached}
use sysjs.Shell.CountHeap.Counting.Rounds.{Suffices}
use sysjs.Shell.CountHeap.Tracing.{Below, InHeap, count_from-ends}
use sysjs.Shell.Interactive.{Answering, Typed, interactive_session, typed, typed_end}
use sysjs.Shell.Interactive.Sessions.{IsFinished, interactive_session-refines, text_session}
use sysjs.Shell.Report.{ErrorReport, error_reporter, print_message}
use sysjs.Shell.Report.Lines.{IsCut, flatten, print_message-lines}
use sysjs.Shell.Report.Outcomes.{code_after, error_reporter-codes, lacks_prefix}
use sysjs.Shell.Scatter.{
  Reach, Scattered, Workers, answered, begins, cancelled_all, cannot_create, creates, goes,
  joined_all, joins, over, scattering, sets, starts_all, then_step, waits, worker, works,
  works_itself,
}
use sysjs.Shell.Scatter.Barrier.{Settled}
use sysjs.Shell.Scatter.Bound.{scatter-ends}
use sysjs.Shell.Scatter.Ending.{CanStep, scatter-Settled, scatter-no_deadlock, scatter-results}
use sysjs.Shell.Scatter.Setup.{Answers, context_of, scatter}
use sysjs.Shell.Scatter.Setup.Balance.{scatter-balance}
use sysjs.Shell.Scatter.Setup.Counts.{given_back, taken}

-- Two functions in two threads, and the second thread cannot be created.
abbrev two_workers : Workers
two_workers = record { private_set = λ i. true; call = λ i. answered (int (pos i)) }

ran_two : (s : Scattered) × Reach two_workers 2 9 s × (s.main ≡ over true)
ran_two = (
  _,
  then_step
      (then_step
        (then_step
          (then_step
            (then_step
              (then_step
                (then_step
                  (then_step (then_step begins (creates 1 refl (omega arith)))
                    (worker 1 (omega arith) (omega arith) (sets refl)))
                  (worker 1 (omega arith) (omega arith) (waits refl)))
                (starts_all refl))
              (works_itself refl))
            (worker 1 (omega arith) (omega arith) (goes refl)))
          (worker 1 (omega arith) (omega arith) works))
        (joins 1 refl (omega arith) tt))
      (joined_all refl),
  refl,
)

scatter-results_example :
    (ran_two.0.results 0 ≡ int (pos 0))
    × ((j : ℕ) → 0 < j → j < 2 → ran_two.0.results j ≡ int (pos j))
scatter-results_example = scatter-results (omega arith) ran_two.1 ran_two.2

cancelled_two : (s : Scattered) × Reach two_workers 2 2 s × (s.main ≡ over false)
cancelled_two = (
  _,
  then_step (then_step begins (cannot_create 1 refl (omega arith))) (cancelled_all refl),
  refl,
)

scatter-Settled_example : Settled (ran_two.0.threads 1)
scatter-Settled_example = scatter-Settled (omega arith) ran_two.1 ran_two.2 1 (omega arith)

scatter-no_deadlock_example :
    ((ok : Bool) × (scattering.main ≡ over ok)) ⊎ CanStep two_workers 2 scattering
scatter-no_deadlock_example = scatter-no_deadlock (omega arith) begins

scatter-ends_example : 9 ≤ 6 * 2
scatter-ends_example = scatter-ends (omega arith) ran_two.1

-- The second context is not made.
abbrev few_contexts : Answers
few_contexts = record {
  array_length = some 3;
  makes_lock = true;
  makes_condition = true;
  allocates_results = true;
  roots_result = λ i. true;
  allocates_threads = true;
  roots_function = λ i. true;
  has_element = λ i. true;
  makes_context = λ i. i == 1;
  threads_end = true;
  makes_array = true;
}

scatter-balance_example :
    taken (context_of 1) (scatter few_contexts true).1
    ≡ given_back (context_of 1) (scatter few_contexts true).1
scatter-balance_example = scatter-balance few_contexts true (context_of 1)

-- The prefix `a:` and the message of two lines `b`, `c`.
print_message-lines_example :
    (ls : List (List ℕ)) × IsCut ls
    × (flatten ls ≡ 98 ∷ 10 ∷ 99 ∷ [])
    × (print_message (97 ∷ 58 ∷ []) [] (98 ∷ 10 ∷ 99 ∷ [])
        ≡ flatten (map (λ l. (97 ∷ 58 ∷ []) ++ l) ls))
print_message-lines_example = print_message-lines (97 ∷ 58 ∷ []) (98 ∷ 10 ∷ 99 ∷ [])

-- An error without a file name and a line, but with its source line.
abbrev bare_error : ErrorReport
bare_error = record {
  filename = none;
  lineno = 0;
  is_warning = false;
  is_strict = false;
  is_out_of_memory = false;
  linebuf = some (120 ∷ []);
  token = 0;
}

error_reporter-codes_example :
    code_after (error_reporter true (pos 0) (98 ∷ []) (some bare_error)) ≡ none
unfolding lacks_prefix
error_reporter-codes_example = error_reporter-codes true (pos 0) (98 ∷ []) bare_error

-- Three things in a circle, and one that is not reached.
abbrev circle : Heap
circle = record {
  roots = 0 ∷ [];
  children = λ x. if x == 0 then 1 ∷ [] else if x == 1 then 2 ∷ [] else 0 ∷ [];
  kind = λ x. object_thing;
}

abbrev all_memory : Memories
all_memory = record { starts_table = true; enters = λ c. true; allocates_node = λ k. true }

circle-InHeap : InHeap 4 circle
unfolding InHeap Below
circle-InHeap = (
  (omega arith, tt),
  λ x. elim (Bool-cases (x == 0)) [
    | inl e ↦ rw e (omega arith, tt)
    | inr e ↦ elim (Bool-cases (x == 1)) [
      | inl q ↦ rw (e, q) (omega arith, tt)
      | inr q ↦ rw (e, q) (omega arith, tt)
    ]
  ],
)

start-Below : Below 4 (0 ∷ [])
unfolding Below
start-Below = (omega arith, tt)

count_from-ends_example : count_from 4 circle all_memory (λ k. true) (0 ∷ []) ≢ count_unfinished
count_from-ends_example =
    count_from-ends 4 circle all_memory (λ k. true) (0 ∷ []) circle-InHeap start-Below

all_memory-Suffices : Suffices all_memory
unfolding Suffices
all_memory-Suffices = (refl, (λ c. refl), (λ k. refl))

count_from-reached_example :
    IsCount 4 circle (λ k. true) (0 ∷ []) (count_from 4 circle all_memory (λ k. true) (0 ∷ []))
count_from-reached_example =
    count_from-reached 4 circle all_memory (λ k. true) (0 ∷ []) circle-InHeap start-Below
      all_memory-Suffices

-- A text is a unit if it is empty or ends with a semicolon.
ends_unit : List ℕ → Bool
ends_unit [] = true
ends_unit (b ∷ []) = b == 59
ends_unit (b ∷ c ∷ bs) = ends_unit (c ∷ bs)

abbrev at_prompt : Answering
at_prompt = record {
  compilable = ends_unit;
  schedules = λ n text. true;
  reallocs = λ k. true;
  quitting = λ units. false;
}

two_lines : List Typed
two_lines = typed (97 ∷ []) ∷ typed (98 ∷ 59 ∷ []) ∷ typed_end ∷ []

interactive_session-refines_example :
    (interactive_session at_prompt two_lines
      ≡ text_session (suc (length two_lines)) at_prompt [] 1 false two_lines)
    × IsFinished (interactive_session at_prompt two_lines)
unfolding ends_unit
interactive_session-refines_example =
    interactive_session-refines at_prompt two_lines (λ k. refl) refl
