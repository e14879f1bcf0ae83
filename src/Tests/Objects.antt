-- ===== src/Tests/Objects.antt =====
-- Runs of the split global objects, of `write` and `snarf`, of `readline`, of scripts in
-- files and of the environment.
use sysjs.Prelude.{
  List, [], arith, false, length, none, refl, replicate, some, true, update, ℕ, ◌++◌, ◌+◌, ◌∷◌, ◌≡◌,
}
use sysjs.Shell.Natives.{Sent, SnarfAnswers, Wrote, snarf, write, wrote}
use sysjs.Shell.Natives.Files.{LetsGo, snarf-LetsGo}
use sysjs.Shell.Natives.Output.{Counts, spaced, write-Counts}
use sysjs.Shell.ReadLine.{Reading, bufsize_first, read_line, text_read}
use sysjs.Shell.ReadLine.Lines.{Chunked, line_ends, line_goes_on, read_line-line}
use sysjs.Shell.Scripts.{
  ScriptEngine, Scripts, compile_script, execute_script, gobble, load, run_script,
}
use sysjs.Shell.Scripts.Runs.{SkipsLine, executed_texts, gobble-SkipsLine, load-executes}
use sysjs.Shell.Split.{Objects, PropertyEngine}
use sysjs.Shell.Split.Creation.{split_create_inner, split_create_outer}
use sysjs.Shell.Split.Hooks.{HooksAgree, IsReplaced, split-hooks, split_create_inner-replaces}
use sysjs.Shell.Split.Links.{
  SplitReach, frozen_outer, inner_created, inner_of, no_objects, outer_created, outer_with,
}

-- An outer object with an inner one, which another inner one replaces.
abbrev no_complex : Objects
no_complex o = none

abbrev just_outer : Objects
just_outer = update no_complex 1 (some frozen_outer)

outer-SplitReach : SplitReach just_outer
unfolding split_create_outer
outer-SplitReach = outer_created 1 no_objects refl refl

abbrev first_inner : Objects
first_inner = update (update just_outer 2 (some (inner_of 1))) 1 (some (outer_with 2))

inner-SplitReach : SplitReach first_inner
unfolding split_create_inner
inner-SplitReach = inner_created 2 1 frozen_outer outer-SplitReach refl refl refl refl

split-hooks_example : HooksAgree first_inner 2
split-hooks_example = split-hooks 2 (inner_of 1) inner-SplitReach refl

split_create_inner-replaces_example :
    (after : Objects) × (split_create_inner true 3 1 first_inner ≡ some after)
    × IsReplaced 3 1 first_inner after
split_create_inner-replaces_example =
    split_create_inner-replaces 3 1 (outer_with 2) inner-SplitReach refl refl refl

abbrev all_done : PropertyEngine
all_done = record {
  makes_id = λ k. true;
  performs = λ c. true;
  is_standard = λ k. false;
  found_in = λ o k. none;
}

-- A system that takes whatever it is given.
takes_all : List Sent → List ℕ → Wrote
takes_all sent text = wrote (length text) 0

write-Counts_example :
    Counts
      (spaced 0 (some (97 ∷ []) ∷ some (98 ∷ []) ∷ []))
      (write takes_all (some (97 ∷ []) ∷ some (98 ∷ []) ∷ []))
write-Counts_example = write-Counts takes_all (some (97 ∷ []) ∷ some (98 ∷ []) ∷ [])

abbrev short_file : SnarfAnswers
short_file = record {
  makes_pathname = true;
  opens_file = true;
  seeks_end = true;
  told = 3;
  seeks_start = true;
  makes_buffer = true;
  bytes_read = 97 ∷ [];
  makes_string = true;
}

snarf-LetsGo_example : LetsGo short_file (snarf short_file)
snarf-LetsGo_example = snarf-LetsGo short_file

abbrev enough_memory : Reading
enough_memory = record {
  allocates_first = true;
  reallocates = λ n. true;
  at_end = false;
  makes_string = true;
}

-- A line of 256 bytes, which does not fit into the first block.
abbrev full_chunk : List ℕ
full_chunk = replicate 254 97

long-Chunked :
    Chunked bufsize_first 0
      ((full_chunk ++ 97 ∷ []) ∷ ((98 ∷ []) ++ 10 ∷ []) ∷ [])
      ((full_chunk ++ 97 ∷ []) ++ 98 ∷ [])
long-Chunked =
    line_goes_on full_chunk 97 (λ e. absurd (omega arith)) refl (omega arith) (line_ends (98 ∷ []))

read_line-line_example :
    read_line enough_memory ((full_chunk ++ 97 ∷ []) ∷ ((98 ∷ []) ++ 10 ∷ []) ∷ [])
    ≡ text_read ((full_chunk ++ 97 ∷ []) ++ 98 ∷ []) true
read_line-line_example = read_line-line enough_memory refl (λ n. refl) refl long-Chunked

abbrev runs_all : ScriptEngine
runs_all = record {
  for_scripts = λ o. o + 8;
  compiles = λ o text. true;
  executes = λ o text. (true, o);
}

abbrev fresh_scripts : Scripts
fresh_scripts = record { context_options = 0; script_calls = [] }

load-executes_example :
    executed_texts
      (load runs_all false (some (97 ∷ []) ∷ some (98 ∷ []) ∷ []) fresh_scripts).1.script_calls
    ≡ executed_texts [] ++ some (97 ∷ []) ∷ some (98 ∷ []) ∷ []
unfolding load run_script compile_script execute_script
load-executes_example =
    load-executes runs_all (some (97 ∷ []) ∷ some (98 ∷ []) ∷ []) fresh_scripts refl

gobble-SkipsLine_example : SkipsLine 35 (33 ∷ 10 ∷ 97 ∷ []) (gobble (35 ∷ 33 ∷ 10 ∷ 97 ∷ []))
gobble-SkipsLine_example = gobble-SkipsLine 35 (33 ∷ 10 ∷ 97 ∷ [])

-- A variable, and an entry that is none.
abbrev one_variable : List (List ℕ)
one_variable = (97 ∷ 61 ∷ 49 ∷ []) ∷ (98 ∷ []) ∷ []
