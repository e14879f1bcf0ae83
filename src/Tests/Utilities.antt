-- ===== src/Tests/Utilities.antt =====
-- Runs of the utilities, of the loading of shared objects, and of the command line.
use sysjs.Dso.{Dso, Loader, dl_opened, js_dso_load, js_dso_unload, no_dso, ran_load}
use sysjs.Dso.Ownership.{Leaves, Owned, js_dso_load-Owned, no_dso-Owned}
use sysjs.Dso.Table.{Takes, js_dso_load-Takes, js_dso_unload-js_dso_load}
use sysjs.Host.{Ensures, Returns, int, invalid_argument, string, thrown, void}
use sysjs.Prelude.{List, [], arith, false, none, pos, refl, store, true, ℕ, ◌∷◌, ◌≡◌}
use sysjs.Shell.Args.{Env, Pass, first_pass, second_pass}
use sysjs.Shell.Args.Passes.{Agrees, WithoutNames, first_pass-second_pass}
use sysjs.Shell.GetLine.{get_line, line}
use sysjs.Shell.GetLine.Lines.{get_line-line}
use sysjs.SysUtil.{System, call, m_open}
use sysjs.SysUtil.Guards.{call-refusal, has_kind, kinds, refusal}
use sysjs.Tests.Samples.{engine}

-- A system on which every call succeeds.
abbrev system_ok : System
system_ok = record { environment = λ s. none; number = λ c. pos 0; errno = λ c. none }

call-refusal_example :
    call engine (λ bits. bits) system_ok m_open (string [] ∷ string [] ∷ [])
    ≡ thrown invalid_argument []
unfolding kinds refusal has_kind
call-refusal_example =
    call-refusal engine (λ bits. bits) system_ok m_open (string [] ∷ string [] ∷ [])
      invalid_argument (λ e. cc) refl

-- Only the path "m" opens, and its functions succeed.
abbrev loader : Loader
loader = record {
  open_path = λ path. elim path [ b ∷ [] ↦ 5 | _ ↦ 0 ];
  has_load = λ h. true;
  has_unload = λ h. true;
  run_load = λ h. true;
  run_unload = λ h. true;
}

abbrev one_loaded : Dso
one_loaded = record { slots = store (λ j. 0) 0 5; calls = ran_load 5 ∷ dl_opened 5 ∷ [] }

one_loaded-Takes : Takes no_dso (int (pos 0)) one_loaded
one_loaded-Takes = record {
  id = 0;
  handle = 5;
  named = refl;
  inside = omega arith;
  was_free = refl;
  first = λ j lt. absurd (omega (arith, lt));
  is_open = omega arith;
  stored = refl;
}

js_dso_load-Takes_example :
    Ensures (Takes no_dso) (λ e d'. d'.slots ≡ no_dso.slots) (js_dso_load loader (109 ∷ []) no_dso)
js_dso_load-Takes_example =
    js_dso_load-Takes loader (109 ∷ []) no_dso 0 (omega arith) refl (omega arith)

abbrev full_table : Dso
full_table = record { slots = λ j. 1; calls = [] }

js_dso_unload-js_dso_load_example :
    Returns void (λ d''. d''.slots ≡ no_dso.slots) (js_dso_unload loader (pos 0) one_loaded)
unfolding one_loaded-Takes
js_dso_unload-js_dso_load_example =
    js_dso_unload-js_dso_load loader no_dso one_loaded (int (pos 0)) (λ h. refl) one_loaded-Takes

js_dso_load-Owned_example : Leaves Owned (js_dso_load loader (109 ∷ []) no_dso)
js_dso_load-Owned_example = js_dso_load-Owned loader (109 ∷ []) no_dso no_dso-Owned

-- A program in which every action succeeds.
abbrev env : Env
env = record {
  build = record { gc_zeal = false; trace_vis = false; shark = false };
  exit_code = λ done. pos 0;
  succeeds = λ done a. true;
}

abbrev begin : Pass
begin = record { actions = []; interactive = true; force_tty = false }

-- `-w -v 1 p x`
abbrev words : List (List ℕ)
words = (45 ∷ 119 ∷ []) ∷ (45 ∷ 118 ∷ []) ∷ (49 ∷ []) ∷ (112 ∷ []) ∷ (120 ∷ []) ∷ []

words-WithoutNames : WithoutNames words
words-WithoutNames = ground arith

first_pass-second_pass_example : Agrees (first_pass env.build words) (second_pass env words begin)
first_pass-second_pass_example = first_pass-second_pass env words begin words-WithoutNames

-- `-o xml p x`
abbrev named_words : List (List ℕ)
named_words = (45 ∷ 111 ∷ []) ∷ (120 ∷ 109 ∷ 108 ∷ []) ∷ (112 ∷ []) ∷ (120 ∷ []) ∷ []

get_line-line_example :
    get_line (λ n. true) false (97 ∷ 98 ∷ 10 ∷ 99 ∷ []) ≡ line (97 ∷ 98 ∷ []) (99 ∷ [])
get_line-line_example =
    get_line-line (λ n. true) false (97 ∷ 98 ∷ []) (99 ∷ []) (λ n. refl)
      (omega arith, (omega arith, tt)) (omega arith, (omega arith, tt))
