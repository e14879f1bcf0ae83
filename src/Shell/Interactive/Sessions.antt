-- ===== src/Shell/Interactive/Sessions.antt =====
-- The interactive part of `Process` (src/js.cpp) and what it promises: a session over texts.
use sysjs.Prelude.{
  ==_refl, Bool, Bool-cases, List, [], arith, false, if◌then◌else◌, inl, inr, length, not, refl,
  slice, subst, suc, sym, true, zero, ℕ, ◌&&◌, ◌<◌, ◌==◌, ◌||◌, ◌∷◌, ◌≡◌,
}
use sysjs.Shell.Interactive.{
  Answering, Buffer, Session, Typed, UnitRead, after_unit, interactive_session, next_unit,
  no_buffer, read_failed, read_unit, read_waits, session, session_failed, session_no_memory,
  session_over, session_overrun, session_unfinished, session_waits, typed, typed_end, typed_error,
  unit_read,
}
use sysjs.Shell.Interactive.Texts.{Collects, nothing_yet, with_line}
use sysjs.Shell.Interactive.Units.{
  ReadAs, TextRead, read_text, read_unit-ReadAs, text_failed, text_read, text_waits,
}

after_text :
    Answering
    → List (ℕ × List ℕ)
    → ℕ
    → (List (ℕ × List ℕ) → ℕ → Bool → List Typed → Session)
    → TextRead
    → Session
after_text answers units lineno later text_failed = session_failed units
after_text answers units lineno later text_waits = session_waits units
after_text answers units lineno later (text_read text lineno' rest hit_eof had) =
    let units' = (lineno, text) ∷ units in
    if hit_eof && not had
    then session_over units
    else if hit_eof || answers.quitting units'
    then session_over units'
    else later units' lineno' had rest

pub text_session : ℕ → Answering → List (ℕ × List ℕ) → ℕ → Bool → List Typed → Session
unfolding read_text after_text
text_session zero answers units lineno had input = session_unfinished
text_session (suc fuel) answers units lineno had input =
    after_text answers units lineno
      (λ units' lineno' had' rest. text_session fuel answers units' lineno' had' rest)
      (read_text answers lineno lineno had [] input)

after-agree :
    (answers : Answering) (units : List (ℕ × List ℕ)) (lineno : ℕ)
    (later : List (ℕ × List ℕ) → ℕ → Buffer → List Typed → Session)
    (later' : List (ℕ × List ℕ) → ℕ → Bool → List Typed → Session) (t : TextRead) (u : UnitRead)
    → ((us : List (ℕ × List ℕ)) (n : ℕ) (b : Buffer) (rest : List Typed)
        → later us n (next_unit b) rest ≡ later' us n b.allocated rest)
    → ReadAs t u
    → after_unit answers units lineno later u ≡ after_text answers units lineno later' t
unfolding after_unit after_text ReadAs
after-agree answers units lineno later later' (text_read x n rest e had) (unit_read b m rest' e')
      same (p, q, r, s, v) =
    rw (same ((lineno, slice b.mem 0 b.len) ∷ units) m b rest', p, q, r, s, v) refl
after-agree answers units lineno later later' text_failed read_failed same h = refl
after-agree answers units lineno later later' text_waits read_waits same h = refl
after-agree answers units lineno later later' _ _ same h = absurd h.0

module _ (answers : Answering) (enough : (k : ℕ) → answers.reallocs k ≡ true)
    (empty_unit : answers.compilable [] ≡ true) where
  session-agree :
      (fuel : ℕ) (units : List (ℕ × List ℕ)) (lineno : ℕ) (b : Buffer) (input : List Typed)
      → b.len ≡ 0
      → session fuel answers units lineno b input
        ≡ text_session fuel answers units lineno b.allocated input
  unfolding session text_session
  session-agree zero units lineno b input e = refl
  session-agree (suc fuel) units lineno b input e =
      after-agree answers units lineno (λ us n b' rest. session fuel answers us n b' rest)
        (λ us n had rest. text_session fuel answers us n had rest)
        (read_text answers lineno lineno b.allocated [] input)
        (read_unit answers lineno lineno b input)
        (λ us n b' rest. session-agree fuel us n (next_unit b') rest refl)
        (read_unit-ReadAs answers enough empty_unit lineno lineno [] b input
          (subst (Collects [] b) (sym (==_refl lineno)) (nothing_yet refl e)) (omega arith))

-- What is typed after a unit is less than what was typed.
LeavesLess : List Typed → TextRead → Type 0
LeavesLess input (text_read text lineno rest hit_eof had) = length rest < length input
LeavesLess input t = Unit {0}

LeavesLess-cons :
    (x : Typed) (input : List Typed) (t : TextRead) → LeavesLess input t → LeavesLess (x ∷ input) t
unfolding LeavesLess
LeavesLess-cons x input (text_read text lineno rest hit_eof had) h = omega arith
LeavesLess-cons x input text_failed h = tt
LeavesLess-cons x input text_waits h = tt

read_text-LeavesLess :
    (answers : Answering) (startline lineno : ℕ) (had : Bool) (text : List ℕ) (input : List Typed)
    → LeavesLess input (read_text answers startline lineno had text input)
unfolding read_text LeavesLess
read_text-LeavesLess answers startline lineno had text [] = tt
read_text-LeavesLess answers startline lineno had text (typed_error ∷ rest) = tt
read_text-LeavesLess answers startline lineno had text (typed_end ∷ rest) = omega arith
read_text-LeavesLess answers startline lineno had text (typed bytes ∷ rest) =
    let whole = with_line (startline == lineno) text bytes in
    elim (Bool-cases (answers.schedules startline whole)) [
      | inr q ↦ rw q (omega arith)
      | inl q ↦ elim (Bool-cases (answers.compilable whole)) [
        | inl r ↦ rw (q, r) (omega arith)
        | inr r ↦
            rw (q, r)
              (LeavesLess-cons (typed bytes) rest _
                (read_text-LeavesLess answers startline (suc lineno) true whole rest))
      ]
    ]

pub IsFinished : Session → Type 0
IsFinished session_unfinished = ⊥ × Unit {0}
IsFinished (session_overrun units) = ⊥ × Unit
IsFinished (session_no_memory units) = ⊥ × Unit
IsFinished s = Unit

after_text-IsFinished :
    (answers : Answering) (units : List (ℕ × List ℕ)) (lineno : ℕ) (input : List Typed)
    (later : List (ℕ × List ℕ) → ℕ → Bool → List Typed → Session) (t : TextRead)
    → ((us : List (ℕ × List ℕ)) (n : ℕ) (had : Bool) (rest : List Typed)
        → length rest < length input
        → IsFinished (later us n had rest))
    → LeavesLess input t
    → IsFinished (after_text answers units lineno later t)
unfolding after_text IsFinished LeavesLess
after_text-IsFinished answers units lineno input later text_failed k h = tt
after_text-IsFinished answers units lineno input later text_waits k h = tt
after_text-IsFinished answers units lineno input later (text_read x n rest e had) k h =
    elim (Bool-cases (e && not had)) [
      | inl q ↦ rw q tt
      | inr q ↦ elim (Bool-cases (e || answers.quitting ((lineno, x) ∷ units))) [
        | inl r ↦ rw (q, r) tt
        | inr r ↦ rw (q, r) (k ((lineno, x) ∷ units) n had rest h)
      ]
    ]

text_session-IsFinished :
    (fuel : ℕ) (answers : Answering) (units : List (ℕ × List ℕ)) (lineno : ℕ) (had : Bool)
    (input : List Typed)
    → length input < fuel
    → IsFinished (text_session fuel answers units lineno had input)
unfolding text_session
text_session-IsFinished zero answers units lineno had input lt = absurd (omega arith)
text_session-IsFinished (suc fuel) answers units lineno had input lt =
    after_text-IsFinished answers units lineno input _
      (read_text answers lineno lineno had [] input)
      (λ us n had' rest less. text_session-IsFinished fuel answers us n had' rest (omega arith))
      (read_text-LeavesLess answers lineno lineno had [] input)

-- An interactive session, with its block, its size and its lengths, is the session over texts: it
-- compiles the same units, each the lines typed for it with newlines between them, and ends in the
-- same way, so that it never writes past its block, and it comes to its end. The block can always
-- grow, and the empty text is a unit that can be compiled.
pub interactive_session-refines :
    (answers : Answering) (input : List Typed)
    → ((k : ℕ) → answers.reallocs k ≡ true)
    → answers.compilable [] ≡ true
    → (interactive_session answers input
        ≡ text_session (suc (length input)) answers [] 1 false input)
      × IsFinished (interactive_session answers input)
unfolding interactive_session
interactive_session-refines answers input enough empty_unit =
    let same =
      session-agree answers enough empty_unit (suc (length input)) [] 1 no_buffer input refl in
    (
      same,
      subst IsFinished (sym same)
          (text_session-IsFinished (suc (length input)) answers [] 1 false input (omega arith)),
    )
