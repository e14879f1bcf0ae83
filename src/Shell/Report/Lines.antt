-- ===== src/Shell/Report/Lines.antt =====
-- The lines that `my_ErrorReporter` (src/js.cpp) prints, and the place of its caret.
use native.Mathlib.Decide.{ℕ_discrete}
use sysjs.Prelude.{
  Bool-cases, List, Without, Without-append, [], append-nil, append_assoc, arith, inl, inr, length,
  length-append, length-replicate, map, ne→not_==, refl, replicate, subst, sym, ℕ, ◌*◌, ◌++◌, ◌+◌,
  ◌-◌, ◌<◌, ◌==◌, ◌∷◌, ◌≡◌, ◌≤◌,
}
use sysjs.Shell.Report.{caret_dots, print_message, tab_stop}

-- The pieces that end with their only newline, but the last, which has none.
pub IsCut : List (List ℕ) → Type 0
IsCut [] = ⊥ × Unit {0}
IsCut (l ∷ []) = Without 10 l × Unit
IsCut (l ∷ m ∷ ls) = ((t : List ℕ) × (l ≡ t ++ 10 ∷ []) × Without 10 t) × IsCut (m ∷ ls)

pub flatten : List (List ℕ) → List ℕ
flatten [] = []
flatten (l ∷ ls) = l ++ flatten ls

-- What is printed of a message whose current line has begun.
IsPrinted : List ℕ → List ℕ → List ℕ → Type 0
IsPrinted p whole out =
    (ls : List (List ℕ)) × IsCut ls × (flatten ls ≡ whole) × (out ≡ flatten (map (λ l. p ++ l) ls))

IsCut-cons :
    (t : List ℕ) (ls : List (List ℕ)) → Without 10 t → IsCut ls → IsCut ((t ++ 10 ∷ []) ∷ ls)
unfolding IsCut
IsCut-cons t [] w h = absurd h.0
IsCut-cons t (l ∷ ls) w h = ((t, refl, w), h)

next_line :
    (p begun bs out : List ℕ)
    → Without 10 begun
    → IsPrinted p bs out
    → IsPrinted p (begun ++ 10 ∷ bs) (p ++ begun ++ 10 ∷ out)
unfolding flatten IsPrinted
next_line p begun bs out w (ls, cut, flat, printed) = (
  (begun ++ 10 ∷ []) ∷ ls,
  IsCut-cons begun ls w cut,
  rw (append_assoc begun (10 ∷ []) (flatten ls), flat) refl,
  rw
      (
        printed,
        append_assoc p begun (10 ∷ flatten (map (λ l. p ++ l) ls)),
        append_assoc p (begun ++ 10 ∷ []) (flatten (map (λ l. p ++ l) ls)),
        append_assoc begun (10 ∷ []) (flatten (map (λ l. p ++ l) ls)),
      )
      refl,
)

print_message-IsPrinted :
    (p begun bs : List ℕ) → Without 10 begun → IsPrinted p (begun ++ bs) (print_message p begun bs)
unfolding print_message IsCut flatten IsPrinted
print_message-IsPrinted p begun [] w = (begun ∷ [], (w, tt), refl, sym (append-nil (p ++ begun)))
print_message-IsPrinted p begun (b ∷ bs) w = elim (ℕ_discrete b 10) [
  | yes e ↦
      rw e (next_line p begun bs (print_message p [] bs) w (print_message-IsPrinted p [] bs tt))
  | no ne ↦ rw (ne→not_== b 10 ne) (
      subst (λ whole. IsPrinted p whole (print_message p (begun ++ b ∷ []) bs))
        (append_assoc begun (b ∷ []) bs)
        (print_message-IsPrinted p (begun ++ b ∷ []) bs
          (Without-append 10 begun (b ∷ []) w (ne, tt))))
]

-- What is printed of a message is its lines, each with the prefix before it: the message is cut into
-- pieces that end with their only newline, the last of them having none, and the output is the
-- pieces, in their order, each behind the prefix.
pub print_message-lines :
    (p message : List ℕ)
    → (ls : List (List ℕ)) × IsCut ls
      × (flatten ls ≡ message)
      × (print_message p [] message ≡ flatten (map (λ l. p ++ l) ls))
unfolding IsPrinted
print_message-lines p message = print_message-IsPrinted p [] message tt

tab_stop-bounds : (j : ℕ) → (j < tab_stop j) × (tab_stop j ≤ j + 8)
tab_stop-bounds j = omega arith

caret_dots-length :
    (j : ℕ) (bs : List ℕ)
    → (length bs ≤ length (caret_dots j bs)) × (length (caret_dots j bs) ≤ 8 * length bs)
unfolding caret_dots
caret_dots-length j [] = (omega arith, omega arith)
caret_dots-length j (b ∷ bs) =
    let tabs : List ℕ = replicate (tab_stop j - j) 46 in
    elim (Bool-cases (b == 9)) [
      | inl e ↦
          let rest = caret_dots-length (tab_stop j) bs in
          let whole = length-append tabs (caret_dots (tab_stop j) bs) in
          let size = length-replicate {A = ℕ} (tab_stop j - j) 46 in
          rw e (
            omega (arith, rest, whole, size, tab_stop-bounds j),
            omega (arith, rest, whole, size, tab_stop-bounds j),
          )
      | inr e ↦
          let rest = caret_dots-length (j + 1) bs in rw e (omega (arith, rest), omega (arith, rest))
    ]
