-- ===== src/Shell/Natives/Output.antt =====
-- What `Write` (src/js.cpp) sends and counts.
use sysjs.Prelude.{
  Bool-cases, List, Option, [], ap, append-nil, append_assoc, arith, false, if◌then◌else◌, inl, inr,
  none, refl, some, subst, suc, sym, true, ℕ, ◌++◌, ◌+◌, ◌<◌, ◌==◌, ◌^◌, ◌∙◌, ◌∷◌, ◌≡◌, ◌≤◌,
}
use sysjs.Shell.GetLine.{until_nul}
use sysjs.Shell.Natives.{
  Sent, Written, Wrote, below_zero, count_of, count_overflows, failed_write, fits_int, write,
  write_failed, write_loop, written_all,
}

-- What is sent of the arguments from the `i`th on: the bytes of each before its first NUL, with a space
-- in front but for the first of all.
pub spaced : ℕ → List (Option (List ℕ)) → List ℕ
spaced i [] = []
spaced i (none ∷ args) = []
spaced i (some argument ∷ args) =
    let bytes = until_nul argument in (if i == 0 then bytes else 32 ∷ bytes) ++ spaced (suc i) args

-- What was sent, from the first on, and how many bytes of it were taken.
pub text_sent : List Sent → List ℕ
text_sent [] = []
text_sent (s ∷ sent) = text_sent sent ++ s.sent_bytes

pub bytes_taken : List Sent → ℕ
bytes_taken [] = 0
bytes_taken (s ∷ sent) = bytes_taken sent + count_of s.outcome

-- A number is the bytes that were taken of the text, and is that of an `int`; it overflows where 2^31
-- bytes or more were taken.
pub Counts : List ℕ → Written → Type 0
Counts text (written_all n sent) = (n ≡ bytes_taken sent) × (n < 2 ^ 31) × (text_sent sent ≡ text)
Counts text (count_overflows sent) = 2 ^ 31 ≤ bytes_taken sent
Counts text (write_failed says sent) = Unit {0}

same_text : {text text' : List ℕ} (w : Written) → text ≡ text' → Counts text w → Counts text' w
same_text w e counts = subst (λ t. Counts t w) e counts

fits_int-lt : (n : ℕ) → fits_int n ≡ true → n < 2 ^ 31
fits_int-lt n e = ground arith

not_fits_int : (n : ℕ) → fits_int n ≡ false → 2 ^ 31 ≤ n
not_fits_int n e = ground arith

write_loop-Counts :
    (answers : List Sent → List ℕ → Wrote) (i l : ℕ) (sent : List Sent)
    (args : List (Option (List ℕ)))
    → l ≡ bytes_taken sent
    → l < 2 ^ 31
    → Counts (text_sent sent ++ spaced i args) (write_loop answers i l sent args)
unfolding write_loop Counts spaced text_sent bytes_taken
write_loop-Counts answers i l sent [] e lt = (e, lt, sym (append-nil (text_sent sent)))
write_loop-Counts answers i l sent (none ∷ args) e lt = tt
write_loop-Counts answers i l sent (some argument ∷ args) e lt =
    let bytes = until_nul argument in
    let space = answers sent (32 ∷ []) in
    let sent' = record { sent_bytes = 32 ∷ []; outcome = space } ∷ sent in
    let first = answers sent bytes in
    let later = answers sent' bytes in
    let total = l + count_of space in
    elim (Bool-cases (i == 0)) [
      | inl z ↦ elim (Bool-cases (failed_write first)) [
        | inl bad ↦ rw (z, bad) tt
        | inr good ↦ elim (Bool-cases (fits_int (l + count_of first))) [
          | inr much ↦ rw (z, good, much) (omega (arith, e, not_fits_int (l + count_of first) much))
          | inl fits ↦
              rw (z, good, fits)
                (same_text _ (append_assoc (text_sent sent) bytes (spaced (suc i) args)) (
                  write_loop-Counts answers (suc i) (l + count_of first)
                    (record { sent_bytes = bytes; outcome = first } ∷ sent) args
                    (ap (λ n. n + count_of first) e) (fits_int-lt (l + count_of first) fits)))
        ]
      ]
      | inr nz ↦ elim (Bool-cases (below_zero space)) [
        | inl bad ↦ rw (nz, bad) tt
        | inr good ↦ elim (Bool-cases (fits_int total)) [
          | inr much ↦ rw (nz, good, much) (omega (arith, e, not_fits_int total much))
          | inl fits ↦ elim (Bool-cases (failed_write later)) [
            | inl bad ↦ rw (nz, good, fits, bad) tt
            | inr fine ↦ elim (Bool-cases (fits_int (total + count_of later))) [
              | inr much ↦
                  rw (nz, good, fits, fine, much)
                    (omega (arith, e, not_fits_int (total + count_of later) much))
              | inl both ↦
                  rw (nz, good, fits, fine, both)
                    (same_text _
                      (ap (λ t. t ++ spaced (suc i) args)
                          (append_assoc (text_sent sent) (32 ∷ []) bytes)
                        ∙ append_assoc (text_sent sent) (32 ∷ bytes) (spaced (suc i) args))
                      (write_loop-Counts answers (suc i) (total + count_of later)
                        (record { sent_bytes = bytes; outcome = later } ∷ sent') args
                        (ap (λ n. n + count_of space + count_of later) e)
                        (fits_int-lt (total + count_of later) both)))
            ]
          ]
        ]
      ]
    ]

-- Where `Write` returns a number, it has sent the bytes of all its arguments, of each those before its
-- first NUL, with a space between two of them, and the number is that of the bytes that the system
-- took, also where it took fewer than were sent; it overflows only where 2^31 bytes were taken.
pub write-Counts :
    (answers : List Sent → List ℕ → Wrote) (args : List (Option (List ℕ)))
    → Counts (spaced 0 args) (write answers args)
unfolding write text_sent bytes_taken
write-Counts answers args = write_loop-Counts answers 0 0 [] args refl (omega arith)
