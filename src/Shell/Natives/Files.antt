-- ===== src/Shell/Natives/Files.antt =====
-- The paths that `MakeAbsolutePathname` (src/js.cpp) makes, and what `Snarf` gives back.
use sysjs.Prelude.{
  ==_iff, Bool, Bool-cases, List, Option, Without, [], ap, arith, false, if◌then◌else◌, inl, inr,
  length, none, refl, some, subst, suc, take, true, ℕ, ◌&&◌, ◌++◌, ◌+◌, ◌==◌, ◌∙◌, ◌∷◌, ◌≡◌, ◌≢◌,
  ◌⊎◌,
}
use sysjs.Shell.Natives.{
  SnarfAnswers, SnarfCall, Snarfed, buffer_freed, buffer_made, file_closed, file_opened, last_slash,
  make_absolute_pathname, pathname_freed, pathname_made, snarf, snarf_failed, snarf_read,
  snarf_reported, snarfed,
}

ne_of_not : (b : ℕ) → (b == 47) ≡ false → b ≢ 47
ne_of_not b e q = ground arith

-- Where the last slash is found.
last_slash-lem :
    (cp : ℕ) (slash : Option ℕ) (bs : List ℕ)
    → (Without 47 bs × (last_slash cp slash bs ≡ slash))
      ⊎ ((dir : List ℕ) × (base : List ℕ) × (bs ≡ dir ++ 47 ∷ base)
          × Without 47 base
          × (last_slash cp slash bs ≡ some (cp + length dir + 1)))
unfolding last_slash
last_slash-lem cp slash [] = inl (tt, refl)
last_slash-lem cp slash (b ∷ bs) = elim (Bool-cases (b == 47)) [
  | inl e ↦ elim (last_slash-lem (suc cp) (some (suc cp)) bs) [
    | inl (w, q) ↦
        inr ([], bs, ap (λ c. c ∷ bs) ((==_iff b 47).0 e), w, rw (e, q) (ap some (omega arith)))
    | inr (dir, base, s, w, q) ↦
        inr (b ∷ dir, base, ap (λ l. b ∷ l) s, w, rw (e, q) (ap some (omega arith)))
  ]
  | inr e ↦ elim (last_slash-lem (suc cp) slash bs) [
    | inl (w, q) ↦ inl ((ne_of_not b e, w), rw (e, q) refl)
    | inr (dir, base, s, w, q) ↦
        inr (b ∷ dir, base, ap (λ l. b ∷ l) s, w, rw (e, q) (ap some (omega arith)))
  ]
]

suc_first : (n : ℕ) → suc (n + 1) ≡ suc n + 1
suc_first n = omega arith

zero_first : (n : ℕ) → 0 + n + 1 ≡ n + 1
zero_first n = omega arith

take-append_slash : (dir base : List ℕ) → take (length dir + 1) (dir ++ 47 ∷ base) ≡ dir ++ 47 ∷ []
take-append_slash [] base = refl
take-append_slash (b ∷ dir) base =
    subst (λ k. take k (b ∷ dir ++ 47 ∷ base) ≡ b ∷ dir ++ 47 ∷ []) (suc_first (length dir))
      (ap (λ l. b ∷ l) (take-append_slash dir base))

-- The path is that of the script up to its last slash, which is kept, with the leaf behind it; and the
-- leaf itself where the path of the script has no slash.
pub make_absolute_pathname_lem :
    (from leaf : List ℕ)
    → (Without 47 from × (make_absolute_pathname from leaf ≡ leaf))
      ⊎ ((dir : List ℕ) × (base : List ℕ) × (from ≡ dir ++ 47 ∷ base)
          × Without 47 base
          × (make_absolute_pathname from leaf ≡ (dir ++ 47 ∷ []) ++ leaf))
unfolding make_absolute_pathname
make_absolute_pathname_lem from leaf = elim (last_slash-lem 0 none from) [
  | inl (w, q) ↦ inl (w, rw (make_absolute_pathname, q) refl)
  | inr (dir, base, s, w, q) ↦ inr (
    dir,
    base,
    s,
    w,
    rw (make_absolute_pathname, q)
        (ap (λ d. d ++ leaf)
          (ap (λ k. take k from) (zero_first (length dir))
            ∙ ap (take (length dir + 1)) s
            ∙ take-append_slash dir base)),
  )
]

-- How often a call was made.
same_call : SnarfCall → SnarfCall → Bool
same_call pathname_made pathname_made = true
same_call pathname_freed pathname_freed = true
same_call file_opened file_opened = true
same_call file_closed file_closed = true
same_call buffer_made buffer_made = true
same_call buffer_freed buffer_freed = true
same_call snarf_reported snarf_reported = true
same_call _ _ = false

pub times : SnarfCall → List SnarfCall → ℕ
unfolding same_call
times c [] = 0
times c (d ∷ calls) = if same_call c d then times c calls + 1 else times c calls

-- The path and the file are let go of, and the block is freed or the string has it.
pub LetsGo : SnarfAnswers → Snarfed → Type 0
LetsGo answers (snarfed text calls) =
    (times pathname_made calls ≡ times pathname_freed calls)
    × (times file_opened calls ≡ times file_closed calls)
    × (times buffer_made calls ≡ times buffer_freed calls + 1)
    × (length text ≡ answers.told)
LetsGo answers (snarf_failed calls) =
    (times pathname_made calls ≡ times pathname_freed calls)
    × (times file_opened calls ≡ times file_closed calls)
    × (times buffer_made calls ≡ times buffer_freed calls)

snarf_read-LetsGo :
    (answers : SnarfAnswers)
    → LetsGo answers (snarf_read answers (file_opened ∷ pathname_made ∷ []))
unfolding snarf_read LetsGo times same_call
snarf_read-LetsGo answers = elim (Bool-cases answers.makes_buffer) [
  | inr bad ↦ rw bad (refl, refl, refl)
  | inl made ↦ elim (Bool-cases (length answers.bytes_read == answers.told)) [
    | inr short ↦ rw (made, short) (refl, refl, refl)
    | inl whole ↦ elim (Bool-cases answers.makes_string) [
      | inr bad ↦ rw (made, whole, bad) (refl, refl, refl)
      | inl kept ↦
          rw (made, whole, kept)
            (refl, refl, refl, (==_iff (length answers.bytes_read) answers.told).0 whole)
    ]
  ]
]

-- However `Snarf` ends, it has freed the path and closed the file; the block is freed when it fails and
-- the string's when it does not, and then the text has the length that the file was said to have.
pub snarf-LetsGo : (answers : SnarfAnswers) → LetsGo answers (snarf answers)
unfolding snarf LetsGo times same_call
snarf-LetsGo answers = elim (Bool-cases answers.makes_pathname) [
  | inr bad ↦ rw bad (refl, refl, refl)
  | inl path ↦ elim (Bool-cases answers.opens_file) [
    | inr bad ↦ rw (path, bad) (refl, refl, refl)
    | inl file ↦ elim (Bool-cases (answers.seeks_end && answers.seeks_start)) [
      | inr bad ↦ rw (path, file, bad) (refl, refl, refl)
      | inl sought ↦ rw (path, file, sought) (snarf_read-LetsGo answers)
    ]
  ]
]
