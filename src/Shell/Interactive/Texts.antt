-- ===== src/Shell/Interactive/Texts.antt =====
-- What the block of the interactive part of `Process` (src/js.cpp) holds after a line was added.
use sysjs.Prelude.{
  Bool, Bool-cases, Holds, Holds-append, Holds-snoc, Holds-store_all, List, Memory, [],
  append_assoc, arith, false, if◌then◌else◌, inl, inr, length, length-append, le→not_ltb, ltb,
  ne→not_==, refl, store, store_all, store_all-Holds, subst, sym, true, ℕ, ◌++◌, ◌+◌, ◌<◌, ◌==◌,
  ◌∷◌, ◌≡◌,
}
use sysjs.Shell.Interactive.{
  Added, Buffer, add_line, add_to_block, added, grown_size, no_memory, overrun, put_line,
}

-- The text of a unit after a further line.
unfoldable pub with_line : Bool → List ℕ → List ℕ → List ℕ
with_line first text bytes = if first then bytes else text ++ 10 ∷ bytes

-- The block holds a text, with room for its NUL.
pub record HoldsText (text : List ℕ) (b : Buffer) : Type 0 where
  pub counted_len : b.len ≡ length text
  pub held : Holds b.mem 0 text
  pub room : length text < b.size
  pub block : b.allocated ≡ true

-- A unit that has no line yet, or one whose lines are not nothing.
pub data Collects (text : List ℕ) (b : Buffer) : Bool → Type 0 where
  nothing_yet : text ≡ [] → b.len ≡ 0 → Collects text b true
  some_lines : HoldsText text b → 0 < length text → Collects text b false

-- A text that is stored with its NUL is held.
stored-Holds : (mem : Memory) (i : ℕ) (bs : List ℕ) → Holds (store_all mem i (bs ++ 0 ∷ [])) i bs
stored-Holds mem i bs = (Holds-append _ i bs (0 ∷ []) (store_all-Holds mem i (bs ++ 0 ∷ []))).0

grown_size-room : (newlen size : ℕ) → newlen < grown_size newlen size
unfolding grown_size
grown_size-room newlen size = ground arith

-- The text before is kept, and the newline and the line stand behind it.
joined-Holds :
    (mem : Memory) (text bytes : List ℕ)
    → Holds mem 0 text
    → Holds
        (store_all (store mem (length text) 10) (length text + 1) (bytes ++ 0 ∷ []))
        0
        (text ++ 10 ∷ bytes)
joined-Holds mem text bytes h =
    let before = store mem (length text) 10 in
    let ended = text ++ 10 ∷ [] in
    let after = store_all before (length text + 1) (bytes ++ 0 ∷ []) in
    let size : length ended ≡ length text + 1 = length-append text (10 ∷ []) in
    let whole : Holds after 0 (ended ++ (bytes ++ 0 ∷ [])) =
      subst (λ k. Holds (store_all before k (bytes ++ 0 ∷ [])) 0 (ended ++ (bytes ++ 0 ∷ []))) size
        (Holds-store_all before ended (bytes ++ 0 ∷ [])
          (Holds-snoc mem 0 (length text) 10 text (omega arith) h)) in
    let split : Holds after 0 ((ended ++ bytes) ++ 0 ∷ []) =
      subst (Holds after 0) (sym (append_assoc ended bytes (0 ∷ []))) whole in
    subst (Holds after 0) (append_assoc text (10 ∷ []) bytes)
      (Holds-append after 0 (ended ++ bytes) (0 ∷ []) split).0

-- A line is added, where the block can grow, and what the block then holds is the text with it.
unfoldable pub AddedText : List ℕ → Added → Type 0
AddedText text (added b) = HoldsText text b × Unit {0}
AddedText text no_memory = ⊥ × Unit
AddedText text overrun = ⊥ × Unit

added_block :
    (text : List ℕ) (a : Added) → AddedText text a → (b : Buffer) × (a ≡ added b) × HoldsText text b
unfolding AddedText
added_block text (added b) h = (b, refl, h.0)
added_block text no_memory h = absurd h.0
added_block text overrun h = absurd h.0

first_put :
    (bytes : List ℕ) (newlen size : ℕ) (b : Buffer)
    → b.len ≡ 0
    → newlen ≡ length bytes
    → newlen < size
    → AddedText bytes (put_line true bytes newlen size b)
unfolding AddedText put_line
first_put bytes newlen size b none_yet e lt =
    simp (le→not_ltb (b.len + length bytes + 1) size (omega (arith, none_yet))) (
      record {
        counted_len = e;
        held =
            subst (λ k. Holds (store_all b.mem k (bytes ++ 0 ∷ [])) 0 bytes) (sym none_yet)
              (stored-Holds b.mem 0 bytes);
        room = omega arith;
        block = refl;
      },
      tt,
    )

later_put :
    (text bytes : List ℕ) (newlen size : ℕ) (b : Buffer)
    → HoldsText text b
    → newlen ≡ length bytes + (b.len + 1)
    → newlen < size
    → AddedText (text ++ 10 ∷ bytes) (put_line false bytes newlen size b)
unfolding AddedText put_line
later_put text bytes newlen size b h e lt =
    simp (le→not_ltb (b.len + 1 + length bytes + 1) size (omega arith)) (
      record {
        counted_len = omega (arith, e, h.counted_len, length-append text (10 ∷ bytes));
        held =
            subst
              (λ k.
                Holds (store_all (store b.mem k 10) (k + 1) (bytes ++ 0 ∷ [])) 0
                  (text ++ 10 ∷ bytes))
              (sym h.counted_len) (joined-Holds b.mem text bytes h.held);
        room = omega (arith, e, h.counted_len, length-append text (10 ∷ bytes), lt);
        block = refl;
      },
      tt,
    )

module _ (reallocs : ℕ → Bool) (enough : (k : ℕ) → reallocs k ≡ true) where
  add_to_block-put :
      (first : Bool) (bytes : List ℕ) (newlen : ℕ) (b : Buffer)
      → add_to_block reallocs first bytes newlen b
        ≡ put_line first bytes newlen (grown_size newlen b.size) b
  unfolding add_to_block
  add_to_block-put first bytes newlen b =
      let got = enough (grown_size newlen b.size) in
      elim (Bool-cases (ltb b.size (newlen + 1))) [ inl q ↦ rw (q, got) refl | inr q ↦ rw q refl ]

  -- A line that is typed is added to the text, and nothing is written past the block, if no unit goes
  -- on behind an empty text.
  pub add_line-AddedText :
      (first : Bool) (text bytes : List ℕ) (b : Buffer)
      → Collects text b first
      → AddedText (with_line first text bytes) (add_line reallocs first bytes b)
  unfolding AddedText with_line add_line
  add_line-AddedText true text bytes b (nothing_yet e none_yet) = elim (Bool-cases b.allocated) [
    | inr q ↦ simp q (
      record {
        counted_len = refl;
        held = stored-Holds b.mem 0 bytes;
        room = omega arith;
        block = refl;
      },
      tt,
    )
    | inl q ↦
        let newlen = length bytes + (if b.len == 0 then 0 else b.len + 1) in
        let same : newlen ≡ length bytes = simp none_yet (omega arith) in
        let larger = grown_size-room newlen b.size in
        simp q (
          subst (AddedText bytes) (sym (add_to_block-put true bytes newlen b))
            (first_put bytes newlen _ b none_yet same larger))
  ]
  add_line-AddedText false text bytes b (some_lines h lt) =
      let newlen = length bytes + (b.len + 1) in
      let not_empty : (b.len == 0) ≡ false =
        ne→not_== b.len 0 (λ q. omega (arith, q, lt, h.counted_len)) in
      simp (h.block, not_empty)
        (subst (AddedText (text ++ 10 ∷ bytes)) (sym (add_to_block-put false bytes newlen b))
          (later_put text bytes newlen _ b h refl (grown_size-room newlen b.size)))
