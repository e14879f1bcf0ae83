-- ===== src/Shell/Scatter/Barrier.antt =====
-- What holds in every state of the machine of `Scatter` (src/js.cpp): of each thread with its result
-- and of where the main thread stands.
use native.Mathlib.Decide.{ℕ_discrete}
use sysjs.Host.{JsVal, void}
use sysjs.Prelude.{
  ap, false, inl, inr, refl, subst, sym, true, update, update_ne, update_self, ℕ, ◌<◌, ◌∙◌, ◌≡◌,
  ◌≢◌, ◌≤◌, ◌⊎◌,
}
use sysjs.Shell.Scatter.{
  MainAt, Returned, ScatterStatus, Scattered, ThreadAt, WorkerStep, Workers, absent, asleep,
  cancelling, cancels, cannot_set, creating, do_scattered_work, gave_up, goes, joining, over,
  own_work, scatter_cancel, scatter_go, scatter_wait, sets, testing, unset, waits, worked, working,
  works,
}

-- A thread, its result and the status.
abbrev pub WorkerOk : Workers → ScatterStatus → ℕ → ThreadAt → JsVal → Type 0
WorkerOk workers status i absent r = (r ≡ void) × Unit {0}
WorkerOk workers status i unset r = (r ≡ void) × Unit {0}
WorkerOk workers status i testing r = (r ≡ void) × (workers.private_set i ≡ true)
WorkerOk workers status i asleep r =
    (r ≡ void) × (workers.private_set i ≡ true) × (status ≡ scatter_wait)
WorkerOk workers status i working r =
    (r ≡ void) × (workers.private_set i ≡ true) × (status ≡ scatter_go)
WorkerOk workers status i worked r =
    (r ≡ do_scattered_work (workers.call i))
    × (workers.private_set i ≡ true)
    × (status ≡ scatter_go)
WorkerOk workers status i gave_up r =
    (r ≡ void) × ((workers.private_set i ≡ false) ⊎ (status ≡ scatter_cancel))

abbrev pub Created : ThreadAt → Type 0
Created absent = ⊥ × Unit
Created t = Unit {0}

-- No use of the shared data by the thread is left.
abbrev pub Settled : ThreadAt → Type 0
Settled absent = Unit {0}
Settled worked = Unit
Settled gave_up = Unit
Settled t = ⊥ × Unit

-- The main thread, the status, the threads, and its own result.
abbrev pub MainOk : Workers → ℕ → MainAt → ScatterStatus → (ℕ → ThreadAt) → JsVal → Type 0
MainOk workers n (creating i) status threads r =
    (status ≡ scatter_wait)
    × (0 < i)
    × (i ≤ n)
    × ((j : ℕ) → 0 < j → j < i → Created (threads j))
    × ((j : ℕ) → i ≤ j → threads j ≡ absent)
    × (r ≡ void)
MainOk workers n own_work status threads r =
    (status ≡ scatter_go)
    × ((j : ℕ) → 0 < j → j < n → Created (threads j))
    × ((j : ℕ) → n ≤ j → threads j ≡ absent)
    × (0 < n)
    × (r ≡ void)
MainOk workers n (joining i) status threads r =
    (status ≡ scatter_go)
    × ((j : ℕ) → 0 < j → j < n → Created (threads j))
    × ((j : ℕ) → n ≤ j → threads j ≡ absent)
    × (0 < i)
    × (i ≤ n)
    × ((j : ℕ) → 0 < j → j < i → Returned (threads j))
    × (r ≡ do_scattered_work (workers.call 0))
MainOk workers n (cancelling i) status threads r =
    (status ≡ scatter_cancel)
    × ((j : ℕ) → 0 < j → j < i → Created (threads j))
    × ((j : ℕ) → i ≤ j → Settled (threads j))
    × (0 < i)
    × (i ≤ n)
    × (r ≡ void)
MainOk workers n (over true) status threads r =
    (status ≡ scatter_go)
    × ((j : ℕ) → 0 < j → j < n → Returned (threads j))
    × ((j : ℕ) → n ≤ j → threads j ≡ absent)
    × (r ≡ do_scattered_work (workers.call 0))
MainOk workers n (over false) status threads r =
    (status ≡ scatter_cancel) × ((j : ℕ) → 0 < j → Settled (threads j)) × (r ≡ void)

pub record IsSound (workers : Workers) (n : ℕ) (s : Scattered) : Type 0 where
  pub each : (j : ℕ) → 0 < j → WorkerOk workers s.status j (s.threads j) (s.results j)
  pub at_main : MainOk workers n s.main s.status s.threads (s.results 0)

-- A notification awakens, and neither creates nor ends a thread.
pub Created-awake : (t : ThreadAt) → Created t → Created (elim t [ asleep ↦ testing | u ↦ u ])
Created-awake absent h = h
Created-awake asleep h = tt
Created-awake _ h = tt

pub absent-awake : (t : ThreadAt) → t ≡ absent → elim t [ asleep ↦ testing | u ↦ u ] ≡ absent
absent-awake t e = rw e

pub Settled-absent : (t : ThreadAt) → t ≡ absent → Settled t
Settled-absent t e = rw e tt

not_wait : scatter_wait ≢ scatter_go
not_wait e = cc

-- What the signal makes of a thread that could be anywhere while the status was SCATTER_WAIT.
pub WorkerOk-awake :
    (workers : Workers) (i : ℕ) (t : ThreadAt) (r : JsVal) (status : ScatterStatus)
    → WorkerOk workers scatter_wait i t r
    → WorkerOk workers status i (elim t [ asleep ↦ testing | u ↦ u ]) r
WorkerOk-awake workers i absent r status h = h
WorkerOk-awake workers i unset r status h = h
WorkerOk-awake workers i testing r status h = h
WorkerOk-awake workers i asleep r status h = (h.0, h.1)
WorkerOk-awake workers i working r status h = absurd (not_wait h.2)
WorkerOk-awake workers i worked r status h = absurd (not_wait h.2)
WorkerOk-awake workers i gave_up r status h =
    (h.0, elim h.1 [ inl e ↦ inl e | inr e ↦ absurd (cc) ])

-- The step of a thread keeps what is said of it, and only a thread that has not returned makes one.
pub WorkerStep-ok :
    {workers : Workers} {status : ScatterStatus} {i : ℕ} {r v : JsVal} {t u : ThreadAt}
    → WorkerStep workers status i r t u v
    → WorkerOk workers status i t r
    → WorkerOk workers status i u v
WorkerStep-ok (sets e) h = (h.0, e)
WorkerStep-ok (cannot_set e) h = (h.0, inl e)
WorkerStep-ok (waits e) h = (h.0, h.1, e)
WorkerStep-ok (goes e) h = (h.0, h.1, e)
WorkerStep-ok (cancels e) h = (h.0, inr e)
WorkerStep-ok works h = (refl, h.1, h.2)

pub WorkerStep-live :
    {workers : Workers} {status : ScatterStatus} {i : ℕ} {r v : JsVal} {t u : ThreadAt}
    → WorkerStep workers status i r t u v
    → (t ≢ absent) × (¬ Settled t) × (¬ Returned t) × Created u
WorkerStep-live (sets e) = ((λ q. cc), (λ h. h.0), (λ h. h.0), tt)
WorkerStep-live (cannot_set e) = ((λ q. cc), (λ h. h.0), (λ h. h.0), tt)
WorkerStep-live (waits e) = ((λ q. cc), (λ h. h.0), (λ h. h.0), tt)
WorkerStep-live (goes e) = ((λ q. cc), (λ h. h.0), (λ h. h.0), tt)
WorkerStep-live (cancels e) = ((λ q. cc), (λ h. h.0), (λ h. h.0), tt)
WorkerStep-live works = ((λ q. cc), (λ h. h.0), (λ h. h.0), tt)

-- What holds at the changed index of the new member, and of the old members at the others.
pub update-split {ℓ} :
    {A : Type ℓ} (P : ℕ → A → Type 0) (f : ℕ → A) (i : ℕ) (a : A)
    → P i a
    → (j : ℕ) → (j ≢ i → P j (f j))
    → P j (update f i a j)
update-split P f i a here j there = elim (ℕ_discrete j i) [
  | yes e ↦ subst (λ k. P k (update f i a k)) (sym e) (subst (P i) (sym (update_self f i a)) here)
  | no ne ↦ subst (P j) (sym (update_ne f i a j ne)) (there ne)
]

-- What a change keeps holds of every member that had it.
update-keeps {ℓ} :
    {A : Type ℓ} (P : A → Type 0) (f : ℕ → A) (i : ℕ) (a : A)
    → (P (f i) → P a)
    → (j : ℕ) → P (f j)
    → P (update f i a j)
update-keeps P f i a k j h = elim (ℕ_discrete j i) [
  | yes e ↦ subst P (sym (ap (update f i a) e ∙ update_self f i a)) (k (subst (λ m. P (f m)) e h))
  | no ne ↦ subst P (sym (update_ne f i a j ne)) h
]

module _ (workers : Workers) (n : ℕ) where
  -- A step of a thread keeps what is said of the main thread.
  pub MainOk-worker :
      (main : MainAt) (status : ScatterStatus) (threads : ℕ → ThreadAt) (r : JsVal) (i : ℕ)
      (u : ThreadAt)
      → (threads i ≢ absent) × (¬ Settled (threads i)) × (¬ Returned (threads i)) × Created u
      → MainOk workers n main status threads r
      → MainOk workers n main status (update threads i u) r
  MainOk-worker (creating m) status threads r i u live (e, lo, hi, made, rest, own) = (
    e,
    lo,
    hi,
    (λ j a b. update-keeps Created threads i u (λ _. live.3) j (made j a b)),
    (λ j a. update-keeps (λ t. t ≡ absent) threads i u (λ q. absurd (live.0 q)) j (rest j a)),
    own,
  )
  MainOk-worker own_work status threads r i u live (e, made, rest, lo, own) = (
    e,
    (λ j a b. update-keeps Created threads i u (λ _. live.3) j (made j a b)),
    (λ j a. update-keeps (λ t. t ≡ absent) threads i u (λ q. absurd (live.0 q)) j (rest j a)),
    lo,
    own,
  )
  MainOk-worker (joining m) status threads r i u live (e, made, rest, lo, hi, back, own) = (
    e,
    (λ j a b. update-keeps Created threads i u (λ _. live.3) j (made j a b)),
    (λ j a. update-keeps (λ t. t ≡ absent) threads i u (λ q. absurd (live.0 q)) j (rest j a)),
    lo,
    hi,
    (λ j a b. update-keeps Returned threads i u (λ q. absurd (live.2 q)) j (back j a b)),
    own,
  )
  MainOk-worker (cancelling m) status threads r i u live (e, made, rest, lo, hi, own) = (
    e,
    (λ j a b. update-keeps Created threads i u (λ _. live.3) j (made j a b)),
    (λ j a. update-keeps Settled threads i u (λ q. absurd (live.1 q)) j (rest j a)),
    lo,
    hi,
    own,
  )
  MainOk-worker (over true) status threads r i u live (e, back, rest, own) = (
    e,
    (λ j a b. update-keeps Returned threads i u (λ q. absurd (live.2 q)) j (back j a b)),
    (λ j a. update-keeps (λ t. t ≡ absent) threads i u (λ q. absurd (live.0 q)) j (rest j a)),
    own,
  )
  MainOk-worker (over false) status threads r i u live (e, rest, own) =
      (e, (λ j a. update-keeps Settled threads i u (λ q. absurd (live.1 q)) j (rest j a)), own)
