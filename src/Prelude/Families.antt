-- ===== src/Prelude/Families.antt =====
-- Families indexed by numbers: a member that is changed, and what the first members weigh together,
-- where a weight is that of a member at its index.
use Prim.Native.Nat.{ℕ, zero, suc, ◌+◌, ◌≤◌, ◌<◌}
use mathlib.Core.Path.{◌≡◌, refl, ap}
use mathlib.Core.Logic.{◌≢◌}
use native.Mathlib.Decide.{ℕ_discrete}
use native.Mathlib.Omega.{arith}
use sysjs.Prelude.Tests.{◌==◌, if◌then◌else◌}

module _ {ℓ} {A : Type ℓ} where
  abbrev pub update : (ℕ → A) → ℕ → A → ℕ → A
  update members i a j = if j == i then a else members j

  pub update_self : (members : ℕ → A) (i : ℕ) (a : A) → update members i a i ≡ a
  update_self members i a = ground arith

  pub update_ne :
      (members : ℕ → A) (i : ℕ) (a : A) (j : ℕ) → j ≢ i → update members i a j ≡ members j
  update_ne members i a j apart = ground arith

  module _ (weigh : ℕ → A → ℕ) where
    pub weight_below : ℕ → (ℕ → A) → ℕ
    weight_below zero members = 0
    weight_below (suc k) members = weigh k (members k) + weight_below k members

    -- A member past the end does not count.
    weight_below-past :
        (k : ℕ) (members : ℕ → A) (i : ℕ) (a : A)
        → k ≤ i
        → weight_below k (update members i a) ≡ weight_below k members
    unfolding weight_below
    weight_below-past zero members i a past = refl
    weight_below-past (suc k) members i a past =
        let here = update_ne members i a k (λ q. omega (arith, q)) in
        omega (arith, ap (weigh k) here, weight_below-past k members i a (omega arith))

    -- What a change takes away and what it brings.
    pub weight_below-update :
        (k : ℕ) (members : ℕ → A) (i : ℕ) (a : A)
        → i < k
        → weight_below k (update members i a) + weigh i (members i)
          ≡ weight_below k members + weigh i a
    unfolding weight_below
    weight_below-update zero members i a inside = absurd (omega arith)
    weight_below-update (suc k) members i a inside = elim (ℕ_discrete i k) [
      | yes e ↦ omega (
        arith,
        weight_below-past k members i a (omega (arith, e)),
        ap (λ j. weigh j (members j)) e,
        ap (λ j. weigh j a) e,
        ap (weigh k) (update_self members k a),
        ap (λ j. weigh k (update members j a k)) e,
      )
      | no apart ↦ omega (
        arith,
        weight_below-update k members i a (omega (arith, apart)),
        ap (weigh k) (update_ne members i a k (λ q. omega (arith, q, apart))),
      )
    ]

    pub weight_below-bound :
        (k : ℕ) (members : ℕ → A) → ((i : ℕ) → weigh i (members i) ≤ 1) → weight_below k members ≤ k
    unfolding weight_below
    weight_below-bound zero members light = omega arith
    weight_below-bound (suc k) members light =
        omega (arith, weight_below-bound k members light, light k)

    pub weight_below-none :
        (k : ℕ) (members : ℕ → A) → ((i : ℕ) → weigh i (members i) ≡ 0) → weight_below k members ≡ 0
    unfolding weight_below
    weight_below-none zero members light = refl
    weight_below-none (suc k) members light =
        omega (arith, weight_below-none k members light, light k)

module _ {ℓ} {A : Type ℓ} (weigh weigh' : ℕ → A → ℕ) where
  -- Where each member weighs no more, all together weigh no more.
  pub weight_below_mono :
      (k : ℕ) (members members' : ℕ → A)
      → ((i : ℕ) → weigh i (members i) ≤ weigh' i (members' i))
      → weight_below weigh k members ≤ weight_below weigh' k members'
  unfolding weight_below
  weight_below_mono zero members members' each = omega arith
  weight_below_mono (suc k) members members' each =
      omega (arith, each k, weight_below_mono k members members' each)
