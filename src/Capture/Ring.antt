-- ===== src/Capture/Ring.antt =====
-- A list used as a ring: the records from one index up to another.
use zero_force_controller.Common.{
  ℕ, zero, suc, ◌+◌, ◌%◌, ◌≤◌, ◌<◌, ◌≡◌, ◌≢◌, refl, ap, ◌∙◌, List, [], ◌∷◌, ◌++◌, arith, length,
  get_or, set, get_or-set_self, get_or-set_ne,
}
use mathlib.Core.Path.{ap₂}
use native.Mathlib.Nat.{add-zero}

module _ {ℓ} {A : Type ℓ} (capacity : ℕ) (blank : A) where
  -- the `n` entries from index `k` on
  abbrev pub window : List A → ℕ → ℕ → List A
  window xs k zero = []
  window xs k (suc n) = get_or xs (k % capacity) blank ∷ window xs (k + 1) n

  pub length-window : (xs : List A) (k n : ℕ) → length (window xs k n) ≡ n
  length-window xs k zero = refl
  length-window xs k (suc n) = ap suc (length-window xs (k + 1) n)

pub mod-ne : (capacity k j : ℕ) → 0 < j → j < capacity → (k + j) % capacity ≢ k % capacity
mod-ne capacity k j p q = grind arith

module _ {ℓ} {A : Type ℓ} (capacity : ℕ) (blank : A) where
  -- Writing just past a window extends it.
  pub window-set :
      (xs : List A) (x : A) (n k i : ℕ)
      → capacity ≤ length xs
      → n < capacity
      → i ≡ (k + n) % capacity
      → window capacity blank (set xs i x) k (suc n) ≡ window capacity blank xs k n ++ (x ∷ [])
  window-set xs x zero k i h q e =
      rw (e, add-zero, get_or-set_self xs (k % capacity) x blank (omega arith))
  window-set xs x (suc n) k i h q e =
      ap₂ ◌∷◌
        (get_or-set_ne xs i (k % capacity) x blank
          (rw e (mod-ne capacity k (suc n) (omega arith) q)))
        (window-set xs x n (k + 1) i h (omega arith)
          (e ∙ ap (λ (t : ℕ). t % capacity) (omega arith)))
