-- ===== src/Controller/Interface.antt =====
-- What a controller asks of its logic, and what it relies on.
use zero_force_controller.Common.{◌≡◌, Bool, true, false}
use zero_force_controller.Double.{Double}
use zero_force_controller.Control.{Inputs, Snapshot, MotionBounds, contains}

-- `limits` and `origin` say where the reference may be.
pub record Law (D S L : Type 0) : Type 0 where
  pub settings_valid : S → Bool
  pub activate : S → Inputs D → L → Bool × L
  pub update : Inputs D → L → L
  pub reset : L → L
  pub state : L → Snapshot D
  pub is_active : L → Bool
  pub limits : L → MotionBounds D
  pub origin : L → D

-- A logic that is ready is safe behind each update.
pub record IsSound {D S L : Type 0} ⦃d : Double D⦄ (law : Law D S L) : Type 1 where
  pub IsReady : L → Type 0
  pub IsSafe : L → Type 0
  pub activated : (p : S) (i : Inputs D) (l : L) → IsReady (law.activate p i l).1
  pub updated : (i : Inputs D) (l : L) → IsReady l → IsSafe (law.update i l)
  pub stays : (l : L) → IsSafe l → IsReady l
  pub sendable :
      (l : L)
      → IsSafe l
      → law.is_active l ≡ true
      → (law.state l).valid ≡ true
      → contains (law.limits l) (law.state l).reference_position (law.origin l) ≡ true
  pub stopped :
      (l : L)
      → IsSafe l
      → (law.state l).valid ≡ false
      → d.is_finite (law.state l).reference_position ≡ false
