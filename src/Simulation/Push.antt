-- ===== src/Simulation/Push.antt =====
-- The force that is applied, by the messages that came.
use zero_force_controller.Common.{
  ◌≡◌, refl, ap, ◌∙◌, Bool, true, not, ◌&&◌, ◌||◌, Option, none, some, List, [], ◌∷◌, arith,
  if◌then◌else◌, Bool-cases, inl, inr,
}
use zero_force_controller.Common.Int.{ℤ, pos, ◌-ℤ◌, ltb_ℤ, leb_ℤ}
use zero_force_controller.Double.{Double, nought, clamp, ◌≼◌}
use zero_force_controller.Double.Laws.{IsIeee, clamp_bounds}
use zero_force_controller.Simulation.{
  ForceCommand, WorldForce, Message, wrench, enable, bound, timeout_ns, same, fresh_command, handle,
  receive, set_enabled, value, is_push, pre_update,
}

abbrev pub is_recent : ℤ → ℤ → Bool
is_recent t now = ltb_ℤ (pos 0) t && leb_ℤ t now && leb_ℤ (now -ℤ t) timeout_ns

module _ {D : Type 0} ⦃d : Double D⦄ where
  open d use {is_finite, negate, of_int, le, lt}

  -- the command behind these messages, the newest first
  unfoldable pub handled : List (Message D) → ForceCommand D
  handled [] = fresh_command
  handled (m ∷ h) = handle m (handled h)

  -- By the messages alone: the last word on enabling, and the force. The newest wrench counts, if it
  -- came while enabled, names the tool and is at most half a second old; a change of enabling ends it.
  abbrev pub is_enabled : List (Message D) → Bool
  is_enabled [] = true
  is_enabled (wrench w t ∷ h) = is_enabled h
  is_enabled (enable b ∷ h) = b

  abbrev pub push : List (Message D) → ℤ → D
  push [] now = nought
  push (wrench w t ∷ h) now =
      if is_enabled h && is_push w && is_finite w.force_z && is_recent t now
      then clamp w.force_z (negate bound) bound
      else nought
  push (enable b ∷ h) now = if same b (is_enabled h) then push h now else nought

  enabled-handled : (h : List (Message D)) → (handled h).enabled ≡ is_enabled h
  unfolding handled handle receive set_enabled
  enabled-handled [] = refl
  enabled-handled (wrench w t ∷ h) = enabled-handled h
  enabled-handled (enable b ∷ h) = ground (arith, enabled-handled h)

  value-handled : (h : List (Message D)) (now : ℤ) → value now (handled h) ≡ push h now
  unfolding handled handle receive set_enabled value
  value-handled [] now = ground arith
  value-handled (wrench w t ∷ h) now = ground (arith, enabled-handled h)
  value-handled (enable b ∷ h) now = ground (arith, enabled-handled h, value-handled h now)

  bound_pos : IsIeee D → lt nought bound ≡ true
  bound_pos ieee =
      let num = ieee.finite_refl bound (ieee.of_int_finite (pos 10) (omega arith)) in
      let zero_num = ieee.finite_refl nought (ieee.of_int_finite (pos 0) (omega arith)) in
      elim (Bool-cases (le bound nought)) [
        | inl below ↦
            let (low, high) =
              ieee.to_int_bounds (pos 10) (pos 0) bound (omega arith) (omega arith) num below in
            absurd (omega (arith, low, high))
        | inr above ↦ ieee.lt-eq-not-le nought bound zero_num num ∙ ap not above
      ]

  clamp_num : (v lo hi : D) → v ≼ v → lo ≼ lo → hi ≼ hi → clamp v lo hi ≼ clamp v lo hi
  unfolding clamp
  clamp_num v lo hi p q r = ground arith

  -- What a step may give behind these messages: nothing, if it is `silent`, or the force of `push`,
  -- within the bound, and the last word on enabling.
  pub Applies : List (Message D) → Bool → ℤ → Option (D × Bool) → Type 0
  Applies h silent now none = silent ≡ true
  Applies h silent now (some (f, e)) =
      (f ≡ push h now) × (le (negate bound) f ≡ true) × (le f bound ≡ true) × (e ≡ is_enabled h)

  module _ (ieee : IsIeee D) where
    nought_bounds : (le (negate bound) nought ≡ true) × (le nought bound ≡ true)
    nought_bounds =
        let up = bound_pos ieee in (ieee.negate_le_nought bound up, ieee.le_of_lt nought bound up)

    clamped_bounds :
        (v : D)
        → is_finite v ≡ true
        → (negate bound ≼ clamp v (negate bound) bound) × (clamp v (negate bound) bound ≼ bound)
    clamped_bounds v f =
        let (low, high) = nought_bounds in
        let lo = (ieee.refl_of_le _ _ low).0 in
        let hi = (ieee.refl_of_le _ _ high).1 in
        clamp_bounds ieee v (negate bound) bound (ieee.le_trans _ nought _ low high)
          (clamp_num v (negate bound) bound (ieee.finite_refl v f) lo hi)

    push_bounds :
        (h : List (Message D)) (now : ℤ) → (negate bound ≼ push h now) × (push h now ≼ bound)
    push_bounds [] now = nought_bounds
    push_bounds (wrench w t ∷ h) now = ground (arith, nought_bounds, clamped_bounds w.force_z)
    push_bounds (enable b ∷ h) now = ground (arith, nought_bounds, push_bounds h now)

    -- What a step of the plugin applies behind any messages: nothing, or the force that the messages
    -- alone say (the newest wrench, if it names the tool, came while pushing was enabled and is at most
    -- half a second old, and none behind a change of enabling), which lies within 10 newtons, with the
    -- last word on enabling as the acknowledgment.
    pub pre_update_lem :
        (h : List (Message D)) (paused found linked : Bool) (now : ℤ)
        → let w : WorldForce D = record { command = handled h; linked = linked } in
          Applies h (paused || not (linked || found)) now (pre_update paused found now w).0
    unfolding pre_update Applies
    pre_update_lem h paused found linked now =
        ground (arith, value-handled h now, push_bounds h now, enabled-handled h)
