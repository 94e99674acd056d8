-- ===== src/Calibration/Session.antt =====
-- The encoder session: how a reference is found, and that it is never found again.
use zero_force_controller.Common.{ℕ, ◌-◌, ◌<◌, ◌≡◌, refl, Bool, true, false, List, [], ◌∷◌, arith}
use zero_force_controller.Common.Int.{ℤ, ◌-ℤ◌, -ℤ_parts, eq_of_parts}
use zero_force_controller.Double.{Double}
use zero_force_controller.Calibration.{EncoderSession, observe, suspend, allowed}

-- what one read shows: counts, time, and whether the drive reports rest
pub record Reading : Type 0 where
  pub counts : ℤ
  pub now : ℕ
  pub stationary : Bool

-- the calls of a session until it ends
pub data SessionCall : Type 0 where
  observes : Reading → SessionCall
  suspends : SessionCall

module _ {D : Type 0} ⦃d : Double D⦄ (scale : D) (bound : ℤ) where
  open d use {lt, fabs, of_int}

  abbrev pub saw : EncoderSession D → Reading → Bool × EncoderSession D
  saw s r = observe s r.counts r.now r.stationary scale bound

  -- A read that is accepted is later than the last one, and moved no further than is allowed; it
  -- becomes the last read and ends a suspension. A read that is refused changes no field but, where
  -- it is only the velocity that is not finite, the velocity.
  pub observe_lem :
      (s : EncoderSession D) (r : Reading)
      → let (ok, s') = saw s r in
        (ok ≡ true
          → (s'.have_read ≡ true)
            × (s'.previous ≡ r.counts)
            × (s'.last_ns ≡ r.now)
            × (s'.suspended ≡ false)
            × (s.have_read ≡ true
                → (s.last_ns < r.now)
                  × (lt
                        (allowed s (r.now - s.last_ns) bound)
                        (fabs (of_int (r.counts -ℤ s.previous)))
                      ≡ false)))
        × (ok ≡ false → s' ≡ record s { velocity = s'.velocity })
  unfolding observe
  observe_lem s r = ground arith

  -- A reference is found only by an accepted read with the drive at rest, after a read with the
  -- drive at rest in the same place; it is that place.
  pub reference_found :
      (s : EncoderSession D) (r : Reading)
      → s.reference_valid ≡ false
      → (saw s r).1.reference_valid ≡ true
      → (s.have_read ≡ true)
        × (s.previous_stationary ≡ true)
        × (r.stationary ≡ true)
        × (r.counts ≡ s.previous)
        × ((saw s r).1.reference ≡ r.counts)
  unfolding observe
  reference_found s r n v =
      ground (arith, -ℤ_parts r.counts s.previous, eq_of_parts r.counts s.previous)

  unfoldable pub run : EncoderSession D → List SessionCall → EncoderSession D
  run s [] = s
  run s (observes r ∷ calls) = run (saw s r).1 calls
  run s (suspends ∷ calls) = run (suspend s) calls

  reference_kept :
      (s : EncoderSession D) (r : Reading)
      → s.reference_valid ≡ true
      → let s' = (saw s r).1 in (s'.reference_valid ≡ true) × (s'.reference ≡ s.reference)
  unfolding observe
  reference_kept s r v = ground arith

  -- Once found, the reference stays valid and the same, whatever is read and however often the
  -- session is suspended, until the session ends.
  pub run_reference :
      (s : EncoderSession D) (calls : List SessionCall)
      → s.reference_valid ≡ true
      → ((run s calls).reference_valid ≡ true) × ((run s calls).reference ≡ s.reference)
  unfolding run suspend
  run_reference s [] v = (v, refl)
  run_reference s (observes r ∷ calls) v =
      ground (arith, reference_kept s r v, run_reference (saw s r).1 calls)
  run_reference s (suspends ∷ calls) v = run_reference (record s { suspended = true }) calls v
