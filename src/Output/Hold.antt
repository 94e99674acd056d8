-- ===== src/Output/Hold.antt =====
-- The two ways of the command output: the physical one passes a NaN on, the simulated one holds.
use zero_force_controller.Common.{◌≡◌, refl, true, false, some, List, [], ◌∷◌, arith}
use zero_force_controller.Double.{Double}
use zero_force_controller.Output.{CommandOutput, resolve}

module _ {D : Type 0} ⦃d : Double D⦄ where
  open d use {is_finite}

  -- Without the hold every request is written as it is, NaN included. With it nothing but finite
  -- values is written, a finite request is written as it is, and the first request that is not finite
  -- writes the measured position, if that is finite.
  pub resolve_lem :
      (o : CommandOutput D) (requested measured : D)
      → let (out, o') = resolve o requested measured in
        (o'.finite_fault_hold ≡ o.finite_fault_hold)
        × (o.finite_fault_hold ≡ false → out ≡ some requested)
        × (o.finite_fault_hold ≡ true
            → ((v : D) → out ≡ some v → is_finite v ≡ true)
              × (is_finite requested ≡ true → out ≡ some requested)
              × (is_finite requested ≡ false
                  → o.fault_latched ≡ false
                  → is_finite measured ≡ true
                  → out ≡ some measured))
  unfolding resolve
  resolve_lem o requested measured = ground arith

  -- the requests of a fault, none of them finite, each with the position measured then
  abbrev pub Faulty : List (D × D) → Type 0
  Faulty [] = Unit {0}
  Faulty ((requested, _) ∷ rest) = (is_finite requested ≡ false) × Faulty rest

  unfoldable pub resolve_all : CommandOutput D → List (D × D) → CommandOutput D
  resolve_all o [] = o
  resolve_all o ((requested, measured) ∷ rest) = resolve_all (resolve o requested measured).1 rest

  latched_step :
      (o : CommandOutput D) (r m : D)
      → o.finite_fault_hold ≡ true
      → o.fault_latched ≡ true
      → is_finite r ≡ false
      → (resolve o r m).1 ≡ o
  unfolding resolve
  latched_step o r m h l f = ground arith

  latched_all :
      (o : CommandOutput D) (faults : List (D × D))
      → o.finite_fault_hold ≡ true
      → o.fault_latched ≡ true
      → Faulty faults
      → resolve_all o faults ≡ o
  unfolding resolve_all
  latched_all o [] h l fs = refl
  latched_all o ((r, m) ∷ rest) h l (f, fs) =
      rw (latched_step o r m h l f) (latched_all o rest h l fs)

  first_fault :
      (o : CommandOutput D) (r m r' m' : D)
      → o.finite_fault_hold ≡ true
      → is_finite r ≡ false
      → is_finite r' ≡ false
      → let o' = (resolve o r m).1 in
        (o'.finite_fault_hold ≡ true)
        × (o'.fault_latched ≡ true)
        × ((resolve o' r' m').0 ≡ (resolve o r m).0)
  unfolding resolve
  first_fault o r m r' m' h f f' = ground arith

  -- A held fault is frozen: after a request that is not finite, whatever is measured during further
  -- such requests, the next of them writes what the first one wrote.
  pub resolve_frozen :
      (o : CommandOutput D) (r m : D) (faults : List (D × D)) (r' m' : D)
      → o.finite_fault_hold ≡ true
      → is_finite r ≡ false
      → Faulty faults
      → is_finite r' ≡ false
      → (resolve (resolve_all (resolve o r m).1 faults) r' m').0 ≡ (resolve o r m).0
  resolve_frozen o r m faults r' m' h f fs f' =
      let (h1, l1, e) = first_fault o r m r' m' h f f' in
      rw (latched_all (resolve o r m).1 faults h1 l1 fs) e
