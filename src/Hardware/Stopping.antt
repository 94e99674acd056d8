-- ===== src/Hardware/Stopping.antt =====
-- A faulted system, cycle by cycle, until it is stopped.
use zero_force_controller.Common.{
  ℕ, ◌+◌, ◌≡◌, ◌<◌, ◌≤◌, ◌∙◌, refl, true, false, not, ◌||◌, List, [], ◌∷◌, arith, length, inl, inr,
  ap, Bool-cases,
}
use zero_force_controller.Common.Int.{ℤ}
use zero_force_controller.Double.{Double}
use zero_force_controller.Ethercat.Image.{Ecrt}
use zero_force_controller.Ethercat.Clearpath.{Command}
use zero_force_controller.Ethercat.System.{System, Poll, configured}
use zero_force_controller.Ethercat.System.Exchange
use zero_force_controller.Hardware.{Hardware, copy_state, cm_period}
use zero_force_controller.Hardware.Read.{
  read, exchange, clocked, is_early, observe_encoder, watch_startup,
}
use zero_force_controller.Hardware.Write.{write}
use zero_force_controller.Hardware.Halt.{halt_lem}
use zero_force_controller.Hardware.Supervision.{
  Keeps-trans, encoder-Keeps, startup-Keeps, operation-Keeps, fault_if-Keeps, read_configured,
}

-- what the clock and the bus answer in one cycle
pub record Tick (Image : Type 0) : Type 0 where
  pub now : ℕ
  pub period : ℤ
  pub poll : Poll Image
  pub later : ℕ

write_configured :
    {Image : Type 0} ⦃e : Ecrt Image⦄ (s : System Image) (c : Command) (now : ℕ)
    → configured s ≡ true
    → configured (Exchange.write s c now) ≡ true
unfolding Exchange.write
write_configured s c now h = ground arith

module _ {Image D : Type 0} ⦃e : Ecrt Image⦄ ⦃d : Double D⦄ where
  -- the state behind the read of a cycle
  abbrev pub after_read : Tick Image → Hardware Image D → Hardware Image D
  after_read t h = (read t.now t.period t.poll h).1

  -- the cycles of the control loop, a read and a write each
  unfoldable pub cycles : List (Tick Image) → Hardware Image D → Hardware Image D
  cycles [] h = h
  cycles (t ∷ ts) h = cycles ts (write t.later (after_read t h)).1

  -- No cycle comes too soon.
  unfoldable pub AllTaken : List (Tick Image) → Hardware Image D → Type 0
  AllTaken [] h = Unit {0}
  AllTaken (t ∷ ts) h =
      ((after_read t h).skipped ≡ false) × AllTaken ts (write t.later (after_read t h)).1

  -- a faulted system that is still being stopped, at this step of the sequence
  record IsStopping (step : ℕ) (h : Hardware Image D) : Type 0 where
    faulted : h.fault ≡ true
    active : h.active ≡ true
    bus : configured h.core ≡ true
    at : h.stop_sequence.cycle ≡ step

  exchange-IsStopping :
      (step : ℕ) (t : Tick Image) (h : Hardware Image D)
      → IsStopping step h
      → IsStopping step (exchange t.now t.period t.poll h)
  unfolding exchange copy_state
  exchange-IsStopping step t h s =
      let h1 = record h { last_exchange_ns = t.now; core = (Exchange.read h.core t.poll).1 } in
      let h2 = observe_encoder t.now h1 in
      let k = Keeps-trans (encoder-Keeps t.now h1) (
        Keeps-trans (startup-Keeps t.now h2) (operation-Keeps t.period (watch_startup t.now h2))) in
      record {
        faulted = k.faulted s.faulted;
        active = k.active ∙ s.active;
        bus = ap configured k.core ∙ read_configured h.core t.poll s.bus;
        at = ap (λ q. q.cycle) (k.sequence s.faulted) ∙ s.at;
      }

  read-IsStopping :
      (step : ℕ) (t : Tick Image) (h : Hardware Image D)
      → IsStopping step h
      → IsStopping step (after_read t h)
  unfolding read
  read-IsStopping step t h s =
      let h1 = clocked t.now (record h { reads = h.reads + 1 }) in
      let open_bus : (not h.active || not (configured h.core)) ≡ false = rw (s.active, s.bus) in
      let s1 : IsStopping step h1 = ground (arith, s.faulted, s.active, s.bus, s.at) in
      elim (Bool-cases (is_early t.now h1)) [
        | inl early ↦
            let k = fault_if-Keeps (not h1.starting) cm_period (record h1 { skipped = true }) in
            rw (open_bus, early, after_read, read)
              (record {
                faulted = k.faulted s.faulted;
                active = k.active ∙ s.active;
                bus = ap configured k.core ∙ s.bus;
                at = ap (λ q. q.cycle) (k.sequence s.faulted) ∙ s.at;
              })
        | inr late ↦ rw (open_bus, late, after_read, read) (exchange-IsStopping step t h1 s1)
      ]

  -- The write of a cycle takes one step, or ends the stop.
  step_on :
      (step : ℕ) (now : ℕ) (h : Hardware Image D)
      → IsStopping step h
      → h.skipped ≡ false
      → let h' = (write now h).1 in
        (step < 120 → IsStopping (step + 1) h')
        × (120 ≤ step → (h'.active ≡ false) × (h'.stop_complete ≡ true) × (h'.fault ≡ true))
  step_on step now h s taken =
      let (c, v) = halt_lem now h s.faulted s.active s.bus taken in
      (
        λ more.
            let left : h.stop_sequence.cycle < 120 = rw s.at more in
            record {
              faulted = v.faulted;
              active = (v.stays left).1;
              bus = ap configured v.written ∙ write_configured h.core c now s.bus;
              at = v.advances left ∙ ap (λ k. k + 1) s.at;
            },
        λ over. let (_, idle, finished) = v.ends (rw s.at over) in (idle, finished, v.faulted),
      )

  stops_from :
      (step : ℕ) (ts : List (Tick Image)) (h : Hardware Image D)
      → IsStopping step h
      → AllTaken ts h
      → step ≤ 120
      → step + length ts ≡ 121
      → let h' = cycles ts h in (h'.active ≡ false) × (h'.stop_complete ≡ true) × (h'.fault ≡ true)
  unfolding cycles AllTaken
  stops_from step [] h s taken low n = absurd (omega arith)
  stops_from step (t ∷ []) h s (taken, rest) low n =
      (step_on step t.later (after_read t h) (read-IsStopping step t h s) taken).1 (omega arith)
  stops_from step (t ∷ t' ∷ ts) h s (taken, rest) low n =
      let h1 = after_read t h in
      let s' = (step_on step t.later h1 (read-IsStopping step t h s) taken).0 (omega arith) in
      stops_from (step + 1) (t' ∷ ts) (write t.later h1).1 s' rest (omega arith) (omega arith)

  -- A faulted active system is stopped by the cycles that its stop sequence has left and one more,
  -- at most 121 in all, if none of them comes too soon: it is then inactive, with its shutdown
  -- done, and still faulted.
  pub stops_in_time :
      (ts : List (Tick Image)) (h : Hardware Image D)
      → h.fault ≡ true
      → h.active ≡ true
      → configured h.core ≡ true
      → AllTaken ts h
      → h.stop_sequence.cycle ≤ 120
      → h.stop_sequence.cycle + length ts ≡ 121
      → let h' = cycles ts h in (h'.active ≡ false) × (h'.stop_complete ≡ true) × (h'.fault ≡ true)
  stops_in_time ts h f a b taken low n =
      stops_from h.stop_sequence.cycle ts h (record { faulted = f; active = a; bus = b; at = refl })
        taken low n
