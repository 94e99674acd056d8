-- ===== src/Ethercat/System/Shutdown.antt =====
-- The blocking shutdown: it ends, and it never asks a drive to run that is not running.
use zero_force_controller.Common.{
  ℕ, zero, suc, ◌+◌, ◌≡◌, ◌≤◌, Bool, true, false, Option, none, some, List, [], ◌∷◌, arith, inl,
  inr, Option-cases, Bool-cases,
}
use zero_force_controller.Ethercat.Image.{Ecrt}
use zero_force_controller.Ethercat.Clearpath.{Command, TxPdos}
use zero_force_controller.Ethercat.Cia402.{
  enable_operation, switch_on_disabled, decode_statusword, is_operation_enabled_csp,
}
use zero_force_controller.Ethercat.Stop.{StopSequence, done, start, next}
use zero_force_controller.Ethercat.System.{System, Poll, Event, sent, configured, is_complete}
use zero_force_controller.Ethercat.System.Exchange.{
  read, write, guarded, stop_round, confirm, shutdown_loop, shut_down,
}

-- Every frame that asks for Enable Operation was sent while the feedback showed a drive enabled in
-- CSP.
abbrev pub AsksOnlyEnabled : List Event → Type 0
AsksOnlyEnabled [] = Unit {0}
AsksOnlyEnabled (sent c m ∷ es) =
    (c.controlword ≡ enable_operation → is_operation_enabled_csp m ≡ true) × AsksOnlyEnabled es
AsksOnlyEnabled (_ ∷ es) = AsksOnlyEnabled es

guarded_asks :
    (c : Command) (m : TxPdos)
    → (guarded c m).controlword ≡ enable_operation
    → is_operation_enabled_csp m ≡ true
unfolding guarded
guarded_asks c m h = ground arith

-- the state in which the drive is confirmed to be off
pub record IsConfirmed {Image : Type 0} (s : System Image) : Type 0 where
  pub link : s.snapshot.bus.master.link_up ≡ true
  pub counter : is_complete s.snapshot.bus.domain.wc_state ≡ true
  pub off : decode_statusword s.snapshot.motor.statusword ≡ switch_on_disabled

module _ {Image : Type 0} ⦃e : Ecrt Image⦄ where
  write_asks :
      (s : System Image) (c : Command) (now : ℕ)
      → (c.controlword ≡ enable_operation → is_operation_enabled_csp s.snapshot.motor ≡ true)
      → AsksOnlyEnabled s.log
      → AsksOnlyEnabled (write s c now).log
  unfolding write
  write_asks s c now h a = ground (arith, h)

  log-read : (s : System Image) (p : Poll Image) → (read s p).1.log ≡ s.log
  unfolding read
  log-read s p = ground arith

  stop_round_lem :
      (stop : StopSequence) (s : System Image) (p : Poll Image)
      → done stop ≡ false
      → AsksOnlyEnabled s.log
      → let (stop', s') = stop_round stop s p in
        (stop'.cycle ≡ stop.cycle + 1) × AsksOnlyEnabled s'.log
  unfolding stop_round next
  stop_round_lem stop s p d a =
      let s1 = (read s p).1 in
      let c = (next stop).0 in
      ground (
        arith,
        log-read s p,
        guarded_asks c s1.snapshot.motor,
        write_asks s1 (guarded c s1.snapshot.motor) p.now,
      )

  confirm_lem :
      (stop : StopSequence) (s : System Image) (o : Option (Poll Image))
      → done stop ≡ true
      → AsksOnlyEnabled s.log
      → let (ok, t) = confirm stop s o in AsksOnlyEnabled t.log × (ok ≡ true → IsConfirmed t)
  unfolding confirm next
  confirm_lem stop s none d a = ground arith
  confirm_lem stop s (some p) d a =
      let s1 = (read s p).1 in ground (arith, log-read s p, write_asks s1 (next stop).0 p.now)

  loop_lem :
      (fuel : ℕ) (env : ℕ → Option (Poll Image)) (i : ℕ) (stop : StopSequence) (s : System Image)
      → 121 ≤ stop.cycle + fuel
      → stop.cycle ≤ 120
      → AsksOnlyEnabled s.log
      → (r : Bool × System Image) × (shutdown_loop fuel env i stop s ≡ some r)
        × AsksOnlyEnabled r.1.log
        × (r.0 ≡ true → IsConfirmed r.1)
  unfolding shutdown_loop
  loop_lem zero env i stop s f c a = absurd (omega arith)
  loop_lem (suc fuel) env i stop s f c a = elim (Bool-cases (done stop)) [
    | inl d ↦
        let (safe, off) = confirm_lem stop s (env i) d a in
        (confirm stop s (env i), rw (d, shutdown_loop), safe, off)
    | inr d ↦ elim (Option-cases (env i)) [
      | inl e ↦ ((false, s), rw (d, e, shutdown_loop), a, λ h. cc)
      | inr (p, e) ↦
          let (count, safe) = stop_round_lem stop s p d a in
          let (stop', s') = stop_round stop s p in
          let (r, runs, kept, off) =
            loop_lem fuel env (i + 1) stop' s' (omega arith) (ground arith) safe in
          (r, rw (d, e, shutdown_loop) runs, kept, off)
    ]
  ]

  -- The shutdown always ends. Of the frames in its log, those that ask for Enable Operation were
  -- sent while the feedback showed a drive enabled in CSP, if that held before. If it reports success
  -- on a configured system, the last exchange had the link, a complete working counter and a drive
  -- in Switch On Disabled.
  pub shut_down_lem :
      (env : ℕ → Option (Poll Image)) (s : System Image)
      → AsksOnlyEnabled s.log
      → (r : Bool × System Image) × (shut_down env s ≡ some r)
        × AsksOnlyEnabled r.1.log
        × (r.0 ≡ true → configured s ≡ true → IsConfirmed r.1)
  unfolding shut_down start
  shut_down_lem env s a = elim (Bool-cases (configured s)) [
    | inl h ↦
        let (r, runs, safe, off) =
          loop_lem 121 env 0 (start s.snapshot.motor) s (omega arith) (ground arith) a in
        (r, rw (h, shut_down) runs, safe, λ ok _. off ok)
    | inr h ↦ ((true, s), rw (h, shut_down), a, λ _ bad. ground arith)
  ]

  loop_ends :
      (fuel : ℕ) (env : ℕ → Option (Poll Image)) (i : ℕ) (stop : StopSequence) (s : System Image)
      → 121 ≤ stop.cycle + fuel
      → stop.cycle ≤ 120
      → (r : Bool × System Image) × (shutdown_loop fuel env i stop s ≡ some r)
  unfolding shutdown_loop stop_round next
  loop_ends zero env i stop s f c = absurd (omega arith)
  loop_ends (suc fuel) env i stop s f c = elim (Bool-cases (done stop)) [
    | inl d ↦ (confirm stop s (env i), rw (d, shutdown_loop))
    | inr d ↦ elim (Option-cases (env i)) [
      | inl e ↦ ((false, s), rw (d, e, shutdown_loop))
      | inr (p, e) ↦
          let (stop', s') = stop_round stop s p in
          let (r, runs) = loop_ends fuel env (i + 1) stop' s' (ground arith) (ground arith) in
          (r, rw (d, e, shutdown_loop) runs)
    ]
  ]

  -- A shutdown ends, whatever was sent before.
  pub shut_down_ends :
      (env : ℕ → Option (Poll Image)) (s : System Image)
      → (r : Bool × System Image) × (shut_down env s ≡ some r)
  unfolding shut_down start
  shut_down_ends env s = elim (Bool-cases (configured s)) [
    | inl h ↦
        let (r, runs) =
          loop_ends 121 env 0 (start s.snapshot.motor) s (omega arith) (ground arith) in
        (r, rw (h, shut_down) runs)
    | inr h ↦ ((true, s), rw (h, shut_down))
  ]
