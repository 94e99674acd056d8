-- ===== src/Ethercat/System/Exchange.antt =====
-- `EthercatSystem::read`, `write` and `shutdown`: the exchange of one cycle, and the stop of the drive
-- that blocks until it is confirmed or given up.
use zero_force_controller.Common.{
  ℕ, zero, suc, ◌+◌, ◌-◌, Bool, true, false, not, ◌&&◌, Option, none, some, ◌∷◌, ◌==◌,
  if◌then◌else◌,
}
use zero_force_controller.Ethercat.Image.{Ecrt}
use zero_force_controller.Ethercat.Clearpath.{
  TxPdos, Command, PdoOffsets, read_tx_pdos, write_command,
}
use zero_force_controller.Ethercat.Cia402.{
  enable_operation, shutdown, decode_statusword, is_operation_enabled_csp,
}
use zero_force_controller.Ethercat.Elm.{ElmOffsets, read_feedback}
use zero_force_controller.Ethercat.Stop.{StopSequence, start, next, done}
use zero_force_controller.Ethercat.System.{
  is_complete, EthercatState, Snapshot, is_ready, is_disabled, synced_reference, sent, Poll, System,
  configured,
}

-- Never enable a drive that is not enabled.
unfoldable pub guarded : Command → TxPdos → Command
guarded c motor =
    if c.controlword == enable_operation && not (is_operation_enabled_csp motor)
    then record c { controlword = shutdown }
    else c

module _ {Image : Type 0} ⦃e : Ecrt Image⦄ where
  abbrev observed_bus : Poll Image → TxPdos → EthercatState
  observed_bus p motor = record {
    master = p.master;
    domain = p.domain;
    ek1100 = p.ek1100;
    elm3604 = p.elm3604;
    clearpath = p.clearpath;
    have_master = true;
    have_domain = true;
    have_elm3604 = true;
    have_clearpath = true;
    drive_operation_enabled_csp = is_operation_enabled_csp motor;
    last_motor_feedback = motor;
  }

  -- the snapshot that one exchange leaves behind
  unfoldable pub observe : Poll Image → ElmOffsets → PdoOffsets → Snapshot
  observe p elm_offsets clearpath_offsets =
      let elm = read_feedback p.received elm_offsets in
      let motor = read_tx_pdos p.received clearpath_offsets in
      let bus = observed_bus p motor in
      record { elm = elm; motor = motor; bus = bus; ready = is_ready bus elm }

  -- the time that is returned, and the new state
  unfoldable pub read : System Image → Poll Image → ℕ × System Image
  unfolding observe
  read s p =
      if configured s
      then (
        p.now,
        record s {
          domain_data = some p.received;
          snapshot = observe p s.elm_offsets s.clearpath_offsets;
        },
      )
      else (0, s)

  -- Every second frame is preceded by a synchronisation of the reference clock to `now`.
  unfoldable pub write : System Image → Command → ℕ → System Image
  write s c now = elim s.domain_data [
    | none ↦ s
    | some m ↦
        let synced = record s { domain_data = some (write_command m s.clearpath_offsets c) } in
        if s.sync_ref_counter == 0
        then record synced {
          sync_ref_counter = 1;
          log = sent c s.snapshot.motor ∷ synced_reference now ∷ s.log;
        }
        else record synced {
          sync_ref_counter = s.sync_ref_counter - 1;
          log = sent c s.snapshot.motor ∷ s.log;
        }
  ]

  -- one round of the shutdown loop, after its sleep
  unfoldable pub stop_round : StopSequence → System Image → Poll Image → StopSequence × System Image
  stop_round stop s p =
      let s1 = (read s p).1 in
      let (c, stop') = next stop in (stop', write s1 (guarded c s1.snapshot.motor) p.now)

  -- the exchange after the loop
  unfoldable pub confirm : StopSequence → System Image → Option (Poll Image) → Bool × System Image
  confirm stop s none = (false, s)
  confirm stop s (some p) =
      let s1 = (read s p).1 in
      let s2 = write s1 (next stop).0 p.now in
      (
        s2.snapshot.bus.master.link_up
            && is_complete s2.snapshot.bus.domain.wc_state
            && is_disabled (decode_statusword s2.snapshot.motor.statusword),
        s2,
      )

  -- `while (!stop.done())`, on fuel; `none` means that the fuel ran out. The environment gives the
  -- exchange of each round, or `none` where the sleep fails.
  unfoldable pub shutdown_loop :
      ℕ → (ℕ → Option (Poll Image)) → ℕ → StopSequence → System Image → Option (Bool × System Image)
  shutdown_loop zero env i stop s = none
  shutdown_loop (suc fuel) env i stop s = elim (done stop) [
    | true ↦ some (confirm stop s (env i))
    | false ↦ elim (env i) [
      | none ↦ some (false, s)
      | some p ↦ let (stop', s') = stop_round stop s p in shutdown_loop fuel env (i + 1) stop' s'
    ]
  ]

  -- `shutdown`; 121 rounds are enough.
  unfoldable pub shut_down : (ℕ → Option (Poll Image)) → System Image → Option (Bool × System Image)
  shut_down env s =
      if configured s then shutdown_loop 121 env 0 (start s.snapshot.motor) s else some (true, s)
