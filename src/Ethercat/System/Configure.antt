-- ===== src/Ethercat/System/Configure.antt =====
-- `EthercatSystem::configure`, `activate` and `release`: who owns the master, and with what.
use zero_force_controller.Common.{
  ℕ, Bool, true, false, not, ◌&&◌, ◌||◌, Option, none, some, ◌∷◌, ◌==◌, if◌then◌else◌,
}
use zero_force_controller.Common.Int.{pos, eqb_ℤ}
use zero_force_controller.Ethercat.Image.{Ecrt}
use zero_force_controller.Ethercat.Clearpath
use zero_force_controller.Ethercat.Clearpath.{
  TxPdos, Command, PdoOffsets, no_command, configure_pdo_offsets, read_tx_pdos, write_command,
}
use zero_force_controller.Ethercat.Cia402.{mode_csp}
use zero_force_controller.Ethercat.Elm
use zero_force_controller.Ethercat.Elm.{
  ElmOffsets, Feedback, configure_startup_sdos, register_pdo_entries, read_feedback, channel_valid,
}
use zero_force_controller.Ethercat.System.{
  no_snapshot, requested, released, queued_sdos, activated, Igh, System, configured,
}

abbrev pub ek1100_product : ℕ
ek1100_product = 0x044c_2c52

abbrev pub identified : Option (ℕ × ℕ) → ℕ → ℕ → Bool
identified none v p = false
identified (some (vendor, product)) v p = vendor == v && product == p

module _ {Image : Type 0} where
  unfoldable pub release : System Image → System Image
  release s = record {
    master = false;
    domain = false;
    ek1100_config = false;
    elm3604_config = false;
    clearpath_config = false;
    domain_data = none;
    elm_offsets = Elm.no_offsets;
    clearpath_offsets = Clearpath.no_offsets;
    snapshot = no_snapshot;
    sync_ref_counter = 0;
    log = if s.master then released ∷ s.log else s.log;
  }

  -- `if (!ok) throw …;` under the handler of `configure` and `activate`
  abbrev require : Bool → System Image → (System Image → Bool × System Image) → Bool × System Image
  require true s k = k s
  require false s k = (false, release s)

  -- the loop over the three positions
  unfoldable pub identities : Igh Image → Bool
  identities igh =
      identified (igh.slave 0) 2 ek1100_product
      && identified (igh.slave 1) Elm.vendor_id Elm.product_code
      && identified (igh.slave 2) Clearpath.vendor_id Clearpath.product_code

  abbrev with_elm :
      Option ElmOffsets → System Image → (System Image → Bool × System Image) → Bool × System Image
  with_elm none s k = (false, release s)
  with_elm (some o) s k = k (record s { elm_offsets = o })

  abbrev with_clearpath : Option PdoOffsets → System Image → Bool × System Image
  with_clearpath none s = (false, release s)
  with_clearpath (some o) s = (true, record s { clearpath_offsets = o })

  -- from `ConfigureStartupSdos` on
  unfoldable pub configure_slaves : Igh Image → System Image → Bool × System Image
  configure_slaves igh s =
      require (configure_startup_sdos igh.sdo) (record s { log = queued_sdos ∷ s.log })
        λ s1. require (eqb_ℤ (igh.config_pdos Elm.position) (pos 0)) s1 λ s2.
          with_elm (register_pdo_entries igh.reg_pdo_entry_list) s2 λ s3.
            require (eqb_ℤ (igh.config_pdos Clearpath.position) (pos 0)) s3
              λ s4. with_clearpath (configure_pdo_offsets igh.reg_pdo_entry) s4

  -- from the identity check on
  unfoldable pub configure_master : Igh Image → System Image → Bool × System Image
  unfolding configure_slaves identities
  configure_master igh s = require (identities igh) s λ s1.
      require igh.create_domain (record s1 { domain = igh.create_domain })
        λ s2.
          require (igh.slave_config 0 0 2 ek1100_product) (record s2 { ek1100_config = true })
            λ s3.
              require (igh.slave_config Elm.alias Elm.position Elm.vendor_id Elm.product_code)
                (record s3 { elm3604_config = true })
                λ s4.
                  require
                    (igh.slave_config Clearpath.alias Clearpath.position Clearpath.vendor_id
                      Clearpath.product_code)
                    (record s4 { clearpath_config = true }) λ s5. configure_slaves igh s5

  unfoldable pub configure : Igh Image → System Image → Bool × System Image
  unfolding configure_master
  configure igh s =
      if s.master
      then (false, s)
      else if igh.request_master
      then configure_master igh (record s { master = true; log = requested ∷ s.log })
      else (false, release s)

abbrev pub disabled : Command
disabled = record no_command { mode_op = mode_csp }

module _ {Image : Type 0} ⦃e : Ecrt Image⦄ where
  -- The disabling command is written into the image, and sent with the first exchange.
  unfoldable pub activate : Igh Image → System Image → Bool × System Image
  activate igh s =
      if configured s
      then (true, s)
      else if not s.master || not s.domain
      then (false, s)
      else if not (eqb_ℤ igh.activate_master (pos 0))
      then (false, release s)
      else elim igh.domain_memory [
        | none ↦ (false, release (record s { log = activated ∷ s.log }))
        | some m ↦ (
          true,
          record s {
            domain_data = some (write_command m s.clearpath_offsets disabled);
            log = activated ∷ s.log;
          },
        )
      ]
