-- ===== src/Ethercat/System/Ownership.antt =====
-- Who owns the IgH master: `configure`, `activate` and `release` on every path.
use zero_force_controller.Common.{
  ℕ, ◌+◌, ◌≡◌, if◌then◌else◌, Bool, true, false, some, List, [], ◌∷◌, arith,
}
use zero_force_controller.Ethercat.Image.{Ecrt}
use zero_force_controller.Ethercat.Clearpath
use zero_force_controller.Ethercat.Clearpath.{PdoOffsets, configure_pdo_offsets}
use zero_force_controller.Ethercat.Elm
use zero_force_controller.Ethercat.Elm.{ElmOffsets, register_pdo_entries, configure_startup_sdos}
use zero_force_controller.Ethercat.System.{System, Igh, Event, requested, released, configured}
use zero_force_controller.Ethercat.System.Configure.{
  release, configure, configure_master, configure_slaves, activate, identities, ek1100_product,
}

-- how often the log asks for the master, and how often it gives it back
abbrev pub requests : List Event → ℕ
requests [] = 0
requests (requested ∷ es) = requests es + 1
requests (_ ∷ es) = requests es

abbrev pub releases : List Event → ℕ
releases [] = 0
releases (released ∷ es) = releases es + 1
releases (_ ∷ es) = releases es

module _ {Image : Type 0} where
  -- The master was requested as often as it was given back, and once more if it is owned; no process
  -- image is held without it.
  pub record IsOwner (s : System Image) : Type 0 where
    pub owner : requests s.log ≡ releases s.log + (if s.master then 1 else 0)
    pub memory : configured s ≡ true → s.master ≡ true

  -- All that a successful configuration has checked.
  pub record IsConfigured (igh : Igh Image) (s : System Image) : Type 0 where
    pub master : s.master ≡ true
    pub domain : s.domain ≡ true
    pub identity_0 : igh.slave 0 ≡ some (2, ek1100_product)
    pub identity_1 : igh.slave 1 ≡ some (Elm.vendor_id, Elm.product_code)
    pub identity_2 : igh.slave 2 ≡ some (Clearpath.vendor_id, Clearpath.product_code)
    pub elm_entries : register_pdo_entries igh.reg_pdo_entry_list ≡ some s.elm_offsets
    pub clearpath_entries : configure_pdo_offsets igh.reg_pdo_entry ≡ some s.clearpath_offsets

  identities_lem :
      (igh : Igh Image)
      → identities igh ≡ true
      → (igh.slave 0 ≡ some (2, ek1100_product))
        × (igh.slave 1 ≡ some (Elm.vendor_id, Elm.product_code))
        × (igh.slave 2 ≡ some (Clearpath.vendor_id, Clearpath.product_code))
  unfolding identities
  identities_lem igh h = ground arith

  -- A failure after the master was requested gives it back, with all that rested on it.
  abbrev GaveBack : System Image → System Image → Type 0
  GaveBack s t =
      (t.master ≡ false)
      × (configured t ≡ false)
      × (requests t.log ≡ requests s.log)
      × (releases t.log ≡ releases s.log + 1)

  abbrev Outcome : Igh Image → System Image → Bool × System Image → Type 0
  Outcome igh s (true, t) =
      IsConfigured igh t
      × (configured t ≡ configured s)
      × (requests t.log ≡ requests s.log)
      × (releases t.log ≡ releases s.log)
  Outcome igh s (false, t) = GaveBack s t

  configure_slaves-Outcome :
      (igh : Igh Image) (s : System Image)
      → identities igh ≡ true
      → s.master ≡ true
      → s.domain ≡ true
      → Outcome igh s (configure_slaves igh s)
  unfolding configure_slaves release
  configure_slaves-Outcome igh s i m d = ground (arith, identities_lem igh i)

  configure_master-Outcome :
      (igh : Igh Image) (s : System Image)
      → s.master ≡ true
      → Outcome igh s (configure_master igh s)
  unfolding configure_master release
  configure_master-Outcome igh s m = ground (
    arith,
    configure_slaves-Outcome igh (record s {
      domain = true;
      ek1100_config = true;
      elm3604_config = true;
      clearpath_config = true;
    }),
  )

  -- `configure` on a system that owns nothing. If it succeeds, the master is owned, the three slaves
  -- have the identities that the code expects, and the offsets are those that were registered. If
  -- it fails, nothing is owned and the log gives the master back exactly as often as it requests it.
  -- On a system that owns the master it fails and changes nothing.
  pub configure_lem :
      (igh : Igh Image) (s : System Image)
      → IsOwner s
      → let (ok, t) = configure igh s in
        IsOwner t
        × (ok ≡ true → IsConfigured igh t)
        × (ok ≡ false → s.master ≡ false → (t.master ≡ false) × (configured t ≡ false))
        × (s.master ≡ true → (ok ≡ false) × (t ≡ s))
  unfolding configure release
  configure_lem igh s o = ground (
    arith,
    o.memory,
    configure_master-Outcome igh (record s { master = true; log = requested ∷ s.log }),
  )

  -- `release` leaves nothing owned.
  release-IsOwner :
      (s : System Image) → IsOwner s → IsOwner (release s) × ((release s).master ≡ false)
  unfolding release
  release-IsOwner s o = ground arith

module _ {Image : Type 0} ⦃e : Ecrt Image⦄ where
  -- `activate` keeps the log in step with the ownership. If it succeeds, the process image is there;
  -- if it fails, it is not, and a failure of the master library has given the master back.
  pub activate_lem :
      (igh : Igh Image) (s : System Image)
      → IsOwner s
      → let (ok, t) = activate igh s in
        IsOwner t × (configured t ≡ ok) × (ok ≡ false → s.domain ≡ true → t.master ≡ false)
  unfolding activate release
  activate_lem igh s o = ground (arith, o.memory)
