-- ===== src/Ethercat/System/Cycle.antt =====
-- One exchange: what a frame tells the drive, when the reference clock is synchronised, and what
-- `ready` stands for.
use zero_force_controller.Common.{
  ℕ, ◌+◌, ◌/◌, ◌≡◌, ◌≤◌, true, false, Option, none, some, List, [], ◌∷◌, arith, inl, inr,
  Option-cases, length, ◌-◌,
}
use zero_force_controller.Ethercat.Image.{Ecrt, IsMemory}
use zero_force_controller.Ethercat.Clearpath.{Command}
use zero_force_controller.Ethercat.Clearpath.RoundTrip.{
  CommandFits, RxApart, received, received-write_command,
}
use zero_force_controller.Ethercat.System.{System, Event, synced_reference, sent, configured}
use zero_force_controller.Ethercat.System.Exchange.{write}

module _ {Image : Type 0} ⦃e : Ecrt Image⦄ where
  -- the command that the drive takes from the image of the system, if there is one
  abbrev pub commanded : System Image → Option Command
  commanded s = elim s.domain_data [ none ↦ none | some m ↦ some (received m s.clearpath_offsets) ]

  -- `write` on a system that is configured puts exactly the command into the image, for values in
  -- the range of their types and entries that share no byte; on any other it does nothing.
  pub commanded-write :
      IsMemory Image
      → (s : System Image) (c : Command) (now : ℕ) → CommandFits c
      → RxApart s.clearpath_offsets.rx
      → (configured s ≡ true → commanded (write s c now) ≡ some c)
        × (configured s ≡ false → write s c now ≡ s)
  unfolding write
  commanded-write memory s c now f a = elim (Option-cases s.domain_data) [
    | inl h ↦ ground arith
    | inr (m, h) ↦ ground (arith, received-write_command memory m s.clearpath_offsets c f a)
  ]

  unfoldable pub write_all : System Image → List (Command × ℕ) → System Image
  write_all s [] = s
  write_all s ((c, now) ∷ rest) = write_all (write s c now) rest

abbrev pub syncs : List Event → ℕ
syncs [] = 0
syncs (synced_reference now ∷ es) = syncs es + 1
syncs (_ ∷ es) = syncs es

abbrev pub frames_sent : List Event → ℕ
frames_sent [] = 0
frames_sent (sent c m ∷ es) = frames_sent es + 1
frames_sent (_ ∷ es) = frames_sent es

-- the command of the newest frame
abbrev pub newest_sent : List Event → Option Command
newest_sent [] = none
newest_sent (sent c m ∷ es) = some c
newest_sent (_ ∷ es) = newest_sent es

module _ {Image : Type 0} ⦃e : Ecrt Image⦄ where
  pub newest_sent-write :
      (s : System Image) (c : Command) (now : ℕ)
      → configured s ≡ true
      → (newest_sent (write s c now).log ≡ some c)
        × (frames_sent (write s c now).log ≡ frames_sent s.log + 1)
  unfolding write
  newest_sent-write s c now h = ground arith

  write_step :
      (s : System Image) (c : Command) (now : ℕ)
      → configured s ≡ true
      → let t = write s c now in
        (configured t ≡ true)
        × (frames_sent t.log ≡ frames_sent s.log + 1)
        × (s.sync_ref_counter ≡ 0 → (t.sync_ref_counter ≡ 1) × (syncs t.log ≡ syncs s.log + 1))
        × (s.sync_ref_counter ≡ 1 → (t.sync_ref_counter ≡ 0) × (syncs t.log ≡ syncs s.log))
  unfolding write
  write_step s c now h = ground arith

  -- Any number of writes on a configured system sends one frame each, and synchronises the reference
  -- clock before every second one, beginning with the first if the counter is 0.
  pub syncs-write_all :
      (s : System Image) (cs : List (Command × ℕ))
      → configured s ≡ true
      → s.sync_ref_counter ≤ 1
      → let t = write_all s cs in
        (frames_sent t.log ≡ frames_sent s.log + length cs)
        × (syncs t.log ≡ syncs s.log + (length cs + 1 - s.sync_ref_counter) / 2)
  unfolding write_all
  syncs-write_all s [] h b = ground arith
  syncs-write_all s ((c, now) ∷ cs) h b =
      ground (arith, write_step s c now h, syncs-write_all (write s c now) cs)
