-- ===== src/Ethercat/Pdo.antt =====
-- The process data that the two devices are told to exchange: the tables of `Elm3604::ConfigurePDOs`
-- in packages/zfc_ethercat_core/src/elm3604_pdo.cpp and of `Clearpath::RemapPDOs` in
-- clearpath_pdo.cpp, and the entries of the terminal that are then registered. The master library
-- packs the entries of a sync manager one behind the other, bit by bit. The closing entry of each
-- table is the end of a list here.
pub mod Layout
pub mod Drive
use zero_force_controller.Common.{
  ℕ, zero, suc, ◌+◌, ◌-◌, ◌*◌, ◌/◌, ◌%◌, Bool, true, false, ◌&&◌, Option, none, some, List, [], ◌∷◌,
  ◌++◌, ◌==◌, if◌then◌else◌,
}
use zero_force_controller.Common.Int.{ℤ, pos, negsuc}
use zero_force_controller.Ethercat.Elm.{BitOffset, ChannelOffsets, ElmOffsets}

-- `ec_pdo_entry_info_t`: index, subindex and width in bits. A gap has index 0.
pub record Entry : Type 0 where
  pub index : ℕ
  pub subindex : ℕ
  pub bits : ℕ

-- `ec_pdo_info_t`, with the place of its first entry in the table
pub record PdoInfo : Type 0 where
  pub index : ℕ
  pub count : ℕ
  pub first : ℕ

pub data Direction : Type 0 where
  output input : Direction

-- `ec_sync_info_t`, with the place of its first object
pub record SyncInfo : Type 0 where
  pub manager : ℕ
  pub direction : Direction
  pub count : ℕ
  pub first : ℕ
  pub watchdog : Bool

abbrev pub entry : ℕ → ℕ → ℕ → Entry
entry i s b = record { index = i; subindex = s; bits = b }

abbrev pdo : ℕ → ℕ → ℕ → PdoInfo
pdo i n k = record { index = i; count = n; first = k }

abbrev pub sync : ℕ → Direction → ℕ → ℕ → Bool → SyncInfo
sync m d n k w = record { manager = m; direction = d; count = n; first = k; watchdog = w }

abbrev pub elm_entries : List Entry
elm_entries =
    entry 0x6000 0x01 8
    ∷ entry 0x6000 0x09 1
    ∷ entry 0x6000 0x0a 1
    ∷ entry 0x6000 0x0b 1
    ∷ entry 0 0 1
    ∷ entry 0x6000 0x0d 1
    ∷ entry 0x6000 0x0e 1
    ∷ entry 0x6000 0x0f 2
    ∷ entry 0 0 16
    ∷ entry 0x6001 0x01 32
    ∷ entry 0x6010 0x01 8
    ∷ entry 0x6010 0x09 1
    ∷ entry 0x6010 0x0a 1
    ∷ entry 0x6010 0x0b 1
    ∷ entry 0 0 1
    ∷ entry 0x6010 0x0d 1
    ∷ entry 0x6010 0x0e 1
    ∷ entry 0x6010 0x0f 2
    ∷ entry 0 0 16
    ∷ entry 0x6011 0x01 32
    ∷ entry 0x6020 0x01 8
    ∷ entry 0x6020 0x09 1
    ∷ entry 0x6020 0x0a 1
    ∷ entry 0x6020 0x0b 1
    ∷ entry 0 0 1
    ∷ entry 0x6020 0x0d 1
    ∷ entry 0x6020 0x0e 1
    ∷ entry 0x6020 0x0f 2
    ∷ entry 0 0 16
    ∷ entry 0x6021 0x01 32
    ∷ []

abbrev pub elm_pdos : List PdoInfo
elm_pdos =
    pdo 0x1a00 9 0
    ∷ pdo 0x1a01 1 9
    ∷ pdo 0x1a21 9 10
    ∷ pdo 0x1a22 1 19
    ∷ pdo 0x1a42 9 20
    ∷ pdo 0x1a43 1 29
    ∷ []

abbrev pub elm_syncs : List SyncInfo
elm_syncs =
    sync 0 output 0 0 false
    ∷ sync 1 input 0 0 false
    ∷ sync 2 output 0 0 false
    ∷ sync 3 input 6 0 false
    ∷ []

abbrev pub drive_rx_entries : List Entry
drive_rx_entries =
    entry 0x6040 0 16
    ∷ entry 0x6060 0 8
    ∷ entry 0x607a 0 32
    ∷ entry 0x60ff 0 32
    ∷ entry 0x6071 0 16
    ∷ []

abbrev pub drive_tx_entries : List Entry
drive_tx_entries =
    entry 0x6041 0 16
    ∷ entry 0x6061 0 8
    ∷ entry 0x6064 0 32
    ∷ entry 0x606c 0 32
    ∷ entry 0x6077 0 16
    ∷ entry 0x60fd 0 32
    ∷ []

-- Both tables of entries, one behind the other, so that an object has its place in one list.
abbrev pub drive_pdos : List PdoInfo
drive_pdos = pdo 0x1600 5 0 ∷ pdo 0x1a00 6 5 ∷ []

abbrev pub drive_syncs : List SyncInfo
drive_syncs = sync 2 output 1 0 true ∷ sync 3 input 1 1 false ∷ []

-- `n` elements from place `k` on
abbrev slice {ℓ} : {A : Type ℓ} → ℕ → ℕ → List A → List A
slice k n [] = []
slice zero zero (x ∷ xs) = []
slice zero (suc n) (x ∷ xs) = x ∷ slice zero n xs
slice (suc k) n (x ∷ xs) = slice k n xs

abbrev all_entries : List Entry → List PdoInfo → List Entry
all_entries entries [] = []
all_entries entries (p ∷ ps) = slice p.first p.count entries ++ all_entries entries ps

abbrev has_direction : Direction → Direction → Bool
has_direction output output = true
has_direction input input = true
has_direction _ _ = false

-- the entries that are exchanged in a direction, in the order of the sync managers and their objects
abbrev pub assigned : Direction → List Entry → List PdoInfo → List SyncInfo → List Entry
assigned way entries pdos [] = []
assigned way entries pdos (s ∷ ss) =
    if has_direction way s.direction
    then all_entries entries (slice s.first s.count pdos) ++ assigned way entries pdos ss
    else assigned way entries pdos ss

-- An object's entry by its first bit and width, if the packed entries from bit `at` on have it.
abbrev pub find : ℕ → List Entry → ℕ → ℕ → Option (ℕ × ℕ)
find at [] index subindex = none
find at (e ∷ es) index subindex =
    if e.index == index && e.subindex == subindex
    then some (at, e.bits)
    else find (at + e.bits) es index subindex

infixl 5 ◌>>=◌
abbrev ◌>>=◌ {ℓ κ} : {A : Type ℓ} {B : Type κ} → Option A → (A → Option B) → Option B
none >>= f = none
some a >>= f = f a

-- an entry that is registered with a place for its bit, and one without, which must start a byte
abbrev bit_entry : Option (ℕ × ℕ) → Option BitOffset
bit_entry none = none
bit_entry (some (at, bits)) = some (at / 8, at % 8)

abbrev byte_entry : Option (ℕ × ℕ) → Option ℕ
byte_entry none = none
byte_entry (some (at, bits)) = if at % 8 == 0 then some (at / 8) else none

-- the registered entries of one channel, by its two objects
unfoldable pub register_channel : (ℕ → ℕ → Option (ℕ × ℕ)) → ℕ → ℕ → Option ChannelOffsets
register_channel reg status value = do
  number_of_samples ← bit_entry (reg status 0x01)
  error ← bit_entry (reg status 0x09)
  underrange ← bit_entry (reg status 0x0a)
  overrange ← bit_entry (reg status 0x0b)
  diag ← bit_entry (reg status 0x0d)
  txpdo_state ← bit_entry (reg status 0x0e)
  cycle_counter ← bit_entry (reg status 0x0f)
  sample ← byte_entry (reg value 0x01)
  some (record {
    number_of_samples = number_of_samples;
    error = error;
    underrange = underrange;
    overrange = overrange;
    diag = diag;
    txpdo_state = txpdo_state;
    cycle_counter = cycle_counter;
    sample = sample;
  })

-- the table `domain_regs`
unfoldable pub register_channels : (ℕ → ℕ → Option (ℕ × ℕ)) → Option ElmOffsets
register_channels reg = do
  x ← register_channel reg 0x6000 0x6001
  y ← register_channel reg 0x6010 0x6011
  z ← register_channel reg 0x6020 0x6021
  some (record { x = x; y = y; z = z })
