-- ===== src/Ethercat/System.antt =====
-- packages/zfc_ethercat_core/include/ethercat_system.hpp and src/ethercat_system.cpp: the state of
-- the bus. Configure has the ownership of the IgH master, Exchange the cycle and the blocking
-- shutdown. What the master library and the clock answer is an argument; what the code asks of the
-- bus is kept in a log, newest first.
pub mod Configure
pub mod Exchange
pub mod Ownership
pub mod Cycle
pub mod Shutdown
use zero_force_controller.Common.{ℕ, Bool, true, false, ◌&&◌, Option, none, some, List, ◌==◌}
use zero_force_controller.Common.Int.{ℤ}
use zero_force_controller.Ethercat.Clearpath
use zero_force_controller.Ethercat.Clearpath.{TxPdos, Command, PdoOffsets}
use zero_force_controller.Ethercat.Cia402.{switch_on_disabled, State}
use zero_force_controller.Ethercat.Elm
use zero_force_controller.Ethercat.Elm.{ElmOffsets, Feedback, channel_valid}

pub record MasterState : Type 0 where
  pub slaves_responding : ℕ
  pub link_up : Bool

pub data WcState : Type 0 where
  wc_zero wc_incomplete wc_complete : WcState

pub record DomainState : Type 0 where
  pub working_counter : ℕ
  pub wc_state : WcState

pub record SlaveState : Type 0 where
  pub online : Bool
  pub operational : Bool

abbrev pub is_complete : WcState → Bool
is_complete wc_complete = true
is_complete _ = false

pub record EthercatState : Type 0 where
  pub master : MasterState
  pub domain : DomainState
  pub ek1100 : SlaveState
  pub elm3604 : SlaveState
  pub clearpath : SlaveState
  pub have_master : Bool
  pub have_domain : Bool
  pub have_elm3604 : Bool
  pub have_clearpath : Bool
  pub drive_operation_enabled_csp : Bool
  pub last_motor_feedback : TxPdos

pub record Snapshot : Type 0 where
  pub elm : Feedback
  pub motor : TxPdos
  pub bus : EthercatState
  pub ready : Bool

abbrev offline : SlaveState
offline = record { online = false; operational = false }

-- `Snapshot{}`
abbrev pub no_snapshot : Snapshot
no_snapshot = record {
  elm = Elm.no_feedback;
  motor = Clearpath.no_feedback;
  bus = record {
    master = record { slaves_responding = 0; link_up = false };
    domain = record { working_counter = 0; wc_state = wc_zero };
    ek1100 = offline;
    elm3604 = offline;
    clearpath = offline;
    have_master = false;
    have_domain = false;
    have_elm3604 = false;
    have_clearpath = false;
    drive_operation_enabled_csp = false;
    last_motor_feedback = Clearpath.no_feedback;
  };
  ready = false;
}

-- `IsReady`
unfoldable pub is_ready : EthercatState → Feedback → Bool
is_ready s elm =
    s.have_master
    && s.have_domain
    && s.have_elm3604
    && s.have_clearpath
    && s.master.link_up
    && s.master.slaves_responding == 3
    && is_complete s.domain.wc_state
    && s.ek1100.online
    && s.ek1100.operational
    && s.elm3604.online
    && s.elm3604.operational
    && s.clearpath.online
    && s.clearpath.operational
    && s.drive_operation_enabled_csp
    && channel_valid elm.x
    && channel_valid elm.y
    && channel_valid elm.z

abbrev pub is_disabled : State → Bool
is_disabled switch_on_disabled = true
is_disabled _ = false

-- What the code asks of the bus. A frame is noted with the command that was encoded and the drive
-- feedback that was held then.
pub data Event : Type 0 where
  requested released queued_sdos activated : Event
  synced_reference : ℕ → Event
  sent : Command → TxPdos → Event

-- the answers of the master library while the bus is configured and activated
pub record Igh (Image : Type 0) : Type 0 where
  pub request_master : Bool
  pub slave : ℕ → Option (ℕ × ℕ)
  pub create_domain : Bool
  pub slave_config : ℕ → ℕ → ℕ → ℕ → Bool
  pub sdo : ℕ → ℕ → ℕ → ℤ
  pub config_pdos : ℕ → ℤ
  pub reg_pdo_entry_list : Option ElmOffsets
  pub reg_pdo_entry : ℕ → ℕ → ℤ
  pub activate_master : ℤ
  pub domain_memory : Option Image

-- the answers in one exchange: the clock, the image that was received, and the polled states
pub record Poll (Image : Type 0) : Type 0 where
  pub now : ℕ
  pub received : Image
  pub master : MasterState
  pub domain : DomainState
  pub ek1100 : SlaveState
  pub elm3604 : SlaveState
  pub clearpath : SlaveState

-- `EthercatSystem` with its `RuntimeContext`; a pointer is the presence of what it points to.
pub record System (Image : Type 0) : Type 0 where
  pub master : Bool
  pub domain : Bool
  pub ek1100_config : Bool
  pub elm3604_config : Bool
  pub clearpath_config : Bool
  pub domain_data : Option Image
  pub elm_offsets : ElmOffsets
  pub clearpath_offsets : PdoOffsets
  pub snapshot : Snapshot
  pub sync_ref_counter : ℕ
  pub log : List Event

module _ {Image : Type 0} where
  abbrev pub configured : System Image → Bool
  configured s = elim s.domain_data [ none ↦ false | some m ↦ true ]
