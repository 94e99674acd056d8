-- ===== src/Ethercat.antt =====
-- packages/zfc_ethercat_core: the drive and the load-cell terminal on the EtherCAT bus.
pub mod Image
pub mod Clearpath
pub mod Cia402
pub mod Stop
pub mod Counts
pub mod Elm
pub mod Pdo
pub mod System
