-- ===== src/Ota.antt =====
-- The firmware update path: the Intel HEX parser, the staging state machine and the checks of a
-- staged image. Each child names the header that it models.
pub mod Hex
pub mod Crc
pub mod Flash
pub mod Ingest
pub mod Verify
pub mod Upload
pub mod Commit
pub mod Loop
