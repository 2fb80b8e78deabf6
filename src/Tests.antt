-- ===== src/Tests.antt =====
-- The theorems at concrete inputs.
mod Update
mod Records
mod Ring
mod Board
mod Settings
mod Storage
mod Pipeline
mod Firmware
mod Gunzip
