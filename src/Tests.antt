-- ===== src/Tests.antt =====
-- Runs at concrete inputs.
pub mod Data
mod Drivers
mod Cells
mod Axes
mod Values
mod Queue
mod Params
mod Servicers
mod Translations
mod Certs
mod Commands
