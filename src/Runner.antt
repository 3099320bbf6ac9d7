-- ===== src/Runner.antt =====
-- core/runner.py: the configuration of a cell's two sides, and the driver that runs the cell.
pub mod Config
pub mod Params
pub mod Driver
pub mod Outcome
pub mod Cell
