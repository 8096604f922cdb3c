-- ===== src/Demo.antt =====
-- demo: the demonstration around the program.
pub mod Generate
pub mod Seed
pub mod Cockpit
pub mod App
pub mod Exporter
