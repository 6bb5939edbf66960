-- ===== src/Tests.antt =====
-- Runs of the model, and the theorems at concrete inputs.
mod Data
mod Relays
mod Tasks
mod Sensors
mod Automation
mod Network
mod Files
mod Web
mod Firmware
mod Start
mod Storage
mod Matter
