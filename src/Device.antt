-- ===== src/Device.antt =====
-- src/DeviceHandler.cpp: the relays, the status LED, the sensor and the display.
pub mod State
pub mod Relays
pub mod Blink
pub mod Sensors
pub mod Display
pub mod Loop
