-- ===== src/Driver.antt =====
-- src/driver/driver.cpp: the parts of the driver that keep state of their own.
pub mod Pins
pub mod Fences
pub mod Staging
pub mod Waits
pub mod Tickets
pub mod Submit
pub mod Managed
pub mod Release
pub mod Faults
