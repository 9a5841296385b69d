-- ===== src/Tests.antt =====
-- The theorems at concrete inputs: a Solis inverter on a link, its groups, switches and services.
mod Data
mod Polling
mod Link
mod Services
mod Sensors
mod Tables
mod Entities
mod Values
