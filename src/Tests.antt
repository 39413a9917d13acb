-- ===== src/Tests.antt =====
-- Runs on concrete inputs: the cases of test/common.c, the examples of README.adoc, and instances of
-- the theorems.
pub mod Reading
pub mod Sampling
pub mod Devices
pub mod Logging
pub mod Buffers
pub mod Routes
pub mod Command
pub mod Processes
pub mod Samples
pub mod Program
pub mod Listings
pub mod Memory
