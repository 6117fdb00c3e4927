-- ===== src/Tests.antt =====
-- Runs on concrete data, and the theorems applied to them. `Data` holds what they share.
mod Data
mod Encoding
mod Requests
mod Methods
mod Settings
mod Reads
mod Transport
mod Cli
mod Exports
mod Program
