-- ===== src/Tests.antt =====
-- The theorems applied to concrete data: one module for each group of components.
mod Memory
mod Lists
mod Disk
mod Tasks
mod Devices
mod Machine
mod Text
mod Image
