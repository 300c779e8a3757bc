-- ===== src/Tests.antt =====
-- Runs of the models on concrete inputs.
mod Memory
mod Files
mod Devices
mod Strings
mod Processor
mod Calls
mod Directory
mod Screen
