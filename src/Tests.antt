-- ===== src/Tests.antt =====
-- Concrete instances of the parameters, and the theorems at concrete inputs.
mod Support
mod Streams
mod Subjects
mod Configs
mod Clients
mod JetStreams
mod Encoding
mod Goals
mod Debts
mod Makefiles
mod Registries
mod Templates
mod Traces
mod Scripts
