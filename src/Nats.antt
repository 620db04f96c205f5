-- ===== src/Nats.antt =====
-- What pkg/natsx uses of github.com/nats-io/nats.go, which is not part of this repository: the data
-- that the code builds or reads, and the interfaces through which it calls.
pub mod Header
pub mod Conn
