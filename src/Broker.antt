-- ===== src/Broker.antt =====
-- server/broker: the broker that lets an agent call the tools of a connection.
pub mod Capability
pub mod Attempts
pub mod Request
pub mod Connectors
pub mod Execute
