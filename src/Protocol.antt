-- ===== src/Protocol.antt =====
-- internal/protocol: what the events and the reducer use of the durable contracts. An enumeration of
-- the code is a named string; here it is a data type of its constants and `unknown`.
pub mod Delivery
pub mod Project
pub mod Discovery
pub mod Records
pub mod Modules
