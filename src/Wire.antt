-- ===== src/Wire.antt =====
-- The MySQL wire protocol: mindsdb/api/mysql/mysql_proxy/data_types and the classes beside it.
pub mod Datum
pub mod Packet
pub mod Bodies
pub mod BinaryRow
pub mod Capabilities
pub mod Handshake
mod Tests
mod BodyTests
