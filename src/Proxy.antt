-- ===== src/Proxy.antt =====
-- The connection with a MySQL client: mindsdb/api/mysql/mysql_proxy/mysql_proxy.py and the packets
-- that the client sends.
pub mod Params
pub mod Command
pub mod Auth
pub mod Dispatch
pub mod Packages
pub mod ResultSet
mod Tests
mod TableTests
