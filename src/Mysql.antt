-- ===== src/Mysql.antt =====
-- The MySQL driver, rbdc-mysql/src.
pub mod Collation
pub mod Lenenc
pub mod Capabilities
pub mod Status
pub mod Packet
pub mod Response
pub mod Column
pub mod Connect
pub mod Statement
pub mod Row
pub mod BinaryRow
pub mod Stream
pub mod Connection
mod Tests
