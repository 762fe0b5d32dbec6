-- ===== src/Rlink.antt =====
-- tools/src/librlink: the rlink protocol.
pub mod Crc16
pub mod Stats
pub mod Packet
pub mod Command
pub mod Connect
pub mod Tests
pub mod AddrMap
pub mod Context
pub mod CommandList
