-- ===== src/Rlink/Connect.antt =====
-- tools/src/librlink/RlinkConnect.cpp: a list of commands is encoded into one request packet, and
-- the response packet is decoded into the commands. The port, the locking, the log and the server
-- are not part of the state here.
pub mod Stat
pub mod State
pub mod Encode
pub mod Decode
pub mod Reading
pub mod Response
pub mod Answers
pub mod Request
pub mod Packets
pub mod Exec
pub mod Tests
