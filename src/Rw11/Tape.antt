-- ===== src/Rw11/Tape.antt =====
-- tools/src/librw11/Rw11VirtTapeTap.{hpp,cpp,ipp} and the state of its base Rw11VirtTape: a magnetic
-- tape in a file of the "tap" format. The file is an argument, with the calls that RfileFd passes on
-- to the system.
pub mod Code
pub mod Stat
pub mod Calls
pub mod Read
pub mod Write
pub mod Space
pub mod Format
pub mod Position
pub mod Writing
pub mod Moves
pub mod Forward
pub mod Backward
pub mod Records
pub mod Reading
pub mod RoundTrip
pub mod Recovery
pub mod Mismatch
pub mod Tests
