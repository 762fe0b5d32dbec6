-- ===== src/Lib.antt =====
-- The C++ back end of the w11 project: the rlink protocol between the host and the FPGA, and the
-- tape and disk back ends of the emulated PDP-11 devices.
--
-- The parts and how they interact. A list of register commands (RlinkCommand, with an expectation
-- RlinkCommandExpect) is turned into a request packet by `RlinkConnect::EncodeRequest`, which puts
-- bytes and checksums (RlinkCrc16) into the send buffer RlinkPacketBufSnd; the buffer frames and
-- escapes the packet and writes it to a port. The response comes back through RlinkPacketBufRcv,
-- which finds packets in the raw bytes, and is taken apart by `RlinkConnect::DecodeResponse`.
-- RlinkAddrMap keeps the names of register addresses. Rw11VirtTapeTap is a magnetic tape in a file;
-- a disk is
-- a file (Rw11VirtDiskFile), blocks in memory over a file (Rw11VirtDiskOver) or in memory only
-- (Rw11VirtDiskRam). Rw11Rdma moves a block to or from the memory of the CPU in chunks. Rtime is a
-- time of seconds and nanoseconds, by which the timeouts go.
--
-- Files:
--   Base, Base/*               names, Boolean tests, lists, bits and signed integers
--   Rlink/Crc16                tools/src/librlink/RlinkCrc16.{cpp,ipp}: `add_data` is `AddData`
--   Rlink/Stats                tools/src/librtools/Rstats.ipp: `inc` is `Inc`
--   Rlink/Packet               tools/src/librlink/RlinkPacketBuf.hpp: symbols and codes
--   Rlink/Packet/Snd           tools/src/librlink/RlinkPacketBufSnd.{cpp,ipp}
--   Rlink/Packet/Rcv           tools/src/librlink/RlinkPacketBufRcv.{cpp,ipp}
--   Rlink/Packet/Bytewise      the receive state machine, one byte at a time
--   Rlink/Packet/Process, RoundTrip, Codes   proofs on the buffers
--   Rlink/Command, Command/*   tools/src/librlink/RlinkCommand*.{cpp,ipp}
--   Rlink/Connect/Encode       `EncodeRequest` of tools/src/librlink/RlinkConnect.cpp
--   Rlink/Connect/Decode       `DecodeResponse` and `DecodeAttnNotify` of the same file
--   Rlink/Connect/Request, Response, Answers, Reading   the packets of the protocol, written down
--                              independently, and the proofs on them
--   Rlink/Connect/Packets      the loops over received packets of RlinkConnect.cpp: `ReadResponse`,
--                              `AcceptResponse`, `HandleUnsolicitedData`, `WaitAttn`; below it the
--                              proofs that they end
--   Rlink/Connect/Exec         `Exec` and `ExecPart`; below it the whole way of a list of commands, and
--                              the lists that pass the checks
--   Rlink/Context              tools/src/librlink/RlinkContext.{cpp,ipp}
--   Rlink/CommandList          tools/src/librlink/RlinkCommandList.{cpp,ipp}
--   Rlink/AddrMap, AddrMap/*   tools/src/librlink/RlinkAddrMap.cpp
--   Rw11/Tape, Tape/*          tools/src/librw11/Rw11VirtTapeTap.{hpp,cpp,ipp}
--   Rw11/Disk                  tools/src/librw11/Rw11VirtDisk.{hpp,ipp}
--   Rw11/Disk/Buffer, BlockMap tools/src/librw11/Rw11VirtDiskBuffer.cpp, and the map of buffers
--   Rw11/Disk/File, Over       tools/src/librw11/Rw11VirtDiskFile.cpp, Rw11VirtDiskOver.cpp
--   Rw11/Disk/Ram, Pattern     tools/src/librw11/Rw11VirtDiskRam.cpp
--   Rw11/Disk/View             what a disk shows: its blocks by number; the Laws below each disk
--                              state its operations in terms of it
--   Rw11/Rdma                  tools/src/librw11/Rw11Rdma.cpp: DMA transfers in chunks
--   Tools/Time                 tools/src/librtools/Rtime.{cpp,ipp}
--   Tests below Rlink, Rlink/Connect, Rlink/AddrMap, Rw11/Tape, Rw11/Disk, Rw11/Rdma,
--   Tools/Time                 concrete runs
--
-- How state and operations correspond: the fields of a class are a record with their names in
-- snake_case, a method is a function from the record to the record, with its result beside it. An
-- exception is `none` of an Option; in the tape model a failed call keeps the state that it has
-- reached (`Attempt`). The raw buffer of the receiver is the list of the bytes that are not
-- processed yet. Words of 8, 16, 32 and 64 bits are numbers with their wrap-around written out; the
-- counters of statistics, the position counters of type `int` and vector lengths are unbounded. The
-- seconds and nanoseconds of Rtime are signed numbers of 64 bits, whose overflow is `none`; file
-- positions from 2^63 on, which are no offset of a file, are excluded by the theorems.
--
-- Bounds and fuel: the loops of `ProcessData` run on fuel, the number of bytes that are left: each
-- pass takes one byte at least. That it is enough is part of what is proved of `process_data`. The
-- loops
-- over packets run on the length of the input and two more, for the reason that each packet takes
-- input, but for one that was complete before; the loops of `ReadResponse` and `WaitAttn` over reads
-- go through the list of what arrives. The fill of a block with a pattern runs on the size of the
-- block, of which each pass writes two bytes at least; a transfer runs on the count of its words and
-- one more; a decimal number has 20 digits at most. All
-- other loops are structural recursion.
--
-- Parameters: what the CPU does of a DMA request, the port that the send buffer writes to, what
-- arrives at the port with the clock behind
-- each read (`Arrival`), and the calls of a file (`Files`), with what the documentation of the system
-- says of them (a `Works` for the tape and one for the disks). Both `Erase` of RlinkAddrMap read an
-- entry after it has been erased: what this read gives is a parameter too.
--
-- Not modelled: texts of errors and logs, printing, opening of ports and files, locking and the
-- server threads (the calls to the server are recorded), the terminal and network back ends, the
-- controllers, the Tcl bindings, and everything that is not C++.
pub mod Base
pub mod Rlink
pub mod Rw11
pub mod Tools
