-- ===== src/Lib.antt =====
-- A model of the RV64 emulator of this repository, of the serial protocol over which a badge
-- pages its guest memory from a host, and of the two ends of that link. The emulator
-- (crates/rv64/src) is a hart, a memory management unit, a bus with a timer and a UART, and a
-- page cache that keeps a few frames of the guest's memory over a backing store; the protocol
-- (crates/rv64-proto/src/lib.rs) frames pages and console bytes with a checksum; the host
-- (crates/rv64-host/src) serves pages from a file, and the badge (badge/app/src) asks for them
-- and shows the guest's console.
--
-- A hart's step fetches through the MMU and the bus, expands a compressed instruction, asks the
-- three decoders in turn, and retires. A load or a store goes from the hart through the MMU to
-- the bus, and from there to the page cache, the timer or the UART. The page cache reads and
-- writes whole pages of its store, which is a parameter: the trait `MemBacking` is a record of
-- its operations, and what the trait's documentation demands of an implementation is the record
-- `IsFlatArray`. The console is a parameter too, the trait `ConsoleSink`.
--
-- On the badge a page that the cache misses is one exchange over the link: a request, and a wait
-- for the answer with a number of attempts and two deadlines. On the host each request that has
-- arrived is answered from the file. Both ends put their bytes through the same multiplexer. The
-- platform's transport, the host's files and streams and the screen are parameters: the traits
-- `Transport` and `Screen` are records of their operations, `FileIo` and `Sink` stand for the
-- standard library's traits, and `IsFile`, `IsSink`, `IsTicking` and `IsHonest` are what their
-- documentation says; `IsLogged` only records the calls of a transport.
--
--   Backing: crates/rv64/src/backing.rs, the store's interface, its laws and the in-memory store.
--   Cache: crates/rv64/src/cache.rs. Cache/Resident has `resident` and `flush`, Cache/Bytes the
--     accesses; Cache/View, Cache/Moves and Cache/Valid define the memory that a cache stands for
--     and its invariant, Cache/Memory states what the guest sees.
--   Exception, Clint, Uart, Bus, Csr, Mmu: the files of crates/rv64/src of the same names.
--   Cpu: crates/rv64/src/cpu.rs, the hart's state and its memory accesses; Cpu/Trap has the traps
--     and interrupts, Step the functions `step` and `step_trapping`.
--   Insn: crates/rv64/src/insn, one module for each decoder; Insn/Fields is insn/mod.rs.
--   Sbi: crates/rv64/src/sbi.rs, the firmware calls.
--   Proto: crates/rv64-proto/src/lib.rs; Proto/Crc is the checksum, Proto/Mux the multiplexer
--     `Mux`.
--   Host: crates/rv64-host/src. Host/HostFile is hostfile.rs; Host/Serve, Host/Sending and
--     Host/Trail are serve.rs: the answers, what is written on the wire and typed at the
--     keyboard, and the count of duplicates. Host/Loading is lib.rs, elf.rs and fdt.rs: the boot
--     images and their places. Host/MemFile is a file in memory for the tests.
--   Badge: badge/app/src. Badge/Link, Badge/UsbHost and Badge/Send are usbhost.rs: the state of
--     the link and the function `exchange`, the handles `Link` and `UsbHost`, and sending in
--     packets. Badge/Oled is oled.rs, Badge/Startup startup.rs.
--   Base: shared notation, lists, bits of words and fallible code.
--
-- Words are natural numbers with the wrap-around written out, as in a release build; a `usize`
-- has the badge's 32 bits, also in the decoder that the host shares, and the host's own counters
-- 64. A page and the register file are functions of an index. Code that mutates and fails is a
-- function from a state to an outcome and the state it leaves, also on failure; a failed
-- assertion or an index out of range is the outcome `panic`. Operations on a hart act on the pair
-- of the hart and its bus.
--
-- Loops are structural where the source counts. The loops over a buffer in Cache/Bytes take the
-- length of the buffer as fuel, and every round moves at least one byte; the clock of the victim
-- search runs for twice the number of frames, as in the source; the loop of the decoder takes one
-- more than the length of its buffer, and every round that goes on has shortened it. The loops of
-- `Mux::push` and `serve_once` take one more than the bytes and the frames that they work on. The
-- wait inside `exchange` takes any fuel, and is shown to end when bytes stop arriving; the loop
-- over its attempts takes one more than the retry budget. `send_paced` needs a round for each
-- byte and each refusal allowed.
--
-- Not modelled: the host's command line and terminal, its runner of the ISA tests and its search
-- for symbols; the differential tester; the badge's run loop, and its platform code, which calls
-- the operating system; the two threads of the host that share the wire; texts that only describe
-- a fault; the conformance suites and other tests.
pub mod Backing
pub mod Badge
pub mod Base
pub mod Bus
pub mod Cache
pub mod Clint
pub mod Cpu
pub mod Csr
pub mod Exception
pub mod Host
pub mod Insn
pub mod Mmu
pub mod Proto
pub mod Sbi
pub mod Step
pub mod Uart
