-- ===== src/Lib.antt =====
-- Blasterball is a game that boots without an operating system. This library models the parts of it
-- that decide what the machine does with its memory, its keyboard, its events, its locks, its sound
-- device and the game itself, and proves what they promise.
--
-- The bootloader (bootloader/) reads a map of the memory from the firmware (machine/src/memory.rs),
-- takes regions of it for the game, and hands one of them to the heap allocator
-- (collections/src/allocator.rs). The containers (collections/src/queue.rs, collections/src/vec.rs)
-- get their blocks from that allocator. An interrupt of the keyboard gives a byte to the decoder
-- (machine/src/keyboard/mod.rs); under UEFI a key stroke arrives as a record
-- (machine/src/keyboard/uefi.rs). The key events go to the handlers that the game hooked
-- (event_hook/src/lib.rs), and the handlers of the game (blasterball/src/lib.rs) move its objects
-- (physics/src/lib.rs) and play its sounds. The sound driver (sound/src/lib.rs) sets registers of the
-- device and sends commands to its codecs, words whose bits it writes with num/src/lib.rs. Shared
-- state lies behind the mutex of sync/src/mutex.rs or is made once by sync/src/once.rs.
--
-- Files:
--   Base: native numbers, Boolean tests, arrays as lists, integers, panics as `none` and results that
--     return, replies of a component that is fed inputs one by one.
--   Keyboard: `Codes`, `Scancodes` and `Decoder` are the decoder of keyboard/mod.rs: `process_byte`
--     is split into `process_in`, `process_start`, `process_extended` and `handle_key`. `Process` and
--     `Pairs` prove its theorems. `EfiCodes` and `Uefi` are keyboard/uefi.rs, and `Layout` compares
--     its conversion with a US keyboard.
--   Memory: `Addr` is the type `Addr`; `Map.Regions`, `Map.Defs` and `Map.Allocator` are the regions,
--     the map with its sort, and the bootloader's allocator of machine/src/memory.rs. `Map.Sort`,
--     `Map.Overlaps`, `Map.Add` and `Map.Mark` prove their theorems.
--   Collections: `Interface` is the trait `Allocator`, a parameter of the containers. `Queue` and
--     `Vec` each have the operations in `Defs`, and in the other files theorems that compare them with
--     the list of their items. `FreeList` is the allocator itself: `Defs` are its loops over nodes,
--     `Spec` is first fit on a list of regions, `Chain`, `Refine`, `Release`, `Alloc` and `RoundTrip`
--     prove that the loops do what `Spec` does.
--   EventHook: `Defs` are the calls of the hooker while the lock is free and while it is held;
--     `Requests`, `Send`, `Missed` and `Hook` prove their theorems.
--   Physics: `Angles` are the tables of num/src/lib.rs, `Tables` their theorems, `Velocity` and
--     `Object` are physics/src/lib.rs.
--   Machine: `Pic` is machine/src/pic8259.rs, as the writes to the ports.
--   Sync: `Threads` holds the places of threads by their number. `Mutex.Defs` is sync/src/mutex.rs and
--     `Once.Defs` is sync/src/once.rs; `act` is one access of a thread to the shared object, and
--     `Reach` the states that sequences of accesses lead to. `Mutex.Safety`, `Mutex.Progress`,
--     `Once.Local`, `Once.Act`, `Once.Safety` and `Once.Progress` prove their theorems.
--   Num: `Words` is `impl_int` and `to_range` of num/src/lib.rs, for any width. `Digits`, `Bits` and
--     `Masks` describe words by their bits; `Ranges`, `Fields` and `Single` prove the theorems.
--   Sound: `Verbs` and `Commands` are the words sent to codecs, `Controls` the payloads,
--     `Responses` what is read from the words that come back, `ConnList` is `build_conn_list`,
--     `Buffers` the list of buffer descriptors, `Format` the stream format, and `Registers` the fields
--     of the controller's registers, of its rings, of a stream and of the PCI configuration.
--     `Rings` are the rings of commands and of responses, a call of which looks at the registers once.
--     `Decode`, `Indexes`, `FormatLaws`, `RingLaws` and `Registers.Laws` prove their theorems.
--   Game: `Defs` is the state, with the sum of the clock's fields that machine/src/cmos.rs gives;
--     `Collisions` are the tests for collisions, and `Loop` the handlers that `main_loop` hooks, of
--     blasterball/src/lib.rs; `Layout` is its first state. `Direction`, `Ball`, `Invariant`, `Blocks`,
--     `Keys`, `Grid` and `Paddle` prove their theorems.
--   Tests, in each part: the theorems at concrete values, and tests of the source.
--
-- Conventions: `none` of a result that is an `Option` at the outside is a panic, or an access outside
-- a block. An overflow is a panic, as in the profile `dev` in which cargo builds by default. An
-- address is the number that it wraps. The memory of the allocator maps an address to the node that
-- is read there; what a write does to the nodes that it overlaps in part is a parameter, of which
-- nothing is assumed, so that the theorems ask for blocks with room for a node. The containers keep their block as its cells, and the pointers into it as offsets. Where the
-- event hooker uses queues and vectors, its model uses the lists that they represent. A handler is
-- the calls of the hooker that it makes. Threads interleave access by access, as under sequential
-- consistency, and a `compare_exchange_weak` may fail at any time. What an initializer of `Once` returns
-- and what a codec responds are inputs; a panic of an initializer aborts, as in the targets in which
-- the machine is built, and an initializer does not call its own `Once`. Whether the heap has room for
-- a block of the game, and whether a bitmap can be read, are inputs. A register is the number that it holds; a setter takes the
-- old number and returns the new one. The game's handlers return what they drew and played as a list.
-- The screen is the one of 640 by 480 pixels, and the sizes of the bitmaps are part of the state.
--
-- Fuel: the loops over nodes need one round for each free region and one or two more; the theorems
-- take that as a hypothesis. `sinf32` and `cosf32` call themselves once at most, so that two rounds
-- are enough for each tick of the game; a response holds four entries of a connection list at most,
-- and its iterator gets five rounds. The loop over missed events needs one round for each and one
-- more where no handler sends an event, and has no bound where handlers send events for ever.
--
-- Not modelled: the start of the sound device, `CORB::init` and `Commander`, which wait for it, the
-- wave files and the search for paths to a speaker; the drawing of the game; the descriptor tables,
-- ACPI, the reads of the clock, ports, boxes and vtables, the macro of lazy_static, and the assembly.
-- They are input and output, or parts that nothing modelled here rests on.
pub mod Base
pub mod Keyboard
pub mod Game
pub mod Machine
pub mod Memory
pub mod Collections
pub mod EventHook
pub mod Num
pub mod Physics
pub mod Sound
pub mod Sync
