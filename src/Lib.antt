-- ===== src/Lib.antt =====
-- XDP2 is a library for parsing packets with a graph of protocol nodes. This development models
-- its parser engine, src/lib/xdp2/parser.c, with the types of src/include/xdp2, its dynamic tables,
-- its object allocator, its fifos, its timers and its checksum.
--
-- Parts, and the files that model them:
-- - Base: names of the libraries, tests on numbers, lists over the native numbers, removal from the
--   lists of sys/queue.h, `int`s, and
--   `size_t` with its wrap-around.
-- - Parser.Codes, Parser.Types: return codes and structs of parser_types.h, tlvs.h, flag_fields.h,
--   arrays.h. A packet is its bytes; a pointer into it is an offset. The callbacks of nodes and
--   protocols are fields that hold functions, as in the C structs. Callbacks may write the counters,
--   the keys and the metadata, not the variables of the engine.
-- - Parser.Run, Parser.Ctl: what a call of the engine comes to (a code with a state, a fault, or no
--   end within the fuel), and how a part of the main loop ends (it falls through, goes to the label
--   `out`, returns, or faults).
-- - Parser.Lookup: the four table lookups.
-- - Parser.Tlvs: xdp2_parse_one_tlv and xdp2_parse_tlvs, which call one another for nested lists.
--   Parser.Tlvs.Scan has the walk over the bytes apart from the callbacks, Window where it goes,
--   Overlay the rounds of one TLV, Total and Vars the whole function.
-- - Parser.FlagFields: flag_fields.h and xdp2_parse_flag_fields; Layout has where fields lie.
-- - Parser.Array: xdp2_parse_array; Stride has which elements are visited.
-- - Parser.Next, Parser.Loop: __xdp2_parse, with __xdp2_parse_run_exit_node of parser.h. It calls
--   the three above for what a node holds. Window, Total, Faults, Exit and Fuel have its theorems.
-- - Parser.Fast: __xdp2_parse_fast, which is the main loop without exit nodes, post handlers, keys
--   and a limit on nodes, and xdp2_parse_validate_fast, the search through the graph that says where
--   it may be used. Valid and Depth are about the search, Agree sets the fast path next to the main
--   loop, and Total is about the whole function.
-- - Parser.Tests: a parser of two headers with a packet, tests, and the theorems at such inputs.
-- - Dtable: src/lib/xdp2/dtable.c, what the three kinds of table share: the lists of entries, their
--   identifiers, and adding, deleting and changing one. Dtable.Plain, Dtable.Tern and Dtable.Lpm are
--   the kinds, Keys the comparisons of switch.h, Tables the lists of tables. Order, Find and Best are
--   about searching a list in order, for whatever order; Dictionary, Updates, Changes and Steps about
--   a table as a map, Ordered about its order alone; Idents has the identifiers as a map, and what
--   becomes of the ones that are given (Given), chosen (Chosen) or negative (Negative), and Unsigned
--   how they are compared. `siphash` and what `malloc` gives are
--   arguments; the objects are a heap from addresses, so that the two lists share them. The parser has
--   its own tables and does not use these.
-- - ObjAllocator: src/include/xdp2/obj_allocator.h and src/lib/xdp2/obj_allocator.c, with the address
--   translation of addr_xlat.h. The memory is a function from addresses to bytes, so that the links of
--   the free list lie in the objects as in C. Bytes has the pointers in it, Index has the objects and their indices, FreeList which
--   objects are free, Setup the list at the start, Checks the operations with their assertions,
--   Debug the checks of a debug build. The parser does not use it.
-- - Fifo: src/include/xdp2/fifo.h. A fifo is a ring of words; what is done under one lock is one step, so
--   that the steps of threads come in any order. Sections has what enqueueing and dequeueing do under the
--   lock of the fifo, Groups the tasks that they leave and that make a fifo ready or not in its poll
--   groups, Setup what sets fifos and groups up and binds them, Threads the threads with their steps,
--   Polls the polling of a group. Ring, Queue, Enqueue and Dequeue set the ring next to a queue, Carries,
--   Counted and Logs follow the messages through all orders of steps; Awake, Performed, Entered,
--   Continued, Started and Wakeups are about readers that are told of messages, Writers about one that is
--   not told of space, and Others and Begin about threads and fifos that the tests use. The parser does not use it.
-- - Timers: src/include/xdp2/timer.h and src/lib/xdp2/timer.c, adding, changing and removing timers. A
--   timer is an address, the clock is an argument, and the times that the pop timer is set to are a
--   log. Wheels has the invariant of slots, timers and bitmap, Updates the operations, Late
--   adding after a late run of the wheel.
-- - Checksum: src/include/xdp2/checksum.h, on a little-endian machine; Sum says what it computes.
--
-- Fuel: the main loop has `max_nodes + 1` rounds, which the count of nodes makes enough on any
-- graph. The loops over TLVs and over the overlays of a TLV have `n` rounds each, and TLV lists nest
-- to `depth`; more rounds than bytes and than overlays in a row, and more depth than the levels of
-- the graph, are enough on a graph that does not run in circles. The fast path has no limit on
-- nodes: its rounds are fuel, and more rounds than bytes are enough where headers move on. The search
-- of its validation nests to 65, one more than the array of visited nodes has slots. The other loops
-- are structural. A wait for a condition variable is a state of the thread, and a wake-up a step, which
-- may be spurious.
--
-- Not modelled: the debug output and the printing of tables, the failure of `calloc` in the validation, the other parts of the
-- library (running the timer wheel, static tables, packet vectors), the protocol definitions, which the model takes as
-- functions, and the compiler.
pub mod Base
pub mod Checksum
pub mod Dtable
pub mod Fifo
pub mod ObjAllocator
pub mod Parser
pub mod Timers
