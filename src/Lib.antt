-- ===== src/Lib.antt =====
-- The core of easymesh, a C implementation of an IEEE 1905 mesh agent with its message bus: the data
-- structures and codecs that its processes are built from.
--
-- Parts and files:
-- * Timer.Minheap is timer/minheap.c: an array of pointers to timer entries in heap order, each
--   entry with the index of its slot. min_heap_push, min_heap_pop and the rest have their C names.
--   Timer.MhTimer is timer/mh-timer.c: add_timer, reset_timer, find_nearest_expire_timer and
--   expire_timer, which the event loop calls between its waits. What a callback does beside the
--   timers is the rest of a process, a type of which nothing is known.
-- * KamiList is util/list.c: the intrusive list that the bus keeps its clients, groups and members
--   in. The prefix KamiList of a function is dropped and the rest is in lower case, so
--   KamiListAddTail is add_tail. KamiList.Shape says what it is for a header and its nodes to form a
--   list; KamiList.Add, AddAfter, Remove, Ends and Read are about additions, removals, the ends and reads.
-- * Tlv is agent/tlv_parser.c: trees of type-length-value items, Tlv.Print its printer and Tlv.Parse
--   its parser. The prefix Kami_Tlv_ is dropped. The messages of the bus and of the agent are built
--   on it.
-- * Mbus is mbus: user_manager.c and group_manager.c are its UserManager and GroupManager, and the
--   handlers of mbusd.c are Daemon, which parse a message with Tlv.Parse, change the tables and
--   log each call of io_write in `outbox`. A handler drops the leading underscore of its C name.
--   Mbus.BusMsg is the client, bus_msg.c: it composes messages with Tlv.Print, logs its calls of
--   io_write in order, and takes apart what arrives.
-- * Reactor is reactor/eloop_event.c: the table of connections with what epoll watches
--   (Reactor.Interest), the write queue of io_write, io_enqueue and handle_write (Reactor.Write),
--   handle_read with the framing of __read_cb (Reactor.Read), and the turns of eloop_run
--   (Reactor.Turn). What the kernel answers is an argument of each call. The packers of Mbus are
--   what it calls back.
-- * CfgMgr is cfg_mgr/cfg_mgr.c: the states of the two radios, the messages and the timer that move
--   them (CfgMgr.Handle, CfgMgr.Fsm) and the fragments of a WSC message (CfgMgr.Reassembly). It
--   parses with Tlv.Parse and logs the messages it sends and its calls of reset_timer.
-- * Agent is agent/core.c and the bus handlers of agent/main.c: the interfaces with their neighbours,
--   the search for the controller (Agent.Controller), and what the agent answers to CfgMgr
--   (Agent.Info). Agent.Cmdu is agent/cmdu.c: what the agent makes of a message of the network,
--   which it reads from a buffer that was cleared first. The lists of Agent are values, in the
--   order of the links.
-- * Prelude holds what all share: Boolean tests, lists over native numbers, `int` values, and Run,
--   the outcome of a stateful C function: it returns with a new store, faults, or is out of fuel.
--
-- A pointer is a number with 0 for NULL. A store says which addresses are allocated; an access to
-- another address, one outside an array and one outside a message are faults, so a theorem that a
-- function returns says that it makes none. Unsigned arithmetic wraps where the C code's does.
-- The answers of malloc and realloc and the readings of the clock are arguments. The iterators of
-- KamiListGetIter have one answer, `iterates`, for a whole operation of Mbus, Reactor or Agent: as
-- no caller tests for NULL, the operation faults whichever of its iterators cannot be had. The
-- small buffers from which CfgMgr and Agent compose a message are taken as given. The size of a
-- list is an int, and one past its largest value is a fault. Mutexes are left out: an operation of
-- the heap runs with its lock held.
--
-- Loops over lists and messages have fuel: one more than the number of nodes for an iterator, one
-- more than the number of bytes for the parser, one more than the number of timers for
-- expire_timer, one more than the number of packets in the buffer for __read_cb, and one more than
-- the number of items of the message for the loop over its WSC elements, whose fuel is an argument.
-- Each turn takes one node, item, timer or packet, or at least two bytes.
--
-- Not modelled: threads, processes and raw sockets (main, agent/ieee1905_network.c, threadpool),
-- the set-up of sockets and of the loop (eloop_create, eloop_destroy, eloop_tcp_*), cryptography
-- (agent/wsc.c), the discovery timer of agent/core.c, and the bytes of the messages that the
-- configuration manager sends. Freeing of whole structures (min_heap_destroy, Kami_Tlv_Delete)
-- changes nothing that the theorems speak of.
pub mod Prelude
pub mod Agent
pub mod CfgMgr
pub mod KamiList
pub mod Mbus
pub mod Reactor
pub mod Timer
pub mod Tlv
