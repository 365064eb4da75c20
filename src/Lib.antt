-- ===== src/Lib.antt =====
-- A model of libcsp_rust, the Rust bindings of the Cubesat Space Protocol library libcsp, and the
-- proofs about it.
--
-- libcsp calls an operating system layer, which a Rust type provides through `trait CspArch` and
-- the macro `export_arch!` (src/arch.rs). Two backends are in the repository: the hosted one of the
-- tests (src/arch/test_arch.rs) and the bare-metal one (embassy-example/src); an example has one of
-- stubs. Above libcsp stand the safe wrappers: packets, connections, sockets, the dispatcher and the
-- sniffer. libcsp itself is a submodule; what its calls return is a parameter or an input of the
-- model.
--
--   * Base: tests, lists, byte regions, integers and bit operations that the parts share.
--   * Fifo: the bounded FIFO that the queue methods of `CspArch` promise, the record QueueMethods,
--     by which the C entry points see a backend, and QueueArch, which adds its laws.
--     Embassy/RingQueue (the circular buffer of embassy-example/src/queue.rs) and TestArch/Queue
--     (the queue of src/arch/test_arch.rs) fill it. Embassy/RingQueue/Abstract has the circular
--     buffer as a quotient that forgets its representation.
--   * Arch/Queues: the C queue functions of `export_arch!` over any QueueMethods. Arch/CString: the
--     C string functions, the trait's `strncpy` to `strtok_r` and the macro's `strncmp`. Memory is
--     a list of bytes and a pointer an offset; an access outside the list gives `none`.
--   * Arch/Semaphores: the C semaphore and mutex functions over the methods of any backend, and the
--     record SemaphoreArch, which adds the law of a binary semaphore and which Embassy/Semaphore
--     and TestArch/Semaphore (the variant for macOS) fill. TestArch/PosixSemaphore is the variant
--     over libc's `sem_t`, with libc as a parameter. Arch/Rand: `rand` and `rand_r`.
--     TestArch/Clock: the times of the hosted backend.
--   * Arch/Handles: creating and removing semaphores and mutexes over the memory that a backend
--     takes them from, a state with faults. TestArch/Handles and Embassy/Handles are the two
--     backends. TestArch/Mutex: locking over pthread.
--   * CustomArch: the backend of stubs in examples/custom_arch_external.
--   * Arch/Hooks: the defaults of `trait CspArch` and the entry points for time, sleep, hooks and
--     interrupts.
--   * Embassy/Heap: `malloc` and `free` with their size header and the queue methods that take
--     handles (embassy-example/src/lib.rs), over a heap that is a parameter. Embassy/Queues puts
--     the circular buffer, the heap and the C entry points together. Embassy/Mutex: the mutexes,
--     which all are the interrupts of the core. Embassy/Clock: the time.
--   * Error, Port: `CspError` and `Port` with their conversions (src/error.rs, src/lib.rs).
--   * Can/Cfp: the identifier fields of the module `cfp` (src/can.rs).
--   * Packet: the accessors of src/packet.rs. The buffer size is fixed at build time, a parameter
--     here. Packet/Ownership has the buffers of the pool and the calls that take, give or free one,
--     in every file that has such a call.
--   * Node: the configuration, `CspConfig::init` with what it does to libcsp, and the requests of
--     `CspNode` (src/init.rs); Node/Options the RDP options, Node/Calls what is only passed on.
--     Route: the routing table wrappers (src/route.rs). Iflist: those of the interface list
--     (src/iflist.rs). Interface, Can/Interface: an interface, its registration and the callback
--     that sends (src/interface.rs, src/can.rs). Ffi: the guard of the callbacks (src/ffi_util.rs).
--     CText: texts with a NUL at their end.
--   * Build: the build script (build.rs) as functions of the environment: Config has
--     csp/autoconfig.h and the exported sizes, Compile the macros, flags and sources, Bindings what
--     bindgen is given, and Steps what `main` does in its order and how it ends; whether an action
--     of it succeeds is a parameter, and that paths are UTF-8 is taken for granted.
--     Steps/Failures has the script cut short by an action that fails. Debug: the counters of
--     src/debug.rs.
--   * Arch/Threads and TestArch/Threads: the creation of threads, as the events that may come in
--     any order.
--   * Connection: Transaction maps what libcsp returns from a transaction or a ping; Exchange has
--     the reply buffer of a transaction, over the exchange of libcsp; Metadata what a connection
--     tells; Lifetime has the connections that `connect` and `accept` give and `drop` closes; Sfp
--     has the two callbacks and the four methods of an SFP transfer (src/connection.rs). The C side
--     of a transfer is the list of calls that it makes, and the requests tile the data where a
--     theorem needs it.
--   * Promisc: `Sniffer::open` and `drop` (src/promisc.rs) as atomic steps of any number of
--     threads.
--   * Socket, Service: making, binding and closing a socket (src/socket.rs) and the dispatcher
--     (src/service.rs). Service/Custody puts `run` together with the buffers of Packet/Ownership
--     and the connections of Connection/Lifetime; Examples/ServerDispatcher is the server of
--     examples/server_dispatcher.rs.
--   * Cmp: the requests `peek`, `poke` and `ident` (src/service.rs) over the exchange with libcsp.
--   * Stress: the generator, the payload, the sending loop and the receiving loops of the stress
--     test (embassy-example/src/lib.rs, examples/stress, examples/stress_tx.rs,
--     examples/stress_rx.rs).
--   * Firmware: the stress test as firmware (embassy-example/src/bin): Can has its toy interface
--     over the CAN library bxcan, a parameter; Transmit and Receive have the two programs, and Blob
--     is a blob's whole way from the sender through an SFP transfer.
--   * Tests: the theorems at concrete inputs, and in Unit the unit tests of error codes, ports and
--     packets on the model.
--
-- A machine word keeps its wrap-around written out; `usize` has 32 bits on the bare-metal target
-- and is a bound otherwise. Loops without a bound in the source run on fuel, and their theorems say
-- how much is enough: one round more than the queue has items, or than the string has characters.
-- Waits of the hosted backend run on the rounds that the condition variable gives, the spinning
-- wait of the bare-metal one on the readings of its clock.
--
-- Not modelled: what libcsp itself does; comments in the files that the build script generates and
-- the fixed options of bindgen; `panic` of `CspArch`, which never returns; printing; the set-up of
-- the node and of the board in the stress programs; and the other tests, the sniffer and the other
-- examples, programs that use the library.
pub mod Base
pub mod Fifo
pub mod Embassy
pub mod CustomArch
pub mod Arch
pub mod TestArch
pub mod Error
pub mod Ffi
pub mod Firmware
pub mod Iflist
pub mod Interface
pub mod Port
pub mod Can
pub mod Stress
pub mod Packet
pub mod Connection
pub mod Promisc
pub mod Socket
pub mod Cmp
pub mod Service
pub mod CText
pub mod Node
pub mod Route
pub mod Build
pub mod Debug
pub mod Examples
pub mod Tests
