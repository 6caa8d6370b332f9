-- ===== src/Lib.antt =====
-- c3qo: a single-threaded engine in C++ that runs blocks. A block is an object with virtual
-- methods; the one manager of a program owns the blocks, their timers and the descriptors that are
-- polled, and calls the blocks back. Blocks send messages to the block they are bound to. Of the
-- blocks of the repository one counts messages (hello), one joins the flow to a ZeroMQ socket
-- (hook_zmq), and one runs the configuration commands it receives (trans_pb). A command line client
-- (ncli) sends one such command through a proxy and waits for the answer.
--
-- How the code is modelled. A method is a function from a state of the world to a result: a value
-- and the next state, or a fault, which is what C++ leaves undefined (a freed or null pointer, a
-- wrong cast, a field never written, an invalid iterator), an exit, or the model's own bound. The
-- world is the manager, a heap of blocks by address, and a state of the system; the clock and
-- ZeroMQ are functions on that last state, and parameters throughout, as are `command__unpack`,
-- `command__pack`, `getopt`, `wordexp` and `atoi`. Virtual methods are a table of functions by
-- address, so that most statements hold for any blocks.
--
-- The files:
--   Base            numbers, C integers, lists, keys
--   UnorderedMap    std::unordered_map, as an association list whose order is never relied on
--   Buffer          utils/buffer: `push_back`, `clear`
--   Command         block/trans_pb/src/conf.proto, and the topics of a command and of a reply
--   World           engine/include/engine/block.hpp, manager.hpp: the records, the monad, the heap,
--                   the system calls, and the rules for what a method leaves true
--   Timer           engine/src/manager_tm.cpp: `timer_add` (`expiry_date` and `schedule` are its two
--                   halves), `timer_del`, `timer_check_exp` with its loop `check_loop`, `timer_clear`
--   Poll            engine/src/manager_fd.cpp: `fd_find`, `fd_add` (`register` is what it does to the
--                   vectors), `fd_remove` (`unregister`), `fd_poll` with its loop `poll_loop`
--   Blocks          engine/src/manager_bk.cpp and manager.cpp: the operations of the same names, and
--                   `start_`, `stop_` as `manager_start`, `manager_stop`; Blocks/Status and
--                   Blocks/Automaton see them as an automaton on a block's status, Blocks/Adding and
--                   Blocks/Binding are about `block_add` and `block_bind`, Blocks/Clear and Stuck about
--                   the loop of `block_clear`, and Blocks/Typed about the classes of the types
--   Flow            engine/src/block.cpp: `process_ctrl_`, `process_data_`; Flow/Route is the relation
--                   that the latter refines, Flow/Dangling the sink that is removed
--   Invariant       the invariant of the world, and what it asks of virtual methods
--   Classes, Hello, HookZmq, TransPb
--                   block/hello, block/hook_zmq, block/trans_pb: the fields and the methods;
--                   HookZmq/Framing is about the parts of a message on the wire, HookZmq/Starting
--                   and Stopping about `start_` and `stop_` (Opening has the calls of a start as
--                   relations), HookZmq/Passing about `data_` and `on_fd_`, TransPb/Topic about the
--                   topic of a command, TransPb/Series and Outcomes about a series of
--                   commands against the table of TransPb/Table, with what it asks of the methods
--                   in TransPb/Session, and TransPb/Commands about the commands for hooks and the
--                   removal of the block itself
--   Ncli            app/src/ncli.cpp: the methods of the client's block, with its command line in
--                   Ncli/Options (`options_parse`, the `parse_` functions; a `switch` is a `take_`
--                   function). Ncli/Scan has the calls of getopt as a relation, Ncli/Fields and Parse
--                   are about the command that is read, Exchange about sending it to a block
--                   trans_pb, Receive and Answer about the reply
--   Dispatch        which virtual method runs for which class, and the factories; Dispatch/Serving
--                   and Carrying fill the interfaces of TransPb/Session, the second for all the
--                   types that the program registers, on which Dispatch/Returning has what
--                   `start_` and `stop_` do
--   Program         app/src/c3qo.cpp: `main` (`run`; its part from the factories on is `main` here, and
--                   the destruction of its locals `manager_destructor`, the factories having trivial
--                   destructors) and `manager::~manager`; Program/Identity
--                   is about the options, Starting about the blocks that `main` sets up, Delivery and
--                   Server about a message that arrives, Ending about the main loop, Whole about a run
--                   from its options to its exit status, and Leaving about the destructors
--   Program/Client  app/src/ncli.cpp: `main`; Program/Client/Waiting and Answered are about the loop
--                   that waits
--   Proxy           app/src/proxy.cpp: `main`
-- Examples stand in the modules called Tests, BlockTests, ClientTests, CommandTests and ServerTests;
-- Ncli/Samples has the data of those of the client.
--
-- Bounds. A loop that C++ leaves unbounded takes a number of rounds and faults with `out_of_fuel`
-- after them: `check_loop` (one more than the expired timers is enough), `process_data` (one more
-- than the blocks of the route), `recv` (the parts of a message), `block_clear`
-- (one more than the blocks), `main_loop`, `option_loop` and `identity_loop` (one more than the
-- options), `wait_loop` (one more than the rounds up to the date of the timer). A table
-- of depth n allows n nested calls between methods. Integers are unbounded; `expiry_date-IsLong`
-- says when the dates fit, a counter of `hello` faults at INT_MAX, those of `hook_zmq` wrap at 2^64.
-- An index of a vector is taken to fit an int.
--
-- Not modelled: the logger and what is only logged (`ASSERT` is an exit), the installation of signal
-- handlers (a signal is a test of the system's state), memory that is never freed and allocation
-- that fails, and the destruction of the locals when the `main` of the client or of the proxy returns.
pub mod Base
pub mod UnorderedMap
pub mod Buffer
pub mod Command
pub mod World
pub mod Timer
pub mod Poll
pub mod Blocks
pub mod Flow
pub mod Invariant
pub mod Classes
pub mod Hello
pub mod HookZmq
pub mod TransPb
pub mod Ncli
pub mod Dispatch
pub mod Program
pub mod Proxy
