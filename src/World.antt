-- ===== src/World.antt =====
-- The data of engine/include/engine/block.hpp and engine/include/engine/manager.hpp, and the
-- monad in which methods run.
--
-- There is one manager, and a heap of blocks: a block is named by its address, and `nullptr` is
-- `none`. `S` is what a derived class adds to `struct block` (a sum over the classes), and `E` the
-- state of the operating system and of ZeroMQ. `mgr_` is left out, since all blocks share the one
-- manager. A `void *` that is only carried along is an address.
mod Monad
mod Heap
mod System
pub mod Keeps
pub mod Idle
pub use Monad.*
unfoldable pub use Heap.*
pub use System.*
