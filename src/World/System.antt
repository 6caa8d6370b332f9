-- ===== src/World/System.antt =====
-- What the source calls and does not implement: the clock of the C library, and ZeroMQ. Each
-- function is given by what it returns and by the new state of the system.
use c3qo.Base.{ℕ, Bool, List, String, ℤ, Ptr}
use c3qo.World.Monad.{Timespec, Events, PollItem, M, ok}

-- What `zmq_msg_recv` leaves in the message, with its return value.
pub record Received : Type 0 where
  pub ret : ℤ
  pub bytes : List ℕ
  pub more : Bool

pub record Sys (E : Type 0) : Type 0 where
  pub zmq_pair : ℤ
  pub zmq_dealer : ℤ
  pub zmq_router : ℤ
  pub clock_gettime : E → Timespec × E
  -- the return code, and `revents` of each item
  pub zmq_poll : List PollItem → ℕ → E → (ℤ × List Events) × E
  pub zmq_ctx_new : E → Ptr × E
  pub zmq_socket : Ptr → ℤ → E → Ptr × E
  -- the option is always `ZMQ_IDENTITY`
  pub zmq_set_identity : Ptr → String → E → ℤ × E
  pub zmq_connect : Ptr → String → E → ℤ × E
  pub zmq_bind : Ptr → String → E → ℤ × E
  pub zmq_close : Ptr → E → E
  pub zmq_ctx_term : Ptr → E → E
  -- with no capture socket; it returns once it has stopped
  pub zmq_proxy : Ptr → Ptr → E → ℤ × E
  -- both with `ZMQ_DONTWAIT`; the flag is `ZMQ_SNDMORE`
  pub zmq_msg_recv : Ptr → E → Received × E
  pub zmq_msg_send : Ptr → List ℕ → Bool → E → ℤ × E

module _ {S E : Type 0} where
  -- a call that changes the state of the system only
  abbrev pub call : {A : Type 0} → (E → A × E) → M S E A
  call f w = let (a, e) = f w.env in ok (a, record w { env = e })
