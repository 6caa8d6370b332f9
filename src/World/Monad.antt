-- ===== src/World/Monad.antt =====
-- The records of the engine, and methods as functions on them that may fault.
use c3qo.Base.{ℕ, Bool, Option, List, String, ℤ, Ptr}
use c3qo.Buffer.{Buffer}

-- `struct timespec`, of the C library.
pub record Timespec : Type 0 where
  pub tv_sec : ℤ
  pub tv_nsec : ℤ

pub record Timer : Type 0 where
  pub bk : Ptr
  pub time : Timespec
  pub arg : Ptr
  pub tid : ℤ

pub record FileDesc : Type 0 where
  pub bk : Ptr
  pub fd : ℤ
  pub socket : Ptr
  pub read : Bool
  pub write : Bool

-- A mask of `ZMQ_POLLIN` and `ZMQ_POLLOUT`; what else ZeroMQ may set is never tested.
pub record Events : Type 0 where
  pub pollin : Bool
  pub pollout : Bool

-- `zmq_pollitem_t`, of ZeroMQ, without `revents`: `zmq_poll` hands those back.
pub record PollItem : Type 0 where
  pub socket : Ptr
  pub fd : ℤ
  pub events : Events

pub record Block (S : Type 0) : Type 0 where
  pub id : ℤ
  pub type_name : String
  pub is_started : Bool
  pub sink : Ptr
  pub self : S

-- `epoch` counts the changes of the two vectors' lengths: each of them makes invalid the end that a
-- loop over the vectors took before it.
pub record Manager : Type 0 where
  pub is_term : Bool
  pub bk_factory : List (String × ℕ)
  pub bk_map : List (ℤ × ℕ)
  pub tm_list : List Timer
  pub callback : List FileDesc
  pub fd : List PollItem
  pub epoch : ℕ

pub record World (S E : Type 0) : Type 0 where
  pub mgr : Manager
  pub heap : ℕ → Option (Block S)
  pub heap_next : ℕ
  pub env : E

-- What C++ leaves undefined, `exit`, and the model's own bound on calls.
pub data Fault : Type 0 where
  dangling null_pointer uninitialised bad_cast bad_iterator out_of_range overflow : Fault
  exited out_of_fuel : Fault

pub data Result (A : Type 0) : Type 0 where
  ok : A → Result A
  fault : Fault → Result A

abbrev pub M : Type 0 → Type 0 → Type 0 → Type 0
M S E A = World S E → Result (A × World S E)

abbrev pub pure : {S E A : Type 0} → A → M S E A
pure a w = ok (a, w)

infixl 5 ◌>>=◌ ◌>>◌
abbrev pub ◌>>=◌ : {S E A B : Type 0} → M S E A → (A → M S E B) → M S E B
◌>>=◌ m f w = elim (m w) [ ok (a, w') ↦ f a w' | fault e ↦ fault e ]

abbrev pub ◌>>◌ : {S E B : Type 0} → M S E (Unit {0}) → M S E B → M S E B
m >> k = m >>= λ _. k

-- A message that a `void *` points to, or `nullptr`. No block changes the message it is handed.
abbrev pub Message : Type 0
Message = Option Buffer

-- The virtual methods of `struct block`, by the address of the object, and those of
-- `struct block_factory`, by the address of the factory.
pub record Vtable (S E : Type 0) : Type 0 where
  pub constructor : ℕ → M S E Ptr
  pub destructor : ℕ → ℕ → M S E (Unit {0})
  pub bind : ℕ → ℤ → ℕ → M S E (Unit {0})
  pub start : ℕ → M S E (Unit {0})
  pub stop : ℕ → M S E (Unit {0})
  pub on_timer : ℕ → Timer → M S E (Unit {0})
  pub on_fd : ℕ → FileDesc → M S E (Unit {0})
  pub on_data : ℕ → Message → M S E Bool
  pub on_ctrl : ℕ → Message → M S E (Unit {0})
