-- ===== src/Classes.antt =====
-- The fields that the blocks of the repository add to `struct block`: block/hello, block/hook_zmq,
-- block/trans_pb and app/src/ncli.hpp. `plain` is `struct block` itself.
use c3qo.Base.{◌≡◌, ap, ◌∙◌, ℕ, List, Bool, Option, none, some, String, ℤ, Ptr}
use c3qo.Command.{Command}
use c3qo.World.Keeps.{bind-ok, deref-live}
use c3qo.World.{
  Block, World, M, FileDesc, bad_cast, uninitialised, deref, modify_block, pure, fail, ◌>>=◌,
}

-- `struct hello`; `count_` is an `int`.
pub record Hello : Type 0 where
  pub name : String
  pub count : ℕ

-- `struct hook_zmq`. The constructor does not set `zmq_ctx_` and `zmq_sock_`: `none` is a value that
-- was never written. `zmq_socket` is `zmq_sock_.socket`, which `start_` writes first, and `zmq_sock`
-- has the other fields of `zmq_sock_`.
pub record HookZmq : Type 0 where
  pub zmq_ctx : Option Ptr
  pub zmq_socket : Option Ptr
  pub zmq_sock : Option FileDesc
  pub client : Bool
  pub socket_type : ℤ
  pub name : String
  pub addr : String
  pub rx_pkt : ℕ
  pub tx_pkt : ℕ

-- A `char *`: `none` is `nullptr`.
abbrev pub CharPtr : Type 0
CharPtr = Option String

-- `struct ncli`. The constructor does not set `wordexp_`, `cmd_` and the two flags at the end:
-- `none` is a value that was never written. The message that `cmd_` points to is part of `cmd`.
-- `zmq_ctx_` and `zmq_sock_`, which nothing uses, are left out.
pub record Ncli : Type 0 where
  pub ncli_peer : CharPtr
  pub ncli_cmd_type : CharPtr
  pub ncli_cmd_args : CharPtr
  pub ncli_cmd_ret : CharPtr
  pub words : Option (List String)
  pub cmd : Option (Command CharPtr)
  pub add_id : ℤ
  pub add_type : CharPtr
  pub start_id : ℤ
  pub stop_id : ℤ
  pub del_id : ℤ
  pub bind_id : ℤ
  pub bind_port : ℤ
  pub bind_dest : ℤ
  pub hook_zmq_id : ℤ
  pub hook_zmq_client : Bool
  pub hook_zmq_type : ℤ
  pub hook_zmq_name : CharPtr
  pub hook_zmq_addr : CharPtr
  pub received_answer : Option Bool
  pub timeout_expired : Option Bool

pub data Class : Type 0 where
  plain : Class
  hello : Hello → Class
  hook_zmq : HookZmq → Class
  trans_pb : Class
  ncli : Ncli → Class

module _ {E : Type 0} where
  -- The fields of a value that must have been written.
  abbrev pub written : {A : Type 0} → Option A → M Class E A
  written none = fail uninitialised
  written (some a) = pure a

  abbrev pub as_hello : Class → M Class E Hello
  as_hello (hello h) = pure h
  as_hello _ = fail bad_cast

  -- `static_cast<struct hook_zmq *>(bk)`: the cast itself tests nothing, and the use of a block of
  -- another class is undefined.
  abbrev pub as_hook_zmq : Class → M Class E HookZmq
  as_hook_zmq (hook_zmq h) = pure h
  as_hook_zmq _ = fail bad_cast

  abbrev pub as_ncli : Class → M Class E Ncli
  as_ncli (ncli c) = pure c
  as_ncli _ = fail bad_cast

  unfoldable pub hello_at : ℕ → M Class E Hello
  hello_at p = do b ← deref p; as_hello b.self

  unfoldable pub hook_at : ℕ → M Class E HookZmq
  hook_at p = do b ← deref p; as_hook_zmq b.self

  unfoldable pub ncli_at : ℕ → M Class E Ncli
  ncli_at p = do b ← deref p; as_ncli b.self

  pub hook_at-live :
      (p : ℕ) (b : Block Class) (w : World Class E) (c : Class)
      → w.heap p ≡ some b
      → b.self ≡ c
      → hook_at p w ≡ as_hook_zmq c w
  unfolding hook_at
  hook_at-live p b w c live is =
      bind-ok (deref p) _ w b w (deref-live p w b live) ∙ ap (λ k. as_hook_zmq k w) is

  abbrev pub set_self : ℕ → Class → M Class E (Unit {0})
  set_self p s = modify_block p (λ b. record b { self = s })

  -- a write to the fields of the client at `p`
  unfoldable pub edit_ncli : ℕ → (Ncli → Ncli) → M Class E (Unit {0})
  edit_ncli p f = do c ← ncli_at p; set_self p (ncli (f c))
