-- ===== src/Command.antt =====
-- block/trans_pb/src/conf.proto: the commands that a client sends to a block trans_pb, and how both
-- ends compare the topic of a message.
use c3qo.Base.{
  ℕ, zero, suc, Bool, true, false, Option, none, some, List, [], ◌∷◌, ◌++◌, ℤ, codes, ◌==◌,
  if◌then◌else◌,
}

-- `Command`, with the message of each alternative as the constructor's fields. Strings are of type
-- `T`: a text where the message was received, a pointer that may be null where it is being filled.
pub data Command (T : Type 0) : Type 0 where
  add : ℤ → T → Command T
  start : ℤ → Command T
  stop : ℤ → Command T
  del : ℤ → Command T
  bind : ℤ → ℤ → ℤ → Command T
  hook_zmq : ℤ → Bool → ℤ → T → T → Command T
  term : Bool → Command T
  not_set : Command T

-- `memcmp(a, b, n) == 0`, where a difference is found before either array ends; to compare past
-- the end of an array is undefined.
unfoldable pub memcmp_eq : ℕ → List ℕ → List ℕ → Option Bool
memcmp_eq zero a b = some true
memcmp_eq (suc n) [] b = none
memcmp_eq (suc n) (x ∷ a) [] = none
memcmp_eq (suc n) (x ∷ a) (y ∷ b) =
    let rest = memcmp_eq n a b in if x == y then rest else some false

-- The arrays of the literals, with their null byte.
abbrev pub topic_command : List ℕ
topic_command = codes "PROTO.CMD" ++ 0 ∷ []

abbrev pub topic_reply : List ℕ
topic_reply = codes "PROTO.CMD.REP" ++ 0 ∷ []
