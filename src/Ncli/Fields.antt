-- ===== src/Ncli/Fields.antt =====
-- app/src/ncli.cpp: the command that the options of a `parse_` function come to, field by field.
use c3qo.Base.{
  ℕ, ◌≡◌, sym, ap, Bool, true, none, some, List, [], ◌∷◌, String, ℤ, if◌then◌else◌, arith,
}
use c3qo.Classes.{CharPtr, Ncli}
use c3qo.Ncli.Options.{
  set, is_option, take_add, take_start, take_stop, take_del, take_bind, take_hook_zmq,
}
use c3qo.Ncli.Scan.{Opt, take_all}

-- The last value that is given to a letter, as a number or as a text, and whether it is given.
unfoldable pub last_number : (String → ℤ) → ℕ → List Opt → ℤ → ℤ
last_number atoi letter [] n = n
last_number atoi letter ((opt, none) ∷ l) n = last_number atoi letter l n
last_number atoi letter ((opt, some s) ∷ l) n =
    last_number atoi letter l (if is_option letter opt then atoi s else n)

unfoldable pub last_text : ℕ → List Opt → CharPtr → CharPtr
last_text letter [] s = s
last_text letter ((opt, arg) ∷ l) s = last_text letter l (if is_option letter opt then arg else s)

unfoldable pub given : ℕ → List Opt → Bool → Bool
given letter [] b = b
given letter ((opt, arg) ∷ l) b = given letter l (if is_option letter opt then true else b)

set-injective : {c d : Ncli} → set c ≡ set d → c ≡ d
set-injective {c} h = ap (λ t. elim t [ set x ↦ x | _ ↦ c ]) h

module _ (atoi : String → ℤ) where
  pub take_add-last :
      (l : List Opt) (c d : Ncli)
      → take_all (take_add atoi) l c ≡ set d
      → (d.add_id ≡ last_number atoi b'i' l c.add_id) × (d.add_type ≡ last_text b't' l c.add_type)
  unfolding take_all take_add last_number last_text
  take_add-last [] c d h =
      let e = set-injective h in (ap Ncli.add_id (sym e), ap Ncli.add_type (sym e))
  take_add-last ((opt, none) ∷ l) c d h =
      grind (arith, take_add-last l (record c { add_type = none }) d)
  take_add-last ((opt, some s) ∷ l) c d h = grind (
    arith,
    take_add-last l (record c { add_id = atoi s }) d,
    take_add-last l (record c { add_type = some s }) d,
  )

  pub take_start-last :
      (l : List Opt) (c d : Ncli)
      → take_all (take_start atoi) l c ≡ set d
      → d.start_id ≡ last_number atoi b'i' l c.start_id
  unfolding take_all take_start last_number
  take_start-last [] c d h = let e = set-injective h in ap Ncli.start_id (sym e)
  take_start-last ((opt, none) ∷ l) c d h = grind arith
  take_start-last ((opt, some s) ∷ l) c d h =
      grind (arith, take_start-last l (record c { start_id = atoi s }) d)

  pub take_stop-last :
      (l : List Opt) (c d : Ncli)
      → take_all (take_stop atoi) l c ≡ set d
      → d.stop_id ≡ last_number atoi b'i' l c.stop_id
  unfolding take_all take_stop last_number
  take_stop-last [] c d h = let e = set-injective h in ap Ncli.stop_id (sym e)
  take_stop-last ((opt, none) ∷ l) c d h = grind arith
  take_stop-last ((opt, some s) ∷ l) c d h =
      grind (arith, take_stop-last l (record c { stop_id = atoi s }) d)

  pub take_del-last :
      (l : List Opt) (c d : Ncli)
      → take_all (take_del atoi) l c ≡ set d
      → d.del_id ≡ last_number atoi b'i' l c.del_id
  unfolding take_all take_del last_number
  take_del-last [] c d h = let e = set-injective h in ap Ncli.del_id (sym e)
  take_del-last ((opt, none) ∷ l) c d h = grind arith
  take_del-last ((opt, some s) ∷ l) c d h =
      grind (arith, take_del-last l (record c { del_id = atoi s }) d)

  pub take_bind-last :
      (l : List Opt) (c d : Ncli)
      → take_all (take_bind atoi) l c ≡ set d
      → (d.bind_id ≡ last_number atoi b'i' l c.bind_id)
        × (d.bind_port ≡ last_number atoi b'p' l c.bind_port)
        × (d.bind_dest ≡ last_number atoi b'd' l c.bind_dest)
  unfolding take_all take_bind last_number
  take_bind-last [] c d h =
      let e = sym (set-injective h) in (ap Ncli.bind_id e, ap Ncli.bind_port e, ap Ncli.bind_dest e)
  take_bind-last ((opt, none) ∷ l) c d h = grind arith
  take_bind-last ((opt, some s) ∷ l) c d h = grind (
    arith,
    take_bind-last l (record c { bind_id = atoi s }) d,
    take_bind-last l (record c { bind_port = atoi s }) d,
    take_bind-last l (record c { bind_dest = atoi s }) d,
  )

  pub take_hook_zmq-last :
      (l : List Opt) (c d : Ncli)
      → take_all (take_hook_zmq atoi) l c ≡ set d
      → (d.hook_zmq_id ≡ last_number atoi b'i' l c.hook_zmq_id)
        × (d.hook_zmq_client ≡ given b'c' l c.hook_zmq_client)
        × (d.hook_zmq_type ≡ last_number atoi b't' l c.hook_zmq_type)
        × (d.hook_zmq_name ≡ last_text b'n' l c.hook_zmq_name)
        × (d.hook_zmq_addr ≡ last_text b'a' l c.hook_zmq_addr)
  unfolding take_all take_hook_zmq last_number last_text given
  take_hook_zmq-last [] c d h =
      let e = sym (set-injective h) in
      (
        ap Ncli.hook_zmq_id e,
        ap Ncli.hook_zmq_client e,
        ap Ncli.hook_zmq_type e,
        ap Ncli.hook_zmq_name e,
        ap Ncli.hook_zmq_addr e,
      )
  take_hook_zmq-last ((opt, none) ∷ l) c d h = grind (
    arith,
    take_hook_zmq-last l (record c { hook_zmq_client = true }) d,
    take_hook_zmq-last l (record c { hook_zmq_name = none }) d,
    take_hook_zmq-last l (record c { hook_zmq_addr = none }) d,
  )
  take_hook_zmq-last ((opt, some s) ∷ l) c d h = grind (
    arith,
    take_hook_zmq-last l (record c { hook_zmq_id = atoi s }) d,
    take_hook_zmq-last l (record c { hook_zmq_client = true }) d,
    take_hook_zmq-last l (record c { hook_zmq_type = atoi s }) d,
    take_hook_zmq-last l (record c { hook_zmq_name = some s }) d,
    take_hook_zmq-last l (record c { hook_zmq_addr = some s }) d,
  )
