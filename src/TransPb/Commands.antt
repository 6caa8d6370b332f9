-- ===== src/TransPb/Commands.antt =====
-- block/trans_pb: the command that writes to a hook, and the command that removes the block itself.
use c3qo.Base.{
  ℕ, suc, ◌≡◌, ◌⊎◌, refl, ap, ◌∙◌, Bool, true, false, Option, none, some, List, [], ◌∷◌, String, ℤ,
  int_eq, string_eq, take, codes, arith, inl, inr, ◌==◌, Option-cases,
}
use c3qo.UnorderedMap
use c3qo.Buffer.{BufferPart, whole}
use c3qo.Command.{Command, del, hook_zmq}
use c3qo.World.{Block, World, Vtable, M, ok, fault, dangling, bad_cast, update, deref, pure}
use c3qo.World.Keeps.{bind-ok, bind-fault, deref-dead, write-live}
use c3qo.Classes.{Class, hook_at, hook_at-live, set_self}
use c3qo.Invariant.{Inv}
use c3qo.Blocks.{block_get, block_del}
use c3qo.Blocks.Runs.{Destroys, delete_block-off}
use c3qo.Flow.{process_data}
use c3qo.Ncli.Answer.{reply-sent}
use c3qo.TransPb.{configure_hook, run_command, trans_data, proto_command_parse, proto_command_reply}
use c3qo.TransPb.Topic.{trans_data-topic}

module _ {E : Type 0} (v : Vtable Class E) (id : ℤ) (client : Bool) (socket_type : ℤ)
    (name addr : String) where
  -- What the command for a hook does to a block, by its class.
  abbrev pub Configures : ℕ → Block Class → World Class E → Class → Type 0
  Configures p b w (Class.hook_zmq h) =
      run_command v (hook_zmq id client socket_type name addr) w
      ≡ ok (
        true,
        record w {
          heap = update w.heap p (
              some (record b {
                self = Class.hook_zmq (record h {
                  client = client;
                  socket_type = socket_type;
                  name = name;
                  addr = addr;
                });
              }));
        },
      )
  Configures p b w _ = run_command v (hook_zmq id client socket_type name addr) w ≡ fault bad_cast

  module _ (p : ℕ) (b : Block Class) (w : World Class E) where
    by_class :
        (c : Class)
        → w.heap p ≡ some b
        → b.self ≡ c
        → UnorderedMap.find id w.mgr.bk_map ≡ some p
        → Configures p b w c
    unfolding run_command block_get configure_hook
    by_class (Class.hook_zmq h) live is found = rw found (
        bind-ok (hook_at p) _ w h w (hook_at-live p b w (Class.hook_zmq h) live is)
        ∙ bind-ok (set_self p _) _ w tt _ (write-live p w _ b live))
    by_class Class.plain live is found =
        rw found (bind-fault (hook_at p) _ w bad_cast (hook_at-live p b w Class.plain live is))
    by_class (Class.hello h) live is found =
        rw found (bind-fault (hook_at p) _ w bad_cast (hook_at-live p b w (Class.hello h) live is))
    by_class Class.trans_pb live is found =
        rw found (bind-fault (hook_at p) _ w bad_cast (hook_at-live p b w Class.trans_pb live is))
    by_class (Class.ncli c) live is found =
        rw found (bind-fault (hook_at p) _ w bad_cast (hook_at-live p b w (Class.ncli c) live is))

  -- Where the invariant holds, the command for a hook fails if its identifier has no block, sets the
  -- four fields of a block of the class hook_zmq, and on a block of any other class is undefined.
  pub run_command-hook_zmq :
      (w : World Class E)
      → Inv w
      → ((UnorderedMap.find id w.mgr.bk_map ≡ none)
          × (run_command v (hook_zmq id client socket_type name addr) w ≡ ok (false, w)))
        ⊎ ((p : ℕ) × (b : Block Class) × (UnorderedMap.find id w.mgr.bk_map ≡ some p)
            × (w.heap p ≡ some b)
            × Configures p b w b.self)
  unfolding run_command block_get
  run_command-hook_zmq w i = elim (Option-cases (UnorderedMap.find id w.mgr.bk_map)) [
    | inl missing ↦ inl (missing, rw missing refl)
    | inr (p, found) ↦
        let (b, live, is) = i.registered id p found in
        inr (p, b, found, live, by_class p b w b.self live refl found)
  ]

module _ {E : Type 0} (n : ℕ) (v : Vtable Class E) (unpack : List ℕ → Option (Command String))
    (p : ℕ) where
  -- A stopped block trans_pb receives, on the whole topic, the command that removes it: if its type
  -- has a factory whose destructor frees it and does no more, it is freed and then used for the reply.
  pub trans_data-del_self :
      (id : ℤ) (f : ℕ) (body : BufferPart) (w : World Class E) (b : Block Class)
      → Destroys v f p w
      → UnorderedMap.find id w.mgr.bk_map ≡ some p
      → w.heap p ≡ some b
      → b.is_started ≡ false
      → UnorderedMap.find b.type_name w.mgr.bk_factory ≡ some f
      → unpack (take body.len body.bytes) ≡ some (del id)
      → trans_data
          (suc n)
          v
          unpack
          p
          (some (record { parts = whole (codes "PROTO.CMD") ∷ body ∷ [] }))
          w
        ≡ fault dangling
  unfolding run_command block_del block_get proto_command_parse process_data
  trans_data-del_self id f body w b frees found live off known asked =
      let w' : World Class E = record w {
        heap = update w.heap p none;
        mgr = record w.mgr { bk_map = UnorderedMap.erase id w.mgr.bk_map };
      } in
      let self : (p == p) ≡ true = ground arith in
      let deleted : run_command v (del id) w ≡ ok (true, w') =
        rw found (delete_block-off v id p f w b frees live off known) in
      let parsed : proto_command_parse v unpack (take body.len body.bytes) w ≡ ok (true, w') =
        ap (λ o. parse o w) asked ∙ deleted in
      let replied : proto_command_reply (suc n) v p true w' ≡ fault dangling =
        reply-sent (suc n) v p true w'
        ∙ bind-fault (deref p) _ w' dangling (deref-dead p w' (rw self)) in
      elim (trans_data-topic (suc n) v unpack p (whole (codes "PROTO.CMD")) body w (omega arith)
        (omega arith)) [
          | inl (same, run) ↦
              run
              ∙ bind-ok (proto_command_parse v unpack (take body.len body.bytes)) _ w true w' parsed
              ∙ bind-fault (proto_command_reply (suc n) v p true) _ w' dangling replied
          | inr (other, run) ↦ absurd (other refl)
        ]
    where
      parse : Option (Command String) → M Class E Bool
      parse o = elim o [ none ↦ pure false | some cmd ↦ run_command v cmd ]
