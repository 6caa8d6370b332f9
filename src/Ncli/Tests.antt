-- ===== src/Ncli/Tests.antt =====
-- Examples of the client: its command line, its command and the answer.
use c3qo.Base.{
  ℕ, ◌≡◌, ◌⊎◌, refl, true, false, Option, none, some, List, [], ◌∷◌, String, pos, codes, arith,
  int_eq,
}
use c3qo.Buffer.{BufferPart, whole}
use c3qo.Command.{Command, topic_reply}
use c3qo.World.{ok, pure, ◌>>=◌, ◌>>◌}
use c3qo.World.Idle.{idle, quiet_system}
use c3qo.Classes.{CharPtr}
use c3qo.Flow.{process_data}
use c3qo.Timer.{timer_add}
use c3qo.TransPb.{run_command, trans_data, proto_command_reply}
use c3qo.Ncli.{answer_timer, ncli_start, ncli_data, c_string}
use c3qo.Ncli.Options.{set, take_client, take_add, options_parse}
use c3qo.Ncli.Scan.{Opt, Yields, ends, gives, take_all, put}
use c3qo.Ncli.Fields.{last_number, last_text}
use c3qo.Ncli.Parse.{add, name_of, command_of, options_parse-command_of}
use c3qo.Ncli.Exchange.{received, ncli_start-run_command}
use c3qo.Ncli.Receive.{IsPrefix, ncli_data-received}
use c3qo.Ncli.Answer.{reply, ncli_data-reply}
use c3qo.Ncli.Samples.{
  small_shell, base_world, args, argv, fresh, client_block, told, filled, starting,
}

-- The options of the client itself.
abbrev client_options : List Opt
client_options =
    (pos b'i', some "probe")
    ∷ (pos b't', some "add")
    ∷ (pos b'o', some "add -i 7 -t hello -i 12")
    ∷ (pos b'r', some "OK")
    ∷ []

client_options-Yields : Yields small_shell argv "i:o:t:r:" 1 client_options 9
client_options-Yields =
    gives _ _ refl refl
      (gives _ _ refl refl (gives _ _ refl refl (gives _ _ refl refl (ends none refl))))

client_options-taken : take_all take_client client_options fresh ≡ set told
unfolding take_all take_client
client_options-taken = refl

-- The options of the command; the last `-i` wins.
abbrev add_options : List Opt
add_options = (pos b'i', some "7") ∷ (pos b't', some "hello") ∷ (pos b'i', some "12") ∷ []

add_options-Yields : Yields small_shell args "i:t:" 1 add_options 7
add_options-Yields =
    gives _ _ refl refl (gives _ _ refl refl (gives _ _ refl refl (ends none refl)))

add_options-taken :
    take_all (take_add small_shell.atoi) add_options (record told { words = some args })
    ≡ set filled
unfolding take_all take_add
add_options-taken = refl

options_parse-command_of_example :
    options_parse small_shell 5 argv 0 (put 0 client_block base_world fresh 1)
    ≡ ok (
      true,
      put 0 client_block base_world
          (record filled {
            cmd =
                some
                  (command_of add small_shell.atoi add_options (record told { words = some args }));
          })
          7,
    )
unfolding name_of
options_parse-command_of_example =
    options_parse-command_of small_shell 0 client_block base_world 5 add argv args "probe"
      "add -i 7 -t hello -i 12" "OK" 1 9 9 7 client_options add_options fresh told filled
      client_options-Yields client_options-taken (omega arith) refl refl refl refl refl
      (add_options-Yields, add_options-taken) (omega arith)

-- The command that is sent: `add` of block 12, a hello.
command_of_add :
    command_of add small_shell.atoi add_options told ≡ Command.add (pos 12) (some "hello")
unfolding command_of last_number last_text
command_of_add = refl

-- An answer of three parts that are as long as their texts, but for a peer's name cut short.
abbrev cut_peer : BufferPart
cut_peer = record { bytes = codes "probe"; len = 3 }

ncli_data-received_example :
    ((IsPrefix cut_peer (c_string "probe")
        × IsPrefix (whole topic_reply) topic_reply
        × IsPrefix (whole (codes "OK")) (c_string "OK"))
      × (ncli_data 0
            (some (record { parts = cut_peer ∷ whole topic_reply ∷ whole (codes "OK") ∷ [] }))
            (put 0 client_block base_world filled 7)
          ≡ ok (
            false,
            put 0 client_block base_world (record filled { received_answer = some true }) 7,
          )))
    ⊎ ((¬ (
          IsPrefix cut_peer (c_string "probe")
          × IsPrefix (whole topic_reply) topic_reply
          × IsPrefix (whole (codes "OK")) (c_string "OK")))
        × (ncli_data 0
              (some (record { parts = cut_peer ∷ whole topic_reply ∷ whole (codes "OK") ∷ [] }))
              (put 0 client_block base_world filled 7)
            ≡ ok (false, put 0 client_block base_world filled 7)))
ncli_data-received_example =
    ncli_data-received 0 client_block base_world filled 7 cut_peer (whole topic_reply)
      (whole (codes "OK")) "probe" "OK" refl refl (omega arith, omega arith)
      (omega arith, omega arith) (omega arith, omega arith)

ncli_data-reply_example :
    (proto_command_reply 3 idle 0 false base_world
      ≡ process_data 3 idle (some (record { parts = reply false })) 0 base_world)
    × (ncli_data 0
          (some (record { parts = whole (c_string "probe") ∷ reply false }))
          (put 0 client_block base_world filled 7)
        ≡ ok (false, put 0 client_block base_world filled 7))
ncli_data-reply_example =
    ncli_data-reply 3 idle 0 false true base_world 0 client_block base_world filled 7 "probe" refl
      refl

-- A code for `start` only.
packed : Command CharPtr → List ℕ
packed (Command.start (pos n)) = 1 ∷ n ∷ []
packed _ = []

unpacked : List ℕ → Option (Command String)
unpacked (a ∷ n ∷ []) = some (Command.start (pos n))
unpacked _ = none

ncli_start-run_command_example :
    (ncli_start 3 quiet_system idle packed 0 (put 0 client_block base_world starting 7)
      ≡ (do
        process_data 3 idle
            (some (record {
              parts =
                  whole (c_string "probe")
                  ∷ whole (codes "PROTO.CMD")
                  ∷ whole (packed (Command.start (pos 12)))
                  ∷ [];
            }))
            0
        added ← timer_add quiet_system (answer_timer 0)
        pure tt)
          (put 0 client_block base_world starting 7))
    × (trans_data 4 idle unpacked 5
          (some (record {
            parts = whole (codes "PROTO.CMD") ∷ whole (packed (Command.start (pos 12))) ∷ [];
          }))
          base_world
        ≡ (do
          is_ok ← run_command idle (Command.start (pos 12))
          proto_command_reply 4 idle 5 is_ok
          pure false)
            base_world)
unfolding packed unpacked received
ncli_start-run_command_example =
    ncli_start-run_command 0 client_block base_world 3 4 quiet_system idle idle packed unpacked 5
      starting 7 "probe" (Command.start (pos 12)) base_world refl refl refl
