-- ===== src/Ncli/Parse.antt =====
-- app/src/ncli.cpp, `options_parse`: from the command line to the command that is sent.
use c3qo.Base.{ℕ, ◌<◌, ◌≡◌, ap, ◌∙◌, subst, Bool, true, Option, some, List, String, ℤ, length}
use c3qo.Command.{Command}
use c3qo.World.{Block, World, M, ok, call, ◌>>=◌, ◌>>◌}
use c3qo.World.Keeps.{bind-ok}
use c3qo.Classes.{Class, CharPtr, Ncli, ncli_at, edit_ncli}
use c3qo.Ncli.Options.{
  Shell, Taken, set, option_loop, asserted, parse_command, parse_add, parse_start, parse_stop,
  parse_del, parse_bind, parse_hook_zmq, parse_term, parse_by_type, parse_client, options_parse,
  take_add, take_start, take_stop, take_del, take_bind, take_hook_zmq, take_client,
}
use c3qo.Ncli.Scan.{
  Opt, Yields, take_all, put, ncli_at-put, edit_ncli-put, LoopEnds, option_loop-take_all,
}
use c3qo.Ncli.Fields.{
  last_number, last_text, given, take_add-last, take_start-last, take_stop-last, take_del-last,
  take_bind-last, take_hook_zmq-last,
}

-- The types of a command, with the name that `-t` gives them.
pub data Kind : Type 0 where
  add start stop del bind hook_zmq term : Kind

unfoldable pub name_of : Kind → String
name_of add = "add"
name_of start = "start"
name_of stop = "stop"
name_of del = "del"
name_of bind = "bind"
name_of hook_zmq = "hook_zmq"
name_of term = "term"

-- The command that a list of options means: each field has the last value that is given to its
-- letter, or the value that it had.
unfoldable pub command_of : Kind → (String → ℤ) → List Opt → Ncli → Command CharPtr
command_of add atoi l c =
    Command.add (last_number atoi b'i' l c.add_id) (last_text b't' l c.add_type)
command_of start atoi l c = Command.start (last_number atoi b'i' l c.start_id)
command_of stop atoi l c = Command.stop (last_number atoi b'i' l c.stop_id)
command_of del atoi l c = Command.del (last_number atoi b'i' l c.del_id)
command_of bind atoi l c =
    Command.bind (last_number atoi b'i' l c.bind_id) (last_number atoi b'p' l c.bind_port)
      (last_number atoi b'd' l c.bind_dest)
command_of hook_zmq atoi l c =
    Command.hook_zmq (last_number atoi b'i' l c.hook_zmq_id) (given b'c' l c.hook_zmq_client)
      (last_number atoi b't' l c.hook_zmq_type) (last_text b'n' l c.hook_zmq_name)
      (last_text b'a' l c.hook_zmq_addr)
command_of term atoi l c = Command.term true

module _ {E : Type 0} (sh : Shell E) where
  asserted-some :
      {A : Type 0} (o : Option A) (a : A) (w : World Class E)
      → o ≡ some a
      → asserted o w ≡ ok (a, w)
  asserted-some o a w is = ap (λ x. asserted x w) is

  -- The words of a command hold the options `l`, all known to it, which set the fields `d`.
  abbrev Reads :
      String → (ℤ → CharPtr → Ncli → Taken) → List String → E → List Opt → E → Ncli → Ncli → Type 0
  Reads options take words e l e' c d = Yields sh words options e l e' × (take_all take l c ≡ set d)

  -- The same by the type of the command; `term` reads no words.
  abbrev pub Scans : Kind → List String → E → List Opt → E → Ncli → Ncli → Type 0
  Scans add = Reads "i:t:" (take_add sh.atoi)
  Scans start = Reads "i:" (take_start sh.atoi)
  Scans stop = Reads "i:" (take_stop sh.atoi)
  Scans del = Reads "i:" (take_del sh.atoi)
  Scans bind = Reads "i:p:d:" (take_bind sh.atoi)
  Scans hook_zmq = Reads "i:ct:n:a:" (take_hook_zmq sh.atoi)
  Scans term = λ words e l e' c d. (e ≡ e') × (c ≡ d)

  module _ (p : ℕ) (b : Block Class) (w : World Class E) (n : ℕ) where
    loop-set :
        (argv : List String) (options : String) (take : ℤ → CharPtr → Ncli → Taken) (e e' : E)
        (l : List Opt) (c d : Ncli)
        → Yields sh argv options e l e'
        → take_all take l c ≡ set d
        → length l < n
        → option_loop sh n argv options take p (put p b w c e) ≡ ok (true, put p b w d e')
    loop-set argv options take e e' l c d y is enough =
        subst
          (λ t.
            LoopEnds p b w sh argv options take t e'
              (option_loop sh n argv options take p (put p b w c e)))
          is (option_loop-take_all p b w sh argv options take n c y enough)

    parse_command-set :
        (argv : List String) (options : String) (take : ℤ → CharPtr → Ncli → Taken)
        (command : Ncli → Command CharPtr) (e e' : E) (l : List Opt) (c d : Ncli)
        (cmd : Command CharPtr)
        → Reads options take argv e l e' c d
        → length l < n
        → command d ≡ cmd
        → parse_command sh n argv options take command p (put p b w c e)
          ≡ ok (true, put p b w (record d { cmd = some cmd }) e')
    unfolding parse_command
    parse_command-set argv options take command e e' l c d cmd r enough is =
        bind-ok (option_loop sh n argv options take p) _ (put p b w c e) true (put p b w d e')
          (loop-set argv options take e e' l c d r.0 r.1 enough)
        ∙ bind-ok (edit_ncli p _) _ (put p b w d e') tt _ (edit_ncli-put p b w _ d e')
        ∙ ap (λ x. ok (true, put p b w (record d { cmd = some x }) e')) is

    parse_by_type-command_of :
        (k : Kind) (words : List String) (e e' : E) (l : List Opt) (c d : Ncli)
        → Scans k words e l e' c d
        → length l < n
        → parse_by_type sh n (name_of k) words p (put p b w c e)
          ≡ ok (true, put p b w (record d { cmd = some (command_of k sh.atoi l c) }) e')
    unfolding parse_by_type parse_add parse_start parse_stop parse_del parse_bind parse_hook_zmq
        parse_term name_of command_of
    parse_by_type-command_of add words e e' l c d s enough =
        let (f, g) = take_add-last sh.atoi l c d s.1 in
        parse_command-set words _ _ _ e e' l c d _ s enough (cc (f, g))
    parse_by_type-command_of start words e e' l c d s enough =
        let f = take_start-last sh.atoi l c d s.1 in
        parse_command-set words _ _ _ e e' l c d _ s enough (ap Command.start f)
    parse_by_type-command_of stop words e e' l c d s enough =
        let f = take_stop-last sh.atoi l c d s.1 in
        parse_command-set words _ _ _ e e' l c d _ s enough (ap Command.stop f)
    parse_by_type-command_of del words e e' l c d s enough =
        let f = take_del-last sh.atoi l c d s.1 in
        parse_command-set words _ _ _ e e' l c d _ s enough (ap Command.del f)
    parse_by_type-command_of bind words e e' l c d s enough =
        let (f, g, h) = take_bind-last sh.atoi l c d s.1 in
        parse_command-set words _ _ _ e e' l c d _ s enough (cc (f, g, h))
    parse_by_type-command_of hook_zmq words e e' l c d s enough =
        let (f, g, h, i, j) = take_hook_zmq-last sh.atoi l c d s.1 in
        parse_command-set words _ _ _ e e' l c d _ s enough (cc (f, g, h, i, j))
    parse_by_type-command_of term words e e' l c d s enough =
        bind-ok (edit_ncli p _) _ (put p b w c e) tt _ (edit_ncli-put p b w _ c e)
        ∙ ap (λ x. ok (true, put p b w (record c { cmd = some (Command.term true) }) x)) s.0
        ∙ ap (λ x. ok (true, put p b w (record x { cmd = some (Command.term true) }) e')) s.1

    -- A command line whose options are all known and leave a peer, the name of a type of command, the
    -- text of its options and an expected answer, where `wordexp` splits that text into words whose
    -- options are all known to the type: with fuel for both lists of options, `options_parse`
    -- succeeds, and the client's command is of that type, each field with the last value given to
    -- its letter or else the value that the client had.
    pub options_parse-command_of :
        (k : Kind) (argv words : List String) (peer args ret : String) (e e1 e2 e3 : E)
        (l m : List Opt) (c d f : Ncli)
        → Yields sh argv "i:o:t:r:" e l e1
        → take_all take_client l c ≡ set d
        → length l < n
        → d.ncli_peer ≡ some peer
        → d.ncli_cmd_type ≡ some (name_of k)
        → d.ncli_cmd_args ≡ some args
        → d.ncli_cmd_ret ≡ some ret
        → sh.wordexp args e1 ≡ (some words, e2)
        → Scans k words (sh.reset_optind e2) m e3 (record d { words = some words }) f
        → length m < n
        → options_parse sh n argv p (put p b w c e)
          ≡ ok (
            true,
            put p b w
                (record f { cmd = some (command_of k sh.atoi m (record d { words = some words })) })
                e3,
          )
    unfolding options_parse parse_client
    options_parse-command_of k argv words peer args ret e e1 e2 e3 l m c d f y taken few has_peer
          has_type has_args has_ret x s few' =
        bind-ok (option_loop sh n argv "i:o:t:r:" take_client p) _ (put p b w c e) true
          (put p b w d e1) (loop-set argv "i:o:t:r:" take_client e e1 l c d y taken few)
        ∙ bind-ok (ncli_at p) _ (put p b w d e1) d (put p b w d e1) (ncli_at-put p b w d e1)
        ∙ bind-ok (asserted d.ncli_peer) _ (put p b w d e1) peer _
            (asserted-some d.ncli_peer peer _ has_peer)
        ∙ bind-ok (asserted d.ncli_cmd_type) _ (put p b w d e1) (name_of k) _
            (asserted-some d.ncli_cmd_type (name_of k) _ has_type)
        ∙ bind-ok (asserted d.ncli_cmd_args) _ (put p b w d e1) args _
            (asserted-some d.ncli_cmd_args args _ has_args)
        ∙ bind-ok (asserted d.ncli_cmd_ret) _ (put p b w d e1) ret _
            (asserted-some d.ncli_cmd_ret ret _ has_ret)
        ∙ ap (λ r. with_words r.0 (put p b w d r.1)) x
        ∙ bind-ok (edit_ncli p (λ g. record g { words = some words })) (λ _. reset_and_parse)
            (put p b w d e2) tt _ (edit_ncli-put p b w (λ g. record g { words = some words }) d e2)
        ∙ parse_by_type-command_of k words (sh.reset_optind e2) e3 m
            (record d { words = some words }) f s few'
      where
        reset_and_parse : M Class E Bool
        reset_and_parse = do
          call (λ e. (tt, sh.reset_optind e))
          parse_by_type sh n (name_of k) words p

        with_words : Option (List String) → M Class E Bool
        with_words o = do
          found ← asserted o
          edit_ncli p (λ g. record g { words = some found })
          call (λ e. (tt, sh.reset_optind e))
          parse_by_type sh n (name_of k) found p
