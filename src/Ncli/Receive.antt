-- ===== src/Ncli/Receive.antt =====
-- app/src/ncli.cpp, `data_`: which answers the client takes.
use c3qo.Base.{
  ℕ, ◌≤◌, ◌≡◌, ◌⊎◌, ap, ◌∙◌, Bool, true, false, Option, none, some, List, [], ◌∷◌, String, length,
  take, inl, inr,
}
use c3qo.Buffer.{BufferPart}
use c3qo.Command.{topic_reply}
use c3qo.World.{Block, World, M, ok, fail, pure, out_of_range, ◌>>=◌, ◌>>◌}
use c3qo.World.Keeps.{bind-ok}
use c3qo.Classes.{Class, Ncli, ncli_at, edit_ncli}
use c3qo.TransPb.Topic.{memcmp_eq-take}
use c3qo.Ncli.{c_string, text_at, differs, is_unexpected, ncli_parts, ncli_data}
use c3qo.Ncli.Scan.{put, ncli_at-put, edit_ncli-put}

-- The first bytes of a part, as many as it is long, stand in front of a text.
abbrev pub IsPrefix : BufferPart → List ℕ → Type 0
IsPrefix part text = take part.len part.bytes ≡ take part.len text

-- Both arrays are long enough for the comparison.
abbrev pub InBounds : BufferPart → List ℕ → Type 0
InBounds part text = (part.len ≤ length part.bytes) × (part.len ≤ length text)

module _ {E : Type 0} where
  differs-prefix :
      (part : BufferPart) (text : List ℕ) (w : World Class E)
      → InBounds part text
      → (IsPrefix part text × (differs part text w ≡ ok (false, w)))
        ⊎ ((¬ IsPrefix part text) × (differs part text w ≡ ok (true, w)))
  unfolding differs
  differs-prefix part text w (hp, ht) = elim (memcmp_eq-take part.len part.bytes text hp ht) [
    | inl (same, e) ↦ inl (same, ap (λ o. answer o w) e)
    | inr (other, e) ↦ inr (other, ap (λ o. answer o w) e)
  ]
    where
      answer : Option Bool → M Class E Bool
      answer o = elim o [
        | none ↦ fail out_of_range
        | some same ↦ elim same [ true ↦ pure false | false ↦ pure true ]
      ]

  module _ (p : ℕ) (b : Block Class) (w : World Class E) where
    unexpected-cases :
        (c : Ncli) (e : E) (peer topic status : BufferPart) (s r : String)
        → c.ncli_peer ≡ some s
        → c.ncli_cmd_ret ≡ some r
        → InBounds peer (c_string s)
        → InBounds topic topic_reply
        → InBounds status (c_string r)
        → ((IsPrefix peer (c_string s) × IsPrefix topic topic_reply × IsPrefix status (c_string r))
            × (is_unexpected c peer topic status (put p b w c e) ≡ ok (false, put p b w c e)))
          ⊎ ((¬ (
                IsPrefix peer (c_string s)
                × IsPrefix topic topic_reply
                × IsPrefix status (c_string r)))
              × (is_unexpected c peer topic status (put p b w c e) ≡ ok (true, put p b w c e)))
    unfolding is_unexpected
    unexpected-cases c e peer topic status s r has_peer has_ret bp bt bs =
        let u = put p b w c e in
        let text =
          bind-ok (text_at c.ncli_peer) (after_peer) u s u (ap (λ o. text_at o u) has_peer) in
        elim (differs-prefix peer (c_string s) u bp) [
          | inr (no_peer, x) ↦
              inr (
                λ t. no_peer t.0,
                text ∙ bind-ok (differs peer (c_string s)) after_topic u true u x,
              )
          | inl (is_peer, x) ↦ elim (differs-prefix topic topic_reply u bt) [
            | inr (no_topic, y) ↦ inr (
              λ t. no_topic t.1,
              text
                  ∙ bind-ok (differs peer (c_string s)) after_topic u false u x
                  ∙ bind-ok (differs topic topic_reply) after_status u true u y,
            )
            | inl (is_topic, y) ↦
                let upto =
                  text
                  ∙ bind-ok (differs peer (c_string s)) after_topic u false u x
                  ∙ bind-ok (differs topic topic_reply) after_status u false u y
                  ∙ bind-ok (text_at c.ncli_cmd_ret) (λ t. differs status (c_string t)) u r u
                      (ap (λ o. text_at o u) has_ret) in
                elim (differs-prefix status (c_string r) u bs) [
                  | inl (is_status, z) ↦ inl ((is_peer, is_topic, is_status), upto ∙ z)
                  | inr (no_status, z) ↦ inr (λ t. no_status t.2, upto ∙ z)
                ]
          ]
        ]
      where
        after_status : Bool → M Class E Bool
        after_status other = elim other [
          | true ↦ pure true
          | false ↦ do expected_ret ← text_at c.ncli_cmd_ret; differs status (c_string expected_ret)
        ]

        after_topic : Bool → M Class E Bool
        after_topic other = elim other [
          | true ↦ pure true
          | false ↦ do other_topic ← differs topic topic_reply; after_status other_topic
        ]

        after_peer : String → M Class E Bool
        after_peer expected_peer = do
          other_peer ← differs peer (c_string expected_peer)
          after_topic other_peer

    -- On a message of three parts, none longer than the memory behind it or than the text it is
    -- compared with: the client takes the answer as received exactly if its parts are prefixes of the
    -- peer's name, of "PROTO.CMD.REP" and of the expected return, each with its null byte; otherwise
    -- it changes nothing. It never forwards the message.
    pub ncli_data-received :
        (c : Ncli) (e : E) (peer topic status : BufferPart) (s r : String)
        → c.ncli_peer ≡ some s
        → c.ncli_cmd_ret ≡ some r
        → InBounds peer (c_string s)
        → InBounds topic topic_reply
        → InBounds status (c_string r)
        → ((IsPrefix peer (c_string s) × IsPrefix topic topic_reply × IsPrefix status (c_string r))
            × (ncli_data p (some (record { parts = peer ∷ topic ∷ status ∷ [] })) (put p b w c e)
                ≡ ok (false, put p b w (record c { received_answer = some true }) e)))
          ⊎ ((¬ (
                IsPrefix peer (c_string s)
                × IsPrefix topic topic_reply
                × IsPrefix status (c_string r)))
              × (ncli_data p (some (record { parts = peer ∷ topic ∷ status ∷ [] })) (put p b w c e)
                  ≡ ok (false, put p b w c e)))
    unfolding ncli_data ncli_parts
    ncli_data-received c e peer topic status s r has_peer has_ret bp bt bs =
        let u = put p b w c e in
        let read = bind-ok (ncli_at p) with_client u c u (ncli_at-put p b w c e) in
        elim (unexpected-cases c e peer topic status s r has_peer has_ret bp bt bs) [
          | inl (all, x) ↦ inl (
            all,
            read
                ∙ bind-ok (is_unexpected c peer topic status) conclude u false u x
                ∙ bind-ok (edit_ncli p (λ d. record d { received_answer = some true }))
                    (λ _. pure false) u tt _
                    (edit_ncli-put p b w (λ d. record d { received_answer = some true }) c e),
          )
          | inr (other, x) ↦
              inr (other, read ∙ bind-ok (is_unexpected c peer topic status) conclude u true u x)
        ]
      where
        conclude : Bool → M Class E Bool
        conclude unexpected = elim unexpected [
          | true ↦ pure false
          | false ↦ do edit_ncli p (λ d. record d { received_answer = some true }); pure false
        ]

        with_client : Ncli → M Class E Bool
        with_client d = do unexpected ← is_unexpected d peer topic status; conclude unexpected
