-- ===== src/TransPb/Topic.antt =====
-- block/trans_pb/src/trans_pb.cpp, `trans_pb::data_`: which topics the comparison lets through.
use c3qo.Base.{
  String, ℕ, zero, suc, ◌≤◌, ◌≡◌, ◌≢◌, ◌⊎◌, refl, ap, Bool, true, false, Option, none, some, List,
  [], ◌∷◌, length, take, Bool-cases, inl, inr, ◌==◌, ==_iff, arith,
}
use c3qo.Buffer.{BufferPart}
use c3qo.World.{fail, out_of_range, World, Vtable, M, pure, ok, ◌>>=◌, ◌>>◌}
use c3qo.Classes.{Class}
use c3qo.Command.{Command, memcmp_eq, topic_command}
use c3qo.TransPb.{trans_data, trans_parts, trans_two, proto_command_parse, proto_command_reply}

-- Within both arrays the comparison is that of the first `n` bytes.
pub memcmp_eq-take :
    (n : ℕ) (a b : List ℕ)
    → n ≤ length a
    → n ≤ length b
    → ((take n a ≡ take n b) × (memcmp_eq n a b ≡ some true))
      ⊎ ((take n a ≢ take n b) × (memcmp_eq n a b ≡ some false))
unfolding memcmp_eq
memcmp_eq-take zero a b ha hb = inl (refl, refl)
memcmp_eq-take (suc n) [] b ha hb = absurd (omega arith)
memcmp_eq-take (suc n) (x ∷ a) [] ha hb = absurd (omega arith)
memcmp_eq-take (suc n) (x ∷ a) (y ∷ b) ha hb = elim (Bool-cases (x == y)) [
  | inl same ↦
      let e = (==_iff x y).0 same in
      elim (memcmp_eq-take n a b (omega arith) (omega arith)) [
        | inl (t, m) ↦ inl (cc, rw (same, m))
        | inr (t, m) ↦ inr (λ h. t cc, rw (same, m))
      ]
  | inr other ↦ inr (λ h. ground arith, rw other)
]

module _ {E : Type 0} (n : ℕ) (v : Vtable Class E) (unpack : List ℕ → Option (Command String))
    (p : ℕ) where
  -- On a message of two parts whose topic is no longer than the memory behind it, nor than
  -- "PROTO.CMD" with its null byte: if the topic is a prefix of that array, were it empty, the second
  -- part is run as a command and the outcome is replied; else nothing is done.
  pub trans_data-topic :
      (topic body : BufferPart) (w : World Class E)
      → topic.len ≤ length topic.bytes
      → topic.len ≤ length topic_command
      → ((take topic.len topic.bytes ≡ take topic.len topic_command)
          × (trans_data n v unpack p (some (record { parts = topic ∷ body ∷ [] })) w
              ≡ (do
                is_ok ← proto_command_parse v unpack (take body.len body.bytes)
                proto_command_reply n v p is_ok
                pure false)
                  w))
        ⊎ ((take topic.len topic.bytes ≢ take topic.len topic_command)
            × (trans_data n v unpack p (some (record { parts = topic ∷ body ∷ [] })) w
                ≡ ok (false, w)))
  unfolding trans_data trans_parts trans_two
  trans_data-topic topic body w hb hc =
      elim (memcmp_eq-take topic.len topic_command topic.bytes hc hb) [
        | inl (t, m) ↦ inl (cc, ap (λ o. run_if o w) m)
        | inr (t, m) ↦ inr (λ h. t cc, ap (λ o. run_if o w) m)
      ]
    where
      run_if : Option Bool → M Class E Bool
      run_if o = elim o [
        | none ↦ fail out_of_range
        | some same ↦ elim same [
          | false ↦ pure false
          | true ↦ do
            is_ok ← proto_command_parse v unpack (take body.len body.bytes)
            proto_command_reply n v p is_ok
            pure false
        ]
      ]
