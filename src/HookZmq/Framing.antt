-- ===== src/HookZmq/Framing.antt =====
-- block/hook_zmq/src/hook_zmq.cpp, `send_` and `recv_`: a message in parts over a ZeroMQ socket.
use mathlib.Core.List.{append_assoc, append-nil}
use c3qo.Base.{
  ℕ, zero, suc, ◌≤◌, ◌<◌, ◌≡◌, refl, sym, ap, ◌∙◌, Bool, true, false, not, Option, none, some, List,
  [], ◌∷◌, ◌++◌, pos, negsuc, eq_ℤ, Ptr, All, take, length, arith,
}
use c3qo.Buffer.{whole, push_back-whole, take-whole, Buffer, BufferPart, no_parts}
use c3qo.World.{World, Sys, Received, M, ok, pure, fail, out_of_range, ◌>>=◌}
use c3qo.World.Keeps.{bind-ok}
use c3qo.Classes.{Class}
use c3qo.HookZmq.{recv, send_parts, is_last, append, not_positive}

-- A part as `push_back` makes it, of one byte at least.
abbrev pub IsPart : BufferPart → Type 0
IsPart x = (m : List ℕ) × (x ≡ whole m) × (0 < length m)

-- What goes over the wire: the bytes of each part, and whether another follows.
pub frames : List BufferPart → List (List ℕ × Bool)
frames [] = []
frames (x ∷ l) = (take x.len x.bytes, not (is_last l)) ∷ frames l

-- Two connected sockets as ZeroMQ's manual describes them: frames queue up as they are sent on `tx`,
-- and `zmq_msg_recv` on `rx` takes the first frame out of the queue and returns its size.
pub record IsPipe {E : Type 0} (sys : Sys E) (tx rx : Ptr) (queue : E → List (List ℕ × Bool))
    : Type 0 where
  pub sends :
      (bytes : List ℕ) (more : Bool) (e : E)
      → (eq_ℤ (sys.zmq_msg_send tx bytes more e).0 (negsuc 0) ≡ false)
        × (queue (sys.zmq_msg_send tx bytes more e).1 ≡ queue e ++ (bytes, more) ∷ [])
  pub receives :
      (bytes : List ℕ) (more : Bool) (rest : List (List ℕ × Bool)) (e : E)
      → queue e ≡ (bytes, more) ∷ rest
      → ((sys.zmq_msg_recv rx e).0
          ≡ record { ret = pos (length bytes); bytes = bytes; more = more })
        × (queue (sys.zmq_msg_recv rx e).1 ≡ rest)

module _ {E : Type 0} where
  pub append-whole :
      (buf : Buffer) (m : List ℕ) (w : World Class E)
      → append buf m (length m) w ≡ ok (record { parts = buf.parts ++ whole m ∷ [] }, w)
  append-whole buf m w = ap (λ o. to_buffer o w) (push_back-whole buf m)
    where
      to_buffer : Option Buffer → M Class E Buffer
      to_buffer o = elim o [ none ↦ fail out_of_range | some b ↦ pure b ]

module _ {E : Type 0} (sys : Sys E) (tx rx : Ptr) (queue : E → List (List ℕ × Bool))
    (pipe : IsPipe sys tx rx queue) where
  -- On such sockets `send_` sends the frames of all parts in order, the last one alone with no
  -- part to follow, and succeeds.
  pub send_parts-frames :
      (l : List BufferPart) (w : World Class E)
      → (e : E) × (send_parts sys tx l w ≡ ok (true, record w { env = e }))
        × (queue e ≡ queue w.env ++ frames l)
  unfolding send_parts frames
  send_parts-frames [] w = (w.env, refl, sym (append-nil (queue w.env)))
  send_parts-frames (x ∷ l) w =
      let bytes = take x.len x.bytes in
      let more = not (is_last l) in
      let (fine, queued) = pipe.sends bytes more w.env in
      let e1 = (sys.zmq_msg_send tx bytes more w.env).1 in
      let (e2, ran, all) = send_parts-frames l (record w { env = e1 }) in
      (
        e2,
        ap (λ b. after_send b (record w { env = e1 })) fine ∙ ran,
        all
            ∙ ap (λ q. q ++ frames l) queued
            ∙ append_assoc (queue w.env) ((bytes, more) ∷ []) (frames l),
      )
    where
      after_send : Bool → M Class E Bool
      after_send failed = elim failed [ true ↦ pure false | false ↦ send_parts sys tx l ]

  -- One step of the loop of `recv_`, on a frame of one byte at least.
  recv-frame :
      (n : ℕ) (buf : Buffer) (m : List ℕ) (more : Bool) (rest : List (List ℕ × Bool))
      (w : World Class E)
      → 0 < length m
      → queue w.env ≡ (m, more) ∷ rest
      → (e : E) × (recv (suc n) sys rx buf w
          ≡ (elim more as (λ _. M Class E (Bool × Buffer)) [
            | true ↦ recv n sys rx (record { parts = buf.parts ++ whole m ∷ [] })
            | false ↦ pure (true, record { parts = buf.parts ++ whole m ∷ [] })
          ])
              (record w { env = e }))
        × (queue e ≡ rest)
  unfolding recv
  recv-frame n buf m more rest w some_byte q =
      let (got, left) = pipe.receives m more rest w.env q in
      let e = (sys.zmq_msg_recv rx w.env).1 in
      let w1 : World Class E = record w { env = e } in
      let positive : not_positive (pos (length m)) ≡ false = ground arith in
      (
        e,
        ap (λ part. step part w1) got
            ∙ rw positive (bind-ok (append buf m (length m)) _ w1 _ w1 (append-whole buf m w1)),
        left,
      )
    where
      step : Received → M Class E (Bool × Buffer)
      step part = elim (not_positive part.ret) [
        | true ↦ pure (false, buf)
        | false ↦ do
          buf' ← append buf part.bytes (length part.bytes)
          elim part.more [ true ↦ recv n sys rx buf' | false ↦ pure (true, buf') ]
      ]

  -- On such sockets, where the frames of whole parts of one byte at least stand first in the queue,
  -- `recv_` ends within as many rounds as there are parts, has added exactly these parts to the
  -- buffer, and leaves what follows in the queue.
  pub recv-frames :
      (l : List BufferPart) (n : ℕ) (buf : Buffer) (rest : List (List ℕ × Bool)) (w : World Class E)
      → All IsPart l
      → 0 < length l
      → length l ≤ n
      → queue w.env ≡ frames l ++ rest
      → (e : E) × (recv n sys rx buf w
          ≡ ok ((true, record { parts = buf.parts ++ l }), record w { env = e }))
        × (queue e ≡ rest)
  unfolding frames
  recv-frames [] n buf rest w ps some_part le q = absurd (omega arith)
  recv-frames (x ∷ l) zero buf rest w ps some_part le q = absurd (omega arith)
  recv-frames (x ∷ []) (suc n) buf rest w ps some_part le q =
      let (m, is, some_byte) = ps.0 in
      let q' : queue w.env ≡ (m, false) ∷ rest =
        q
        ∙ ap (λ y. (take y.len y.bytes, false) ∷ rest) is
        ∙ ap (λ b. (b, false) ∷ rest) (take-whole m) in
      let (e, ran, left) = recv-frame n buf m false rest w some_byte q' in
      (
        e,
        ran
            ∙ ap (λ y. ok ((true, record { parts = buf.parts ++ y ∷ [] }), record w { env = e }))
                (sym is),
        left,
      )
  recv-frames (x ∷ y ∷ l) (suc n) buf rest w ps some_part le q =
      let (m, is, some_byte) = ps.0 in
      let tail = frames (y ∷ l) ++ rest in
      let q' : queue w.env ≡ (m, true) ∷ tail =
        q
        ∙ ap (λ z. (take z.len z.bytes, true) ∷ tail) is
        ∙ ap (λ b. (b, true) ∷ tail) (take-whole m) in
      let (e1, ran1, left1) = recv-frame n buf m true tail w some_byte q' in
      let buf1 : Buffer = record { parts = buf.parts ++ whole m ∷ [] } in
      let (e2, ran2, left2) =
        recv-frames (y ∷ l) n buf1 rest (record w { env = e1 }) ps.1 (omega arith) (omega arith)
          left1 in
      (
        e2,
        ran1
            ∙ ran2
            ∙ ap (λ ps. ok ((true, record { parts = ps }), record w { env = e2 }))
                (append_assoc buf.parts (whole m ∷ []) (y ∷ l)
                  ∙ ap (λ z. buf.parts ++ z ∷ y ∷ l) (sym is)),
        left2,
      )

  -- Over two connected sockets that hand frames on in order and hold none, `recv_` receives what
  -- `send_` sends: a message of one part at least, each of one byte at least and as `push_back` makes
  -- it, arrives as it was, within as many rounds as it has parts, and no frame is left.
  pub send_parts-recv :
      (l : List BufferPart) (n : ℕ) (w : World Class E)
      → All IsPart l
      → 0 < length l
      → length l ≤ n
      → queue w.env ≡ []
      → (e : E) × ((do sent ← send_parts sys tx l; recv n sys rx no_parts) w
          ≡ ok ((true, record { parts = l }), record w { env = e }))
        × (queue e ≡ [])
  send_parts-recv l n w ps some_part le idle =
      let (e1, sent, queued) = send_parts-frames l w in
      let (e2, received, left) =
        recv-frames l n no_parts [] (record w { env = e1 }) ps some_part le
          (queued ∙ ap (λ q. q ++ frames l) idle ∙ sym (append-nil (frames l))) in
      (e2, bind-ok (send_parts sys tx l) _ w true (record w { env = e1 }) sent ∙ received, left)
