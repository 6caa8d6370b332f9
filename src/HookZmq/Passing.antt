-- ===== src/HookZmq/Passing.antt =====
-- block/hook_zmq/src/hook_zmq.cpp, `data_` and `on_fd_`: what a hook hands from the data flow to its
-- socket, and from its socket to the data flow.
use c3qo.Base.{
  ℕ, zero, suc, subst, ◌+◌, ◌%◌, ◌≤◌, ◌<◌, ◌≡◌, refl, ap, ◌∙◌, Bool, true, false, some, List, ◌∷◌,
  ◌++◌, Ptr, eq_ptr, Option-cases, inl, inr, length, All,
}
use c3qo.Buffer.{push_back, Buffer, BufferPart, no_parts}
use c3qo.World.{Block, World, Vtable, FileDesc, Sys, M, ok, call, update, pure, ◌>>=◌, ◌>>◌}
use c3qo.World.Keeps.{bind-ok, write-live, Post, Keeps, Keeps-bind, Keeps-either}
use c3qo.Classes.{Class, HookZmq, hook_zmq, hook_at, hook_at-live, set_self, written}
use c3qo.HookZmq.{word, recv, send, send_parts, hook_data, hook_on_fd, append, not_positive}
use c3qo.HookZmq.Framing.{IsPart, IsPipe, frames, send_parts-frames, recv-frames}
use c3qo.Flow.{process_data}

-- Receiving leaves what each call of `zmq_msg_recv` leaves.
module _ {E X : Type 0} (sys : Sys E) (s : Ptr) (other : E → X)
    (keeps : (e : E) → other (sys.zmq_msg_recv s e).1 ≡ other e) (x : X) where
  abbrev Same : World Class E → Type 0
  Same w = other w.env ≡ x

  append-Same : (buf : Buffer) (mem : List ℕ) (n : ℕ) → Keeps Same (append buf mem n)
  append-Same buf mem n w i = elim (Option-cases (push_back buf mem n)) [
    | inl over ↦ rw (over, append) tt
    | inr (b, fits) ↦ rw (fits, append) i
  ]

  recv-Same : (n : ℕ) (buf : Buffer) → Keeps Same (recv n sys s buf)
  unfolding recv
  recv-Same zero buf w i = tt
  recv-Same (suc n) buf w i =
      Keeps-bind Same (call (sys.zmq_msg_recv s)) _ (λ u j. keeps u.env ∙ j)
        (λ part.
          Keeps-either Same (not_positive part.ret) (pure (false, buf)) _ (λ u j. j)
            (Keeps-bind Same (append buf part.bytes (length part.bytes)) _
              (append-Same buf part.bytes (length part.bytes))
              λ buf'.
                Keeps-either Same part.more (recv n sys s buf') (pure (true, buf'))
                  (recv-Same n buf') (λ u j. j)))
        w i

module _ {E : Type 0} (a : ℕ) (b : Block Class) (h : HookZmq) (s : Ptr) where
  -- The hook at `a` has the socket `s`.
  pub record Holds (w : World Class E) : Type 0 where
    pub live : w.heap a ≡ some (record b { self = hook_zmq h })
    pub socket : h.zmq_socket ≡ some s

  with-socket :
      {A : Type 0} (f : HookZmq → Ptr → M Class E A) (w : World Class E)
      → Holds w
      → (do g ← hook_at a; socket ← written g.zmq_socket; f g socket) w ≡ f h s w
  with-socket f w holds =
      bind-ok (hook_at a) _ w h w
        (hook_at-live a (record b { self = hook_zmq h }) w (hook_zmq h) holds.live refl)
      ∙ ap (λ o. (written o >>= f h) w) holds.socket

  -- The world with other counters of the hook, and another state of the system.
  abbrev pub counting : ℕ → ℕ → E → World Class E → World Class E
  counting rx tx e w = record w {
    heap =
        update w.heap a
          (some (record b { self = hook_zmq (record h { rx_pkt = rx; tx_pkt = tx }) }));
    env = e;
  }

  module _ (sys : Sys E) (peer : Ptr) (queue : E → List (List ℕ × Bool)) where
    -- A hook hands a message of the data flow to its socket, whose peer then has the frames of all
    -- parts behind what it had, counts it, and hands it on to no one.
    pub hook_data-sends :
        (x : BufferPart) (l : List BufferPart) (w : World Class E)
        → IsPipe sys s peer queue
        → Holds w
        → (e : E) × (hook_data sys a (some (record { parts = x ∷ l })) w
            ≡ ok (false, counting h.rx_pkt ((h.tx_pkt + 1) % word) e w))
          × (queue e ≡ queue w.env ++ frames (x ∷ l))
    unfolding hook_data send
    hook_data-sends x l w pipe holds =
        let (e, ran, out) = send_parts-frames sys s peer queue pipe (x ∷ l) w in
        let w1 : World Class E = record w { env = e } in
        (
          e,
          bind-ok (send sys a (record { parts = x ∷ l })) _ w true w1
                (with-socket (λ g socket. send_parts sys socket (x ∷ l)) w holds ∙ ran)
              ∙ bind-ok (hook_at a) _ w1 h w1
                  (hook_at-live a (record b { self = hook_zmq h }) w1 (hook_zmq h) holds.live refl)
              ∙ bind-ok (set_self a _) _ w1 tt _ (write-live a w1 _ _ holds.live),
          out,
        )

    -- A hook whose socket is ready receives the message that stands first in its queue, counts it and
    -- hands it to the data flow. What the system's `zmq_msg_recv` leaves as it was is as it was.
    pub hook_on_fd-receives :
        (n : ℕ) (v : Vtable Class E) (d : FileDesc) (l : List BufferPart)
        (rest : List (List ℕ × Bool)) (w : World Class E) (other : E → List (List ℕ × Bool))
        → IsPipe sys peer s queue
        → ((e : E) → other (sys.zmq_msg_recv s e).1 ≡ other e)
        → Holds w
        → eq_ptr d.socket s ≡ true
        → All IsPart l
        → 0 < length l
        → length l ≤ n
        → queue w.env ≡ frames l ++ rest
        → (e : E) × (hook_on_fd n sys v a d w
            ≡ process_data n v
                (some (record { parts = l }))
                a
                (counting ((h.rx_pkt + 1) % word) h.tx_pkt e w))
          × (queue e ≡ rest)
          × (other e ≡ other w.env)
    unfolding hook_on_fd
    hook_on_fd-receives n v d l rest w other pipe keeps holds same parts some_part enough queued =
        let (e, ran, left) =
          recv-frames sys peer s queue pipe l n no_parts rest w parts some_part enough queued in
        let w1 : World Class E = record w { env = e } in
        (
          e,
          with-socket receive w holds
              ∙ ap (λ t. test h t s w) same
              ∙ bind-ok (recv n sys s no_parts) (deliver h) w _ w1 ran
              ∙ bind-ok (set_self a _) _ w1 tt _ (write-live a w1 _ _ holds.live),
          left,
          subst (Post (λ _ u. other u.env ≡ other w.env)) ran
              (recv-Same sys s other keeps (other w.env) n no_parts w refl),
        )
      where
        deliver : HookZmq → Bool × Buffer → M Class E (Unit {0})
        deliver g (is_ok, buf) = elim is_ok [
          | false ↦ pure tt
          | true ↦ do
            set_self a (hook_zmq (record g { rx_pkt = (g.rx_pkt + 1) % word }))
            process_data n v (some buf) a
        ]

        test : HookZmq → Bool → Ptr → M Class E (Unit {0})
        test g hit socket = elim hit [
          | false ↦ pure tt
          | true ↦ recv n sys socket no_parts >>= deliver g
        ]

        receive : HookZmq → Ptr → M Class E (Unit {0})
        receive g socket = test g (eq_ptr d.socket socket) socket
