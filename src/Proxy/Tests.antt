-- ===== src/Proxy/Tests.antt =====
-- An example of the proxy, on a system that numbers its sockets.
use c3qo.Base.{ℕ, suc, ◌≡◌, refl, some, [], pos, arith}
use c3qo.World.{World, Sys, ok}
use c3qo.World.Idle.{quiet_system}
use c3qo.Classes.{Class}
use c3qo.HookZmq.Opening.{opens}
use c3qo.Program.{new_world}
use c3qo.Proxy.{proxy_main}
use c3qo.Proxy.Ending.{proxy_main-Opens}

abbrev numbered : Sys ℕ
numbered = record quiet_system { zmq_socket = λ ctx type e. (some e, suc e) }

proxy_main-Opens_example :
    (w : World Class ℕ) × (proxy_main numbered (new_world 7) ≡ ok (pos 0, w))
    × (w.mgr.fd ≡ [])
    × (w.mgr.callback ≡ [])
    × (w.env
        ≡ numbered.zmq_ctx_term (some 1) (
            numbered.zmq_close
              (some 7)
              (numbered.zmq_ctx_term (some 1) (numbered.zmq_close (some 8) 9))))
proxy_main-Opens_example =
    proxy_main-Opens numbered 1 7 1 8 refl refl (opens (pos 0) refl refl refl refl refl)
      (opens (pos 0) refl refl refl refl refl) (omega arith) refl
