-- ===== src/Flow.antt =====
-- master.c and work.c together: a client's bytes, read by the master, reach the business library
-- of a worker as the messages that they were cut into.
use sserver.Prelude.{ℕ, suc, ◌≡◌, true, List, [], ◌∷◌, ◌++◌, arith, length}
use sserver.Mem.{Mem, slice}
use sserver.Server.{ServIf, Server, fd_wrap, buff_of}
use sserver.Epoll.{Ret}
use sserver.Master.Stream.{messages, Cuts, known_after}
use sserver.Master.Handing.{Left}
use sserver.Socket.{minus_one}
use sserver.Socket.Stream.{stream}
use sserver.Work.{handle_mq_recv}
use sserver.Work.Serving.{Quiet, Orderly, ServePost}

-- A client's data opens no descriptor.
pub messages-Orderly :
    (idx fd : ℕ) (bss : List (List ℕ)) → Orderly (λ fd. true) (messages idx fd bss)
messages-Orderly idx fd [] = tt
messages-Orderly idx fd (bs ∷ bss) = (λ e. absurd (ground (arith, e)), messages-Orderly idx fd bss)

pub length-messages : (idx fd : ℕ) (bss : List (List ℕ)) → length (messages idx fd bss) ≡ length bss
length-messages idx fd [] = omega arith
length-messages idx fd (bs ∷ bss) = omega (arith, length-messages idx fd bss)

-- What a read of a client's socket comes to at the worker: the read failed and no queue has changed;
-- or the bytes that waited and those that came are messages, each as long as the library says, and a
-- rest, which is no message of the queue, as `Left` says; and the worker serves exactly these messages.
pub data Reached (so : ServIf) (i : ℕ) (quiet : Quiet so i) (s w : Server) (fd : ℕ) (m : Mem)
    (r : Ret) : Type 0 where
  closed : r.0 ≡ minus_one → r.1.works ≡ s.works → Reached so i quiet s w fd m r
  served :
      (came rest : List ℕ) (bss : List (List ℕ))
      → stream (s.kernel.incoming fd) ≡ came ++ stream (r.1.kernel.incoming fd)
      → Cuts so fd (buff_of s fd).msglen (slice m 0 (buff_of s fd).rlen ++ came) bss rest
      → Left so
          (fd_wrap s fd).idx
          fd
          (messages (fd_wrap s fd).idx fd bss)
          (known_after (buff_of s fd).msglen bss)
          rest
          r
      → ServePost so i quiet
          (messages (fd_wrap s fd).idx fd bss)
          w
          (handle_mq_recv so (suc (length bss)) w i)
      → Reached so i quiet s w fd m r
