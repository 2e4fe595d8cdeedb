-- ===== src/Master/Receiving.antt =====
-- `handle_cli` from the client's socket to the worker's queue.
use sserver.Prelude.{ℕ, ◌+◌, ◌^◌, ◌<◌, ◌≡◌, List, ◌∷◌, ◌++◌, Option, none, some, pos, negsuc}
use sserver.Mem.{Mem, slice}
use sserver.MemQueue.Layout.{Message}
use sserver.MemQueue.Fifo.{Holds}
use sserver.Socket.{minus_one}
use sserver.Socket.Stream.{stream}
use sserver.Server.{ServIf, Server, fd_wrap, buff_of}
use sserver.Epoll.{Ret}
use sserver.Master.{push_frames}
use sserver.Master.Stream.{messages, Cuts, known_after}
use sserver.Master.Handing.{Left}

-- What `handle_cli` leaves of a client with the read buffer `m`, whose worker's queue held `xs`. Either
-- the read failed, and no queue has changed. Or bytes came from the client's stream, the rest of
-- which is still to come; those that waited and those that came are messages, each as long as the
-- library says, and a rest; the queue holds these messages behind `xs`; and `Left` says why the rest
-- is no message of the queue.
pub data CliPost (so : ServIf) (s : Server) (fd : ℕ) (m : Mem) (xs : List Message)
    : Ret → Type 0 where
  closed : (t : Server) → t.works ≡ s.works → CliPost so s fd m xs (minus_one, t)
  handed :
      {r : Ret} (came rest : List ℕ) (bss : List (List ℕ))
      → stream (s.kernel.incoming fd) ≡ came ++ stream (r.1.kernel.incoming fd)
      → Cuts so fd (buff_of s fd).msglen (slice m 0 (buff_of s fd).rlen ++ came) bss rest
      → Holds (r.1.works (fd_wrap s fd).idx).rq (xs ++ messages (fd_wrap s fd).idx fd bss)
      → Left so
          (fd_wrap s fd).idx
          fd
          (xs ++ messages (fd_wrap s fd).idx fd bss)
          (known_after (buff_of s fd).msglen bss)
          rest
          r
      → CliPost so s fd m xs r

pub data CliEnds (so : ServIf) (s : Server) (fd : ℕ) (m : Mem) (xs : List Message)
    : Option Ret → Type 0 where
  ends : {r : Ret} → CliPost so s fd m xs r → CliEnds so s fd m xs (some r)

module _ (so : ServIf) (s : Server) (fd : ℕ) (m : Mem) (xs : List Message)
    (pos_len : (b : ℕ) (bs : List ℕ) → 0 < so.get_msg_len fd (b ∷ bs))
    (idx : (fd_wrap s fd).idx < 2 ^ 32) (small : fd < 2 ^ 32)
    (some_room : 0 < s.setting.max_buf_len) (room : s.setting.max_buf_len + 13 < 2 ^ 31)
    (holds : Holds (s.works (fd_wrap s fd).idx).rq xs) where
  after_read : Ret → Option Ret
  after_read r = elim r.0 [
    | negsuc n ↦ some (minus_one, r.1)
    | pos n ↦ elim (buff_of r.1 fd).rbf [ none ↦ none | some m ↦ push_frames so r.1 fd m ]
  ]
