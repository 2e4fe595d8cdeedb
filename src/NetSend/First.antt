-- ===== src/NetSend/First.antt =====
-- `do_fd_send` on a descriptor that has no send buffer yet.
use sserver.Prelude.{
  ℕ, ◌<◌, ◌≡◌, List, ◌++◌, Option, some, ℤ, pos, negsuc, length, take, drop, false,
}
use sserver.Socket.{minus_one}
use sserver.Server.{Server, ServIf, buff_of}
use sserver.Epoll.{Ret, success}
use sserver.NetUtil.{do_fd_close}
use sserver.NetSend.{keep_left}

-- What a send leaves of a descriptor without a send buffer, whose allocation succeeds: all bytes
-- went out; or the first `k` of them went out, the others are nowhere, and the result is -1
-- though the descriptor stays open; or the send failed and the descriptor is closed.
pub data FirstPost (so : ServIf) (s : Server) (fd : ℕ) (bs : List ℕ) : Ret → Type 0 where
  whole :
      {t : Server}
      → t.kernel.wire fd ≡ s.kernel.wire fd ++ bs
      → (buff_of t fd).slen ≡ 0
      → FirstPost so s fd bs (success, t)
  lost :
      (k : ℕ) {t : Server}
      → k < length bs
      → t.kernel.wire fd ≡ s.kernel.wire fd ++ take k bs
      → (buff_of t fd).slen ≡ 0
      → t.kernel.closed ≡ s.kernel.closed
      → FirstPost so s fd bs (minus_one, t)
  broken :
      (j : ℕ) (u : Server)
      → u.kernel.wire fd ≡ s.kernel.wire fd ++ take j bs
      → FirstPost so s fd bs (minus_one, do_fd_close so u fd 1)

abbrev after_send : ServIf → Server → ℕ → List ℕ → ℤ → Server → Option Ret
after_send so s fd bs ret u = elim ret [
  | negsuc n ↦ some (minus_one, do_fd_close so u fd 1)
  | pos n ↦ keep_left so u fd (drop n bs) false
]
