-- ===== src/Connect.antt =====
-- net_util.c: the sockets that listen and connect, and the connections of a worker to servers.
pub mod Open
use sserver.Prelude.{
  ℕ, ◌*◌, Bool, true, false, ◌&&◌, ◌||◌, List, [], ◌∷◌, Option, none, some, ltb, leb, if◌then◌else◌,
  ℤ, pos, negsuc,
}
use sserver.Socket.{minus_one}
use sserver.Server.{svr, ServIf, Server}
use sserver.Epoll.{Ret, add_fdinfo_to_epinfo}
use sserver.NetSend.{do_fd_send}

-- the socket types that `safe_socket_listen` tells apart
pub data SockType : Type 0 where
  stream dgram other : SockType

-- How the system calls answer: the new socket, and whether each other call succeeds.
pub record Setup : Type 0 where
  pub socket : Option ℕ
  pub inet_pton_ok : Bool
  pub reuse_ok : Bool
  pub rcvbuf_ok : Bool
  pub sndbuf_ok : Bool
  pub bind_ok : Bool
  pub listen_ok : Bool
  pub connect_ok : Bool

-- What a function gives, with the descriptors that it opened and closed.
pub record Made : Type 0 where
  pub ret : ℤ
  pub opened : List ℕ
  pub closed : List ℕ

abbrev failed : Made
failed = record { ret = minus_one; opened = []; closed = [] }

abbrev given_up : ℕ → Made
given_up fd = record { ret = minus_one; opened = fd ∷ []; closed = fd ∷ [] }

abbrev ready : ℕ → Made
ready fd = record { ret = pos fd; opened = fd ∷ []; closed = [] }

-- whether the calls behind `socket` of `safe_socket_listen` all succeed
unfoldable pub listen_calls : Setup → SockType → Bool
listen_calls u SockType.stream =
    u.reuse_ok && u.rcvbuf_ok && u.sndbuf_ok && u.bind_ok && u.listen_ok
listen_calls u SockType.dgram = u.rcvbuf_ok && u.sndbuf_ok && u.bind_ok
listen_calls u SockType.other = u.reuse_ok && u.rcvbuf_ok && u.sndbuf_ok && u.bind_ok

-- `safe_socket_listen`. `none` is the failed assertion on its arguments.
unfoldable pub safe_socket_listen : Setup → SockType → ℕ → ℕ → Option Made
unfolding listen_calls
safe_socket_listen u type backlog bufsize =
    if ltb 0 backlog && ltb 0 bufsize && leb bufsize (10 * 1024 * 1024)
    then some (elim u.socket [
      | none ↦ failed
      | some fd ↦ if listen_calls u type then ready fd else given_up fd
    ])
    else none

-- `safe_tcp_connect`; the timeouts and the buffer sizes are set without a check.
unfoldable pub safe_tcp_connect : Setup → Made
safe_tcp_connect u =
    if u.inet_pton_ok
    then (elim u.socket [
      | none ↦ failed
      | some fd ↦ if u.connect_ok then ready fd else given_up fd
    ])
    else failed

-- `connect_to_serv`, of an address `ip`: a descriptor 0 counts as a failure, and a failed
-- registration is not seen.
unfoldable pub connect_to_serv : Setup → Server → ℕ → ℕ → Ret
unfolding safe_tcp_connect
connect_to_serv u s ip port =
    if u.inet_pton_ok
    then (elim (safe_tcp_connect u).ret [
      | negsuc n ↦ (minus_one, s)
      | pos fd ↦
          if ltb 0 fd then (pos fd, (add_fdinfo_to_epinfo s fd 0 svr ip port).1) else (minus_one, s)
    ])
    else (minus_one, s)

-- `send_to_serv`
unfoldable pub send_to_serv : ServIf → Server → ℕ → List ℕ → Option Ret
send_to_serv so s fd msg = do_fd_send so s fd msg
