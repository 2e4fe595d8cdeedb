-- ===== src/Dispatch.antt =====
-- The rounds of the master's event loop: master.c's `master_dispatch` and `handle_pipe`, and
-- net_util.c's `handle_readlist` and `handle_closelist`.
pub mod Flush
pub mod Releasing
pub mod Closing
use sserver.Prelude.{
  ℕ, zero, suc, Bool, List, [], ◌∷◌, Option, none, some, ltb, ◌==◌, if◌then◌else◌, take, pos,
  negsuc, ◌>>=◌,
}
use sserver.Mem.{Mem, blit}
use sserver.Socket.{Recv, minus_one, put_back}
use sserver.Server.{
  listen, pipe, cli, connect, mcast, svr, null, ServIf, Server, fd_wrap, buff_of, with_buff, update,
}
use sserver.Epoll.{Ret, success, in_only, mod_fd_to_epinfo}
use sserver.NetUtil.{blank, do_fd_close}
use sserver.NetSend.{do_fd_write}
use sserver.Master.{handle_cli, do_fd_open, open_all, handle_mq_send}
use sserver.Work.{do_proc_svr}

-- The read of `handle_pipe` into the buffer: it only drains the pipe.
unfoldable pub drain_pipe : Server → ℕ → Mem → List Recv → Server
drain_pipe s fd m [] = s
drain_pipe s fd m (Recv.delivers bs ∷ rest) =
    let t : Server =
      with_buff s fd
        (record (buff_of s fd) { rbf = some (blit m 0 (take s.setting.max_msg_len bs)) }) in
    record t {
      kernel = record (t.kernel) {
        incoming = update t.kernel.incoming fd (put_back s.setting.max_msg_len bs rest);
      };
    }
drain_pipe s fd m (r ∷ rest) = record s {
  kernel = record (s.kernel) { incoming = update s.kernel.incoming fd rest };
}

-- `handle_pipe`
unfoldable pub handle_pipe : Server → ℕ → Ret
unfolding drain_pipe
handle_pipe s fd = elim (buff_of s fd).rbf [
  | some m ↦ (success, drain_pipe s fd m (s.kernel.incoming fd))
  | none ↦
      if s.kernel.mmap_ok
      then (let t =
            with_buff s fd (record (buff_of s fd) { msglen = 0; rlen = 0; rbf = some blank }) in
          (success, drain_pipe t fd blank (t.kernel.incoming fd)))
      else (minus_one, with_buff s fd (record (buff_of s fd) { msglen = 0; rlen = 0 }))
]

-- what epoll reports of a descriptor
pub record Event : Type 0 where
  pub fd : ℕ
  pub epollin : Bool
  pub epollout : Bool

-- The write of `handle_closelist` before a close.
unfoldable pub flush : Server → ℕ → Option Server
flush s fd =
    if ltb 0 (buff_of s fd).slen
    then (do
      r ← do_fd_write s fd
      some (elim r.0 [
        | pos n ↦ r.1
        | negsuc n ↦ with_buff r.1 fd (record (buff_of r.1 fd) { slen = 0 })
      ]))
    else some s

module _ (so : ServIf) where
  -- A handler's result: a descriptor on which it returned -1 is closed.
  unfoldable pub or_close : ℕ → ℕ → Ret → Server
  or_close ismaster fd r = elim r.0 [ pos n ↦ r.1 | negsuc n ↦ do_fd_close so r.1 fd ismaster ]

  -- `while (do_fd_open(fd)) {}` of `handle_readlist`, which goes on after -1, with fuel
  unfoldable pub open_while : ℕ → Server → ℕ → Option Server
  open_while zero s fd = none
  open_while (suc fuel) s fd =
      let r = do_fd_open so s fd in
      elim r.0 [
        | pos zero ↦ some r.1
        | pos (suc n) ↦ open_while fuel r.1 fd
        | negsuc n ↦ open_while fuel r.1 fd
      ]

  -- `func[ismaster]` of `handle_readlist`
  unfoldable pub read_handler : ℕ → ℕ → Server → ℕ → Option Ret
  read_handler fuel zero s fd = do_proc_svr so fuel s fd
  read_handler fuel (suc n) s fd = handle_cli so s fd

  -- `handle_readlist`, over the descriptors that are linked when it starts
  unfoldable pub read_each : ℕ → ℕ → List ℕ → Server → Option Server
  unfolding or_close open_while read_handler
  read_each fuel ismaster [] s = some s
  read_each fuel ismaster (fd ∷ fds) s = do
    t ← elim (fd_wrap s fd).type [
      | listen ↦ open_while fuel s fd
      | connect ↦ (do r ← read_handler fuel ismaster s fd; some (or_close ismaster fd r))
      | mcast ↦ (do r ← read_handler fuel ismaster s fd; some (or_close ismaster fd r))
      | pipe ↦ (do r ← read_handler fuel ismaster s fd; some (or_close ismaster fd r))
      | cli ↦ (do r ← read_handler fuel ismaster s fd; some (or_close ismaster fd r))
      | svr ↦ (do r ← read_handler fuel ismaster s fd; some (or_close ismaster fd r))
      | null ↦ (do r ← read_handler fuel ismaster s fd; some (or_close ismaster fd r))
    ]
    read_each fuel ismaster fds t

  unfoldable pub handle_readlist : ℕ → ℕ → Server → Option Server
  unfolding read_each
  handle_readlist fuel ismaster s = read_each fuel ismaster s.epinfo.readlist s

  -- `handle_closelist`: what waits is written once, and the descriptor is closed.
  unfoldable pub close_each : ℕ → List ℕ → Server → Option Server
  unfolding flush
  close_each ismaster [] s = some s
  close_each ismaster (fd ∷ fds) s = do
    t ← flush s fd
    close_each ismaster fds (do_fd_close so t fd ismaster)

  unfoldable pub handle_closelist : ℕ → Server → Option Server
  unfolding close_each
  handle_closelist ismaster s = close_each ismaster s.epinfo.closelist s

  -- The branch of EPOLLOUT, of both dispatch loops.
  unfoldable pub write_event : ℕ → Server → ℕ → Option Server
  unfolding or_close
  write_event ismaster s fd = do
    t ←
        if ltb 0 (buff_of s fd).slen
        then (do r ← do_fd_write s fd; some (or_close ismaster fd r))
        else some s
    some (if (buff_of t fd).slen == 0 then mod_fd_to_epinfo t fd in_only else t)

  -- The branch of EPOLLIN of `master_dispatch`.
  unfoldable pub read_event : ℕ → Server → ℕ → Option Server
  unfolding or_close handle_pipe
  read_event fuel s fd = elim (fd_wrap s fd).type [
    | listen ↦ open_all so fuel s fd
    | cli ↦ (do r ← handle_cli so s fd; some (or_close 1 fd r))
    | pipe ↦ some (handle_pipe s fd).1
    | connect ↦ some s
    | mcast ↦ some s
    | svr ↦ some s
    | null ↦ some s
  ]

  -- the events of one epoll_wait; the other branches only log
  unfoldable pub master_events : ℕ → List Event → Server → Option Server
  unfolding write_event read_event
  master_events fuel [] s = some s
  master_events fuel (ev ∷ evs) s = do
    t ←
        if ev.epollin
        then read_event fuel s ev.fd
        else if ev.epollout
        then write_event 1 s ev.fd
        else some s
    master_events fuel evs t

  -- One round of `master_dispatch`, with `nr_used` workers; `fuel` bounds the connections that
  -- wait and the blocks of each send queue.
  unfoldable pub master_round : ℕ → ℕ → List Event → Server → Option Server
  unfolding handle_closelist handle_readlist master_events
  master_round fuel nr_used evs s = do
    a ← handle_closelist 1 s
    b ← handle_readlist fuel 1 a
    c ← handle_mq_send so fuel nr_used 0 b
    master_events fuel evs c
