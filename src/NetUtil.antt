-- ===== src/NetUtil.antt =====
-- net_util.c: reading from a descriptor, closing it, and the pushes of both processes.
pub mod Reading
use sserver.Prelude.{
  ℕ, zero, suc, ◌+◌, ◌-◌, ◌%◌, ◌/◌, ◌^◌, Bool, true, false, List, [], ◌∷◌, ◌++◌, Option, none, some,
  ltb, leb, ◌==◌, if◌then◌else◌, length, ℤ, pos, negsuc, ◌+ℤ◌, ◌-ℤ◌, ◌>>=◌,
}
use sserver.Mem.{Mem, blit, slice}
use sserver.MemQueue.{MemBlock, MemQueue, Pushed, blk_data, blk_close, blk_head_len, push}
use sserver.Socket.{Recv, Send, Received, Sent, minus_one, safe_tcp_recv_n, safe_tcp_send_n}
use sserver.Server.{
  FdType, listen, connect, mcast, pipe, cli, svr, null, FdBuff, FdAddr, FdWrap, EpollInfo, FdSess,
  ServIf, Interest, Kernel, Server, update, fd_wrap, buff_of, with_epinfo, with_fd, with_buff,
  with_rq, with_sq, with_interest, with_closed,
}
use sserver.Epoll.{
  Ret, success, in_only, in_out, mod_fd_to_epinfo, is_null, release_fd, do_add_to_readlist,
  do_del_from_readlist,
}

-- `mq_push` as its callers see it: whether it returns 0, and the queue after it. A jump
-- that comes twice, for which `push` has no fuel, counts as a refusal.
unfoldable pub push_ret : MemQueue → MemBlock → List ℕ → Bool × MemQueue
push_ret q b bs = elim (push q b bs) [
  | Pushed.done q' ↦ (true, q')
  | Pushed.full q' ↦ (false, q')
  | Pushed.spin ↦ (false, q)
]

abbrev pub close_block : Server → ℕ → MemBlock
close_block s fd = record { id = (fd_wrap s fd).idx; fd = fd; type = blk_close; len = blk_head_len }

-- `mq_push(&workmgr.works[i].rq, blk, data)`, and whether it returns 0
unfoldable pub push_rq : Server → ℕ → MemBlock → List ℕ → Bool × Server
unfolding push_ret
push_rq s i b bs = let (done, q) = push_ret (s.works i).rq b bs in (done, with_rq s i q)

-- `mq_push(&workmgr.works[i].sq, blk, data)`, and whether it returns 0
unfoldable pub push_sq : Server → ℕ → MemBlock → List ℕ → Bool × Server
unfolding push_ret
push_sq s i b bs = let (done, q) = push_ret (s.works i).sq b bs in (done, with_sq s i q)

-- `send_to_cli`
unfoldable pub send_to_cli : Server → FdSess → List ℕ → ℤ × Server
unfolding push_sq
send_to_cli s sess msg =
    let b : MemBlock = record {
      id = sess.id;
      fd = sess.fd;
      type = blk_data;
      len = length msg + blk_head_len;
    } in
    let (done, t) = push_sq s sess.id b msg in (if done then success else minus_one, t)

-- the memory behind a buffer: zero where nothing was written yet
abbrev pub blank : Mem
blank = λ a. 0

-- `mmap` of a read buffer in `handle_read`, where there is none yet. `none` is its failure.
unfoldable pub open_rbf : Server → ℕ → Option (Mem × Server)
open_rbf s fd = elim (buff_of s fd).rbf [
  | some m ↦ some (m, s)
  | none ↦
      if s.kernel.mmap_ok
      then some
          (blank, with_buff s fd (record (buff_of s fd) { msglen = 0; rlen = 0; rbf = some blank }))
      else none
]

-- The part of `handle_read` behind the receive: a count above 0 is added to `rlen`.
unfoldable pub note_received : Server → ℕ → ℤ → Mem → List Recv → Ret
unfolding do_add_to_readlist do_del_from_readlist
note_received s fd ret m rest =
    let t : Server = record s {
      kernel = record (s.kernel) { incoming = update s.kernel.incoming fd rest };
    } in
    let b = buff_of s fd in
    elim ret [
      | negsuc n ↦ (minus_one, with_buff t fd (record b { rbf = some m }))
      | pos zero ↦ (minus_one, with_buff t fd (record b { rbf = some m }))
      | pos (suc n) ↦
          let u = with_buff t fd (record b { rlen = b.rlen + suc n; rbf = some m }) in
          if b.rlen + suc n == s.setting.max_buf_len
          then (pos (suc n), do_add_to_readlist u fd)
          else (pos (suc n), do_del_from_readlist u fd)
    ]

-- The part of `handle_read` behind the mmap, whose answer is the buffer and the state with it.
-- (A failed mmap leaves a pointer in `rbf` that only the close which follows takes away.)
unfoldable pub read_into : Server → ℕ → Option (Mem × Server) → Option Ret
unfolding note_received
read_into s fd none = some (minus_one, s)
read_into s fd (some (m, t)) =
    if leb s.setting.max_buf_len (buff_of t fd).rlen then some (success, t) else (do
      r ←
          safe_tcp_recv_n (t.kernel.incoming fd) m (buff_of t fd).rlen
            (s.setting.max_buf_len - (buff_of t fd).rlen)
      some (note_received t fd r.ret r.mem r.rest))

-- `handle_read`. `none` would be the failed assertion of `safe_tcp_recv_n`.
unfoldable pub handle_read : Server → ℕ → Option Ret
unfolding open_rbf read_into
handle_read s fd = read_into s fd (open_rbf s fd)

module _ (so : ServIf) where
  -- `do_fd_close`: 0 is a worker, which tells the business library; anything else is the master,
  -- which tells the worker by a closing block.
  unfoldable pub do_fd_close : Server → ℕ → ℕ → Server
  unfolding push_rq
  do_fd_close s fd ismaster =
      if is_null (fd_wrap s fd).type
      then s
      else if ismaster == 0
      then release_fd (so.on_serv_closed fd s) fd
      else release_fd (push_rq s (fd_wrap s fd).idx (close_block s fd) []).1 fd
