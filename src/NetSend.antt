-- ===== src/NetSend.antt =====
-- net_util.c: writing to a descriptor, at once or through its send buffer.
pub mod Writing
pub mod First
pub mod Carried
pub mod Returns
use sserver.Prelude.{
  ℕ, zero, suc, ◌+◌, ◌-◌, Bool, true, false, List, [], ◌∷◌, ◌++◌, Option, none, some, ltb, leb,
  ◌==◌, if◌then◌else◌, length, drop, ℤ, pos, negsuc, ◌>>=◌, ◌&&◌,
}
use sserver.Mem.{Mem, blit, slice}
use sserver.Socket.{Send, Sent, minus_one, safe_tcp_send_n}
use sserver.Server.{FdBuff, ServIf, Kernel, Server, update, buff_of, with_buff}
use sserver.Epoll.{Ret, success, in_only, in_out, mod_fd_to_epinfo}
use sserver.NetUtil.{blank, do_fd_close}

-- The kernel after a send: what went out is on the descriptor's wire.
unfoldable pub note_wire : Server → ℕ → List ℕ → List Send → Server
note_wire s fd wire rest = record s {
  kernel = record (s.kernel) {
    outgoing = update s.kernel.outgoing fd rest;
    wire = update s.kernel.wire fd (s.kernel.wire fd ++ wire);
  };
}

-- `safe_tcp_send_n` on a descriptor
unfoldable pub send_bytes : Server → ℕ → List ℕ → Option Ret
unfolding note_wire
send_bytes s fd bs = do
  t ← safe_tcp_send_n (s.kernel.outgoing fd) bs
  some (t.ret, note_wire s fd t.wire t.rest)

-- The part of `do_fd_write` behind the send: only a partial write moves the bytes that are left
-- to the front and lowers `slen`.
unfoldable pub note_sent : Server → ℕ → Mem → ℤ → Server
note_sent s fd m (negsuc k) = s
note_sent s fd m (pos k) =
    let b = buff_of s fd in
    if k == 0
    then s
    else if ltb k b.slen
    then with_buff s fd
        (record b { sbf = some (blit m 0 (slice m k (b.slen - k))); slen = b.slen - k })
    else s

-- `do_fd_write`, of the send buffer. A send from NULL gives -1. `none` is the failed assertion of
-- `safe_tcp_send_n`.
unfoldable pub write_from : Server → ℕ → Option Mem → Option Ret
unfolding send_bytes note_sent
write_from s fd none = if (buff_of s fd).slen == 0 then none else some (minus_one, s)
write_from s fd (some m) = do
  r ← send_bytes s fd (slice m 0 (buff_of s fd).slen)
  some (r.0, note_sent r.1 fd m r.0)

unfoldable pub do_fd_write : Server → ℕ → Option Ret
unfolding write_from
do_fd_write s fd = write_from s fd (buff_of s fd).sbf

-- Room in the send buffer for `left` more bytes: the process goes on to copy, or returns -1.
-- `none` is the copy through the NULL of a malloc that failed.
pub data Room : Type 0 where
  ready : Mem → Server → Room
  refused : Server → Room

-- The allocation in `do_fd_send`, its test of `malloc`'s result as it is written there.
unfoldable pub grow_sbf : Server → ℕ → ℕ → Option Room
grow_sbf s fd left =
    let b = buff_of s fd in
    elim b.sbf [
      | none ↦
          if s.kernel.malloc_ok
          then some (Room.refused (with_buff s fd (record b { sbf = some blank })))
          else none
      | some m ↦
          if ltb b.sbf_size (b.slen + left)
          then (if s.kernel.malloc_ok
              then some (Room.ready m (with_buff s fd (record b { sbf_size = left + b.slen })))
              else some (Room.refused (with_buff s fd (record b { sbf = none }))))
          else some (Room.ready m s)
    ]

-- the copy of what is left behind the bytes that wait already
unfoldable pub store_left : Server → ℕ → Mem → List ℕ → Server
store_left s fd m bs =
    let b = buff_of s fd in
    with_buff s fd (record b { sbf = some (blit m b.slen bs); slen = b.slen + length bs })

-- The events that `do_fd_send` asks for at its end.
unfoldable pub watch : Server → ℕ → Bool → Server
unfolding mod_fd_to_epinfo
watch s fd is_send =
    if (buff_of s fd).slen == 0
    then mod_fd_to_epinfo s fd in_only
    else if is_send
    then s
    else mod_fd_to_epinfo s fd in_out

module _ (so : ServIf) where
  -- The part of `do_fd_send` behind the sends, of the bytes that did not go out.
  unfoldable pub keep_left : Server → ℕ → List ℕ → Bool → Option Ret
  unfolding grow_sbf store_left watch
  keep_left s fd bs is_send = if length bs == 0 then some (success, watch s fd is_send) else (do
    room ← grow_sbf s fd (length bs)
    elim room [
      | Room.refused t ↦ some (minus_one, t)
      | Room.ready m t ↦
          let u = store_left t fd m bs in
          if ltb 0 u.setting.max_buf_len && ltb u.setting.max_buf_len (buff_of u fd).slen
          then some (minus_one, do_fd_close so u fd 1)
          else some (success, watch u fd is_send)
    ])

  -- The second half of `do_fd_send`: a send at once if nothing waits.
  unfoldable pub send_now : Server → ℕ → List ℕ → Bool → Option Ret
  unfolding keep_left send_bytes
  send_now s fd bs is_send =
      if (buff_of s fd).slen == 0
      then (do
        r ← send_bytes s fd bs
        elim r.0 [
          | negsuc n ↦ some (minus_one, do_fd_close so r.1 fd 1)
          | pos n ↦ keep_left r.1 fd (drop n bs) is_send
        ])
      else keep_left s fd bs is_send

  -- `do_fd_send`: what waits goes first. `none` is a failed assertion or a write through NULL.
  unfoldable pub do_fd_send : Server → ℕ → List ℕ → Option Ret
  unfolding send_now do_fd_write
  do_fd_send s fd bs = if (buff_of s fd).slen == 0 then send_now s fd bs false else (do
    r ← do_fd_write s fd
    elim r.0 [
      | negsuc n ↦ some (minus_one, do_fd_close so r.1 fd 1)
      | pos n ↦ send_now r.1 fd bs true
    ])
