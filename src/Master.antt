-- ===== src/Master.antt =====
-- master.c: the master process between its clients and the workers' queues.
pub mod Stream
pub mod Cutting
pub mod Handing
pub mod Receiving
pub mod Deliver
pub mod Draining
pub mod Returning
use sserver.Prelude.{
  ℕ, zero, suc, ◌+◌, ◌-◌, ◌*◌, ◌/◌, ◌%◌, Bool, true, false, List, [], ◌∷◌, ◌++◌, Option, none, some,
  ltb, leb, ◌==◌, ◌&&◌, if◌then◌else◌, pos, negsuc, ◌>>=◌,
}
use sserver.Mem.{Mem, blit, slice, le32}
use sserver.MemQueue.{
  MemBlock, MemQueue, Got, blk_data, blk_close, blk_open, blk_head_len, read_block, block_data, get,
  pop,
}
use sserver.Socket.{minus_one, Peer, safe_tcp_accept}
use sserver.Server.{cli, ServIf, Server, fd_wrap, buff_of, with_buff, with_rq, with_sq}
use sserver.Epoll.{Ret, success, add_fdinfo_to_epinfo}
use sserver.NetUtil.{push_ret, push_rq, handle_read, do_fd_close}
use sserver.NetSend.{do_fd_send}

-- `raw2blk`
unfoldable pub raw2blk : ℕ → ℕ → ℕ → MemBlock
raw2blk idx fd msglen = record { id = idx; fd = fd; type = blk_data; len = msglen + blk_head_len }

-- The variables of the loop of `handle_cli`: the worker's queue, the place `tmp_ptr` in the read
-- buffer, and the buffer's counts.
pub record Framing : Type 0 where
  pub queue : MemQueue
  pub at : ℕ
  pub rlen : ℕ
  pub msglen : ℕ

-- The variables after a push, which returns 0 or not.
unfoldable pub after_push : Framing → ℕ → Bool × MemQueue → Bool × Framing
after_push f n (true, q) =
    (true, record { queue = q; at = f.at + n; rlen = f.rlen - n; msglen = 0 })
after_push f n (false, q) = (false, record f { queue = q; msglen = n })

-- One pass of the loop, for a message of `n` bytes and what its push gives; `again` is what the
-- jump to `push_again` gives.
unfoldable pub frame_round :
    Framing → ℕ → Bool × Framing → Option (Bool × Framing) → Option (Bool × Framing)
frame_round f n r again =
    if leb n f.rlen
    then (if r.0 then (if ltb 0 r.1.rlen then again else some (true, r.1)) else some (false, r.1))
    else some (true, record f { msglen = n })

module _ (so : ServIf) (idx fd : ℕ) (m : Mem) where
  -- The length of the message at `tmp_ptr`: asked for once, and kept until the message is whole.
  unfoldable pub want_len : Framing → ℕ
  want_len f =
      if f.msglen == 0 && ltb 0 f.rlen then so.get_msg_len fd (slice m f.at f.rlen) else f.msglen

  -- One message to the queue: whether `mq_push` returns 0, and the variables after it.
  unfoldable pub push_message : Framing → ℕ → Bool × Framing
  unfolding raw2blk push_ret after_push
  push_message f n = after_push f n (push_ret f.queue (raw2blk idx fd n) (slice m f.at n))

  -- The loop `push_again` of `handle_cli`, with fuel for the jumps. The Boolean is false where it
  -- returns -1; `none` means that the fuel ran out.
  unfoldable pub frame_loop : ℕ → Framing → Option (Bool × Framing)
  unfolding want_len push_message frame_round
  frame_loop zero f = none
  frame_loop (suc fuel) f =
      let n = want_len f in let r = push_message f n in frame_round f n r (frame_loop fuel r.1)

-- The copy of what is left to the front of the buffer.
unfoldable pub settle : Server → ℕ → Mem → Framing → Server
settle s fd m f = with_buff s fd (record (buff_of s fd) {
  rbf = some (if ltb 0 f.at && ltb 0 f.rlen then blit m 0 (slice m f.at f.rlen) else m);
  rlen = f.rlen;
  msglen = f.msglen;
})

module _ (so : ServIf) where
  -- The part of `handle_cli` behind the read. A round takes at least one byte of the buffer, or a
  -- block's head of the queue if the library answers with length 0, so the fuel covers both.
  unfoldable pub push_frames : Server → ℕ → Mem → Option Ret
  unfolding settle frame_loop
  push_frames s fd m =
      let idx = (fd_wrap s fd).idx in
      let b = buff_of s fd in
      let q = (s.works idx).rq in
      (do
        r ←
            frame_loop so idx fd m (suc (b.rlen + 2 * q.len))
              (record { queue = q; at = 0; rlen = b.rlen; msglen = b.msglen })
        some (
            if r.0 then (success, with_rq (settle s fd m r.1) idx r.1.queue) else (
              minus_one,
              with_rq (with_buff s fd (record b { rlen = r.1.rlen; msglen = r.1.msglen })) idx
                  r.1.queue,
            )))

  -- `handle_cli`
  unfoldable pub handle_cli : Server → ℕ → Option Ret
  unfolding push_frames
  handle_cli s fd = do
    r ← handle_read s fd
    elim r.0 [
      | negsuc n ↦ some (minus_one, r.1)
      | pos n ↦ elim (buff_of r.1 fd).rbf [ none ↦ none | some m ↦ push_frames r.1 fd m ]
    ]

  -- `do_blk_send`, of the block at an offset of a queue
  unfoldable pub do_blk_send : Server → Mem → ℕ → Option Ret
  do_blk_send s m p =
      let b = read_block m p in
      if b.type == blk_close
      then some (success, do_fd_close so s b.fd 2)
      else do_fd_send so s b.fd (block_data m p)

  -- The inner loop of `handle_mq_send` over the send queue of worker `i`, with fuel for its rounds.
  unfoldable pub send_loop : ℕ → Server → ℕ → Option Server
  unfolding do_blk_send
  send_loop zero s i = none
  send_loop (suc fuel) s i = elim (get (s.works i).sq) [
    | Got.spin ↦ none
    | Got.null q ↦ some (with_sq s i q)
    | Got.found p q ↦ (do
      r ← do_blk_send (with_sq s i q) q.mem p
      send_loop fuel (with_sq r.1 i (pop (r.1.works i).sq)) i)
  ]

  -- `handle_mq_send` over the workers from `i` on, `n` of them; `fuel` bounds the blocks of each.
  unfoldable pub handle_mq_send : ℕ → ℕ → ℕ → Server → Option Server
  unfolding send_loop
  handle_mq_send fuel zero i s = some s
  handle_mq_send fuel (suc n) i s = do t ← send_loop fuel s i; handle_mq_send fuel n (i + 1) t

-- `fd_addr_t` as bytes, packed
abbrev pub addr_bytes : ℕ → ℕ → List ℕ
addr_bytes ip port = le32 ip ++ (port % 256 ∷ port / 256 % 256 ∷ [])

abbrev pub fd_addr_len : ℕ
fd_addr_len = 6

abbrev pub open_block : ℕ → ℕ → MemBlock
open_block idx fd = record { id = idx; fd = fd; type = blk_open; len = blk_head_len + fd_addr_len }

module _ (so : ServIf) where
  -- The part of `do_fd_open` for a connection that was accepted.
  unfoldable pub admit : Server → ℕ → Peer → Ret
  admit s fd c =
      let r = add_fdinfo_to_epinfo s c.fd (fd_wrap s fd).idx cli c.ip c.port in
      elim r.0 [
        | negsuc n ↦ (success, r.1)
        | pos n ↦
            let idx = (fd_wrap r.1 c.fd).idx in
            let (done, t) = push_rq r.1 idx (open_block idx c.fd) (addr_bytes c.ip c.port) in
            if done then (pos c.fd, t) else (pos c.fd, do_fd_close so t fd 2)
      ]

  -- `do_fd_open`
  unfoldable pub do_fd_open : Server → ℕ → Ret
  unfolding admit
  do_fd_open s fd =
      let (c, rest, shut) = safe_tcp_accept s.kernel.nonblock_ok true s.kernel.connections in
      let t : Server = record s {
        kernel = record (s.kernel) { connections = rest; closed = shut ++ s.kernel.closed };
      } in
      elim c [ none ↦ (minus_one, t) | some c ↦ if c.fd == 0 then (success, t) else admit t fd c ]

  -- `while (do_fd_open(fd) != -1) ;`, with fuel for its rounds
  unfoldable pub open_all : ℕ → Server → ℕ → Option Server
  unfolding do_fd_open
  open_all zero s fd = none
  open_all (suc fuel) s fd =
      let r = do_fd_open s fd in elim r.0 [ negsuc n ↦ some r.1 | pos n ↦ open_all fuel r.1 fd ]
