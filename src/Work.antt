-- ===== src/Work.antt =====
-- work.c: the worker process between the master's queue and the business library.
pub mod Refusal
pub mod Opening
pub mod Serve
pub mod Serving
use sserver.Prelude.{
  ℕ, zero, suc, ◌+◌, ◌-◌, ◌*◌, ◌%◌, Bool, true, false, List, [], ◌∷◌, Option, none, some, ltb, leb,
  ◌==◌, ◌&&◌, ◌||◌, if◌then◌else◌, length, ℤ, pos, negsuc, ◌>>=◌,
}
use sserver.Mem.{Mem, blit, slice, get32}
use sserver.MemQueue.{
  MemBlock, MemQueue, Got, blk_data, blk_align, blk_close, blk_open, blk_head_len, read_block,
  block_data, set_type, set_len, get, pop,
}
use sserver.Socket.{minus_one}
use sserver.Server.{FdBuff, FdSess, ServIf, Server, buff_of, with_buff, with_rq}
use sserver.Epoll.{Ret, success}
use sserver.NetUtil.{push_sq, handle_read}
use sserver.Fds.{get_fd, save_fd, remove_fd}
use sserver.Master.{fd_addr_len}

module _ (so : ServIf) where
  -- `do_blk_close`, of the descriptor that the block names
  unfoldable pub do_blk_close : Server → ℕ → Ret
  unfolding get_fd remove_fd
  do_blk_close s fd = elim (get_fd s fd) [
    | none ↦ (minus_one, s)
    | some sess ↦ (success, remove_fd (so.on_cli_closed fd s) fd)
  ]

  -- `close_cli`: the master is told by a closing block, and the session goes.
  unfoldable pub close_cli : Server → ℕ → Server
  unfolding do_blk_close push_sq
  close_cli s fd = elim (get_fd s fd) [
    | none ↦ s
    | some sess ↦
        let b : MemBlock = record { id = sess.id; fd = fd; type = blk_close; len = blk_head_len } in
        (do_blk_close (push_sq s sess.id b []).1 fd).1
  ]

  -- `do_blk_msg`, of the block at an offset of a queue
  unfoldable pub do_blk_msg : Server → Mem → ℕ → Server
  unfolding close_cli
  do_blk_msg s m p =
      let b = read_block m p in
      if ltb b.len blk_head_len then s else (elim (get_fd s b.fd) [
        | none ↦ s
        | some sess ↦
            let (refused, t) = so.proc_cli_msg (block_data m p) sess s in
            if refused then close_cli t b.fd else t
      ])

-- the `fd_addr_t` at an address: its `ip`, and its `port` of two bytes
abbrev pub addr_ip : Mem → ℕ → ℕ
addr_ip m p = get32 m p

abbrev pub addr_port : Mem → ℕ → ℕ
addr_port m p = m (p + 4) + 256 * m (p + 5)

abbrev pub is_some {ℓ} : {A : Type ℓ} → Option A → Bool
is_some none = false
is_some (some a) = true

abbrev pub not_eq : ℕ → ℕ → Bool
not_eq a b = if a == b then false else true

-- `do_blk_open`, of the block at an offset of a queue
unfoldable pub do_blk_open : Server → Mem → ℕ → Ret
unfolding get_fd save_fd
do_blk_open s m p =
    let b = read_block m p in
    if is_some (get_fd s b.fd) || not_eq b.len (blk_head_len + fd_addr_len)
    then (minus_one, s)
    else (
      success,
      save_fd s (record {
        fd = b.fd;
        id = b.id;
        ip = addr_ip m (p + blk_head_len);
        port = addr_port m (p + blk_head_len);
      }),
    )

-- What `handle_mq_recv` does when `do_blk_open` refuses: the block in the receive queue is turned
-- into a closing block where it stands, and a copy of it is pushed to the send queue.
unfoldable pub refuse_open : Server → ℕ → ℕ → Server
unfolding push_sq set_type set_len
refuse_open s i p =
    let q = (s.works i).rq in
    let m' = set_len (set_type q.mem p blk_close) p blk_head_len in
    (push_sq (with_rq s i (record q { mem = m' })) i (read_block m' p) []).1

module _ (so : ServIf) where
  -- The `switch` of `handle_mq_recv` on the block at the offset `p` of the receive queue.
  unfoldable pub handle_block : Server → ℕ → ℕ → Server
  unfolding do_blk_msg do_blk_open do_blk_close
  handle_block s i p =
      let m = (s.works i).rq.mem in
      let b = read_block m p in
      if b.type == blk_data
      then do_blk_msg so s m p
      else if b.type == blk_open
      then (let (r, t) = do_blk_open s m p in elim r [ pos n ↦ t | negsuc n ↦ refuse_open t i p ])
      else if b.type == blk_close
      then (do_blk_close so s b.fd).1
      else s

  -- `handle_mq_recv` of worker `i`, with fuel for its rounds
  unfoldable pub handle_mq_recv : ℕ → Server → ℕ → Option Server
  unfolding handle_block
  handle_mq_recv zero s i = none
  handle_mq_recv (suc fuel) s i = elim (get (s.works i).rq) [
    | Got.spin ↦ none
    | Got.null q ↦ some (with_rq s i q)
    | Got.found p q ↦
        let t = handle_block (with_rq s i q) i p in
        handle_mq_recv fuel (with_rq t i (pop (t.works i).rq)) i
  ]

  -- The loop `proc_again` of `do_proc_svr`; `at` is the place of `tmp_ptr` in the read buffer.
  unfoldable pub proc_loop : ℕ → Server → ℕ → Mem → ℕ → Option (Server × ℕ)
  proc_loop zero s fd m at = none
  proc_loop (suc fuel) s fd m at =
      let b = buff_of s fd in
      let n =
        if b.msglen == 0 && ltb 0 b.rlen then so.get_msg_len fd (slice m at b.rlen) else b.msglen in
      let s' = with_buff s fd (record b { msglen = n }) in
      let t = so.proc_serv_msg fd (slice m at n) s' in
      let c = buff_of t fd in
      let u = with_buff t fd (record c { rlen = c.rlen - c.msglen; msglen = 0 }) in
      let next = proc_loop fuel u fd m (at + c.msglen) in
      if leb n b.rlen
      then (if ltb 0 (buff_of u fd).rlen then next else some (u, at + c.msglen))
      else some (s', at)

  -- `do_proc_svr`, with fuel for its jumps
  unfoldable pub do_proc_svr : ℕ → Server → ℕ → Option Ret
  unfolding proc_loop
  do_proc_svr fuel s fd = do
    r ← handle_read s fd
    elim r.0 [
      | negsuc n ↦ some (minus_one, r.1)
      | pos n ↦ elim (buff_of r.1 fd).rbf [
        | none ↦ none
        | some m ↦ (do
          e ← proc_loop fuel r.1 fd m 0
          let t = e.0
          let b = buff_of t fd
          some (
              if ltb 0 e.1 && ltb 0 b.rlen
              then (
                success,
                with_buff t fd (record b { rbf = some (blit m 0 (slice m e.1 b.rlen)) }),
              )
              else (success, t)))
      ]
    ]
