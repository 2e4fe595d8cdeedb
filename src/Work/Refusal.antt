-- ===== src/Work/Refusal.antt =====
-- What `handle_mq_recv` makes of an opening block for a descriptor that is open already.
use sserver.Prelude.{ℕ, ◌+◌, ◌^◌, ◌<◌, ◌≡◌, ap, ap₂, ◌∙◌, some, arith}
use sserver.Mem.{Mem, get32}
use sserver.Mem.Frame.{get32-le32}
use sserver.MemQueue.{
  MemBlock, blk_close, blk_open, blk_head_len, read_block, set_type, set_len, pop,
}
use sserver.Server.{FdSess, ServIf, Server}
use sserver.NetUtil.{push_ret, push_sq}
use sserver.Fds.{get_fd}
use sserver.Master.{fd_addr_len}
use sserver.Work.{do_blk_open, refuse_open, handle_block}

rq-refuse_open :
    (s : Server) (i p : ℕ)
    → ((refuse_open s i p).works i).rq.mem
      ≡ set_len (set_type (s.works i).rq.mem p blk_close) p blk_head_len
unfolding refuse_open push_sq push_ret
rq-refuse_open s i p = ground arith

tail-refuse_open :
    (s : Server) (i p : ℕ) → ((refuse_open s i p).works i).rq.tail ≡ (s.works i).rq.tail
unfolding refuse_open push_sq push_ret
tail-refuse_open s i p = ground arith

handle_block-refuse :
    (so : ServIf) (s : Server) (i p : ℕ) (sess : FdSess)
    → let b = read_block (s.works i).rq.mem p in
      b.type ≡ blk_open → s.sessions b.fd ≡ some sess → handle_block so s i p ≡ refuse_open s i p
unfolding handle_block do_blk_open get_fd
handle_block-refuse so s i p sess t e = ground arith

set_len-read : (m : Mem) (p n : ℕ) → n < 2 ^ 32 → get32 (set_len m p n) (p + 9) ≡ n
unfolding set_len
set_len-read m p n h = get32-le32 m (p + 9) n h

-- the block at the tail of worker `i`'s receive queue
abbrev pub tail_block : Server → ℕ → MemBlock
tail_block s i = read_block (s.works i).rq.mem (s.works i).rq.tail

-- An opening block of a descriptor that has a session already is shortened in place to a block's
-- head, so the pop that follows moves the tail over the head alone, and not over the address that
-- stands behind it: the next block is read from the middle of this one.
pub handle_block_refused :
    (so : ServIf) (s : Server) (i : ℕ) (sess : FdSess)
    → (tail_block s i).type ≡ blk_open
    → s.sessions (tail_block s i).fd ≡ some sess
    → (tail_block s i).len ≡ blk_head_len + fd_addr_len
    → ((pop (s.works i).rq).tail ≡ (s.works i).rq.tail + 19)
      × ((pop ((handle_block so s i (s.works i).rq.tail).works i).rq).tail
          ≡ (s.works i).rq.tail + 13)
unfolding pop
handle_block_refused so s i sess t e l = (
  ap (λ n. (s.works i).rq.tail + n) (unfold read_block in l),
  ap (λ (u : Server). (u.works i).rq.tail + get32 (u.works i).rq.mem ((u.works i).rq.tail + 9))
        (handle_block-refuse so s i (s.works i).rq.tail sess t e)
      ∙ ap₂ ◌+◌ same (
          ap (λ r. get32 (u.works i).rq.mem (r + 9)) same
          ∙ ap (λ m. get32 m ((s.works i).rq.tail + 9)) (rq-refuse_open s i (s.works i).rq.tail)
          ∙ set_len-read _ (s.works i).rq.tail 13 (omega arith)),
)
  where
    u : Server
    u = refuse_open s i (s.works i).rq.tail

    same : (u.works i).rq.tail ≡ (s.works i).rq.tail
    same = tail-refuse_open s i (s.works i).rq.tail
