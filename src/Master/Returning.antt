-- ===== src/Master/Returning.antt =====
-- `handle_cli` behind its read returns whatever the library answers: the queue's room bounds it.
use sserver.Prelude.{
  ℕ, zero, suc, ◌+◌, ◌-◌, ◌*◌, ◌≤◌, ◌<◌, ◌≡◌, ◌∙◌, refl, sym, ap, subst, Bool, true, false, List,
  Option, some, arith, ltb, leb, if-both, ◌>>=◌,
}
use sserver.Mem.{Mem, slice}
use sserver.MemQueue.{MemBlock, MemQueue, Pushed}
use sserver.Server.{ServIf, Server, fd_wrap, buff_of, with_buff, with_rq}
use sserver.Epoll.{Ret, success}
use sserver.Socket.{minus_one}
use sserver.NetUtil.{push_ret}
use sserver.Master.{
  Framing, raw2blk, want_len, after_push, push_message, frame_round, frame_loop, settle,
  push_frames,
}
use sserver.Server.Updates.{rq-with_rq}
use sserver.Master.Handing.{start, finish}
use sserver.MemQueue.Measure.{Bounded, room, Takes, push-Takes}

-- `mq_push` as its callers see it.
data TakesRet (q : MemQueue) (n : ℕ) : Bool × MemQueue → Type 0 where
  done : {p : MemQueue} → Bounded p → p.tail ≡ q.tail → room p + n ≤ room q → TakesRet q n (true, p)
  full : {p : MemQueue} → Bounded p → p.tail ≡ q.tail → TakesRet q n (false, p)

push_ret-TakesRet :
    (q : MemQueue) (b : MemBlock) (bs : List ℕ) → Bounded q → TakesRet q b.len (push_ret q b bs)
unfolding push_ret
push_ret-TakesRet q b bs h = ret _ (push-Takes q b bs h)
  where
    ret :
        (r : Pushed)
        → Takes q b.len r
        → TakesRet q b.len (elim r [
          | Pushed.done q' ↦ (true, q')
          | Pushed.full q' ↦ (false, q')
          | Pushed.spin ↦ (false, q)
        ])
    ret _ (Takes.done k e f) = TakesRet.done k e f
    ret _ (Takes.full k e) = TakesRet.full k e
    ret _ Takes.spin = TakesRet.full h refl

-- The loop has ended, with a bounded queue whose tail has not moved.
data FrameEnds (q : MemQueue) : Option (Bool × Framing) → Type 0 where
  ends : {r : Bool × Framing} → Bounded r.1.queue → r.1.queue.tail ≡ q.tail → FrameEnds q (some r)

FrameEnds-tail :
    (q p : MemQueue) {o : Option (Bool × Framing)} → p.tail ≡ q.tail → FrameEnds p o → FrameEnds q o
FrameEnds-tail q p e (FrameEnds.ends {r} b f) = FrameEnds.ends b (f ∙ e)

frame_round-FrameEnds :
    (f : Framing) (n : ℕ) (p : Bool × MemQueue) (next : Framing → Option (Bool × Framing))
    → Bounded f.queue
    → TakesRet f.queue (n + 13) p
    → ((g : Framing) → Bounded g.queue → room g.queue < room f.queue → FrameEnds g.queue (next g))
    → FrameEnds f.queue (frame_round f n (after_push f n p) (next (after_push f n p).1))
unfolding frame_round after_push
frame_round-FrameEnds f n _ next h (TakesRet.full b e) later =
    if-both (FrameEnds f.queue) (leb n f.rlen) (λ l. FrameEnds.ends b e)
      (λ l. FrameEnds.ends h refl)
frame_round-FrameEnds f n _ next h (TakesRet.done {p} b e k) later =
    if-both (FrameEnds f.queue) (leb n f.rlen)
      (λ l.
        if-both (FrameEnds f.queue) (ltb 0 (f.rlen - n))
          (λ more. FrameEnds-tail f.queue p e (later _ b (omega arith)))
          (λ out. FrameEnds.ends b e))
      (λ l. FrameEnds.ends h refl)

module _ (so : ServIf) (idx fd : ℕ) (m : Mem) where
  frame_loop-FrameEnds :
      (fuel : ℕ) (f : Framing)
      → Bounded f.queue
      → room f.queue < fuel
      → FrameEnds f.queue (frame_loop so idx fd m fuel f)
  unfolding frame_loop push_message raw2blk
  frame_loop-FrameEnds zero f h l = absurd (omega arith)
  frame_loop-FrameEnds (suc fuel) f h l =
      frame_round-FrameEnds f (want_len so idx fd m f) _ (frame_loop so idx fd m fuel) h
        (push_ret-TakesRet f.queue (raw2blk idx fd (want_len so idx fd m f))
          (slice m f.at (want_len so idx fd m f)) h)
        (λ g b k. frame_loop-FrameEnds fuel g b (omega arith))

-- A result, with a bounded queue whose tail has not moved.
pub data FramesEnd (s : Server) (idx : ℕ) : Option Ret → Type 0 where
  ends :
      {r : Ret}
      → Bounded (r.1.works idx).rq
      → (r.1.works idx).rq.tail ≡ (s.works idx).rq.tail
      → FramesEnd s idx (some r)

-- `push_frames` returns whatever the library answers, length 0 included, and whatever stands in
-- the buffer, if both ends of the worker's queue are within the mapping; so they are after it, and
-- the tail has not moved.
pub push_frames-Ends :
    (so : ServIf) (s : Server) (fd : ℕ) (m : Mem)
    → Bounded (s.works (fd_wrap s fd).idx).rq
    → FramesEnd s (fd_wrap s fd).idx (push_frames so s fd m)
unfolding push_frames
push_frames-Ends so s fd m h = ended _ (
    frame_loop-FrameEnds so (fd_wrap s fd).idx fd m
      (suc ((buff_of s fd).rlen + 2 * (s.works (fd_wrap s fd).idx).rq.len)) (start s fd) h
      (ground (arith, h.head, h.tail)))
  where
    left :
        (r : Ret) (g : Framing)
        → Bounded g.queue
        → g.queue.tail ≡ (s.works (fd_wrap s fd).idx).rq.tail
        → FramesEnd s (fd_wrap s fd).idx (some (r.0, with_rq r.1 (fd_wrap s fd).idx g.queue))
    left r g b e =
        FramesEnd.ends (subst (λ q. Bounded q) (sym (rq-with_rq r.1 (fd_wrap s fd).idx g.queue)) b)
          (ap (λ (q : MemQueue). q.tail) (rq-with_rq r.1 (fd_wrap s fd).idx g.queue) ∙ e)

    ended :
        (o : Option (Bool × Framing))
        → FrameEnds (s.works (fd_wrap s fd).idx).rq o
        → FramesEnd s (fd_wrap s fd).idx (o >>= λ (r : Bool × Framing). some (finish s fd m r))
    ended _ (FrameEnds.ends {r = (true, g)} b e) = left (success, settle s fd m g) g b e
    ended _ (FrameEnds.ends {r = (false, g)} b e) =
        left
          (minus_one, with_buff s fd (record (buff_of s fd) { rlen = g.rlen; msglen = g.msglen })) g
          b e
