-- ===== src/Master/Handing.antt =====
-- `handle_cli` behind its read: the messages reach the worker's queue, and the rest stays.
use sserver.Prelude.{
  ℕ, zero, suc, ◌+◌, ◌-◌, length, ◌*◌, ◌^◌, ◌<◌, ◌≡◌, refl, sym, ap, subst, ◌∙◌, Bool, true, false,
  ltb, lt→ltb, ◌&&◌, List, [], ◌∷◌, ◌++◌, Option, none, some, arith, if◌then◌else◌, ◌>>=◌,
}
use sserver.Mem.{Mem, slice, blit}
use sserver.Mem.Frame.{slice-blit_self, slice-append, length-slice}
use sserver.MemQueue.{MemQueue}
use sserver.MemQueue.Layout.{Message, block_of}
use sserver.NetUtil.{push_ret}
use sserver.MemQueue.Fifo.{Holds}
use sserver.Socket.{minus_one}
use sserver.Server.{FdBuff, ServIf, Server, fd_wrap, buff_of, with_buff, with_rq}
use sserver.Server.Updates.{buff_of-with_buff, rq-with_rq}
use sserver.Epoll.{Ret, success}
use sserver.Master.{Framing, settle, push_frames}
use sserver.Master.Stream.{message, messages, Cut, asked, known_after}
use sserver.Master.Cutting.{Stop, Framed, FramePost, block_of-slice, frame_loop-FramePost}

-- the bytes that wait in a read buffer
abbrev pub bytes_of : FdBuff → List ℕ
bytes_of b = elim b.rbf [ none ↦ [] | some m ↦ slice m 0 b.rlen ]

-- What was moved to the front of the buffer is what was left.
slice-moved : (m : Mem) (p n : ℕ) → slice (blit m 0 (slice m p n)) 0 n ≡ slice m p n
slice-moved m p n =
    subst (λ k. slice (blit m 0 (slice m p n)) 0 k ≡ slice m p n) (length-slice m p n)
      (slice-blit_self m 0 (slice m p n))

slice-settled :
    (m : Mem) (p n : ℕ)
    → slice (if ltb 0 p && ltb 0 n then blit m 0 (slice m p n) else m) 0 n ≡ slice m p n
unfolding slice
slice-settled m zero n = refl
slice-settled m (suc p) zero = refl
slice-settled m (suc p) (suc n) =
    subst
      (λ b.
        slice (if b then blit m 0 (slice m (suc p) (suc n)) else m) 0 (suc n)
        ≡ slice m (suc p) (suc n))
      (sym both) (slice-moved m (suc p) (suc n))
  where
    both : (ltb 0 (suc p) && ltb 0 (suc n)) ≡ true
    both = rw (lt→ltb 0 (suc p) (omega arith), lt→ltb 0 (suc n) (omega arith)) refl

settle-bytes_of :
    (s : Server) (fd : ℕ) (m : Mem) (f : Framing)
    → bytes_of (buff_of (settle s fd m f) fd) ≡ slice m f.at f.rlen
unfolding settle
settle-bytes_of s fd m f = ap bytes_of (buff_of-with_buff s fd _) ∙ slice-settled m f.at f.rlen

-- What becomes of the rest behind the messages `ys` that the queue of worker `idx` holds: nothing is
-- left; or the buffer keeps it, with the length of its message, which is not whole; or its message is
-- whole, the queue has refused it, and the result is -1.
pub data Left (so : ServIf) (idx fd : ℕ) (ys : List Message) (known : ℕ) (rest : List ℕ) (r : Ret)
    : Type 0 where
  drained :
      r.0 ≡ success
      → rest ≡ []
      → (buff_of r.1 fd).rlen ≡ 0
      → (buff_of r.1 fd).msglen ≡ 0
      → Left so idx fd ys known rest r
  partial :
      r.0 ≡ success
      → bytes_of (buff_of r.1 fd) ≡ rest
      → (buff_of r.1 fd).rlen ≡ length rest
      → length rest < (buff_of r.1 fd).msglen
      → (buff_of r.1 fd).msglen ≡ asked so fd known rest
      → Left so idx fd ys known rest r
  refused :
      r.0 ≡ minus_one
      → (q : MemQueue) (bs more : List ℕ) → rest ≡ bs ++ more
      → length bs ≡ asked so fd known rest
      → Holds q ys
      → push_ret q (block_of (message idx fd bs)) bs ≡ (false, (r.1.works idx).rq)
      → Left so idx fd ys known rest r

-- The bytes in the buffer have been cut into these messages, with `count` bytes at `place` left,
-- and the queue of the worker holds the messages behind `xs`. The kernel's side is as it was.
pub record Handed (so : ServIf) (s : Server) (fd : ℕ) (m : Mem) (xs : List Message) (r : Ret)
    : Type 0 where
  pub bss : List (List ℕ)
  pub place : ℕ
  pub count : ℕ
  pub cuts : Cut so fd m (buff_of s fd).msglen 0 (buff_of s fd).rlen bss place count
  pub holds : Holds (r.1.works (fd_wrap s fd).idx).rq (xs ++ messages (fd_wrap s fd).idx fd bss)
  pub kernel : r.1.kernel ≡ s.kernel
  pub left :
      Left so
        (fd_wrap s fd).idx
        fd
        (xs ++ messages (fd_wrap s fd).idx fd bss)
        (known_after (buff_of s fd).msglen bss)
        (slice m place count)
        r

pub data HandedPost (so : ServIf) (s : Server) (fd : ℕ) (m : Mem) (xs : List Message)
    : Option Ret → Type 0 where
  ends : {r : Ret} → Handed so s fd m xs r → HandedPost so s fd m xs (some r)

-- the variables of the loop at its start
abbrev pub start : Server → ℕ → Framing
start s fd = record {
  queue = (s.works (fd_wrap s fd).idx).rq;
  at = 0;
  rlen = (buff_of s fd).rlen;
  msglen = (buff_of s fd).msglen;
}

-- what `push_frames` makes of the end of the loop
abbrev pub finish : Server → ℕ → Mem → Bool × Framing → Ret
finish s fd m r =
    if r.0 then (success, with_rq (settle s fd m r.1) (fd_wrap s fd).idx r.1.queue) else (
      minus_one,
      with_rq (with_buff s fd (record (buff_of s fd) { rlen = r.1.rlen; msglen = r.1.msglen }))
          (fd_wrap s fd).idx r.1.queue,
    )

Holds-with_rq :
    (s : Server) (i : ℕ) (q : MemQueue) (xs : List Message)
    → Holds q xs
    → Holds ((with_rq s i q).works i).rq xs
Holds-with_rq s i q xs h = subst (λ q. Holds q xs) (ground arith) h

-- the buffer's counts after the loop
finish-rlen :
    (s : Server) (fd : ℕ) (m : Mem) (r : Bool × Framing)
    → (buff_of (finish s fd m r).1 fd).rlen ≡ r.1.rlen
unfolding settle
finish-rlen s fd m (true, g) = ground arith
finish-rlen s fd m (false, g) = ground arith

finish-msglen :
    (s : Server) (fd : ℕ) (m : Mem) (r : Bool × Framing)
    → (buff_of (finish s fd m r).1 fd).msglen ≡ r.1.msglen
unfolding settle
finish-msglen s fd m (true, g) = ground arith
finish-msglen s fd m (false, g) = ground arith

finish-Left :
    (so : ServIf) (s : Server) (fd : ℕ) (m : Mem) (ys : List Message) (known : ℕ)
    (r : Bool × Framing)
    → Stop so (fd_wrap s fd).idx fd m ys known r
    → Left so (fd_wrap s fd).idx fd ys known (slice m r.1.at r.1.rlen) (finish s fd m r)
unfolding settle slice
finish-Left so s fd m ys known _ (Stop.drained {g} e l) =
    Left.drained refl (ap (slice m g.at) e) (finish-rlen s fd m (true, g) ∙ e)
      (finish-msglen s fd m (true, g) ∙ l)
finish-Left so s fd m ys known _ (Stop.partial {g} h l) =
    Left.partial refl (settle-bytes_of s fd m g)
      (finish-rlen s fd m (true, g) ∙ sym (length-slice m g.at g.rlen))
      (omega (arith, h, length-slice m g.at g.rlen, finish-msglen s fd m (true, g)))
      (finish-msglen s fd m (true, g) ∙ l)
finish-Left so s fd m ys known _ (Stop.refused {g} q w h e l p) =
    Left.refused refl q (slice m g.at w) (slice m (g.at + w) (g.rlen - w))
      (ap (slice m g.at) (omega arith) ∙ slice-append m g.at w (g.rlen - w) (g.at + w) refl)
      (length-slice m g.at w ∙ e) h
      (ap (λ b. push_ret q b (slice m g.at w)) (sym (block_of-slice (fd_wrap s fd).idx fd m g.at w))
        ∙ p
        ∙ ap (λ q. (false, q))
            (sym (
              rq-with_rq
                (with_buff s fd (record (buff_of s fd) { rlen = g.rlen; msglen = g.msglen }))
                (fd_wrap s fd).idx g.queue)))

finish-Handed :
    (so : ServIf) (s : Server) (fd : ℕ) (m : Mem) (xs : List Message) (r : Bool × Framing)
    → Framed so (fd_wrap s fd).idx fd m xs (start s fd) r
    → Handed so s fd m xs (finish s fd m r)
unfolding settle
finish-Handed so s fd m xs (true, g) t = record {
  bss = t.bss;
  place = g.at;
  count = g.rlen;
  cuts = t.cuts;
  holds = Holds-with_rq (settle s fd m g) (fd_wrap s fd).idx g.queue _ t.holds;
  kernel = refl;
  left = finish-Left so s fd m _ _ (true, g) t.stop;
}
finish-Handed so s fd m xs (false, g) t = record {
  bss = t.bss;
  place = g.at;
  count = g.rlen;
  cuts = t.cuts;
  holds =
      Holds-with_rq (with_buff s fd (record (buff_of s fd) { rlen = g.rlen; msglen = g.msglen }))
        (fd_wrap s fd).idx g.queue _ t.holds;
  kernel = refl;
  left = finish-Left so s fd m _ _ (false, g) t.stop;
}

-- `push_frames` of a buffer with bytes in it returns, if the library never answers with length 0
-- to some bytes. Then the bytes have been cut into messages, the queue of the worker holds these
-- behind what it held, in order, and what becomes of the rest is `Left`.
pub push_frames_lem :
    (so : ServIf) (s : Server) (fd : ℕ) (m : Mem) (xs : List Message)
    → ((b : ℕ) (bs : List ℕ) → 0 < so.get_msg_len fd (b ∷ bs))
    → (fd_wrap s fd).idx < 2 ^ 32
    → fd < 2 ^ 32
    → (buff_of s fd).rlen + 13 < 2 ^ 31
    → 0 < (buff_of s fd).rlen
    → Holds (s.works (fd_wrap s fd).idx).rq xs
    → HandedPost so s fd m xs (push_frames so s fd m)
unfolding push_frames
push_frames_lem so s fd m xs pos_len i d small some_bytes h = post _ (
    frame_loop-FramePost so (fd_wrap s fd).idx fd m
      (suc ((buff_of s fd).rlen + 2 * (s.works (fd_wrap s fd).idx).rq.len)) xs (start s fd) pos_len
      i d small some_bytes (omega arith) h)
  where
    post :
        (o : Option (Bool × Framing))
        → FramePost so (fd_wrap s fd).idx fd m xs (start s fd) o
        → HandedPost so s fd m xs (o >>= λ (r : Bool × Framing). some (finish s fd m r))
    post _ (FramePost.ends {r} t) = HandedPost.ends (finish-Handed so s fd m xs r t)
