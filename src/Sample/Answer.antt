-- ===== src/Sample/Answer.antt =====
-- What the sample library gives for one packet, and what the close of a client leaves.
use sserver.Prelude.{
  ℕ, ◌+◌, ◌^◌, ◌≤◌, ◌<◌, ◌≡◌, refl, sym, ap, subst, ◌⊎◌, inl, inr, Bool, true, false, List, [], ◌∷◌,
  ◌++◌, append-nil, Option, none, some, arith, le→ltb, length, take_all, if◌then◌else◌,
}
use sserver.MemQueue.{MemQueue, blk_data, blk_close}
use sserver.Socket.{minus_one}
use sserver.Epoll.{success}
use sserver.MemQueue.Layout.{Message, block_of}
use sserver.MemQueue.Fifo.{Holds}
use sserver.Server.{FdSess, Server, with_sq}
use sserver.Server.Updates.{sq-with_sq}
use sserver.NetUtil.{push_ret, push_sq, send_to_cli}
use sserver.Master.Stream.{message}
use sserver.Master.Cutting.{PushRet, push_ret-PushRet}
use sserver.Fds.{get_fd, remove_fd}
use sserver.Work.{close_cli, do_blk_close}
use sserver.Work.Serving.{Quiet, Same}
use sserver.Sample.{copy_pkg, proto_pkg, int_at, answer, proc_cli_msg, or_same, sample, is_refusal}

send_to_cli-Same :
    (s : Server) (i : ℕ) (sess : FdSess) (bs : List ℕ) → Same i s (send_to_cli s sess bs).1
unfolding send_to_cli push_sq push_ret
send_to_cli-Same s i sess bs = record { rq = ground arith; sessions = λ fd. refl }

-- The sample library leaves the receive queues and the table of sessions alone.
pub sample-Quiet : (behind : List ℕ) (i : ℕ) → Quiet (sample behind) i
unfolding sample proc_cli_msg answer
sample-Quiet behind i = record {
  cli_msg = λ bs sess s. answered bs sess s (copy_pkg 65536 bs);
  cli_closed = λ fd s. record { rq = refl; sessions = λ fd. refl };
}
  where
    answered :
        (bs : List ℕ) (sess : FdSess) (s : Server) (o : Option (List ℕ))
        → Same i s (or_same (false, s) (answer s sess o)).1
    answered bs sess s none = record { rq = refl; sessions = λ fd. refl }
    answered bs sess s (some cli) = send_to_cli-Same s i sess cli

-- A packet as its client means it: its first int is its length, and it fits the array of the
-- library.
pub record Whole (bs : List ℕ) : Type 0 where
  pub len : int_at 0 bs ≡ length bs
  pub room : length bs ≤ 65536

copy_pkg-Whole : (bs : List ℕ) → Whole bs → copy_pkg 65536 bs ≡ some bs
unfolding copy_pkg proto_pkg
copy_pkg-Whole bs h =
    rw (h.len, le→ltb 65536 (length bs) h.room, le→ltb (length bs) (length bs) (omega arith))
      (ap some (take_all (length bs) bs (omega arith)))

-- What the library gives for a packet: the packet stands in the send queue and it is accepted, or
-- `mq_push` of it was refused, the queue holds what it held, and so is the packet.
pub data Answered (ys : List Message) (sess : FdSess) (bs : List ℕ) (s : Server)
    : Bool × Server → Type 0 where
  sent :
      {q : MemQueue}
      → Holds q (ys ++ message sess.id sess.fd bs ∷ [])
      → Answered ys sess bs s (false, with_sq s sess.id q)
  refused :
      {q : MemQueue}
      → Holds q ys
      → push_ret (s.works sess.id).sq (block_of (message sess.id sess.fd bs)) bs ≡ (false, q)
      → Answered ys sess bs s (true, with_sq s sess.id q)

pub proc_cli_msg-Answered :
    (behind : List ℕ) (ys : List Message) (sess : FdSess) (bs : List ℕ) (s : Server)
    → Whole bs
    → sess.id < 2 ^ 32
    → sess.fd < 2 ^ 32
    → Holds (s.works sess.id).sq ys
    → Answered ys sess bs s ((sample behind).proc_cli_msg bs sess s)
unfolding sample proc_cli_msg answer send_to_cli push_sq push_ret
proc_cli_msg-Answered behind ys sess bs s w i d h = rw (copy_pkg-Whole bs w) (
    subst
      (λ n. Answered ys sess bs s (
        outcome (
          push_ret (s.works sess.id).sq
            (record { id = sess.id; fd = sess.fd; type = blk_data; len = n }) bs)))
      {x = 13 + length bs} {y = length bs + 13} (omega arith)
      (given _ refl (
        push_ret-PushRet (s.works sess.id).sq ys (message sess.id sess.fd bs)
          (record { type = ground arith; id = i; fd = d; len = omega (arith, w.room) }) h)))
  where
    outcome : Bool × MemQueue → Bool × Server
    outcome p = (is_refusal (if p.0 then success else minus_one), with_sq s sess.id p.1)

    given :
        (p : Bool × MemQueue)
        → push_ret (s.works sess.id).sq (block_of (message sess.id sess.fd bs)) bs ≡ p
        → PushRet ys (message sess.id sess.fd bs) p
        → Answered ys sess bs s (outcome p)
    given _ e (PushRet.done k) = Answered.sent k
    given _ e (PushRet.full k) = Answered.refused k e

-- the closing message of a session
abbrev pub closing : FdSess → Message
closing sess = record { id = sess.id; fd = sess.fd; type = blk_close; bytes = [] }

-- What the close of a client leaves: its session is gone, and the queue has a closing block or is
-- as it was.
pub record Closed (sess : FdSess) (ys : List Message) (t : Server) : Type 0 where
  pub cs : List Message
  pub holds : Holds (t.works sess.id).sq (ys ++ cs)
  pub kind : (cs ≡ []) ⊎ (cs ≡ closing sess ∷ [])
  pub gone : t.sessions sess.fd ≡ none

push_sq-Closed :
    (sess : FdSess) (ys : List Message) (s : Server) (p : Bool × MemQueue)
    → PushRet ys (closing sess) p
    → Closed sess ys (remove_fd (with_sq s sess.id p.1) sess.fd)
unfolding remove_fd
push_sq-Closed sess ys s _ (PushRet.done {q} h) = record {
  cs = closing sess ∷ [];
  holds = subst (λ q. Holds q (ys ++ closing sess ∷ [])) (sym (sq-with_sq s sess.id q)) h;
  kind = inr refl;
  gone = ground arith;
}
push_sq-Closed sess ys s _ (PushRet.full {q} h) = record {
  cs = [];
  holds = subst (λ q. Holds q (ys ++ [])) (sym (sq-with_sq s sess.id q)) (rw (append-nil ys) h);
  kind = inl refl;
  gone = ground arith;
}

pub close_cli-Closed :
    (behind : List ℕ) (sess : FdSess) (ys : List Message) (s : Server)
    → s.sessions sess.fd ≡ some sess
    → sess.id < 2 ^ 32
    → sess.fd < 2 ^ 32
    → Holds (s.works sess.id).sq ys
    → Closed sess ys (close_cli (sample behind) s sess.fd)
unfolding close_cli do_blk_close push_sq get_fd sample
close_cli-Closed behind sess ys s e i d h =
    rw (close_cli, e, do_blk_close, e)
      (push_sq-Closed sess ys s _ (
        push_ret-PushRet (s.works sess.id).sq ys (closing sess)
          (record { type = ground arith; id = i; fd = d; len = omega arith }) h))
