-- ===== src/Dispatch/Flush.antt =====
-- What the write before a close leaves of the table, the lists and the wires.
use sserver.Prelude.{
  ℕ, ◌/◌, ◌%◌, ◌-◌, ◌<◌, ◌≡◌, ◌≢◌, refl, sym, ap, ◌∙◌, inl, inr, List, [], ◌++◌, append-nil, take,
  Option, some, none, arith, ltb, ◌==◌, if-both, ℤ, pos, negsuc, length, ◌>>=◌,
}
use sserver.Mem.{Mem, slice}
use sserver.Mem.Frame.{length-slice}
use sserver.Socket.{Send, Sent}
use sserver.Socket.Sending.{SendPost, safe_tcp_send_n_lem}
use sserver.Server.{FdBuff, Server, fd_wrap, buff_of, with_buff}
use sserver.Epoll.{Ret}
use sserver.Epoll.Linked.{count, Linked}
use sserver.NetSend.{send_bytes, note_wire, note_sent, write_from, do_fd_write}
use sserver.NetSend.Carried.{Buffered, with_buff-Carries}
use sserver.Dispatch.{flush}

-- The bytes that wait in a buffer.
abbrev pub waits : FdBuff → List ℕ
waits b = elim b.sbf [ none ↦ [] | some m ↦ slice m 0 b.slen ]

-- Some first ones of the bytes that waited for a descriptor went out.
pub record Went (fd : ℕ) (s t : Server) : Type 0 where
  pub number : ℕ
  pub wire : t.kernel.wire fd ≡ s.kernel.wire fd ++ take number (waits (buff_of s fd))

-- Nothing but the buffer and the wire of one descriptor has changed.
pub record Keeps (fd : ℕ) (s t : Server) : Type 0 where
  pub readlist : t.epinfo.readlist ≡ s.epinfo.readlist
  pub closelist : t.epinfo.closelist ≡ s.epinfo.closelist
  pub flag : (j : ℕ) → (fd_wrap t j).flag ≡ (fd_wrap s j).flag
  pub type : (j : ℕ) → (fd_wrap t j).type ≡ (fd_wrap s j).type
  pub others : (j : ℕ) → j ≢ fd → fd_wrap t j ≡ fd_wrap s j
  pub interest : (j : ℕ) → t.kernel.interest j ≡ s.kernel.interest j
  pub wires : (j : ℕ) → j ≢ fd → t.kernel.wire j ≡ s.kernel.wire j
  pub buffered : ((j : ℕ) → Buffered (buff_of s j)) → (j : ℕ) → Buffered (buff_of t j)

Keeps-refl : (fd : ℕ) (s : Server) → Keeps fd s s
Keeps-refl fd s = record {
  readlist = refl;
  closelist = refl;
  flag = λ j. refl;
  type = λ j. refl;
  others = λ j n. refl;
  interest = λ j. refl;
  wires = λ j n. refl;
  buffered = λ h. h;
}

Keeps-trans : (fd : ℕ) (s t u : Server) → Keeps fd s t → Keeps fd t u → Keeps fd s u
Keeps-trans fd s t u a b = record {
  readlist = b.readlist ∙ a.readlist;
  closelist = b.closelist ∙ a.closelist;
  flag = λ j. b.flag j ∙ a.flag j;
  type = λ j. b.type j ∙ a.type j;
  others = λ j n. b.others j n ∙ a.others j n;
  interest = λ j. b.interest j ∙ a.interest j;
  wires = λ j n. b.wires j n ∙ a.wires j n;
  buffered = λ h. b.buffered (a.buffered h);
}

with_buff-Keeps : (fd : ℕ) (s : Server) (b : FdBuff) → Buffered b → Keeps fd s (with_buff s fd b)
with_buff-Keeps fd s b h = record {
  readlist = refl;
  closelist = refl;
  flag = λ j. ground arith;
  type = λ j. ground arith;
  others = λ j n. ground arith;
  interest = λ j. refl;
  wires = λ j n. refl;
  buffered = (with_buff-Carries s fd b h).buffered;
}

note_wire-Keeps :
    (fd : ℕ) (s : Server) (wire : List ℕ) (rest : List Send) → Keeps fd s (note_wire s fd wire rest)
unfolding note_wire
note_wire-Keeps fd s wire rest = record {
  readlist = refl;
  closelist = refl;
  flag = λ j. refl;
  type = λ j. refl;
  others = λ j n. refl;
  interest = λ j. refl;
  wires = λ j n. ground arith;
  buffered = λ h. h;
}

note_sent-Keeps : (fd : ℕ) (s : Server) (m : Mem) (k : ℤ) → Keeps fd s (note_sent s fd m k)
unfolding note_sent
note_sent-Keeps fd s m (negsuc k) = Keeps-refl fd s
note_sent-Keeps fd s m (pos k) =
    if-both (Keeps fd s) (k == 0) (λ e. Keeps-refl fd s)
      (λ e.
        if-both (Keeps fd s) (ltb k (buff_of s fd).slen)
          (λ l. with_buff-Keeps fd s _ (inr (_, refl))) (λ l. Keeps-refl fd s))

pub Keeps-Linked : (fd : ℕ) (s t : Server) → Keeps fd s t → Linked s.epinfo → Linked t.epinfo
Keeps-Linked fd s t k l = record {
  reading = λ j. ap (count j) k.readlist ∙ l.reading j ∙ ap (λ f. f % 2) (sym (k.flag j));
  closing = λ j. ap (count j) k.closelist ∙ l.closing j ∙ ap (λ f. f / 2 % 2) (sym (k.flag j));
}

Went-none : (fd : ℕ) (s : Server) → Went fd s s
Went-none fd s = record { number = 0; wire = sym (append-nil (s.kernel.wire fd)) }

wire-note_sent :
    (fd : ℕ) (s : Server) (m : Mem) (k : ℤ) → (note_sent s fd m k).kernel.wire fd ≡ s.kernel.wire fd
unfolding note_sent
wire-note_sent fd s m (negsuc k) = refl
wire-note_sent fd s m (pos k) = ground arith

wire-note_wire :
    (fd : ℕ) (s : Server) (wire : List ℕ) (rest : List Send)
    → (note_wire s fd wire rest).kernel.wire fd ≡ s.kernel.wire fd ++ wire
unfolding note_wire
wire-note_wire fd s wire rest = ground arith

-- The bytes of a send were the first of what waited.
send-Went :
    (fd : ℕ) (s : Server) (m : Mem) (t : Sent) (k : ℕ)
    → (buff_of s fd).sbf ≡ some m
    → t.wire ≡ take k (slice m 0 (buff_of s fd).slen)
    → Went fd s (note_sent (note_wire s fd t.wire t.rest) fd m t.ret)
send-Went fd s m t k b w = record {
  number = k;
  wire =
      wire-note_sent fd (note_wire s fd t.wire t.rest) m t.ret
      ∙ wire-note_wire fd s t.wire t.rest
      ∙ ap (λ l. s.kernel.wire fd ++ l) (w ∙ ap (take k) (sym same));
}
  where
    same : waits (buff_of s fd) ≡ slice m 0 (buff_of s fd).slen
    same = ap (λ o. elim o [ none ↦ [] | some n ↦ slice n 0 (buff_of s fd).slen ]) b

sent-Went :
    (fd : ℕ) (s : Server) (m : Mem) (t : Sent)
    → (buff_of s fd).sbf ≡ some m
    → SendPost (slice m 0 (buff_of s fd).slen) (length (slice m 0 (buff_of s fd).slen)) 0 t
    → Went fd s (note_sent (note_wire s fd t.wire t.rest) fd m t.ret)
sent-Went fd s m t b (SendPost.counted k r g l w) = send-Went fd s m t (k - 0) b w
sent-Went fd s m t b (SendPost.broken j r l w) = send-Went fd s m t j b w

-- A write that returns.
data Writes (fd : ℕ) (s : Server) : Option Ret → Type 0 where
  ends : {r : ℤ} {t : Server} → Keeps fd s t → Went fd s t → Writes fd s (some (r, t))

do_fd_write-Writes :
    (fd : ℕ) (s : Server) (m : Mem)
    → (buff_of s fd).sbf ≡ some m
    → 0 < (buff_of s fd).slen
    → Writes fd s (do_fd_write s fd)
unfolding do_fd_write write_from send_bytes
do_fd_write-Writes fd s m b h =
    let (t, e, post) =
      safe_tcp_send_n_lem (s.kernel.outgoing fd) (slice m 0 (buff_of s fd).slen)
        (omega (arith, length-slice m 0 (buff_of s fd).slen)) in
    rw (do_fd_write, b, write_from, send_bytes, e)
      (Writes.ends
        (Keeps-trans fd s (note_wire s fd t.wire t.rest) _ (note_wire-Keeps fd s t.wire t.rest)
          (note_sent-Keeps fd (note_wire s fd t.wire t.rest) m t.ret))
        (sent-Went fd s m t b post))

-- The write before a close returns.
pub data Flushed (fd : ℕ) (s : Server) : Option Server → Type 0 where
  ends : {t : Server} → Keeps fd s t → Went fd s t → Flushed fd s (some t)

pub flush-Flushed : (fd : ℕ) (s : Server) → Buffered (buff_of s fd) → Flushed fd s (flush s fd)
unfolding flush
flush-Flushed fd s (inl none_wait) =
    if-both (Flushed fd s) (ltb 0 (buff_of s fd).slen) (λ l. absurd (ground (arith, l, none_wait)))
      (λ l. Flushed.ends (Keeps-refl fd s) (Went-none fd s))
flush-Flushed fd s (inr (m, b)) =
    if-both (Flushed fd s) (ltb 0 (buff_of s fd).slen)
      (λ l. after _ (do_fd_write-Writes fd s m b (ground (arith, l))))
      (λ l. Flushed.ends (Keeps-refl fd s) (Went-none fd s))
  where
    after :
        (o : Option Ret)
        → Writes fd s o
        → Flushed fd s (
            o >>= λ (r : Ret). some (elim r.0 [
              | pos n ↦ r.1
              | negsuc n ↦ with_buff r.1 fd (record (buff_of r.1 fd) { slen = 0 })
            ]))
    after _ (Writes.ends {r = pos n} k g) = Flushed.ends k g
    after _ (Writes.ends {r = negsuc n} {t} k g) =
        Flushed.ends (Keeps-trans fd s t _ k (with_buff-Keeps fd t _ (inl refl)))
          (record { number = g.number; wire = g.wire })
