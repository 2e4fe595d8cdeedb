-- ===== src/NetSend/Writing.antt =====
-- `do_fd_write` against the bytes that wait in the send buffer.
use sserver.Prelude.{
  append_assoc, some_inj, ℕ, zero, suc, ◌-◌, ◌≤◌, ◌<◌, ◌≡◌, refl, sym, subst, ap, ap₂, ◌∙◌, ◌⊎◌,
  inl, inr, List, [], ◌++◌, some, arith, ℤ, pos, length, take, take_all, drop,
}
use sserver.Mem.{Mem, blit, slice}
use sserver.Mem.Frame.{length-slice, slice-blit_self, drop-slice}
use sserver.Socket.{Send, Sent, minus_one}
use sserver.Socket.Sending.{SendPost, safe_tcp_send_n_lem}
use sserver.Server.{FdBuff, Server, buff_of}
use sserver.Epoll.{Ret}
use sserver.NetSend.{send_bytes, note_wire, note_sent, write_from, do_fd_write}

-- The bytes that wait to be sent.
abbrev pub waiting : Server → ℕ → Mem → List ℕ
waiting s fd m = slice m 0 (buff_of s fd).slen

-- What `do_fd_write` leaves of a descriptor whose send buffer is `m`. A count of all the bytes that
-- waited: they went out, and the buffer is as it was. A smaller count: that many went out, and
-- the buffer holds the rest. -1: a prefix went out, and the buffer is as it was.
pub data WritePost (s : Server) (fd : ℕ) (m : Mem) : Ret → Type 0 where
  whole :
      (t : Server)
      → t.kernel.wire fd ≡ s.kernel.wire fd ++ waiting s fd m
      → buff_of t fd ≡ buff_of s fd
      → WritePost s fd m (pos (buff_of s fd).slen, t)
  part :
      (k : ℕ) (t : Server) (m' : Mem)
      → k < (buff_of s fd).slen
      → t.kernel.wire fd ≡ s.kernel.wire fd ++ take k (waiting s fd m)
      → (buff_of t fd).sbf ≡ some m'
      → (buff_of t fd).slen ≡ (buff_of s fd).slen - k
      → waiting t fd m' ≡ drop k (waiting s fd m)
      → WritePost s fd m (pos k, t)
  broken :
      (j : ℕ) (t : Server)
      → t.kernel.wire fd ≡ s.kernel.wire fd ++ take j (waiting s fd m)
      → buff_of t fd ≡ buff_of s fd
      → WritePost s fd m (minus_one, t)

-- The state and result of a write whose send answers so.
abbrev written : Server → ℕ → Mem → ℤ → List ℕ → List Send → Ret
written s fd m ret wire rest = (ret, note_sent (note_wire s fd wire rest) fd m ret)

written_whole :
    (s : Server) (fd : ℕ) (m : Mem) (wire : List ℕ) (rest : List Send)
    → wire ≡ waiting s fd m
    → WritePost s fd m (written s fd m (pos (buff_of s fd).slen) wire rest)
unfolding note_sent note_wire
written_whole s fd m wire rest e = WritePost.whole _ (ground (arith, e)) (ground arith)

written_none :
    (s : Server) (fd : ℕ) (m : Mem) (wire : List ℕ) (rest : List Send)
    → (buff_of s fd).sbf ≡ some m
    → 0 < (buff_of s fd).slen
    → wire ≡ []
    → WritePost s fd m (written s fd m (pos 0) wire rest)
unfolding note_sent note_wire
written_none s fd m wire rest b h e =
    WritePost.part 0 _ m h (ground (arith, e)) (ground (arith, b)) (ground arith) (ground arith)

written_part :
    (s : Server) (fd : ℕ) (m : Mem) (k : ℕ) (wire : List ℕ) (rest : List Send)
    → suc k < (buff_of s fd).slen
    → wire ≡ take (suc k) (waiting s fd m)
    → WritePost s fd m (written s fd m (pos (suc k)) wire rest)
unfolding note_sent note_wire
written_part s fd m k wire rest h e =
    WritePost.part (suc k) _ (blit m 0 left) h (ground (arith, e)) (ground arith) shorter (
      ap (slice (blit m 0 left) 0) (shorter ∙ sym (length-slice m (suc k) _))
      ∙ slice-blit_self m 0 left
      ∙ sym (
          drop-slice m 0 (buff_of s fd).slen (suc k) (omega arith)
          ∙ ap (λ p. slice m p ((buff_of s fd).slen - suc k)) (omega arith)))
  where
    left : List ℕ
    left = slice m (suc k) ((buff_of s fd).slen - suc k)

    shorter :
        (buff_of (written s fd m (pos (suc k)) wire rest).1 fd).slen ≡ (buff_of s fd).slen - suc k
    shorter = ground arith

-- A send that answers with a count.
written_count :
    (s : Server) (fd : ℕ) (m : Mem) (k : ℕ) (wire : List ℕ) (rest : List Send)
    → (buff_of s fd).sbf ≡ some m
    → k ≤ (buff_of s fd).slen
    → 0 < (buff_of s fd).slen
    → wire ≡ take k (waiting s fd m)
    → WritePost s fd m (written s fd m (pos k) wire rest)
written_count s fd m zero wire rest b l h e = written_none s fd m wire rest b h e
written_count s fd m (suc k) wire rest b l h e = elim (split l) [
  | inl less ↦ written_part s fd m k wire rest less e
  | inr all ↦
      subst (λ j. WritePost s fd m (written s fd m (pos j) wire rest)) (sym all)
        (written_whole s fd m wire rest (
          e
          ∙ take_all (suc k) (waiting s fd m)
              (omega (arith, length-slice m 0 (buff_of s fd).slen))))
]
  where
    split :
        suc k ≤ (buff_of s fd).slen → (suc k < (buff_of s fd).slen) ⊎ (suc k ≡ (buff_of s fd).slen)
    split h = omega arith

written_broken :
    (s : Server) (fd : ℕ) (m : Mem) (j : ℕ) (wire : List ℕ) (rest : List Send)
    → wire ≡ take j (waiting s fd m)
    → WritePost s fd m (written s fd m minus_one wire rest)
unfolding note_sent note_wire
written_broken s fd m j wire rest e = WritePost.broken j _ (ground (arith, e)) (ground arith)

written-WritePost :
    (s : Server) (fd : ℕ) (m : Mem) (t : Sent)
    → (buff_of s fd).sbf ≡ some m
    → 0 < (buff_of s fd).slen
    → SendPost (waiting s fd m) (length (waiting s fd m)) 0 t
    → WritePost s fd m (written s fd m t.ret t.wire t.rest)
written-WritePost s fd m t b h (SendPost.counted k r g l w) =
    subst (λ z. WritePost s fd m (written s fd m z t.wire t.rest)) (sym r)
      (written_count s fd m k t.wire t.rest b (omega (arith, length-slice m 0 (buff_of s fd).slen))
        h (w ∙ ap (λ j. take j (waiting s fd m)) (omega arith)))
written-WritePost s fd m t b h (SendPost.broken j r l w) =
    subst (λ z. WritePost s fd m (written s fd m z t.wire t.rest)) (sym r)
      (written_broken s fd m j t.wire t.rest w)

-- `do_fd_write` of a descriptor on which bytes wait always returns. A smaller count than what
-- waited: exactly that many went out and exactly the others wait. A count of all: they went out,
-- and the buffer is as it was, so that they still wait. -1: a prefix went out.
pub do_fd_write_lem :
    (s : Server) (fd : ℕ) (m : Mem)
    → (buff_of s fd).sbf ≡ some m
    → 0 < (buff_of s fd).slen
    → (r : Ret) × (do_fd_write s fd ≡ some r) × WritePost s fd m r
unfolding do_fd_write write_from send_bytes
do_fd_write_lem s fd m b h =
    let (t, e, post) =
      safe_tcp_send_n_lem (s.kernel.outgoing fd) (waiting s fd m)
        (omega (arith, length-slice m 0 (buff_of s fd).slen)) in
    (
      written s fd m t.ret t.wire t.rest,
      ap (write_from s fd) b ∙ rw (e),
      written-WritePost s fd m t b h post,
    )

whole_count :
    (s : Server) (fd : ℕ) (m : Mem) (r : Ret)
    → WritePost s fd m r
    → r.0 ≡ pos (buff_of s fd).slen
    → (r.1.kernel.wire fd ≡ s.kernel.wire fd ++ waiting s fd m) × (buff_of r.1 fd ≡ buff_of s fd)
whole_count s fd m r (WritePost.whole t w b) e = (w, b)
whole_count s fd m r (WritePost.part k t m' l w a n d) e = absurd (ground arith)
whole_count s fd m r (WritePost.broken j t w b) e = absurd (cc)

write_whole :
    (s t : Server) (fd : ℕ) (m : Mem)
    → (buff_of s fd).sbf ≡ some m
    → 0 < (buff_of s fd).slen
    → do_fd_write s fd ≡ some (pos (buff_of s fd).slen, t)
    → (t.kernel.wire fd ≡ s.kernel.wire fd ++ waiting s fd m) × (buff_of t fd ≡ buff_of s fd)
write_whole s t fd m b h e =
    let (r, e', post) = do_fd_write_lem s fd m b h in
    whole_count s fd m (pos (buff_of s fd).slen, t)
      (subst (WritePost s fd m) (some_inj (sym e' ∙ e)) post) refl

-- Two successive calls of `do_fd_write` that each report the whole buffer as sent put the same
-- bytes on the wire twice, and they wait still.
pub do_fd_write_twice :
    (s t u : Server) (fd : ℕ) (m : Mem)
    → (buff_of s fd).sbf ≡ some m
    → 0 < (buff_of s fd).slen
    → do_fd_write s fd ≡ some (pos (buff_of s fd).slen, t)
    → do_fd_write t fd ≡ some (pos (buff_of t fd).slen, u)
    → (u.kernel.wire fd ≡ s.kernel.wire fd ++ (waiting s fd m ++ waiting s fd m))
      × (buff_of u fd ≡ buff_of s fd)
do_fd_write_twice s t u fd m b h e f =
    let (w, same) = write_whole s t fd m b h e in
    let (w', same') =
      write_whole t u fd m (ap (λ (x : FdBuff). x.sbf) same ∙ b)
        (subst (λ (x : FdBuff). 0 < x.slen) (sym same) h) f in
    (
      w'
          ∙ ap₂ ◌++◌ w (ap (λ (x : FdBuff). slice m 0 x.slen) same)
          ∙ append_assoc (s.kernel.wire fd) (waiting s fd m) (waiting s fd m),
      same' ∙ same,
    )
