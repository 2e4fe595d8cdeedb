-- ===== src/NetUtil/Reading.antt =====
-- `handle_read` against the stream of the descriptor.
use sserver.Prelude.{
  ℕ, zero, suc, ◌+◌, ◌-◌, ◌≤◌, ◌<◌, ◌≡◌, refl, sym, subst, ap, ap₂, ◌∙◌, inl, inr, List, [], ◌∷◌,
  ◌++◌, some, arith, leb, ◌==◌, Bool-cases, if-both, ℤ, pos, ◌>>=◌, lt→leb,
}
use sserver.Mem.{Mem, slice}
use sserver.Mem.Frame.{slice_ext}
use sserver.Socket.{Recv, Received, minus_one, recv_loop, safe_tcp_recv_n}
use sserver.Socket.Stream.{stream, RecvPost, safe_tcp_recv_n_lem}
use sserver.Server.{Server, fd_wrap, buff_of, with_buff, update}
use sserver.Epoll.{Ret, success, do_add_to_readlist, do_del_from_readlist}
use sserver.NetUtil.{open_rbf, note_received, read_into, handle_read}

-- A read leaves the queues, and the worker and the wanted length of its descriptor.
pub record Aside (s t : Server) (fd : ℕ) : Type 0 where
  pub works : t.works ≡ s.works
  pub idx : (fd_wrap t fd).idx ≡ (fd_wrap s fd).idx
  pub msglen : (buff_of t fd).msglen ≡ (buff_of s fd).msglen

-- What a read of a descriptor with the read buffer `m` leaves. A count above 0: the buffer holds
-- that many next bytes of the stream behind those that it held, within its size, and the rest of
-- the stream is still to come. 0: the buffer was full. Else -1.
pub data ReadPost (s : Server) (fd : ℕ) (m : Mem) : Ret → Type 0 where
  got :
      (k : ℕ) (t : Server) (m' : Mem)
      → (buff_of t fd).rbf ≡ some m'
      → (buff_of t fd).rlen ≡ (buff_of s fd).rlen + suc k
      → (buff_of t fd).rlen ≤ s.setting.max_buf_len
      → slice m' 0 (buff_of s fd).rlen ≡ slice m 0 (buff_of s fd).rlen
      → stream (s.kernel.incoming fd)
        ≡ slice m' (buff_of s fd).rlen (suc k) ++ stream (t.kernel.incoming fd)
      → Aside s t fd
      → ReadPost s fd m (pos (suc k), t)
  full : s.setting.max_buf_len ≤ (buff_of s fd).rlen → ReadPost s fd m (pos 0, s)
  closed : (t : Server) → Aside s t fd → ReadPost s fd m (minus_one, t)

add-Aside : (s t : Server) (fd : ℕ) → Aside s t fd → Aside s (do_add_to_readlist t fd) fd
unfolding do_add_to_readlist
add-Aside s t fd a = record {
  works = ground (arith, a.works);
  idx = ground (arith, a.idx);
  msglen = ground (arith, a.msglen);
}

del-Aside : (s t : Server) (fd : ℕ) → Aside s t fd → Aside s (do_del_from_readlist t fd) fd
unfolding do_del_from_readlist
del-Aside s t fd a = record {
  works = ground (arith, a.works);
  idx = ground (arith, a.idx);
  msglen = ground (arith, a.msglen);
}

-- The state of a receive, before the lists are changed.
abbrev received_at : Server → ℕ → Mem → List Recv → ℕ → Server
received_at s fd m rest n =
    with_buff
      (record s { kernel = record (s.kernel) { incoming = update s.kernel.incoming fd rest } }) fd
      (record (buff_of s fd) { rlen = n; rbf = some m })

received_at-Aside :
    (s : Server) (fd : ℕ) (m : Mem) (rest : List Recv) (n : ℕ)
    → Aside s (received_at s fd m rest n) fd
received_at-Aside s fd m rest n = record { works = refl; idx = ground arith; msglen = ground arith }

note_received-ReadPost :
    (s : Server) (fd : ℕ) (m : Mem) (ret : ℤ) (m' : Mem) (rest : List Recv)
    → RecvPost
        (stream (s.kernel.incoming fd))
        m
        (buff_of s fd).rlen
        (s.setting.max_buf_len - (buff_of s fd).rlen)
        0
        (record { ret = ret; mem = m'; rest = rest })
    → (buff_of s fd).rlen < s.setting.max_buf_len
    → ReadPost s fd m (note_received s fd ret m' rest)
unfolding note_received
note_received-ReadPost s fd m ret m' rest (inr (inl e)) h =
    subst (λ z. ReadPost s fd m (note_received s fd z m' rest)) (sym e)
      (ReadPost.closed _ (received_at-Aside s fd m' rest (buff_of s fd).rlen))
note_received-ReadPost s fd m ret m' rest (inr (inr e)) h =
    subst (λ z. ReadPost s fd m (note_received s fd z m' rest)) (sym e)
      (ReadPost.closed _ (received_at-Aside s fd m' rest (buff_of s fd).rlen))
note_received-ReadPost s fd m ret m' rest (inl (zero, e, g)) h =
    subst (λ z. ReadPost s fd m (note_received s fd z m' rest)) (sym e)
      (ReadPost.closed _ (received_at-Aside s fd m' rest (buff_of s fd).rlen))
note_received-ReadPost s fd m ret m' rest (inl (suc k, e, g)) h =
    subst (λ z. ReadPost s fd m (note_received s fd z m' rest)) (sym e)
      (if-both (ReadPost s fd m) (n + suc k == s.setting.max_buf_len)
        (λ last.
          ReadPost.got k (do_add_to_readlist u fd) m' (ground arith) (ground arith)
            (ground (arith, g.within)) old (ground (arith, fresh)) (add-Aside s u fd aside))
        (λ more.
          ReadPost.got k (do_del_from_readlist u fd) m' (ground arith) (ground arith)
            (ground (arith, g.within)) old (ground (arith, fresh)) (del-Aside s u fd aside)))
  where
    n : ℕ
    n = (buff_of s fd).rlen

    u : Server
    u = received_at s fd m' rest (n + suc k)

    aside : Aside s u fd
    aside = received_at-Aside s fd m' rest (n + suc k)

    old : slice m' 0 n ≡ slice m 0 n
    old = slice_ext m' m 0 n (λ a l u. g.kept a (inl (omega arith)))

    fresh : stream (s.kernel.incoming fd) ≡ slice m' n (suc k) ++ stream rest
    fresh = g.next ∙ ap₂ (λ p j. slice m' p j ++ stream rest) (omega arith) (omega arith)

read_into-ReadPost :
    (s : Server) (fd : ℕ) (m : Mem)
    → (r : Ret) × (read_into s fd (some (m, s)) ≡ some r) × ReadPost s fd m r
unfolding read_into
read_into-ReadPost s fd m = elim (Bool-cases (leb s.setting.max_buf_len (buff_of s fd).rlen)) [
  | inl over ↦ ((success, s), rw (over), ReadPost.full (ground arith))
  | inr room ↦
      (let (r, e, post) =
          safe_tcp_recv_n_lem (s.kernel.incoming fd) m (buff_of s fd).rlen
            (s.setting.max_buf_len - (buff_of s fd).rlen) (ground arith) in
        (
          note_received s fd r.ret r.mem r.rest,
          rw (room, e),
          note_received-ReadPost s fd m r.ret r.mem r.rest post (ground arith),
        ))
]

open_rbf-some :
    (s : Server) (fd : ℕ) (m : Mem) → (buff_of s fd).rbf ≡ some m → open_rbf s fd ≡ some (m, s)
unfolding open_rbf
open_rbf-some s fd m e = ground arith

-- `handle_read` of a descriptor that has a read buffer always returns. A count above 0 that it
-- returns is that of the bytes which it moved from the stream behind the bytes in the buffer,
-- which stay, within the buffer's size; 0 it returns on a full buffer, with nothing changed; else
-- it returns -1.
pub handle_read_lem :
    (s : Server) (fd : ℕ) (m : Mem)
    → (buff_of s fd).rbf ≡ some m
    → (r : Ret) × (handle_read s fd ≡ some r) × ReadPost s fd m r
unfolding handle_read
handle_read_lem s fd m e =
    subst (λ o. (r : Ret) × (read_into s fd o ≡ some r) × ReadPost s fd m r)
      (sym (open_rbf-some s fd m e)) (read_into-ReadPost s fd m)

-- a process whose descriptor's recv answers so
abbrev pub with_incoming : Server → ℕ → List Recv → Server
with_incoming s fd script = record s {
  kernel = record (s.kernel) { incoming = update s.kernel.incoming fd script };
}

recv-again :
    (rest : List Recv) (m : Mem) (p total : ℕ)
    → 0 < total
    → safe_tcp_recv_n (Recv.again ∷ rest) m p total
      ≡ some (record { ret = pos 0; mem = m; rest = rest })
unfolding safe_tcp_recv_n recv_loop
recv-again rest m p total h = ground arith

recv-closed :
    (rest : List Recv) (m : Mem) (p total : ℕ)
    → 0 < total
    → safe_tcp_recv_n (Recv.delivers [] ∷ rest) m p total
      ≡ some (record { ret = pos 0; mem = m; rest = Recv.delivers [] ∷ rest })
unfolding safe_tcp_recv_n recv_loop
recv-closed rest m p total h = ground arith

-- A read whose receive returns 0.
handle_read-zero :
    (s : Server) (fd : ℕ) (m : Mem) (script rest : List Recv)
    → (buff_of s fd).rbf ≡ some m
    → (buff_of s fd).rlen < s.setting.max_buf_len
    → ((p total : ℕ)
        → 0 < total
        → safe_tcp_recv_n script m p total ≡ some (record { ret = pos 0; mem = m; rest = rest }))
    → handle_read (with_incoming s fd script) fd
      ≡ some (note_received (with_incoming s fd script) fd (pos 0) m rest)
unfolding handle_read read_into
handle_read-zero s fd m script rest e h received =
    ap (read_into w fd) (open_rbf-some w fd m e)
    ∙ rw (lt→leb s.setting.max_buf_len (buff_of s fd).rlen h) (
        ap (λ o. o >>= λ (r : Received). some (note_received w fd r.ret r.mem r.rest))
          (ap (λ t. safe_tcp_recv_n t m (buff_of s fd).rlen room) here
            ∙ received (buff_of s fd).rlen room (omega arith)))
  where
    w : Server
    w = with_incoming s fd script

    room : ℕ
    room = s.setting.max_buf_len - (buff_of s fd).rlen

    here : w.kernel.incoming fd ≡ script
    here = ground arith

-- A descriptor with room in its buffer on which recv would block now, and bytes may follow, is
-- reported exactly like one that its peer has closed: `handle_read` returns -1 for both, the two
-- processes agree in everything but the kernel's side, and the bytes of the first are still to come.
pub handle_read_again :
    (s : Server) (fd : ℕ) (m : Mem) (rest : List Recv)
    → (buff_of s fd).rbf ≡ some m
    → (buff_of s fd).rlen < s.setting.max_buf_len
    → (t : Server) × (u : Server) × (handle_read (with_incoming s fd (Recv.again ∷ rest)) fd
        ≡ some (minus_one, t))
      × (handle_read (with_incoming s fd (Recv.delivers [] ∷ rest)) fd ≡ some (minus_one, u))
      × (t.epinfo ≡ u.epinfo)
      × (t.works ≡ u.works)
      × (t.sessions ≡ u.sessions)
      × (buff_of t fd ≡ buff_of s fd)
      × (stream (t.kernel.incoming fd) ≡ stream rest)
unfolding note_received
handle_read_again s fd m rest e h = (
  _,
  _,
  handle_read-zero s fd m (Recv.again ∷ rest) rest e h (recv-again rest m),
  handle_read-zero s fd m (Recv.delivers [] ∷ rest) (Recv.delivers [] ∷ rest) e h
      (recv-closed rest m),
  refl,
  refl,
  refl,
  ground (arith, e),
  ap stream (ground arith),
)
