-- ===== src/NetSend/Carried.antt =====
-- The send queues and the buffers that a send leaves as it finds them.
use sserver.Prelude.{
  ℕ, ◌<◌, ◌≡◌, refl, sym, subst, ◌∙◌, ◌⊎◌, inl, inr, Bool, true, false, List, [], some, arith, ltb,
  ◌==◌, Bool-cases, ℤ, pos, negsuc,
}
use sserver.Mem.{Mem}
use sserver.MemQueue.{MemBlock}
use sserver.Socket.{Send}
use sserver.Server.{FdBuff, ServIf, Server, fd_wrap, buff_of, with_buff}
use sserver.Epoll.{is_null, release_fd}
use sserver.NetUtil.{push_rq, push_ret, close_block, do_fd_close}
use sserver.NetSend.{note_wire, note_sent, watch}

-- Bytes that wait stand in a buffer.
abbrev pub Buffered : FdBuff → Type 0
Buffered b = (b.slen ≡ 0) ⊎ ((m : Mem) × (b.sbf ≡ some m))

-- The send queues and malloc are as they were, and bytes that wait still stand in buffers.
pub record Carries (s t : Server) : Type 0 where
  pub sq : (i : ℕ) → (t.works i).sq ≡ (s.works i).sq
  pub malloc_ok : t.kernel.malloc_ok ≡ s.kernel.malloc_ok
  pub buffered : ((fd : ℕ) → Buffered (buff_of s fd)) → (fd : ℕ) → Buffered (buff_of t fd)

pub Carries-refl : (s : Server) → Carries s s
Carries-refl s = record { sq = λ i. refl; malloc_ok = refl; buffered = λ h. h }

pub Carries-trans : (s t u : Server) → Carries s t → Carries t u → Carries s u
Carries-trans s t u a b = record {
  sq = λ i. b.sq i ∙ a.sq i;
  malloc_ok = b.malloc_ok ∙ a.malloc_ok;
  buffered = λ h. b.buffered (a.buffered h);
}

pub with_buff-Carries :
    (s : Server) (fd : ℕ) (b : FdBuff) → Buffered b → Carries s (with_buff s fd b)
with_buff-Carries s fd b h = record {
  sq = λ i. refl;
  malloc_ok = refl;
  buffered = λ k j. elim (Bool-cases (j == fd)) [
    | inl e ↦ subst Buffered (sym (here j e)) h
    | inr e ↦ subst Buffered (sym (there j e)) (k j)
  ];
}
  where
    here : (j : ℕ) → (j == fd) ≡ true → buff_of (with_buff s fd b) j ≡ b
    here j e = ground arith

    there : (j : ℕ) → (j == fd) ≡ false → buff_of (with_buff s fd b) j ≡ buff_of s j
    there j e = ground arith

pub note_wire-Carries :
    (s : Server) (fd : ℕ) (wire : List ℕ) (rest : List Send) → Carries s (note_wire s fd wire rest)
unfolding note_wire
note_wire-Carries s fd wire rest = record { sq = λ i. refl; malloc_ok = refl; buffered = λ h. h }

release_fd-Carries : (s : Server) (fd : ℕ) → Carries s (release_fd s fd)
unfolding release_fd
release_fd-Carries s fd = record {
  sq = λ i. ground arith;
  malloc_ok = ground arith;
  buffered = λ h j. elim (Bool-cases (j == fd)) [
    | inl e ↦ inl (ground arith)
    | inr e ↦ subst Buffered (sym (kept j e)) (h j)
  ];
}
  where
    kept : (j : ℕ) → (j == fd) ≡ false → buff_of (release_fd s fd) j ≡ buff_of s j
    kept j e = ground arith

push_rq-Carries : (s : Server) (i : ℕ) (b : MemBlock) (bs : List ℕ) → Carries s (push_rq s i b bs).1
unfolding push_rq push_ret
push_rq-Carries s i b bs = record { sq = λ j. ground arith; malloc_ok = refl; buffered = λ h. h }

pub do_fd_close-Carries :
    (so : ServIf) (s : Server) (fd k : ℕ) → 0 < k → Carries s (do_fd_close so s fd k)
unfolding do_fd_close
do_fd_close-Carries so s fd k l = elim (Bool-cases (is_null (fd_wrap s fd).type)) [
  | inl e ↦ rw (do_fd_close, e) (Carries-refl s)
  | inr e ↦
      rw (do_fd_close, e, later)
        (Carries-trans s (push_rq s (fd_wrap s fd).idx (close_block s fd) []).1 _
          (push_rq-Carries s (fd_wrap s fd).idx (close_block s fd) [])
          (release_fd-Carries (push_rq s (fd_wrap s fd).idx (close_block s fd) []).1 fd))
]
  where
    later : (k == 0) ≡ false
    later = ground arith

pub watch-Carries : (s : Server) (fd : ℕ) (b : Bool) → Carries s (watch s fd b)
unfolding watch
watch-Carries s fd b = record {
  sq = λ i. ground arith;
  malloc_ok = ground arith;
  buffered = λ h j. subst Buffered (sym (same j)) (h j);
}
  where
    same : (j : ℕ) → buff_of (watch s fd b) j ≡ buff_of s j
    same j = ground arith

pub note_sent-Carries : (s : Server) (fd : ℕ) (m : Mem) (k : ℤ) → Carries s (note_sent s fd m k)
unfolding note_sent
note_sent-Carries s fd m (negsuc k) = Carries-refl s
note_sent-Carries s fd m (pos k) = elim (Bool-cases (k == 0)) [
  | inl e ↦ rw (note_sent, e) (Carries-refl s)
  | inr e ↦
      rw (note_sent, e)
        (elim (Bool-cases (ltb k (buff_of s fd).slen)) [
          | inl l ↦ rw (l) (with_buff-Carries s fd _ (inr (_, refl)))
          | inr l ↦ rw (l) (Carries-refl s)
        ])
]
