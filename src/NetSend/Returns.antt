-- ===== src/NetSend/Returns.antt =====
-- `do_fd_send` returns, and leaves the send queues alone.
use sserver.Prelude.{
  ℕ, ◌+◌, ◌<◌, ◌≡◌, refl, ◌∙◌, inl, inr, Bool, true, false, List, Option, none, some, arith, ltb,
  ◌==◌, ◌&&◌, Bool-cases, if-both, length, drop, ℤ, pos, negsuc, if◌then◌else◌, ◌>>=◌,
}
use sserver.Mem.{Mem, slice}
use sserver.Mem.Frame.{length-slice}
use sserver.Socket.{minus_one}
use sserver.Socket.Sending.{safe_tcp_send_n_lem}
use sserver.Server.{ServIf, Server, buff_of, with_buff}
use sserver.Epoll.{Ret, success}
use sserver.NetUtil.{do_fd_close, blank}
use sserver.NetSend.{
  Room, send_bytes, note_sent, write_from, do_fd_write, grow_sbf, store_left, watch, keep_left,
  send_now, do_fd_send,
}
use sserver.NetSend.Carried.{
  Buffered, Carries, Carries-refl, Carries-trans, with_buff-Carries, note_wire-Carries,
  do_fd_close-Carries, watch-Carries, note_sent-Carries,
}

-- A call that returns, with what it leaves.
pub data Sends (s : Server) : Option Ret → Type 0 where
  ends : {r : ℤ} {t : Server} → Carries s t → Sends s (some (r, t))

Sends-after : (s t : Server) {o : Option Ret} → Carries s t → Sends t o → Sends s o
Sends-after s t a (Sends.ends {r} {t = u} b) = Sends.ends (Carries-trans s t u a b)

-- The room that `grow_sbf` finds, if malloc succeeds.
data Grown (s : Server) : Option Room → Type 0 where
  ready : {m : Mem} {t : Server} → Carries s t → Grown s (some (Room.ready m t))
  refused : {t : Server} → Carries s t → Grown s (some (Room.refused t))

grow_sbf-Grown :
    (s : Server) (fd left : ℕ) → s.kernel.malloc_ok ≡ true → Grown s (grow_sbf s fd left)
unfolding grow_sbf
grow_sbf-Grown s fd left ok = grown (buff_of s fd).sbf refl
  where
    failed : {o : Option Room} → s.kernel.malloc_ok ≡ false → Grown s o
    failed e = absurd (ground (arith, ok, e))

    grown :
        (o : Option Mem)
        → (buff_of s fd).sbf ≡ o
        → Grown s (elim o [
          | none ↦
              if s.kernel.malloc_ok
              then some (Room.refused (with_buff s fd (record (buff_of s fd) { sbf = some blank })))
              else none
          | some m ↦
              if ltb (buff_of s fd).sbf_size ((buff_of s fd).slen + left)
              then (if s.kernel.malloc_ok
                  then some (
                      Room.ready m (
                        with_buff s fd
                          (record (buff_of s fd) { sbf_size = left + (buff_of s fd).slen })))
                  else some (Room.refused (with_buff s fd (record (buff_of s fd) { sbf = none }))))
              else some (Room.ready m s)
        ])
    grown none e =
        if-both (Grown s) s.kernel.malloc_ok
          (λ k. Grown.refused (with_buff-Carries s fd _ (inr (blank, refl)))) failed
    grown (some m) e =
        if-both (Grown s) (ltb (buff_of s fd).sbf_size ((buff_of s fd).slen + left))
          (λ l.
            if-both (Grown s) s.kernel.malloc_ok
              (λ k. Grown.ready (with_buff-Carries s fd _ (inr (m, e)))) failed)
          (λ l. Grown.ready (Carries-refl s))

store_left-Carries :
    (s : Server) (fd : ℕ) (m : Mem) (bs : List ℕ) → Carries s (store_left s fd m bs)
unfolding store_left
store_left-Carries s fd m bs = with_buff-Carries s fd _ (inr (_, refl))

module _ (so : ServIf) where
  stored-Sends :
      (s : Server) (fd : ℕ) (is_send b : Bool)
      → Sends s (
          if b then some (minus_one, do_fd_close so s fd 1) else some (success, watch s fd is_send))
  stored-Sends s fd is_send true = Sends.ends (do_fd_close-Carries so s fd 1 (omega arith))
  stored-Sends s fd is_send false = Sends.ends (watch-Carries s fd is_send)

  keep_left-Sends :
      (s : Server) (fd : ℕ) (bs : List ℕ) (is_send : Bool)
      → s.kernel.malloc_ok ≡ true
      → Sends s (keep_left so s fd bs is_send)
  unfolding keep_left
  keep_left-Sends s fd bs is_send ok = elim (Bool-cases (length bs == 0)) [
    | inl e ↦ rw (keep_left, e) (Sends.ends (watch-Carries s fd is_send))
    | inr e ↦ rw (keep_left, e) (room _ (grow_sbf-Grown s fd (length bs) ok))
  ]
    where
      room :
          (o : Option Room)
          → Grown s o
          → Sends s (
              o >>= λ (room : Room). elim room [
                | Room.refused t ↦ some (minus_one, t)
                | Room.ready m t ↦
                    let u = store_left t fd m bs in
                    if ltb 0 u.setting.max_buf_len && ltb u.setting.max_buf_len (buff_of u fd).slen
                    then some (minus_one, do_fd_close so u fd 1)
                    else some (success, watch u fd is_send)
              ])
      room _ (Grown.refused a) = Sends.ends a
      room _ (Grown.ready {m} {t} a) =
          Sends-after s (store_left t fd m bs)
            (Carries-trans s t _ a (store_left-Carries t fd m bs))
            (stored-Sends (store_left t fd m bs) fd is_send _)

  -- A send of at least one byte returns.
  send_bytes-Sends :
      (s : Server) (fd : ℕ) (bs : List ℕ) → 0 < length bs → Sends s (send_bytes s fd bs)
  unfolding send_bytes
  send_bytes-Sends s fd bs l =
      let (t, e, post) = safe_tcp_send_n_lem (s.kernel.outgoing fd) bs l in
      rw (send_bytes, e) (Sends.ends (note_wire-Carries s fd t.wire t.rest))

  sent-Sends :
      (s : Server) (fd : ℕ) (bs : List ℕ) (is_send : Bool) (o : Option Ret)
      → s.kernel.malloc_ok ≡ true
      → Sends s o
      → Sends s (
          o >>= λ (r : Ret). elim r.0 [
            | negsuc n ↦ some (minus_one, do_fd_close so r.1 fd 1)
            | pos n ↦ keep_left so r.1 fd (drop n bs) is_send
          ])
  sent-Sends s fd bs is_send _ ok (Sends.ends {r = negsuc n} {t} a) =
      Sends.ends (Carries-trans s t _ a (do_fd_close-Carries so t fd 1 (omega arith)))
  sent-Sends s fd bs is_send _ ok (Sends.ends {r = pos n} {t} a) =
      Sends-after s t a (keep_left-Sends t fd (drop n bs) is_send (a.malloc_ok ∙ ok))

  send_now-Sends :
      (s : Server) (fd : ℕ) (bs : List ℕ) (is_send : Bool)
      → s.kernel.malloc_ok ≡ true
      → 0 < length bs
      → Sends s (send_now so s fd bs is_send)
  unfolding send_now
  send_now-Sends s fd bs is_send ok l =
      if-both (Sends s) ((buff_of s fd).slen == 0)
        (λ e. sent-Sends s fd bs is_send _ ok (send_bytes-Sends s fd bs l))
        (λ e. keep_left-Sends s fd bs is_send ok)

  do_fd_write-Sends :
      (s : Server) (fd : ℕ)
      → Buffered (buff_of s fd)
      → ((buff_of s fd).slen == 0) ≡ false
      → Sends s (do_fd_write s fd)
  unfolding do_fd_write write_from
  do_fd_write-Sends s fd (inl none_wait) e = absurd (ground arith)
  do_fd_write-Sends s fd (inr (m, b)) e =
      rw (do_fd_write, b)
        (written _ (
          send_bytes-Sends s fd (slice m 0 (buff_of s fd).slen)
            (ground (arith, length-slice m 0 (buff_of s fd).slen))))
    where
      written :
          (o : Option Ret)
          → Sends s o
          → Sends s (o >>= λ (r : Ret). some (r.0, note_sent r.1 fd m r.0))
      written _ (Sends.ends {r} {t} a) =
          Sends.ends (Carries-trans s t _ a (note_sent-Carries t fd m r))

  -- `do_fd_send` of at least one byte returns, whatever the descriptor's state, if bytes that wait
  -- stand in a buffer and malloc succeeds; so it is after it, and the send queues are untouched.
  pub do_fd_send-Sends :
      (s : Server) (fd : ℕ) (bs : List ℕ)
      → ((fd : ℕ) → Buffered (buff_of s fd))
      → s.kernel.malloc_ok ≡ true
      → 0 < length bs
      → Sends s (do_fd_send so s fd bs)
  unfolding do_fd_send
  do_fd_send-Sends s fd bs sound ok l =
      if-both (Sends s) ((buff_of s fd).slen == 0) (λ e. send_now-Sends s fd bs false ok l)
        (λ e. written _ (do_fd_write-Sends s fd (sound fd) e))
    where
      written :
          (o : Option Ret)
          → Sends s o
          → Sends s (
              o >>= λ (r : Ret). elim r.0 [
                | negsuc n ↦ some (minus_one, do_fd_close so r.1 fd 1)
                | pos n ↦ send_now so r.1 fd bs true
              ])
      written _ (Sends.ends {r = negsuc n} {t} a) =
          Sends.ends (Carries-trans s t _ a (do_fd_close-Carries so t fd 1 (omega arith)))
      written _ (Sends.ends {r = pos n} {t} a) =
          Sends-after s t a (send_now-Sends t fd bs true (a.malloc_ok ∙ ok) l)
