-- ===== src/Work/Serve.antt =====
-- What a worker does with a message, told without the queue's memory.
use sserver.Prelude.{
  ℕ, ◌+◌, ◌*◌, ◌<◌, ◌≡◌, refl, sym, ap, ◌∙◌, inl, inr, List, Option, none, some, arith, ◌==◌,
  Bool-cases, length, ltb, le→ltb, ◌||◌, if◌then◌else◌, pos, negsuc,
}
use sserver.Mem.{Mem, slice, get32}
use sserver.MemQueue.{MemBlock, blk_data, blk_open, blk_close, block_data}
use sserver.MemQueue.Layout.{Message, Held, size}
use sserver.Server.{FdSess, ServIf, Server}
use sserver.Epoll.{Ret, success}
use sserver.Socket.{minus_one}
use sserver.Fds.{get_fd, save_fd}
use sserver.Work.{
  do_blk_msg, do_blk_open, do_blk_close, close_cli, handle_block, addr_ip, addr_port, refuse_open,
  is_some, not_eq,
}
use sserver.Work.Opening.{nth, nth-slice, read_block-Held}

-- the session that an opening message asks for
abbrev pub session_of : Message → FdSess
session_of x = record {
  fd = x.fd;
  id = x.id;
  ip = nth 0 x.bytes + 256 * nth 1 x.bytes + 65536 * nth 2 x.bytes + 16777216 * nth 3 x.bytes;
  port = nth 4 x.bytes + 256 * nth 5 x.bytes;
}

module _ (so : ServIf) where
  -- A client's bytes go to the library, which may refuse them.
  abbrev pub serve_bytes : Server → ℕ → List ℕ → Option FdSess → Server
  serve_bytes s fd bs none = s
  serve_bytes s fd bs (some sess) =
      let (refused, t) = so.proc_cli_msg bs sess s in if refused then close_cli so t fd else t

  -- What a worker does with a message, without the queue's memory.
  abbrev pub serve : Server → Message → Server
  serve s x =
      if x.type == blk_data
      then serve_bytes s x.fd x.bytes (s.sessions x.fd)
      else if x.type == blk_open
      then save_fd s (session_of x)
      else if x.type == blk_close
      then (do_blk_close so s x.fd).1
      else s

pub block_data-Held : (m : Mem) (p : ℕ) (x : Message) → Held m p x → block_data m p ≡ x.bytes
unfolding block_data
block_data-Held m p x h = ap (slice m (p + 13)) (omega (arith, h.len)) ∙ h.bytes

addr_ip-Held :
    (m : Mem) (p : ℕ) (x : Message)
    → Held m p x
    → length x.bytes ≡ 6
    → (addr_ip m (p + 13) ≡ (session_of x).ip) × (addr_port m (p + 13) ≡ (session_of x).port)
unfolding get32
addr_ip-Held m p x h six = (
  omega (
    arith,
    ap m first ∙ byte 0 (omega arith),
    byte 1 (omega arith),
    byte 2 (omega arith),
    byte 3 (omega arith),
  ),
  omega (arith, byte 4 (omega arith), byte 5 (omega arith)),
)
  where
    first : p + 13 ≡ p + 13 + 0
    first = omega arith

    byte : (k : ℕ) → k < 6 → m (p + 13 + k) ≡ nth k x.bytes
    byte k l = sym (nth-slice m (p + 13) (length x.bytes) k (omega arith)) ∙ ap (nth k) h.bytes

do_blk_msg-Held :
    (so : ServIf) (s : Server) (m : Mem) (p : ℕ) (x : Message)
    → Held m p x
    → do_blk_msg so s m p ≡ serve_bytes so s x.fd x.bytes (s.sessions x.fd)
unfolding do_blk_msg get_fd
do_blk_msg-Held so s m p x h =
    (λ k. handled (read_block-Held m p x h k) (block_data-Held m p x h k))
    ∙ rw (le→ltb (size x) 13 (omega arith)) (known (s.sessions x.fd))
  where
    handled : MemBlock → List ℕ → Server
    handled b bs = if ltb b.len 13 then s else (elim (s.sessions b.fd) [
      | none ↦ s
      | some sess ↦
          let (refused, t) = so.proc_cli_msg bs sess s in if refused then close_cli so t b.fd else t
    ])

    known :
        (o : Option FdSess)
        → (elim o [
          | none ↦ s
          | some sess ↦
              let (refused, t) = so.proc_cli_msg x.bytes sess s in
              if refused then close_cli so t x.fd else t
        ])
          ≡ serve_bytes so s x.fd x.bytes o
    known none = refl
    known (some sess) = refl

do_blk_open-serve :
    (s : Server) (m : Mem) (p : ℕ) (x : Message)
    → Held m p x
    → length x.bytes ≡ 6
    → s.sessions x.fd ≡ none
    → do_blk_open s m p ≡ (success, save_fd s (session_of x))
unfolding do_blk_open get_fd
do_blk_open-serve s m p x h six fresh =
    (λ k. opened (read_block-Held m p x h k) (address.0 k) (address.1 k)) ∙ rw (fresh, six) refl
  where
    address :
        (addr_ip m (p + 13) ≡ (session_of x).ip) × (addr_port m (p + 13) ≡ (session_of x).port)
    address = addr_ip-Held m p x h six

    opened : MemBlock → ℕ → ℕ → Ret
    opened b ip port =
        if is_some (s.sessions b.fd) || not_eq b.len 19
        then (minus_one, s)
        else (success, save_fd s (record { fd = b.fd; id = b.id; ip = ip; port = port }))

-- The `switch` of `handle_mq_recv` on a message, unless it opens what may be open.
pub handle_block-serve :
    (so : ServIf) (s : Server) (i p : ℕ) (x : Message)
    → Held (s.works i).rq.mem p x
    → (x.type ≡ blk_open → (length x.bytes ≡ 6) × (s.sessions x.fd ≡ none))
    → handle_block so s i p ≡ serve so s x
unfolding handle_block
handle_block-serve so s i p x h fresh =
    (λ k. handled (read_block-Held m p x h k)) ∙ elim (Bool-cases (x.type == blk_data)) [
      | inl e ↦ rw (e) (do_blk_msg-Held so s m p x h)
      | inr e ↦ rw (e) (elim (Bool-cases (x.type == blk_open)) [
        | inl o ↦ rw (o) (
            ap opened
              (do_blk_open-serve s m p x h (fresh (ground arith)).0 (fresh (ground arith)).1))
        | inr o ↦ rw (o) refl
      ])
    ]
  where
    m : Mem
    m = (s.works i).rq.mem

    opened : Ret → Server
    opened r = elim r.0 [ pos n ↦ r.1 | negsuc n ↦ refuse_open r.1 i p ]

    handled : MemBlock → Server
    handled b =
        if b.type == blk_data
        then do_blk_msg so s m p
        else if b.type == blk_open
        then opened (do_blk_open s m p)
        else if b.type == blk_close
        then (do_blk_close so s b.fd).1
        else s
