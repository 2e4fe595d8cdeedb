-- ===== src/Work/Opening.antt =====
-- An opening block of the master becomes a session of the worker.
use sserver.Prelude.{
  ℕ, zero, suc, ◌+◌, ◌^◌, ◌≡◌, ◌<◌, sym, ap, ◌∙◌, false, List, [], ◌∷◌, some, none, arith, ◌==◌,
  ◌||◌, if◌then◌else◌, pos, negsuc,
}
use sserver.Mem.{Mem, slice, get32}
use sserver.MemQueue.{MemBlock, blk_open, blk_close, blk_data, read_block}
use sserver.MemQueue.Layout.{Message, Held, block_of}
use sserver.Server.{ServIf, Server, update}
use sserver.Epoll.{Ret, success}
use sserver.Socket.{minus_one}
use sserver.Fds.{get_fd, save_fd}
use sserver.Master.{addr_bytes}
use sserver.Work.{
  do_blk_open, do_blk_msg, do_blk_close, refuse_open, handle_block, addr_ip, addr_port, is_some,
  not_eq,
}

-- the message of the master's opening block for a client
abbrev pub opening : ℕ → ℕ → ℕ → ℕ → Message
opening idx fd ip port = record { id = idx; fd = fd; type = blk_open; bytes = addr_bytes ip port }

pub read_block-Held : (m : Mem) (p : ℕ) (x : Message) → Held m p x → read_block m p ≡ block_of x
unfolding read_block
read_block-Held m p x h = λ i. record { id = h.id i; fd = h.fd i; type = h.type i; len = h.len i }

-- the byte at a place of a list, 0 behind its end
abbrev pub nth : ℕ → List ℕ → ℕ
nth n [] = 0
nth zero (b ∷ bs) = b
nth (suc n) (b ∷ bs) = nth n bs

pub nth-slice : (m : Mem) (p n k : ℕ) → k < n → nth k (slice m p n) ≡ m (p + k)
unfolding slice
nth-slice m p zero k h = absurd (omega arith)
nth-slice m p (suc n) zero h = ap m (omega arith)
nth-slice m p (suc n) (suc k) h = nth-slice m (p + 1) n k (omega arith) ∙ ap m (omega arith)

-- The address of a client as it stands behind the block's head.
addr-Held :
    (m : Mem) (p idx fd ip port : ℕ)
    → ip < 2 ^ 32
    → port < 2 ^ 16
    → Held m p (opening idx fd ip port)
    → (addr_ip m (p + 13) ≡ ip) × (addr_port m (p + 13) ≡ port)
unfolding get32
addr-Held m p idx fd ip port i q h = (
  omega (
    arith,
    ap m first ∙ byte 0 (omega arith),
    byte 1 (omega arith),
    byte 2 (omega arith),
    byte 3 (omega arith),
  ),
  omega (arith, byte 4 (omega arith), byte 5 (omega arith)),
)
  where
    first : p + 13 ≡ p + 13 + 0
    first = omega arith

    byte : (k : ℕ) → k < 6 → m (p + 13 + k) ≡ nth k (addr_bytes ip port)
    byte k l = sym (nth-slice m (p + 13) 6 k l) ∙ ap (nth k) h.bytes

-- `do_blk_open` of an opening block for a descriptor without a session.
do_blk_open-Held :
    (s : Server) (m : Mem) (p idx fd ip port : ℕ)
    → ip < 2 ^ 32
    → port < 2 ^ 16
    → Held m p (opening idx fd ip port)
    → get_fd s fd ≡ none
    → do_blk_open s m p ≡ (success, save_fd s (record { fd = fd; id = idx; ip = ip; port = port }))
unfolding do_blk_open
do_blk_open-Held s m p idx fd ip port i q h fresh =
    (λ k. opened (read_block-Held m p (opening idx fd ip port) h k) (address.0 k) (address.1 k))
    ∙ ap (λ o. if is_some o || false then (minus_one, s) else (success, saved)) fresh
  where
    address : (addr_ip m (p + 13) ≡ ip) × (addr_port m (p + 13) ≡ port)
    address = addr-Held m p idx fd ip port i q h

    saved : Server
    saved = save_fd s (record { fd = fd; id = idx; ip = ip; port = port })

    opened : MemBlock → ℕ → ℕ → Ret
    opened b ip port =
        if is_some (get_fd s b.fd) || not_eq b.len 19
        then (minus_one, s)
        else (success, save_fd s (record { fd = b.fd; id = b.id; ip = ip; port = port }))

-- An opening block that the master made for a client becomes, in a worker that has no session of
-- this descriptor, the session with the client's address; nothing else in the process changes.
pub handle_block-opening :
    (so : ServIf) (s : Server) (i p idx fd ip port : ℕ)
    → ip < 2 ^ 32
    → port < 2 ^ 16
    → Held (s.works i).rq.mem p (opening idx fd ip port)
    → get_fd s fd ≡ none
    → handle_block so s i p ≡ record s {
      sessions = update s.sessions fd (some (record { fd = fd; id = idx; ip = ip; port = port }));
    }
unfolding handle_block save_fd
handle_block-opening so s i p idx fd ip port a b h fresh = λ k.
    handled (read_block-Held m p (opening idx fd ip port) h k)
      (do_blk_open-Held s m p idx fd ip port a b h fresh k)
  where
    m : Mem
    m = (s.works i).rq.mem

    handled : MemBlock → Ret → Server
    handled b r =
        if b.type == blk_data
        then do_blk_msg so s m p
        else if b.type == blk_open
        then (elim r.0 [ pos n ↦ r.1 | negsuc n ↦ refuse_open r.1 i p ])
        else if b.type == blk_close
        then (do_blk_close so s b.fd).1
        else s
