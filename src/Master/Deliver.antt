-- ===== src/Master/Deliver.antt =====
-- What the master does with a message of a worker, told without the queue's memory.
use sserver.Prelude.{
  ℕ, ◌<◌, ◌≡◌, ◌≢◌, ◌∙◌, true, List, [], ◌∷◌, Option, some, arith, ◌==◌, if-both, length,
  if◌then◌else◌,
}
use sserver.Mem.{Mem}
use sserver.MemQueue.{MemBlock, MemQueue, blk_close}
use sserver.MemQueue.Layout.{Message, Held}
use sserver.Server.{ServIf, Server, buff_of, with_sq}
use sserver.Epoll.{Ret, success}
use sserver.NetUtil.{do_fd_close}
use sserver.NetSend.{do_fd_send}
use sserver.NetSend.Carried.{Buffered, Carries, do_fd_close-Carries}
use sserver.NetSend.Returns.{Sends, do_fd_send-Sends}
use sserver.Work.Opening.{read_block-Held}
use sserver.Work.Serve.{block_data-Held}
use sserver.Master.{do_blk_send}

module _ (so : ServIf) where
  -- What the master does with a message of a worker, without the queue's memory.
  abbrev pub deliver : Server → Message → Option Ret
  deliver s x =
      if x.type == blk_close
      then some (success, do_fd_close so s x.fd 2)
      else do_fd_send so s x.fd x.bytes

-- Every message but a closing one has bytes.
abbrev pub Loaded : List Message → Type 0
Loaded [] = Unit {0}
Loaded (x ∷ xs) = (x.type ≢ blk_close → 0 < length x.bytes) × Loaded xs

-- Bytes that wait on a descriptor stand in a buffer, and malloc succeeds.
pub record Sound (s : Server) : Type 0 where
  pub buffered : (fd : ℕ) → Buffered (buff_of s fd)
  pub malloc_ok : s.kernel.malloc_ok ≡ true

pub Carries-Sound : (s t : Server) → Carries s t → Sound s → Sound t
Carries-Sound s t a h = record {
  buffered = a.buffered h.buffered;
  malloc_ok = a.malloc_ok ∙ h.malloc_ok;
}

pub with_sq-Sound : (s : Server) (i : ℕ) (q : MemQueue) → Sound s → Sound (with_sq s i q)
with_sq-Sound s i q h = record { buffered = h.buffered; malloc_ok = h.malloc_ok }

module _ (so : ServIf) where
  pub do_blk_send-deliver :
      (s : Server) (m : Mem) (p : ℕ) (x : Message)
      → Held m p x
      → do_blk_send so s m p ≡ deliver so s x
  unfolding do_blk_send
  do_blk_send-deliver s m p x h =
      λ k. handled (read_block-Held m p x h k) (block_data-Held m p x h k)
    where
      handled : MemBlock → List ℕ → Option Ret
      handled b bs =
          if b.type == blk_close
          then some (success, do_fd_close so s b.fd 2)
          else do_fd_send so s b.fd bs

  pub deliver-Sends :
      (s : Server) (x : Message)
      → (x.type ≢ blk_close → 0 < length x.bytes)
      → Sound s
      → Sends s (deliver so s x)
  deliver-Sends s x l h =
      if-both (Sends s) (x.type == blk_close)
        (λ e. Sends.ends (do_fd_close-Carries so s x.fd 2 (omega arith)))
        (λ e. do_fd_send-Sends so s x.fd x.bytes h.buffered h.malloc_ok (l (ground arith)))
