-- ===== src/MemQueue/Layout.antt =====
-- Blocks in memory: a block that was written is read back, and writes elsewhere leave it alone.
use sserver.Prelude.{
  ℕ, ◌+◌, ◌-◌, ◌^◌, ◌<◌, ◌≡◌, ◌≢◌, ◌∙◌, List, [], ◌∷◌, arith, length, take, take_all, length-take,
}
use sserver.Mem.{Mem, blit, slice, le32, get32}
use sserver.Mem.Frame.{
  Apart, blit-outside, blit-head, get32-blit-Apart, get32-le32, slice-blit_self, slice-blit-Apart,
}
use sserver.MemQueue.{
  MemBlock, MemQueue, blk_align, blk_head_len, read_type, set_type, set_len, write_block, append,
}

-- A message: a block's head fields and its data.
pub record Message : Type 0 where
  pub id : ℕ
  pub fd : ℕ
  pub type : ℕ
  pub bytes : List ℕ

abbrev pub size : Message → ℕ
size x = blk_head_len + length x.bytes

abbrev pub block_of : Message → MemBlock
block_of x = record { id = x.id; fd = x.fd; type = x.type; len = size x }

-- The fields fit their C types, and the type is none that the queue keeps for itself.
pub record Fits (x : Message) : Type 0 where
  pub type : x.type ≢ blk_align
  pub id : x.id < 2 ^ 32
  pub fd : x.fd < 2 ^ 32
  pub len : size x < 2 ^ 31

-- The message stands at the offset `p`.
pub record Held (m : Mem) (p : ℕ) (x : Message) : Type 0 where
  pub id : get32 m p ≡ x.id
  pub fd : get32 m (p + 4) ≡ x.fd
  pub type : read_type m p ≡ x.type
  pub len : get32 m (p + 9) ≡ size x
  pub bytes : slice m (p + blk_head_len) (length x.bytes) ≡ x.bytes

pub Held-blit :
    (m : Mem) (p : ℕ) (x : Message) (q : ℕ) (bs : List ℕ)
    → Apart p (size x) q (length bs)
    → Held m p x
    → Held (blit m q bs) p x
unfolding read_type
Held-blit m p x q bs a h = record {
  id = get32-blit-Apart m q bs p (omega arith) ∙ h.id;
  fd = get32-blit-Apart m q bs (p + 4) (omega arith) ∙ h.fd;
  type = blit-outside m q bs (p + 8) (omega arith) ∙ h.type;
  len = get32-blit-Apart m q bs (p + 9) (omega arith) ∙ h.len;
  bytes = slice-blit-Apart m q bs (p + blk_head_len) (length x.bytes) (omega arith) ∙ h.bytes;
}

pub Held-write_block :
    (m : Mem) (p : ℕ) (x : Message) (q : ℕ) (b : MemBlock)
    → Apart p (size x) q blk_head_len
    → Held m p x
    → Held (write_block m q b) p x
unfolding write_block set_type set_len
Held-write_block m p x q b a h = Held-blit _ p x (q + 9) (le32 b.len) (omega arith) (
    Held-blit _ p x (q + 8) (b.type ∷ []) (omega arith) (
      Held-blit _ p x (q + 4) (le32 b.fd) (omega arith)
        (Held-blit _ p x q (le32 b.id) (omega arith) h)))

-- A message is read back from where it was appended.
pub Held-append :
    (q : MemQueue) (x : Message) → Fits x → Held (append q (block_of x) x.bytes).mem q.head x
unfolding append write_block set_type set_len read_type
Held-append q x f = record {
  id =
      get32-blit-Apart _ (p + blk_head_len) _ p (omega arith)
      ∙ get32-blit-Apart _ (p + 9) _ p (omega arith)
      ∙ get32-blit-Apart _ (p + 8) _ p (omega arith)
      ∙ get32-blit-Apart _ (p + 4) _ p (omega arith)
      ∙ get32-le32 q.mem p x.id f.id;
  fd =
      get32-blit-Apart _ (p + blk_head_len) _ (p + 4) (omega arith)
      ∙ get32-blit-Apart _ (p + 9) _ (p + 4) (omega arith)
      ∙ get32-blit-Apart _ (p + 8) _ (p + 4) (omega arith)
      ∙ get32-le32 _ (p + 4) x.fd f.fd;
  type =
      blit-outside _ (p + blk_head_len) _ (p + 8) (omega arith)
      ∙ blit-outside _ (p + 9) _ (p + 8) (omega arith)
      ∙ blit-head _ (p + 8) x.type [];
  len =
      get32-blit-Apart _ (p + blk_head_len) _ (p + 9) (omega arith)
      ∙ get32-le32 _ (p + 9) (size x) (omega (arith, f.len));
  bytes = rw all (slice-blit_self _ (p + blk_head_len) x.bytes);
}
  where
    p : ℕ
    p = q.head

    all : take (size x - blk_head_len) x.bytes ≡ x.bytes
    all = take_all _ x.bytes (omega arith)

-- An append leaves alone what stands clear of the new block.
pub Held-append-Apart :
    (q : MemQueue) (x y : Message) (p : ℕ)
    → Apart p (size y) q.head (size x)
    → Held q.mem p y
    → Held (append q (block_of x) x.bytes).mem p y
unfolding append
Held-append-Apart q x y p a h =
    Held-blit _ p y (q.head + blk_head_len) _ (omega (arith, length-take (size x - 13) x.bytes))
      (Held-write_block q.mem p y q.head (block_of x) (omega arith) h)
