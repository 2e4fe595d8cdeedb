-- ===== src/MemQueue.antt =====
-- The shared-memory block queue (mem_queue.h, mem_queue.c). `head` is the offset that the next
-- push writes, `tail` the offset that the next get reads; both count from the start of the mapping.
pub mod Layout
pub mod Chain
pub mod Fifo
pub mod Run
pub mod Room
pub mod Measure
pub mod Race
use sserver.Prelude.{
  ℕ, zero, suc, ◌+◌, ◌-◌, Bool, true, false, List, [], ◌∷◌, Option, none, some, ltb, leb, ◌==◌,
  if◌then◌else◌, take, ℤ, pos, ◌+ℤ◌, ◌-ℤ◌,
}
use sserver.Mem.{Mem, blit, slice, le32, get32}

-- `enum MEM_BLOCK_TYPE`
abbrev pub blk_data : ℕ
blk_data = 0

abbrev pub blk_align : ℕ
blk_align = 1

abbrev pub blk_close : ℕ
blk_close = 2

abbrev pub blk_open : ℕ
blk_open = 3

-- `enum MEM_TYPE`
abbrev pub mem_type_recv : ℕ
mem_type_recv = 0

abbrev pub mem_type_send : ℕ
mem_type_send = 1

-- `mem_block_t` up to its data, packed: `len` counts the block's head and its data.
pub record MemBlock : Type 0 where
  pub id : ℕ
  pub fd : ℕ
  pub type : ℕ
  pub len : ℕ

-- the sizes of the packed structs
abbrev pub blk_head_len : ℕ
blk_head_len = 13

abbrev pub mem_head_len : ℕ
mem_head_len = 12

-- `mem_queue_t` with the `mem_head_t` that it points to. `notified` counts the bytes offered to
-- the pipe; the mapping's first `mem_head_len` bytes are the fields `head`, `tail` and `blk_cnt`.
pub record MemQueue : Type 0 where
  pub mem : Mem
  pub head : ℕ
  pub tail : ℕ
  pub blk_cnt : ℤ
  pub len : ℕ
  pub type : ℕ
  pub notified : ℕ

-- `mq_init`: an anonymous mapping is filled with zeros; `mapped` says whether mmap succeeds.
unfoldable pub init : Bool → ℕ → ℕ → Option MemQueue
init mapped size type =
    if mapped
    then some (record {
      mem = λ a. 0;
      head = mem_head_len;
      tail = mem_head_len;
      blk_cnt = pos 0;
      len = size;
      type = type;
      notified = 0;
    })
    else none

-- the fields of a block at an offset, read and written
unfoldable pub read_type : Mem → ℕ → ℕ
read_type m p = m (p + 8)

unfoldable pub read_block : Mem → ℕ → MemBlock
unfolding read_type
read_block m p = record {
  id = get32 m p;
  fd = get32 m (p + 4);
  type = read_type m p;
  len = get32 m (p + 9);
}

unfoldable pub set_type : Mem → ℕ → ℕ → Mem
set_type m p t = blit m (p + 8) (t ∷ [])

unfoldable pub set_len : Mem → ℕ → ℕ → Mem
set_len m p n = blit m (p + 9) (le32 n)

-- `memcpy(blk, b, blk_head_len)`
unfoldable pub write_block : Mem → ℕ → MemBlock → Mem
unfolding set_type set_len
write_block m p b =
    set_len (set_type (blit (blit m p (le32 b.id)) (p + 4) (le32 b.fd)) p b.type) p b.len

-- `blk->data`
unfoldable pub block_data : Mem → ℕ → List ℕ
block_data m p = slice m (p + blk_head_len) (get32 m (p + 9) - blk_head_len)

-- What `mq_get` gives: a block's offset, or NULL. `spin` means that the fuel ran out.
pub data Got : Type 0 where
  found : ℕ → MemQueue → Got
  null : MemQueue → Got
  spin : Got

-- One pass of `mq_get`; `again` is what the jump to `get_again` gives.
unfoldable pub get_round : MemQueue → Got → Got
get_round q again =
    if ltb q.tail q.head
    then (if leb (q.tail + blk_head_len) q.head then Got.found q.tail q else Got.null q)
    else if ltb q.head q.tail
    then (if ltb q.len (q.tail + blk_head_len)
        then again
        else if read_type q.mem q.tail == blk_align
        then again
        else Got.found q.tail q)
    else Got.null q

-- `mq_get`, with fuel for the jumps, which come after the tail is set to the start
unfoldable pub get_again : ℕ → MemQueue → Got
get_again zero q = Got.spin
get_again (suc fuel) q = get_round q (get_again fuel (record q { tail = mem_head_len }))

unfoldable pub get : MemQueue → Got
get q = get_again 2 q

-- What `mq_push` gives: 0, or -1 on a full queue. `spin` means that the fuel ran out.
pub data Pushed : Type 0 where
  done : MemQueue → Pushed
  full : MemQueue → Pushed
  spin : Pushed

-- the padding block at the end of the mapping: only `type` and `len` are written
unfoldable pub pad : MemQueue → MemQueue
pad q = record q {
  mem =
      if leb (q.head + blk_head_len) q.len
      then set_len (set_type q.mem q.head blk_align) q.head (q.len - q.head)
      else q.mem;
}

-- The copy of a block and its data to `head`. A `b.len` below `blk_head_len` is a negative size
-- for memcpy, which C leaves undefined.
unfoldable pub append : MemQueue → MemBlock → List ℕ → MemQueue
append q b bs = record q {
  mem = blit (write_block q.mem q.head b) (q.head + blk_head_len) (take (b.len - blk_head_len) bs);
  head = q.head + b.len;
  blk_cnt = q.blk_cnt +ℤ pos 1;
  notified = q.notified + 1;
}

-- One pass of `mq_push`; `again` is what the jump to `push_again` gives.
unfoldable pub push_round : MemQueue → MemBlock → List ℕ → Pushed → Pushed
push_round q b bs again =
    if leb q.tail q.head
    then (if leb q.len (q.head + b.len)
        then (if mem_head_len == q.tail then Pushed.full (pad q) else again)
        else Pushed.done (append q b bs))
    else if leb q.tail (q.head + b.len)
    then Pushed.full q
    else Pushed.done (append q b bs)

-- `mq_push`, with fuel for the jumps, which come after the padding and the reset of the head
unfoldable pub push_again : ℕ → MemQueue → MemBlock → List ℕ → Pushed
push_again zero q b bs = Pushed.spin
push_again (suc fuel) q b bs =
    push_round q b bs (push_again fuel (record (pad q) { head = mem_head_len }) b bs)

unfoldable pub push : MemQueue → MemBlock → List ℕ → Pushed
push q b bs = push_again 2 q b bs

-- `mq_pop`: the tail moves over the block that stands there.
unfoldable pub pop : MemQueue → MemQueue
pop q = record q { tail = q.tail + get32 q.mem (q.tail + 9); blk_cnt = q.blk_cnt -ℤ pos 1 }
