-- ===== src/MemQueue/Room.antt =====
-- What a push does to the tail, the block counter and the pipe.
use sserver.Prelude.{ℕ, ◌+◌, ◌≡◌, List, arith, pos, ◌+ℤ◌}
use sserver.MemQueue.{MemBlock, MemQueue, Pushed, pad, append, push_round, push_again, push}

-- A refused push leaves the tail, the counter and the notifications alone.
pub push_refused :
    (q q' : MemQueue) (b : MemBlock) (bs : List ℕ)
    → push q b bs ≡ Pushed.full q'
    → (q'.tail ≡ q.tail) × (q'.blk_cnt ≡ q.blk_cnt) × (q'.notified ≡ q.notified)
unfolding push push_again push_round pad
push_refused q q' b bs h = ground arith

-- An accepted push counts one block and offers one byte to the pipe.
pub push_counts :
    (q q' : MemQueue) (b : MemBlock) (bs : List ℕ)
    → push q b bs ≡ Pushed.done q'
    → (q'.tail ≡ q.tail) × (q'.blk_cnt ≡ q.blk_cnt +ℤ pos 1) × (q'.notified ≡ q.notified + 1)
unfolding push push_again push_round pad append
push_counts q q' b bs h = ground arith
