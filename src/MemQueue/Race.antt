-- ===== src/MemQueue/Race.antt =====
-- `mq_push` compares head and tail twice, and the consumer is another process that may move the
-- tail between the two comparisons.
use sserver.Prelude.{ℕ, ◌+◌, ◌≤◌, ◌≡◌, List, [], leb, ltb, lt→leb, le→ltb, if◌then◌else◌, arith}
use sserver.MemQueue.{
  MemQueue, MemBlock, Got, Pushed, mem_head_len, get, get_again, get_round, push, append,
}
use sserver.MemQueue.Layout.{Message, block_of}
use sserver.MemQueue.Fifo.{Wrapped, Wrapped-round, Holds, get_round-end}

-- The queue after a `mq_get`, which may have moved the tail to the start.
unfoldable pub after_get : MemQueue → Got → MemQueue
after_get q (Got.found p q') = q'
after_get q (Got.null q') = q'
after_get q Got.spin = q

-- `mq_push` when its first comparison, `head >= tail`, fails on `q`, and the consumer runs one
-- `mq_get` before the second, `head < tail`. Where both fail, the function falls to `return 0`.
unfoldable pub push_interleaved : MemQueue → MemBlock → List ℕ → Pushed
unfolding after_get
push_interleaved q b bs =
    let q' = after_get q (get q) in
    if leb q.tail q.head
    then push q b bs
    else if ltb q'.head q'.tail
    then (if leb q'.tail (q'.head + b.len) then Pushed.full q' else Pushed.done (append q' b bs))
    else Pushed.done q'

after_get-straight :
    (q r : MemQueue) (again : Got) → r.tail ≤ r.head → after_get q (get_round r again) ≡ r
unfolding after_get get_round
after_get-straight q r again h = ground arith

after_get-end :
    (q : MemQueue) (back : List Message) (e : ℕ)
    → Wrapped q [] back e
    → after_get q (get q) ≡ record q { tail = mem_head_len }
unfolding get get_again
after_get-end q back e w =
    rw (get_round-end q back e _ w)
      (after_get-straight q (record q { tail = mem_head_len }) Got.spin w.low)

-- When the upper run is drained, a push that the consumer's get interrupts between its two
-- comparisons returns 0 and writes nothing: the queue still holds exactly what it held.
pub push_interleaved_loses :
    (q : MemQueue) (back : List Message) (e : ℕ) (x : Message)
    → Wrapped q [] back e
    → (push_interleaved q (block_of x) x.bytes ≡ Pushed.done (record q { tail = mem_head_len }))
      × Holds (record q { tail = mem_head_len }) back
unfolding push_interleaved
push_interleaved_loses q back e x w = (
  rw (lt→leb q.tail q.head w.gap, after_get-end q back e w, le→ltb q.head mem_head_len w.low),
  Holds.linear (Wrapped-round q back e w),
)
