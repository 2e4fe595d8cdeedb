-- ===== src/MemQueue/Measure.antt =====
-- The room of a queue: every accepted push takes its block's length from it.
use sserver.Prelude.{
  ℕ, ◌+◌, ◌-◌, ◌≤◌, ◌<◌, ◌≡◌, refl, List, arith, leb, ◌==◌, if◌then◌else◌, if-both,
}
use sserver.MemQueue.{
  MemBlock, MemQueue, Pushed, mem_head_len, pad, append, push_round, push_again, push,
}

-- Both ends of the queue are within the mapping, and the tail is behind its head.
pub record Bounded (q : MemQueue) : Type 0 where
  pub low : mem_head_len ≤ q.tail
  pub tail : q.tail ≤ q.len
  pub head : q.head ≤ q.len

-- the bytes that pushes may still take, with what a jump to the start may skip
abbrev pub room : MemQueue → ℕ
room q = if leb q.tail q.head then q.len - q.head + q.tail else q.tail - q.head

-- What a push may give on a bounded queue: it is bounded still, with the same tail; an accepted
-- block has taken its length from the room.
pub data Takes (q : MemQueue) (n : ℕ) : Pushed → Type 0 where
  done :
      {p : MemQueue} → Bounded p → p.tail ≡ q.tail → room p + n ≤ room q → Takes q n (Pushed.done p)
  full : {p : MemQueue} → Bounded p → p.tail ≡ q.tail → Takes q n (Pushed.full p)
  spin : Takes q n Pushed.spin

append-Takes-linear :
    (q : MemQueue) (b : MemBlock) (bs : List ℕ)
    → Bounded q
    → q.tail ≤ q.head
    → q.head + b.len < q.len
    → Takes q b.len (Pushed.done (append q b bs))
unfolding append
append-Takes-linear q b bs h l f =
    Takes.done (record { low = h.low; tail = h.tail; head = omega arith }) refl (ground arith)

append-Takes-wrapped :
    (q : MemQueue) (b : MemBlock) (bs : List ℕ)
    → Bounded q
    → q.head + b.len < q.tail
    → Takes q b.len (Pushed.done (append q b bs))
unfolding append
append-Takes-wrapped q b bs h f =
    Takes.done (record { low = h.low; tail = h.tail; head = omega (arith, h.tail) }) refl
      (ground arith)

Takes-pad : (q : MemQueue) (n : ℕ) → Bounded q → Takes q n (Pushed.full (pad q))
unfolding pad
Takes-pad q n h = Takes.full (record { low = h.low; tail = h.tail; head = h.head }) refl

-- A push behind the jump, seen from the queue before it.
Takes-again :
    (q : MemQueue) (n : ℕ) (r : Pushed)
    → Bounded q
    → mem_head_len < q.tail
    → q.tail ≤ q.head
    → Takes (record (pad q) { head = mem_head_len }) n r
    → Takes q n r
unfolding pad
Takes-again q n _ h later l (Takes.done b e f) = Takes.done b e (ground (arith, f, h.head))
Takes-again q n _ h later l (Takes.full b e) = Takes.full b e
Takes-again q n _ h later l Takes.spin = Takes.spin

push_round-Takes :
    (q : MemQueue) (b : MemBlock) (bs : List ℕ) (again : Pushed)
    → Bounded q
    → (mem_head_len < q.tail → q.tail ≤ q.head → Takes q b.len again)
    → Takes q b.len (push_round q b bs again)
unfolding push_round
push_round-Takes q b bs again h next =
    if-both (Takes q b.len) (leb q.tail q.head)
      (λ l.
        if-both (Takes q b.len) (leb q.len (q.head + b.len))
          (λ over.
            if-both (Takes q b.len) (mem_head_len == q.tail) (λ e. Takes-pad q b.len h)
              (λ e. next (ground (arith, h.low)) (ground arith)))
          (λ fits. append-Takes-linear q b bs h (ground arith) (ground arith)))
      (λ l.
        if-both (Takes q b.len) (leb q.tail (q.head + b.len)) (λ over. Takes.full h refl)
          (λ fits. append-Takes-wrapped q b bs h (ground arith)))

pub push-Takes :
    (q : MemQueue) (b : MemBlock) (bs : List ℕ) → Bounded q → Takes q b.len (push q b bs)
unfolding push push_again pad
push-Takes q b bs h = push_round-Takes q b bs _ h (λ later l. Takes-again q b.len _ h later l (
    push_round-Takes _ b bs Pushed.spin
      (record { low = h.low; tail = h.tail; head = omega (arith, h.low, h.tail) })
      (λ _ _. Takes.spin)))
