-- ===== src/MemQueue/Fifo.antt =====
-- The queue's two shapes in memory, and each operation against the list of waiting messages.
use sserver.Prelude.{
  ℕ, ◌+◌, ◌≤◌, ◌<◌, ◌≡◌, ◌≢◌, refl, sym, ◌∙◌, inl, inr, true, false, List, [], ◌∷◌, ◌++◌,
  append-nil, append_assoc, arith, ltb, leb, ◌==◌, lt→ltb, le→ltb, le→leb, lt→leb, Bool-cases,
}
use sserver.MemQueue.{
  MemQueue, Got, Pushed, blk_align, mem_head_len, read_type, get_round, get_again, get, push_round,
  push_again, push, pad, append, pop,
}
use sserver.MemQueue.Layout.{Message, size, block_of, Fits, Held}
use sserver.MemQueue.Chain.{
  Chain, Chain-le, Chain-append, Chain-append_above, read_type-append, EndAt, Chain-pad, EndAt-pad,
}

-- One run of messages, from the tail up to the head.
pub record Linear (q : MemQueue) (xs : List Message) : Type 0 where
  pub low : mem_head_len ≤ q.tail
  pub high : q.head < q.len
  pub chain : Chain q.mem q.tail q.head xs

-- The head has gone round: a run from the tail to the end, and one from the start to the head.
pub record Wrapped (q : MemQueue) (front back : List Message) (e : ℕ) : Type 0 where
  pub low : mem_head_len ≤ q.head
  pub gap : q.head < q.tail
  pub high : e < q.len
  pub end : EndAt q e
  pub upper : Chain q.mem q.tail e front
  pub lower : Chain q.mem mem_head_len q.head back

-- The waiting messages, oldest first.
pub data Holds (q : MemQueue) (xs : List Message) : Type 0 where
  linear : Linear q xs → Holds q xs
  wrapped :
      (e : ℕ) (front back : List Message) → Wrapped q front back e → xs ≡ front ++ back → Holds q xs

-- What a push of `x` may give on a queue that holds `xs`.
pub data Pushes (x : Message) (xs : List Message) : Pushed → Type 0 where
  done : {q : MemQueue} → Holds q (xs ++ x ∷ []) → Pushes x xs (Pushed.done q)
  full : {q : MemQueue} → Holds q xs → Pushes x xs (Pushed.full q)

pub Linear-append :
    (q : MemQueue) (xs : List Message) (x : Message)
    → Fits x
    → q.head + size x < q.len
    → Linear q xs
    → Linear (append q (block_of x) x.bytes) (xs ++ x ∷ [])
unfolding append
Linear-append q xs x f h l = record {
  low = l.low;
  high = h;
  chain = unfold append in Chain-append q x q.tail xs f l.chain;
}

EndAt-append :
    (q : MemQueue) (x : Message) (e : ℕ)
    → q.head + size x ≤ e
    → EndAt q e
    → EndAt (append q (block_of x) x.bytes) e
EndAt-append q x e h (inl short) = inl (unfold append in short)
EndAt-append q x e h (inr align) = inr (read_type-append q x e h ∙ align)

Wrapped-append :
    (q : MemQueue) (front back : List Message) (e : ℕ) (x : Message)
    → Fits x
    → q.head + size x < q.tail
    → Wrapped q front back e
    → Wrapped (append q (block_of x) x.bytes) front (back ++ x ∷ []) e
Wrapped-append q front back e x f h w = record {
  low = unfold append in omega arith;
  gap = unfold append in h;
  high = unfold append in w.high;
  end = EndAt-append q x e (omega (arith, Chain-le q.mem q.tail e front w.upper)) w.end;
  upper = unfold append in Chain-append_above q x q.tail e front (omega arith) w.upper;
  lower = unfold append in Chain-append q x mem_head_len back f w.lower;
}

-- A push that does not fit at the end first sends the head round.
Wrapped-pad :
    (q : MemQueue) (xs : List Message)
    → Linear q xs
    → mem_head_len ≢ q.tail
    → Wrapped (record (pad q) { head = mem_head_len }) xs [] q.head
unfolding pad
Wrapped-pad q xs l n = record {
  low = omega arith;
  gap = omega arith;
  high = l.high;
  end = unfold pad in EndAt-pad q;
  upper = unfold pad in Chain-pad q q.tail q.head xs (omega arith) l.chain;
  lower = refl;
}

Linear-pad : (q : MemQueue) (xs : List Message) → Linear q xs → Linear (pad q) xs
unfolding pad
Linear-pad q xs l = record {
  low = l.low;
  high = l.high;
  chain = unfold pad in Chain-pad q q.tail q.head xs (omega arith) l.chain;
}

push_round-Wrapped :
    (q : MemQueue) (xs front back : List Message) (e : ℕ) (x : Message) (again : Pushed)
    → Fits x
    → xs ≡ front ++ back
    → Wrapped q front back e
    → Pushes x xs (push_round q (block_of x) x.bytes again)
unfolding push_round
push_round-Wrapped q xs front back e x again f s w =
    elim (Bool-cases (leb q.tail (q.head + size x))) [
      | inl over ↦
          rw (lt→leb q.tail q.head w.gap, over) (Pushes.full (Holds.wrapped e front back w s))
      | inr room ↦
          rw (lt→leb q.tail q.head w.gap, room)
            (Pushes.done (
              Holds.wrapped e front (back ++ x ∷ [])
                (Wrapped-append q front back e x f (ground arith) w)
                (rw (s) (append_assoc front back (x ∷ [])))))
    ]

push_round-Linear :
    (q : MemQueue) (xs : List Message) (x : Message) (again : Pushed)
    → Fits x
    → (mem_head_len ≢ q.tail → Pushes x xs again)
    → Linear q xs
    → Pushes x xs (push_round q (block_of x) x.bytes again)
unfolding push_round
push_round-Linear q xs x again f next l =
    rw (le→leb q.tail q.head (Chain-le q.mem q.tail q.head xs l.chain))
      (elim (Bool-cases (leb q.len (q.head + size x))) [
        | inr room ↦
            rw (room) (Pushes.done (Holds.linear (Linear-append q xs x f (ground arith) l)))
        | inl over ↦ rw (over) (elim (Bool-cases (mem_head_len == q.tail)) [
          | inl start ↦ rw (start) (Pushes.full (Holds.linear (Linear-pad q xs l)))
          | inr later ↦ rw (later) (next (ground arith))
        ])
      ])

-- `mq_push` on a queue that holds `xs`: it returns 0 and the queue holds the message behind them,
-- or it returns -1 and the queue holds `xs` still. It never loops.
pub push_lem :
    (q : MemQueue) (xs : List Message) (x : Message)
    → Fits x
    → Holds q xs
    → Pushes x xs (push q (block_of x) x.bytes)
unfolding push push_again
push_lem q xs x f (Holds.linear l) =
    push_round-Linear q xs x _ f
      (λ later.
        push_round-Wrapped _ xs xs [] q.head x Pushed.spin f (sym (append-nil xs))
          (Wrapped-pad q xs l later))
      l
push_lem q xs x f (Holds.wrapped e front back w s) = push_round-Wrapped q xs front back e x _ f s w

-- What `mq_get` may give on a queue that holds these messages: NULL exactly if there are none,
-- and otherwise the offset of the oldest, which the next pop takes away.
pub data Gets : List Message → Got → Type 0 where
  null : {q : MemQueue} → Holds q [] → Gets [] (Got.null q)
  found :
      {q : MemQueue} {x : Message} {xs : List Message}
      → Held q.mem q.tail x
      → Holds q (x ∷ xs)
      → Holds (pop q) xs
      → Gets (x ∷ xs) (Got.found q.tail q)

Linear-pop :
    (q : MemQueue) (x : Message) (xs : List Message) → Linear q (x ∷ xs) → Linear (pop q) xs
unfolding pop
Linear-pop q x xs l = record {
  low = omega arith;
  high = l.high;
  chain = rw (l.chain.0.len) (l.chain.2);
}

get_round-Linear :
    (q : MemQueue) (xs : List Message) (again : Got) → Linear q xs → Gets xs (get_round q again)
unfolding get_round
get_round-Linear q [] again l =
    rw
      (le→ltb q.tail q.head (omega (arith, l.chain)), le→ltb q.head q.tail (omega (arith, l.chain)))
      (Gets.null (Holds.linear l))
get_round-Linear q (x ∷ xs) again l =
    rw
      (
        lt→ltb q.tail q.head (omega (arith, below)),
        le→leb (q.tail + 13) q.head (omega (arith, below)),
      )
      (Gets.found l.chain.0 (Holds.linear l) (Holds.linear (Linear-pop q x xs l)))
  where
    below : q.tail + size x ≤ q.head
    below = Chain-le q.mem (q.tail + size x) q.head xs l.chain.2

Wrapped-pop :
    (q : MemQueue) (x : Message) (front back : List Message) (e : ℕ)
    → Wrapped q (x ∷ front) back e
    → Wrapped (pop q) front back e
unfolding pop
Wrapped-pop q x front back e w = record {
  low = w.low;
  gap = omega (arith, w.upper.0.len, w.gap);
  high = w.high;
  end = w.end;
  upper = rw (w.upper.0.len) (w.upper.2);
  lower = w.lower;
}

-- The tail goes round when it reaches the end of the upper run.
pub Wrapped-round :
    (q : MemQueue) (xs : List Message) (e : ℕ)
    → Wrapped q [] xs e
    → Linear (record q { tail = mem_head_len }) xs
Wrapped-round q xs e w = record {
  low = omega arith;
  high = omega (arith, w.gap, w.high, w.upper);
  chain = w.lower;
}

get_round-front :
    (q : MemQueue) (x : Message) (xs front back : List Message) (e : ℕ) (again : Got)
    → x ∷ xs ≡ x ∷ front ++ back
    → Wrapped q (x ∷ front) back e
    → Gets (x ∷ xs) (get_round q again)
unfolding get_round
get_round-front q x xs front back e again s w =
    rw
      (
        le→ltb q.tail q.head (omega arith),
        lt→ltb q.head q.tail w.gap,
        le→ltb q.len (q.tail + 13) (omega (arith, above, w.high)),
        plain,
      )
      (Gets.found w.upper.0 (Holds.wrapped e (x ∷ front) back w s)
        (Holds.wrapped e front back (Wrapped-pop q x front back e w) (cc)))
  where
    above : q.tail + size x ≤ e
    above = Chain-le q.mem (q.tail + size x) e front w.upper.2

    plain : (read_type q.mem q.tail == blk_align) ≡ false
    plain = ground (arith, w.upper.1.type, w.upper.0.type)

-- At the end of the upper run `mq_get` jumps.
pub get_round-end :
    (q : MemQueue) (xs : List Message) (e : ℕ) (again : Got)
    → Wrapped q [] xs e
    → get_round q again ≡ again
unfolding get_round
get_round-end q xs e again w =
    rw (le→ltb q.tail q.head (omega arith), lt→ltb q.head q.tail w.gap)
      (elim (Bool-cases (ltb q.len (q.tail + 13))) [
        | inl short ↦ rw (short)
        | inr long ↦ rw (long, padding w.end (ground arith))
      ])
  where
    padding : EndAt q e → q.tail + 13 ≤ q.len → (read_type q.mem q.tail == blk_align) ≡ true
    padding (inl short) h = absurd (omega arith)
    padding (inr align) h = rw (w.upper, align)

-- `mq_get` on a queue that holds these messages: NULL exactly if there are none, and otherwise
-- the oldest, at the offset returned, with its fields and data as they were pushed; the pop that
-- follows takes that one away. It never loops.
pub get_lem : (q : MemQueue) (xs : List Message) → Holds q xs → Gets xs (get q)
unfolding get get_again
get_lem q xs (Holds.linear l) = get_round-Linear q xs _ l
get_lem q xs (Holds.wrapped e [] back w s) =
    rw (s, get_round-end q back e _ w) (get_round-Linear _ back _ (Wrapped-round q back e w))
get_lem q xs (Holds.wrapped e (x ∷ front) back w s) =
    rw (s) (get_round-front q x (front ++ back) front back e _ refl w)
