-- ===== src/MemQueue/Run/Counter.antt =====
-- The counter of a queue and the bytes in its pipe, under any sequence of pushes and gets.
use sserver.Prelude.{
  ℕ, ◌+◌, ◌<◌, ◌≡◌, refl, ap, ◌∙◌, true, List, [], ◌∷◌, ◌++◌, arith, some, length, length-append,
  pos, ◌+ℤ◌, ◌-ℤ◌, pos-add_one, pos-sub_one,
}
use sserver.MemQueue.{
  MemQueue, Got, Pushed, init, mem_head_len, get, get_again, get_round, push, pop,
}
use sserver.MemQueue.Layout.{Message, block_of}
use sserver.MemQueue.Fifo.{Holds, Pushes, Gets, push_lem, get_lem}
use sserver.MemQueue.Room.{push_counts, push_refused}
use sserver.MemQueue.Run.{
  Op, Trace, note_push, note_get, join, run, Sendable, init-Holds, send, receive,
}

-- A queue that held `xs`, with `n` bytes offered to its pipe: what it accepted is, in number, what it
-- gave and what waits; its counter counts what waits; and a byte was offered for each message that it
-- accepted.
pub record Counted (xs : List Message) (n : ℕ) (t : Trace) : Type 0 where
  pub waiting : List Message
  pub holds : Holds t.queue waiting
  pub number : length xs + length t.accepted ≡ length t.received + length waiting
  pub counter : t.queue.blk_cnt ≡ pos (length waiting)
  pub notified : t.queue.notified ≡ n + length t.accepted

get-found_keeps :
    (q q' : MemQueue) (p : ℕ)
    → get q ≡ Got.found p q'
    → (q'.blk_cnt ≡ q.blk_cnt) × (q'.notified ≡ q.notified)
unfolding get get_again get_round
get-found_keeps q q' p h = ground arith

get-null_keeps :
    (q q' : MemQueue) → get q ≡ Got.null q' → (q'.blk_cnt ≡ q.blk_cnt) × (q'.notified ≡ q.notified)
unfolding get get_again get_round
get-null_keeps q q' h = ground arith

push-Counted :
    (q : MemQueue) (xs : List Message) (x : Message) (n : ℕ) (r : Pushed)
    → push q (block_of x) x.bytes ≡ r
    → q.blk_cnt ≡ pos (length xs)
    → q.notified ≡ n
    → Pushes x xs r
    → Counted xs n (note_push q x r)
unfolding note_push
push-Counted q xs x n r e c m (Pushes.done {q = q'} h) =
    let (tail, count, note) = push_counts q q' (block_of x) x.bytes e in
    record {
      waiting = xs ++ x ∷ [];
      holds = h;
      number = omega (arith, length-append xs (x ∷ []));
      counter =
          count
          ∙ ap (λ z. z +ℤ pos 1) c
          ∙ pos-add_one (length xs)
          ∙ ap pos (omega (arith, length-append xs (x ∷ [])));
      notified = omega (arith, note, m);
    }
push-Counted q xs x n r e c m (Pushes.full {q = q'} h) =
    let (tail, count, note) = push_refused q q' (block_of x) x.bytes e in
    record {
      waiting = xs;
      holds = h;
      number = omega arith;
      counter = count ∙ c;
      notified = omega (arith, note, m);
    }

get-Counted :
    (q : MemQueue) (xs : List Message) (n : ℕ) (r : Got)
    → get q ≡ r
    → q.blk_cnt ≡ pos (length xs)
    → q.notified ≡ n
    → Gets xs r
    → Counted xs n (note_get q r)
unfolding note_get pop
get-Counted q xs n r e c m (Gets.null {q = q'} h) =
    let (count, note) = get-null_keeps q q' e in
    record {
      waiting = [];
      holds = h;
      number = omega arith;
      counter = count ∙ c;
      notified = omega (arith, note, m);
    }
get-Counted q xs n r e c m (Gets.found {q = q'} {x} {xs = ys} held h rest) =
    let (count, note) = get-found_keeps q q' q'.tail e in
    record {
      waiting = ys;
      holds = rest;
      number = omega arith;
      counter = ap (λ z. z -ℤ pos 1) (count ∙ c) ∙ pos-sub_one (length ys);
      notified = omega (arith, note, m);
    }

Counted-join :
    (xs : List Message) (n : ℕ) (t u : Trace)
    → Counted xs n t
    → ((ys : List Message)
        → Holds t.queue ys
        → t.queue.blk_cnt ≡ pos (length ys)
        → Counted ys t.queue.notified u)
    → Counted xs n (join t u)
unfolding join
Counted-join xs n t u first next = record {
  waiting = after.waiting;
  holds = after.holds;
  number = omega (
    arith,
    first.number,
    after.number,
    length-append t.accepted u.accepted,
    length-append t.received u.received,
  );
  counter = after.counter;
  notified = omega (arith, first.notified, after.notified, length-append t.accepted u.accepted);
}
  where
    after : Counted first.waiting t.queue.notified u
    after = next first.waiting first.holds first.counter

run-Counted :
    (ops : List Op) (q : MemQueue) (xs : List Message) (n : ℕ)
    → Sendable ops
    → Holds q xs
    → q.blk_cnt ≡ pos (length xs)
    → q.notified ≡ n
    → Counted xs n (run q ops)
unfolding run
run-Counted [] q xs n s h c m = record {
  waiting = xs;
  holds = h;
  number = omega arith;
  counter = c;
  notified = omega (arith, m);
}
run-Counted (send x ∷ ops) q xs n s h c m =
    Counted-join xs n _ _ (push-Counted q xs x n _ refl c m (push_lem q xs x s.0 h))
      (λ ys k d. run-Counted ops _ ys _ s.1 k d refl)
run-Counted (receive ∷ ops) q xs n s h c m =
    Counted-join xs n _ _ (get-Counted q xs n _ refl c m (get_lem q xs h))
      (λ ys k d. run-Counted ops _ ys _ s k d refl)

-- Any sequence of pushes and gets on a queue fresh from `mq_init`, each call whole before the next
-- begins: at its end `blk_cnt` is the number of the messages that the queue holds, which is that of
-- the accepted ones less that of the received ones, and the pipe has been offered one byte for each
-- message that was accepted.
pub run_init-Counted :
    (size type : ℕ) (q : MemQueue) (ops : List Op)
    → mem_head_len < size
    → init true size type ≡ some q
    → Sendable ops
    → Counted [] 0 (run q ops)
unfolding init
run_init-Counted size type q ops h e s =
    run-Counted ops q [] 0 s (init-Holds size type h e) (ground (arith, e)) (ground (arith, e))
