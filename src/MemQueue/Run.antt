-- ===== src/MemQueue/Run.antt =====
-- The queue under any sequence of pushes and gets, against a first-in first-out list.
pub mod Counter
use sserver.Prelude.{
  ℕ, ◌+◌, ◌-◌, ◌<◌, ◌≡◌, refl, sym, ap, ◌∙◌, true, List, [], ◌∷◌, ◌++◌, append-nil, append_assoc,
  arith, some,
}
use sserver.Mem.{Mem, get32, slice}
use sserver.MemQueue.{
  MemQueue, Got, Pushed, init, mem_head_len, read_block, read_type, block_data, get, push, pop,
}
use sserver.MemQueue.Layout.{Message, size, block_of, Fits, Held}
use sserver.MemQueue.Fifo.{Holds, Pushes, Gets, push_lem, get_lem}

-- What a consumer reads at a block's offset.
unfoldable pub read_message : Mem → ℕ → Message
unfolding read_block block_data
read_message m p =
    let b = read_block m p in record { id = b.id; fd = b.fd; type = b.type; bytes = block_data m p }

pub read_message-Held : (m : Mem) (p : ℕ) (x : Message) → Held m p x → read_message m p ≡ x
unfolding read_message read_type
read_message-Held m p x h =
    λ i. record { id = h.id i; fd = h.fd i; type = h.type i; bytes = body i }
  where
    body : slice m (p + 13) (get32 m (p + 9) - 13) ≡ x.bytes
    body = ap (slice m (p + 13)) (omega (arith, h.len)) ∙ h.bytes

-- The calls of the two processes on a queue.
pub data Op : Type 0 where
  send : Message → Op
  receive : Op

-- What the calls so far did: the messages for which `mq_push` returned 0 and the messages that
-- were read before a pop, oldest first, and the queue that is left. `none` is a call that loops.
pub record Trace : Type 0 where
  pub accepted : List Message
  pub received : List Message
  pub queue : MemQueue

note_push : MemQueue → Message → Pushed → Trace
note_push q x (Pushed.done q') = record { accepted = x ∷ []; received = []; queue = q' }
note_push q x (Pushed.full q') = record { accepted = []; received = []; queue = q' }
note_push q x Pushed.spin = record { accepted = []; received = []; queue = q }

note_get : MemQueue → Got → Trace
note_get q (Got.found p q') = record {
  accepted = [];
  received = read_message q'.mem p ∷ [];
  queue = pop q';
}
note_get q (Got.null q') = record { accepted = []; received = []; queue = q' }
note_get q Got.spin = record { accepted = []; received = []; queue = q }

unfoldable pub step : MemQueue → Op → Trace
unfolding note_push note_get
step q (send x) = note_push q x (push q (block_of x) x.bytes)
step q receive = note_get q (get q)

unfoldable pub join : Trace → Trace → Trace
join t u = record {
  accepted = t.accepted ++ u.accepted;
  received = t.received ++ u.received;
  queue = u.queue;
}

unfoldable pub run : MemQueue → List Op → Trace
unfolding step join
run q [] = record { accepted = []; received = []; queue = q }
run q (o ∷ ops) = let t = step q o in join t (run t.queue ops)

-- Every message of a send fits its C types.
abbrev pub Sendable : List Op → Type 0
Sendable [] = Unit {0}
Sendable (send x ∷ ops) = Fits x × Sendable ops
Sendable (receive ∷ ops) = Sendable ops

-- A queue that held `xs` has received and left exactly `xs` and what it accepted, in that order.
pub record InOrder (xs : List Message) (t : Trace) : Type 0 where
  pub waiting : List Message
  pub holds : Holds t.queue waiting
  pub order : xs ++ t.accepted ≡ t.received ++ waiting

step_push-InOrder :
    (q : MemQueue) (xs : List Message) (x : Message) (r : Pushed)
    → Pushes x xs r
    → InOrder xs (note_push q x r)
unfolding note_push
step_push-InOrder q xs x r (Pushes.done h) = record {
  waiting = xs ++ x ∷ [];
  holds = h;
  order = refl;
}
step_push-InOrder q xs x r (Pushes.full h) = record {
  waiting = xs;
  holds = h;
  order = append-nil xs;
}

step_get-InOrder :
    (q : MemQueue) (xs : List Message) (r : Got) → Gets xs r → InOrder xs (note_get q r)
unfolding note_get
step_get-InOrder q xs r (Gets.null h) = record { waiting = []; holds = h; order = refl }
step_get-InOrder q xs r (Gets.found {q = q'} {x} {xs = ys} held h rest) = record {
  waiting = ys;
  holds = rest;
  order = rw (append-nil ys, read_message-Held q'.mem q'.tail x held);
}

-- Two stretches that each keep the order keep it together.
order-join :
    (xs a b r s w v : List Message)
    → xs ++ a ≡ r ++ w
    → w ++ b ≡ s ++ v
    → xs ++ (a ++ b) ≡ r ++ s ++ v
order-join xs a b r s w v first next =
    sym (append_assoc xs a b)
    ∙ ap (λ l. l ++ b) first
    ∙ append_assoc r w b
    ∙ ap (λ l. r ++ l) next
    ∙ sym (append_assoc r s v)

InOrder-join :
    (xs : List Message) (t u : Trace)
    → InOrder xs t
    → ((ys : List Message) → Holds t.queue ys → InOrder ys u)
    → InOrder xs (join t u)
unfolding join
InOrder-join xs t u first next = record {
  waiting = after.waiting;
  holds = after.holds;
  order =
      order-join xs t.accepted u.accepted t.received u.received first.waiting after.waiting
        first.order after.order;
}
  where
    after : InOrder first.waiting u
    after = next first.waiting first.holds

-- Any sequence of pushes and gets on a queue that holds `xs`: what the gets deliver, followed by
-- what waits at the end, is `xs` followed by the messages that were accepted, byte for byte.
pub run-InOrder :
    (ops : List Op) (q : MemQueue) (xs : List Message)
    → Sendable ops
    → Holds q xs
    → InOrder xs (run q ops)
unfolding run
run-InOrder [] q xs s h = record { waiting = xs; holds = h; order = append-nil xs }
run-InOrder (send x ∷ ops) q xs s h =
    InOrder-join xs _ _ (step_push-InOrder q xs x _ (push_lem q xs x s.0 h))
      (λ ys k. run-InOrder ops _ ys s.1 k)
run-InOrder (receive ∷ ops) q xs s h =
    InOrder-join xs _ _ (step_get-InOrder q xs _ (get_lem q xs h))
      (λ ys k. run-InOrder ops _ ys s k)

-- A queue made by `mq_init` over more than its head's bytes is empty.
pub init-Holds :
    (size type : ℕ) {q : MemQueue} → mem_head_len < size → init true size type ≡ some q → Holds q []
unfolding init
init-Holds size type {q} h e =
    Holds.linear (record { low = ground arith; high = ground arith; chain = ground arith })

-- Any sequence of pushes and gets on a queue fresh from `mq_init`: what the gets deliver, followed
-- by what waits at the end, is exactly what was accepted, in the order of the pushes.
pub run-init :
    (size type : ℕ) (q : MemQueue) (ops : List Op)
    → mem_head_len < size
    → init true size type ≡ some q
    → Sendable ops
    → InOrder [] (run q ops)
run-init size type q ops h e s = run-InOrder ops q [] s (init-Holds size type h e)
