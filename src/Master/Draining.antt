-- ===== src/Master/Draining.antt =====
-- `handle_mq_send` against the lists of messages that wait in the workers' send queues.
use sserver.Prelude.{
  ℕ, zero, suc, ◌+◌, ◌≤◌, ◌<◌, ◌≡◌, ◌≢◌, refl, sym, subst, ◌∙◌, ◌⊎◌, inl, inr, List, [], ◌∷◌,
  Option, none, some, arith, length, ◌>>=◌,
}
use sserver.MemQueue.{MemQueue, Got, pop}
use sserver.MemQueue.Layout.{Message}
use sserver.MemQueue.Fifo.{Holds, Gets, get_lem}
use sserver.Server.{ServIf, Server, with_sq}
use sserver.Epoll.{Ret}
use sserver.NetSend.Carried.{Carries}
use sserver.NetSend.Returns.{Sends}
use sserver.Master.{do_blk_send, send_loop, handle_mq_send}
use sserver.Server.Updates.{sq-with_sq, sq-with_sq_other}
use sserver.Master.Deliver.{
  deliver, Loaded, Sound, Carries-Sound, with_sq-Sound, do_blk_send-deliver, deliver-Sends,
}

module _ (so : ServIf) where
  -- The messages of worker `i` delivered one after the other, each taken from the queue behind it.
  pub data Delivers (i : ℕ) : List Message → Server → Server → Type 0 where
    idle : {s : Server} {q : MemQueue} → Holds q [] → Delivers i [] s (with_sq s i q)
    next :
        {s t : Server} {q q' : MemQueue} {x : Message} {xs : List Message} (r : Ret)
        → Holds q (x ∷ xs)
        → Holds q' xs
        → deliver so (with_sq s i q) x ≡ some r
        → Delivers i xs (with_sq r.1 i q') t
        → Delivers i (x ∷ xs) s t

  -- The messages of `n` workers from `i` on, worker after worker.
  pub data DeliversAll (xss : ℕ → List Message) : ℕ → ℕ → Server → Server → Type 0 where
    done : {i : ℕ} {s : Server} → DeliversAll xss zero i s s
    worker :
        {n i : ℕ} {s t u : Server}
        → Delivers i (xss i) s t
        → DeliversAll xss n (i + 1) t u
        → DeliversAll xss (suc n) i s u

module _ (so : ServIf) where
  -- What the loop over a send queue gives: the messages are delivered, the queue is empty, and the
  -- other workers' queues are as they were.
  pub record Drained (i : ℕ) (xs : List Message) (s t : Server) : Type 0 where
    pub delivers : Delivers so i xs s t
    pub empty : Holds (t.works i).sq []
    pub others : (j : ℕ) → j ≢ i → (t.works j).sq ≡ (s.works j).sq
    pub sound : Sound t

  pub data DrainPost (i : ℕ) (xs : List Message) (s : Server) : Option Server → Type 0 where
    ends : {t : Server} → Drained i xs s t → DrainPost i xs s (some t)

  Drained-next :
      (i : ℕ) (s : Server) (q : MemQueue) (x : Message) (xs : List Message) (r : Ret)
      {o : Option Server}
      → Holds q (x ∷ xs)
      → Holds (pop q) xs
      → deliver so (with_sq s i q) x ≡ some r
      → Carries (with_sq s i q) r.1
      → DrainPost i xs (with_sq r.1 i (pop q)) o
      → DrainPost i (x ∷ xs) s o
  Drained-next i s q x xs r h k e a (DrainPost.ends {t} d) = DrainPost.ends (record {
    delivers = Delivers.next r h k e d.delivers;
    empty = d.empty;
    others = λ j n.
        d.others j n ∙ sq-with_sq_other r.1 i (pop q) j n ∙ a.sq j ∙ sq-with_sq_other s i q j n;
    sound = d.sound;
  })

  -- One round for a message, against what the rounds behind it give.
  drain_round :
      (fuel i : ℕ) (s : Server) (q : MemQueue) (x : Message) (xs : List Message) (o : Option Ret)
      → Holds q (x ∷ xs)
      → Holds (pop q) xs
      → Sound s
      → deliver so (with_sq s i q) x ≡ o
      → Sends (with_sq s i q) o
      → ((t : Server)
          → Holds (t.works i).sq xs
          → Sound t
          → DrainPost i xs t (send_loop so fuel t i))
      → DrainPost i
          (x ∷ xs)
          s
          (o >>= λ (r : Ret). send_loop so fuel (with_sq r.1 i (pop (r.1.works i).sq)) i)
  drain_round fuel i s q x xs _ h k sound e (Sends.ends {r} {t} a) later =
      subst (λ (p : MemQueue). DrainPost i (x ∷ xs) s (send_loop so fuel (with_sq t i (pop p)) i))
        (sym (a.sq i ∙ sq-with_sq s i q))
        (Drained-next i s q x xs (r, t) h k e a
          (later (with_sq t i (pop q)) (subst (λ q. Holds q xs) (sym (sq-with_sq t i (pop q))) k) (
            with_sq-Sound t i (pop q)
              (Carries-Sound (with_sq s i q) t a (with_sq-Sound s i q sound)))))

  drain_got :
      (fuel i : ℕ) (s : Server) (xs : List Message) (r : Got)
      → Gets xs r
      → Loaded xs
      → length xs < suc fuel
      → Sound s
      → ((ys : List Message) (t : Server)
          → Holds (t.works i).sq ys
          → Loaded ys
          → length ys < fuel
          → Sound t
          → DrainPost i ys t (send_loop so fuel t i))
      → DrainPost i xs s (elim r [
        | Got.spin ↦ none
        | Got.null q ↦ some (with_sq s i q)
        | Got.found p q ↦ do_blk_send so (with_sq s i q) q.mem p >>= λ (r : Ret).
            send_loop so fuel (with_sq r.1 i (pop (r.1.works i).sq)) i
      ])
  drain_got fuel i s [] _ (Gets.null {q} h) d l sound later = DrainPost.ends (record {
    delivers = Delivers.idle h;
    empty = subst (λ q. Holds q []) (sym (sq-with_sq s i q)) h;
    others = sq-with_sq_other s i q;
    sound = with_sq-Sound s i q sound;
  })
  drain_got fuel i s (x ∷ xs) _ (Gets.found {q} held h k) d l sound later =
      drain_round fuel i s q x xs _ h k sound
        (sym (do_blk_send-deliver so (with_sq s i q) q.mem q.tail x held))
        (subst (Sends (with_sq s i q))
          (sym (do_blk_send-deliver so (with_sq s i q) q.mem q.tail x held))
          (deliver-Sends so (with_sq s i q) x d.0 (with_sq-Sound s i q sound)))
        (λ t w u. later xs t w d.1 (omega arith) u)

  send_loop-DrainPost :
      (fuel i : ℕ) (xs : List Message) (s : Server)
      → Holds (s.works i).sq xs
      → Loaded xs
      → length xs < fuel
      → Sound s
      → DrainPost i xs s (send_loop so fuel s i)
  unfolding send_loop
  send_loop-DrainPost zero i xs s h d l sound = absurd (omega arith)
  send_loop-DrainPost (suc fuel) i xs s h d l sound =
      drain_got fuel i s xs _ (get_lem (s.works i).sq xs h) d l sound
        (λ ys t. send_loop-DrainPost fuel i ys t)

  -- What `handle_mq_send` gives: every message of every queue is delivered, and the queues are empty.
  pub data SendPost (xss : ℕ → List Message) (n i : ℕ) (s : Server) : Option Server → Type 0 where
    ends :
        {t : Server}
        → DeliversAll so xss n i s t
        → ((j : ℕ) → j < i → (t.works j).sq ≡ (s.works j).sq)
        → ((j : ℕ) → i ≤ j → j < i + n → Holds (t.works j).sq [])
        → SendPost xss n i s (some t)

  SendPost-worker :
      (xss : ℕ → List Message) (n i : ℕ) (s t : Server) {o : Option Server}
      → Drained i (xss i) s t
      → SendPost xss n (i + 1) t o
      → SendPost xss (suc n) i s o
  SendPost-worker xss n i s t e (SendPost.ends {t = u} all same empty) =
      SendPost.ends (DeliversAll.worker e.delivers all)
        (λ j l. same j (omega arith) ∙ e.others j (omega arith))
        (λ j a b. emptied j a b (order j a))
    where
      order : (j : ℕ) → i ≤ j → (j ≡ i) ⊎ (i + 1 ≤ j)
      order j a = omega arith

      emptied : (j : ℕ) → i ≤ j → j < i + suc n → (j ≡ i) ⊎ (i + 1 ≤ j) → Holds (u.works j).sq []
      emptied j a b (inl e') =
          subst (λ j. Holds (u.works j).sq []) (sym e')
            (subst (λ q. Holds q []) (sym (same i (omega arith))) e.empty)
      emptied j a b (inr l) = empty j l (omega arith)

  -- `handle_mq_send` over `n` workers from `i` on returns: it has handed exactly the messages of their
  -- send queues, worker after worker, each queue's in order and each once, to `do_fd_send` (a closing
  -- one to `do_fd_close`), whatever that call gave back, and has taken each from its queue after it;
  -- and these queues are empty. If bytes that wait stand in buffers, malloc succeeds, and no message
  -- but a closing one is empty.
  pub handle_mq_send_lem :
      (fuel : ℕ) (xss : ℕ → List Message) (n i : ℕ) (s : Server)
      → ((j : ℕ) → i ≤ j → j < i + n → Holds (s.works j).sq (xss j))
      → ((j : ℕ) → Loaded (xss j))
      → ((j : ℕ) → length (xss j) < fuel)
      → Sound s
      → SendPost xss n i s (handle_mq_send so fuel n i s)
  unfolding handle_mq_send
  handle_mq_send_lem fuel xss zero i s h d l sound =
      SendPost.ends DeliversAll.done (λ j k. refl) (λ j a b. absurd (omega arith))
  handle_mq_send_lem fuel xss (suc n) i s h d l sound =
      all _
        (send_loop-DrainPost fuel i (xss i) s (h i (omega arith) (omega arith)) (d i) (l i) sound)
        (λ t k u. handle_mq_send_lem fuel xss n (i + 1) t k d l u)
    where
      all :
          (o : Option Server)
          → DrainPost i (xss i) s o
          → ((t : Server)
              → ((j : ℕ) → i + 1 ≤ j → j < i + 1 + n → Holds (t.works j).sq (xss j))
              → Sound t
              → SendPost xss n (i + 1) t (handle_mq_send so fuel n (i + 1) t))
          → SendPost xss (suc n) i s (o >>= λ (t : Server). handle_mq_send so fuel n (i + 1) t)
      all _ (DrainPost.ends {t} e) later = SendPost-worker xss n i s t e (
          later t
            (λ j a b.
              subst (λ q. Holds q (xss j)) (sym (e.others j (omega arith)))
                (h j (omega arith) (omega arith)))
            e.sound)
