-- ===== src/Main/Workers.antt =====
-- What the loop of `main` starts, and what `master_fini` frees.
use sserver.Prelude.{
  ℕ, zero, suc, ◌+◌, ◌≤◌, ◌<◌, ◌≡◌, ◌≢◌, refl, sym, ap, subst, ◌∙◌, ◌⊎◌, inl, inr, true, [], some,
  arith,
}
use sserver.MemQueue.{mem_head_len}
use sserver.MemQueue.Fifo.{Holds}
use sserver.Server.{Server, Work}
use sserver.Process.{Master, Answers, Fork, master_mq_create, master_listen}
use sserver.Process.Restart.{
  Created, Fresh, Listening, master_mq_create-Created, master_listen-Listening,
}
use sserver.Main.{Round, start_one, start_all}

-- The system gives what a start needs.
pub record Gives (a : Answers) (p : ℕ) : Type 0 where
  pub len : mem_head_len < a.mem_queue_len
  pub fork : a.fork ≡ Fork.parent p
  pub listenfd : (fd : ℕ) × (a.listenfd ≡ some fd)

pub record Able (m : Master) : Type 0 where
  pub mmap : m.server.kernel.mmap_ok ≡ true
  pub epoll : m.server.kernel.epoll_ctl_ok ≡ true

-- Worker `i` runs as process `p` with two empty queues, and the other workers are as they were.
record Ran (m : Master) (i p : ℕ) (t : Master) : Type 0 where
  here : t.chl_pids i ≡ p
  there : (j : ℕ) → j ≢ i → t.chl_pids j ≡ m.chl_pids j
  fresh : Fresh i t.server
  works : (j : ℕ) → j ≢ i → t.server.works j ≡ m.server.works j
  able : Able t

data RanPost (m : Master) (i p : ℕ) : Round → Type 0 where
  started : {t : Master} → Ran m i p t → RanPost m i p (Round.started t)

start_one-RanPost :
    (a : Answers) (m : Master) (i p : ℕ) → Gives a p → Able m → RanPost m i p (start_one a m i)
unfolding start_one
start_one-RanPost a m i p g h =
    rw (start_one, made.ok, g.fork, heard.ok)
      (RanPost.started (record {
        here = ground arith;
        there = λ j d. ground (arith, d);
        fresh = record {
          receiving = subst (λ w. Holds (w i).rq []) (sym heard.works) made.fresh.receiving;
          sending = subst (λ w. Holds (w i).sq []) (sym heard.works) made.fresh.sending;
        };
        works = λ j d. ap (λ (w : ℕ → Work). w j) heard.works ∙ made.others j d;
        able = record {
          mmap = heard.mmap ∙ made.mmap ∙ h.mmap;
          epoll = heard.epoll ∙ made.epoll ∙ h.epoll;
        };
      }))
  where
    made : Created m.server i (master_mq_create a.mem_queue_len m.server i)
    made = master_mq_create-Created a.mem_queue_len m.server i g.len h.mmap

    heard :
        Listening
          (master_mq_create a.mem_queue_len m.server i).1
          (master_listen a (master_mq_create a.mem_queue_len m.server i).1 i)
    heard =
        master_listen-Listening a (master_mq_create a.mem_queue_len m.server i).1 i g.listenfd.0
          g.listenfd.1 (made.epoll ∙ h.epoll)

-- Every worker from `i` on, `n` of them, runs with two empty queues, and the others are as they were.
pub record AllRun (p : ℕ → ℕ) (n i : ℕ) (m t : Master) : Type 0 where
  pub each : (j : ℕ) → i ≤ j → j < i + n → (t.chl_pids j ≡ p j) × Fresh j t.server
  pub others :
      (j : ℕ)
      → (j < i) ⊎ (i + n ≤ j)
      → (t.chl_pids j ≡ m.chl_pids j) × (t.server.works j ≡ m.server.works j)

pub data RunPost (p : ℕ → ℕ) (n i : ℕ) (m : Master) : Round → Type 0 where
  started : {t : Master} → AllRun p n i m t → RunPost p n i m (Round.started t)

Fresh-works : (j : ℕ) (s t : Server) → t.works j ≡ s.works j → Fresh j s → Fresh j t
Fresh-works j s t e f = record {
  receiving = subst (λ (w : Work). Holds w.rq []) (sym e) f.receiving;
  sending = subst (λ (w : Work). Holds w.sq []) (sym e) f.sending;
}

RunPost-next :
    (p : ℕ → ℕ) (n i : ℕ) (m t : Master) {r : Round}
    → Ran m i (p i) t
    → RunPost p n (suc i) t r
    → RunPost p (suc n) i m r
RunPost-next p n i m t a (RunPost.started {t = u} b) = RunPost.started (record {
  each = λ j l h. here j l h (order j l);
  others = λ j o. (
    (b.others j (omega (arith, o))).0 ∙ a.there j (omega (arith, o)),
    (b.others j (omega (arith, o))).1 ∙ a.works j (omega (arith, o)),
  );
})
  where
    order : (j : ℕ) → i ≤ j → (j ≡ i) ⊎ (suc i ≤ j)
    order j l = omega arith

    first : (u.chl_pids i ≡ p i) × Fresh i u.server
    first = (
      (b.others i (inl (omega arith))).0 ∙ a.here,
      Fresh-works i t.server u.server (b.others i (inl (omega arith))).1 a.fresh,
    )

    here :
        (j : ℕ)
        → i ≤ j
        → j < i + suc n
        → (j ≡ i) ⊎ (suc i ≤ j)
        → (u.chl_pids j ≡ p j) × Fresh j u.server
    here j l h (inl e) = subst (λ j. (u.chl_pids j ≡ p j) × Fresh j u.server) (sym e) first
    here j l h (inr later) = b.each j later (omega arith)

-- The loop of `main` starts every worker, if the system gives what each start needs: each worker
-- is recorded with its process and has two empty queues, and no other entry is changed.
pub start_all_lem :
    (a : ℕ → Answers) (p : ℕ → ℕ) (n i : ℕ) (m : Master)
    → ((j : ℕ) → Gives (a j) (p j))
    → Able m
    → RunPost p n i m (start_all a n i m)
unfolding start_all
start_all_lem a p zero i m g h =
    RunPost.started (record { each = λ j l u. absurd (omega arith); others = λ j o. (refl, refl) })
start_all_lem a p (suc n) i m g h =
    next _ (start_one-RanPost (a i) m i (p i) (g i) h) (λ t k. start_all_lem a p n (suc i) t g k)
  where
    next :
        (r : Round)
        → RanPost m i (p i) r
        → ((t : Master) → Able t → RunPost p n (suc i) t (start_all a n (suc i) t))
        → RunPost p (suc n) i m (elim r [
          | Round.started t ↦ start_all a n (suc i) t
          | Round.fail t ↦ Round.fail t
          | Round.returned t ↦ Round.returned t
        ])
    next _ (RanPost.started {t} b) later = RunPost-next p n i m t b (later t b.able)
