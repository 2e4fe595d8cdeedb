-- ===== src/Process/Restart.antt =====
-- What `handle_sigchld` does when a worker has ended.
use sserver.Prelude.{
  ℕ, zero, suc, ◌+◌, ◌≡◌, ◌≢◌, ◌<◌, ◌≤◌, refl, sym, subst, ◌∙◌, inl, inr, true, [], some, arith,
  lt→ltb, ◌==◌, Bool-cases, ℤ,
}
use sserver.MemQueue.{init, mem_head_len, mem_type_recv, mem_type_send}
use sserver.MemQueue.Fifo.{Holds}
use sserver.MemQueue.Run.{init-Holds}
use sserver.Server.{Server, update, with_closed}
use sserver.Epoll.{success, add_fdinfo_to_epinfo}
use sserver.Process.{
  Master, Answers, Fork, master_mq_create, master_listen, drop_fd, drop_fds, nr_entries, start_work,
  find_pid, child_ended,
}

-- The first entry of a process is found.
pub find_pid-first :
    (pids : ℕ → ℕ) (pid n i idx : ℕ)
    → i ≤ idx
    → idx < i + n
    → pids idx ≡ pid
    → ((j : ℕ) → i ≤ j → j < idx → pids j ≢ pid)
    → find_pid pids pid n i ≡ idx
unfolding find_pid
find_pid-first pids pid zero i idx l u e h = absurd (omega arith)
find_pid-first pids pid (suc n) i idx l u e h = elim (Bool-cases (pids i == pid)) [
  | inl here ↦ rw (here) (ground (arith, h i))
  | inr later ↦ rw (later) (
      find_pid-first pids pid n (suc i) idx (ground (arith, e)) (omega arith) e
        (λ j a b. h j (omega arith) b))
]

-- The kernel's answers are the same after descriptors were dropped.
record Steady (s t : Server) : Type 0 where
  mmap : t.kernel.mmap_ok ≡ s.kernel.mmap_ok
  epoll : t.kernel.epoll_ctl_ok ≡ s.kernel.epoll_ctl_ok

drop_fd-Steady : (idx i : ℕ) (s : Server) → Steady s (drop_fd idx i s)
unfolding drop_fd
drop_fd-Steady idx i s = record { mmap = ground arith; epoll = ground arith }

drop_fds-Steady : (idx n : ℕ) (s : Server) → Steady s (drop_fds idx n s)
unfolding drop_fds
drop_fds-Steady idx zero s = record { mmap = refl; epoll = refl }
drop_fds-Steady idx (suc n) s =
    let a = drop_fds-Steady idx n s in
    let b = drop_fd-Steady idx n (drop_fds idx n s) in
    record { mmap = b.mmap ∙ a.mmap; epoll = b.epoll ∙ a.epoll }

-- the queues of worker `i`, both empty
pub record Fresh (i : ℕ) (t : Server) : Type 0 where
  pub receiving : Holds (t.works i).rq []
  pub sending : Holds (t.works i).sq []

-- `master_mq_create` makes two empty queues.
pub record Created (s : Server) (i : ℕ) (r : ℤ × Server) : Type 0 where
  pub ok : r.0 ≡ success
  pub fresh : Fresh i r.1
  pub mmap : r.1.kernel.mmap_ok ≡ s.kernel.mmap_ok
  pub others : (j : ℕ) → j ≢ i → r.1.works j ≡ s.works j
  pub epoll : r.1.kernel.epoll_ctl_ok ≡ s.kernel.epoll_ctl_ok

pub master_mq_create-Created :
    (len : ℕ) (s : Server) (i : ℕ)
    → mem_head_len < len
    → s.kernel.mmap_ok ≡ true
    → Created s i (master_mq_create len s i)
unfolding master_mq_create init
master_mq_create-Created len s i l ok = record {
  ok = ground (arith, ok);
  fresh = record {
    receiving = subst (λ q. Holds q []) (ground (arith, ok)) (init-Holds len mem_type_recv l refl);
    sending = subst (λ q. Holds q []) (ground (arith, ok)) (init-Holds len mem_type_send l refl);
  };
  mmap = ground (arith, ok);
  others = λ j d. ground (arith, ok);
  epoll = ground (arith, ok);
}

-- `master_listen` leaves the queues alone.
pub record Listening (s : Server) (r : ℤ × Server) : Type 0 where
  pub ok : r.0 ≡ success
  pub works : r.1.works ≡ s.works
  pub mmap : r.1.kernel.mmap_ok ≡ s.kernel.mmap_ok
  pub epoll : r.1.kernel.epoll_ctl_ok ≡ s.kernel.epoll_ctl_ok

pub master_listen-Listening :
    (a : Answers) (s : Server) (i fd : ℕ)
    → a.listenfd ≡ some fd
    → s.kernel.epoll_ctl_ok ≡ true
    → Listening s (master_listen a s i)
unfolding master_listen add_fdinfo_to_epinfo
master_listen-Listening a s i fd e ok = record {
  ok = ground (arith, e, ok);
  works = ground (arith, e, ok);
  mmap = ground (arith, e, ok);
  epoll = ground (arith, e, ok);
}

-- The worker runs again as process `p`, with two empty queues, and no other entry is changed.
pub record Restarted (m : Master) (idx p : ℕ) (k : Master) : Type 0 where
  pub here : k.chl_pids idx ≡ p
  pub there : (j : ℕ) → j ≢ idx → k.chl_pids j ≡ m.chl_pids j
  pub receiving : Holds (k.server.works idx).rq []
  pub sending : Holds (k.server.works idx).sq []

start_work-Restarted :
    (a : Answers) (m : Master) (idx p fd : ℕ)
    → mem_head_len < a.mem_queue_len
    → m.server.kernel.mmap_ok ≡ true
    → m.server.kernel.epoll_ctl_ok ≡ true
    → a.fork ≡ Fork.parent p
    → a.listenfd ≡ some fd
    → Restarted m idx p (start_work a m idx)
unfolding start_work
start_work-Restarted a m idx p fd l mmap epoll forked listening =
    rw (start_work, made.ok, forked, heard.ok)
      (record {
        here = ground arith;
        there = λ j d. ground (arith, d);
        receiving = subst (λ w. Holds (w idx).rq []) (sym heard.works) made.fresh.receiving;
        sending = subst (λ w. Holds (w idx).sq []) (sym heard.works) made.fresh.sending;
      })
  where
    dropped : Server
    dropped = drop_fds idx (nr_entries m.server.epinfo.maxfd) m.server

    s : Server
    s = with_closed dropped a.old_rq_write

    steady : Steady m.server dropped
    steady = drop_fds-Steady idx (nr_entries m.server.epinfo.maxfd) m.server

    made : Created s idx (master_mq_create a.mem_queue_len s idx)
    made = master_mq_create-Created a.mem_queue_len s idx l (steady.mmap ∙ mmap)

    t : Server
    t = (master_mq_create a.mem_queue_len s idx).1

    heard : Listening t (master_listen a t idx)
    heard = master_listen-Listening a t idx fd listening (made.epoll ∙ steady.epoll ∙ epoll)

-- A round of `handle_sigchld` for a process that is the first of the workers' with its number, if
-- the system gives what a restart needs: the worker runs again as the new process, with two empty
-- queues, and every other worker's entry is as it was.
pub child_ended_lem :
    (a : Answers) (m : Master) (pid idx p fd : ℕ)
    → idx < m.nr_used
    → m.chl_pids idx ≡ pid
    → ((j : ℕ) → j < idx → m.chl_pids j ≢ pid)
    → mem_head_len < a.mem_queue_len
    → m.server.kernel.mmap_ok ≡ true
    → m.server.kernel.epoll_ctl_ok ≡ true
    → a.fork ≡ Fork.parent p
    → a.listenfd ≡ some fd
    → Restarted m idx p (child_ended a m pid)
unfolding child_ended
child_ended_lem a m pid idx p fd u e first l mmap epoll forked listening =
    rw
      (
        find_pid-first m.chl_pids pid m.nr_used 0 idx (omega arith) (omega arith) e
            (λ j a b. first j b),
        lt→ltb idx m.nr_used u,
      )
      (record {
        here = r.here;
        there = λ j d. r.there j d ∙ ground (arith, d);
        receiving = r.receiving;
        sending = r.sending;
      })
  where
    cleared : Master
    cleared = record m { chl_pids = update m.chl_pids idx 0 }

    r : Restarted cleared idx p (start_work a cleared idx)
    r = start_work-Restarted a cleared idx p fd l mmap epoll forked listening
