-- ===== src/Process.antt =====
-- master.c: the worker processes, their ends and their restarts (`handle_sigchld`, `start_work`,
-- `master_listen`, `master_mq_create`) and the end of the master (`handle_term`).
pub mod Ending
pub mod Restart
use sserver.Prelude.{
  ℕ, zero, suc, Bool, true, List, [], ◌∷◌, Option, none, some, ltb, ◌==◌, if◌then◌else◌, pos, ℤ,
  negsuc,
}
use sserver.MemQueue.{init, mem_type_recv, mem_type_send}
use sserver.Socket.{minus_one}
use sserver.Server.{listen, pipe, Server, fd_wrap, with_fd, with_closed, with_rq, with_sq, update}
use sserver.Epoll.{Ret, success, add_fdinfo_to_epinfo}

-- the globals of these functions, with the signals that were sent, newest first
pub record Master : Type 0 where
  pub server : Server
  pub chl_pids : ℕ → ℕ
  pub nr_used : ℕ
  pub stop : Bool
  pub kills : List (ℕ × ℕ)

-- what fork answers in the parent
pub data Fork : Type 0 where
  failed : Fork
  parent : ℕ → Fork

-- What the system answers to one `start_work`: the listening socket, its address, the ends of the new
-- queues' pipes that the master has, `pipefd` being the send queue's read end, and fork; and the
-- write end of the old receive queue's pipe.
pub record Answers : Type 0 where
  pub mem_queue_len : ℕ
  pub listenfd : Option ℕ
  pub ip : ℕ
  pub port : ℕ
  pub pipefd : ℕ
  pub rq_read : ℕ
  pub sq_write : ℕ
  pub old_rq_write : ℕ
  pub fork : Fork

-- `master_mq_create`: the receive queue stays if the send queue fails. (A queue whose mmap failed has
-- MAP_FAILED for its memory then, and nobody may use it; the state keeps what was there.)
unfoldable pub master_mq_create : ℕ → Server → ℕ → Ret
master_mq_create len s i = elim (init s.kernel.mmap_ok len mem_type_recv) [
  | none ↦ (minus_one, s)
  | some rq ↦
      let t = with_rq s i rq in
      elim (init s.kernel.mmap_ok len mem_type_send) [
        | none ↦ (minus_one, t)
        | some sq ↦ (success, with_sq t i sq)
      ]
]

-- `master_listen`
unfoldable pub master_listen : Answers → Server → ℕ → Ret
master_listen a s i = elim a.listenfd [
  | none ↦ (minus_one, s)
  | some fd ↦
      let r = add_fdinfo_to_epinfo s fd i listen a.ip a.port in
      elim r.0 [
        | negsuc n ↦ (minus_one, r.1)
        | pos n ↦
            let q = add_fdinfo_to_epinfo r.1 a.pipefd i pipe 0 0 in
            elim q.0 [
              | negsuc n ↦ (minus_one, q.1)
              | pos n ↦ (success, with_closed (with_closed q.1 a.rq_read) a.sq_write)
            ]
      ]
]

-- One entry of the table in `start_work`: a descriptor of the worker is closed, and only its `fd`
-- says so.
unfoldable pub drop_fd : ℕ → ℕ → Server → Server
drop_fd idx i s = elim (fd_wrap s i).fd [
  | negsuc n ↦ s
  | pos zero ↦ s
  | pos (suc n) ↦
      if (fd_wrap s i).idx == idx
      then with_closed (with_fd s i (record (fd_wrap s i) { fd = minus_one })) (suc n)
      else s
]

-- the first `n` entries, in order
unfoldable pub drop_fds : ℕ → ℕ → Server → Server
unfolding drop_fd
drop_fds idx zero s = s
drop_fds idx (suc n) s = drop_fd idx n (drop_fds idx n s)

-- the number of entries up to `maxfd`
unfoldable pub nr_entries : ℤ → ℕ
nr_entries (pos n) = suc n
nr_entries (negsuc n) = 0

-- `start_work` as the parent runs it. The old queues are unmapped before the new ones are made.
unfoldable pub start_work : Answers → Master → ℕ → Master
unfolding master_mq_create master_listen drop_fds nr_entries
start_work a m idx =
    let s = with_closed (drop_fds idx (nr_entries m.server.epinfo.maxfd) m.server) a.old_rq_write in
    let r = master_mq_create a.mem_queue_len s idx in
    elim r.0 [
      | negsuc n ↦ record m { server = r.1 }
      | pos n ↦ elim a.fork [
        | Fork.failed ↦ record m { server = r.1 }
        | Fork.parent pid ↦
            let q = master_listen a r.1 idx in
            elim q.0 [
              | negsuc n ↦ record m { server = q.1 }
              | pos n ↦ record m { server = q.1; chl_pids = update m.chl_pids idx pid }
            ]
      ]
    ]

-- The loop of `handle_sigchld` over the table of workers: the first entry of this process from
-- `i` on, among `n`, or the place behind them.
unfoldable pub find_pid : (ℕ → ℕ) → ℕ → ℕ → ℕ → ℕ
find_pid pids pid zero i = i
find_pid pids pid (suc n) i =
    let rest = find_pid pids pid n (suc i) in if pids i == pid then i else rest

-- One round of `handle_sigchld`, for a process that waitpid reports.
unfoldable pub child_ended : Answers → Master → ℕ → Master
unfolding find_pid start_work
child_ended a m pid =
    let idx = find_pid m.chl_pids pid m.nr_used 0 in
    if ltb idx m.nr_used
    then start_work a (record m { chl_pids = update m.chl_pids idx 0 }) idx
    else m

-- `handle_sigchld`, over the ended processes with what the system answers to each restart
unfoldable pub handle_sigchld : List (ℕ × Answers) → Master → Master
unfolding child_ended
handle_sigchld [] m = m
handle_sigchld (p ∷ ps) m = handle_sigchld ps (child_ended p.1 m p.0)

-- One round of the loop of `handle_term`: the entry is cleared, and then read again for kill.
unfoldable pub kill_one : ℕ → ℕ → Master → Master
kill_one signo i m =
    if m.chl_pids i == 0
    then m
    else (let t : Master = record m { chl_pids = update m.chl_pids i 0 } in
        record t { kills = (t.chl_pids i, signo) ∷ t.kills })

-- the loop over the first `n` workers, in order
unfoldable pub kill_all : ℕ → ℕ → Master → Master
unfolding kill_one
kill_all signo zero m = m
kill_all signo (suc n) m = kill_one signo n (kill_all signo n m)

-- `handle_term` in the process `ppid`
unfoldable pub handle_term : ℕ → ℕ → Master → Master
unfolding find_pid kill_all
handle_term ppid signo m =
    if ltb (find_pid m.chl_pids ppid m.nr_used 0) m.nr_used
    then m
    else kill_all signo m.nr_used (record m { stop = true })
