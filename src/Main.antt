-- ===== src/Main.antt =====
-- simple_svr.c and master.c: the master process from `main` on, up to its loop and behind it
-- (`master_init`, the loop that starts the workers, `master_fini`).
pub mod Workers
use sserver.Prelude.{
  ℕ, zero, suc, Bool, true, false, List, [], ◌∷◌, Option, none, some, ◌==◌, if◌then◌else◌, ℤ, pos,
  negsuc, ◌>>=◌, ◌||◌,
}
use sserver.Mem.{Mem}
use sserver.MemQueue.{mem_type_recv, mem_type_send}
use sserver.Socket.{minus_one}
use sserver.Server.{FdBuff, FdWrap, ServIf, Server, fd_wrap, buff_of, with_closed, update}
use sserver.Epoll.{success}
use sserver.Outer.{SharedObj, Slot, reg_so, reg_data_so}
use sserver.Process.{Master, Answers, Fork, master_mq_create, master_listen, nr_entries}
use sserver.Start.{calloc_wrap}
use sserver.Util.{Args, save_args, chg_proc_title}
use sserver.Conf.{load_conf}
use sserver.Conf.Settings.{SvrSetting, init_setting}
use sserver.Dispatch.{Event, master_round}
use sserver.Text.{Text}

-- The system's answers to `master_init`, and the names of both libraries.
pub record Init : Type 0 where
  pub epoll_ok : Bool
  pub evs_ok : Bool
  pub fds_ok : Bool
  pub dlopen : Text → Option ℕ
  pub dlsym : ℕ → Slot → Option ℕ
  pub data_so : Text
  pub text_so : Text

-- `master_init`, of the process and its libraries
unfoldable pub master_init : Init → Master → SharedObj → ℤ × Master × SharedObj
unfolding reg_so reg_data_so
master_init a m so =
    if a.epoll_ok
    then (if a.evs_ok
        then (if a.fds_ok
            then (let t : Master = record m {
              server = record (m.server) {
                epinfo = record (m.server.epinfo) {
                  fds = λ fd. calloc_wrap;
                  readlist = [];
                  closelist = [];
                };
              };
              stop = false;
            } in
                let (ret, loaded) =
                  reg_so a.dlopen a.dlsym (reg_data_so a.dlopen a.dlsym so a.data_so).1 a.text_so in
                elim ret [ pos n ↦ (success, t, loaded) | negsuc n ↦ (minus_one, t, loaded) ])
            else (minus_one, m, so))
        else (minus_one, m, so))
    else (minus_one, m, so)

-- What a round of the loop of `main` comes to: the next one, `goto fail`, or the end of `main`.
pub data Round : Type 0 where
  started : Master → Round
  fail : Master → Round
  returned : Master → Round

-- One round, as the parent runs it.
unfoldable pub start_one : Answers → Master → ℕ → Round
unfolding master_mq_create master_listen
start_one a m i =
    let r = master_mq_create a.mem_queue_len m.server i in
    elim r.0 [
      | negsuc n ↦ Round.returned (record m { server = r.1 })
      | pos n ↦ elim a.fork [
        | Fork.failed ↦ Round.fail (record m { server = r.1 })
        | Fork.parent pid ↦
            let q = master_listen a r.1 i in
            elim q.0 [
              | negsuc n ↦ Round.fail (record m { server = q.1 })
              | pos n ↦
                  Round.started (record m { server = q.1; chl_pids = update m.chl_pids i pid })
            ]
      ]
    ]

-- The loop of `main`: `n` workers from `i` on, with the answers to each start.
unfoldable pub start_all : (ℕ → Answers) → ℕ → ℕ → Master → Round
unfolding start_one
start_all a zero i m = Round.started m
start_all a (suc n) i m = elim (start_one (a i) m i) [
  | Round.started t ↦ start_all a n (suc i) t
  | Round.fail t ↦ Round.fail t
  | Round.returned t ↦ Round.returned t
]

-- The buffers of an entry in `master_fini`. `none` is free of memory that mmap gave: `handle_read`
-- maps the read buffer.
unfoldable pub free_entry : FdWrap → Option FdBuff
free_entry w = elim w.fd [
  | pos zero ↦ some w.buff
  | pos (suc n) ↦ elim w.buff.rbf [ none ↦ some w.buff | some m ↦ none ]
  | negsuc n ↦ elim w.buff.rbf [ none ↦ some w.buff | some m ↦ none ]
]

-- the loop over the first `n` entries
unfoldable pub free_entries : (ℕ → FdWrap) → ℕ → Option ℕ
unfolding free_entry
free_entries f zero = some 0
free_entries f (suc n) = elim (free_entries f n) [
  | none ↦ none
  | some k ↦ elim (free_entry (f n)) [ none ↦ none | some b ↦ some (suc k) ]
]

-- the queues of the first `n` workers, given back in order, newest first
unfoldable pub give_back : ℕ → List (ℕ × ℕ)
give_back zero = []
give_back (suc n) = (n, mem_type_send) ∷ (n, mem_type_recv) ∷ give_back n

-- the number of entries below `maxfd`
unfoldable pub below_maxfd : ℤ → ℕ
below_maxfd (pos n) = n
below_maxfd (negsuc n) = 0

-- `master_fini`, with the epoll's descriptor: the process and the queues that were given back.
unfoldable pub master_fini : (Server → Server) → ℕ → Master → Option (Master × List (ℕ × ℕ))
unfolding free_entries give_back below_maxfd
master_fini serv_fini epfd m =
    let s = serv_fini m.server in
    elim (free_entries s.epinfo.fds (below_maxfd s.epinfo.maxfd)) [
      | none ↦ none
      | some k ↦ some (record m { server = with_closed s epfd }, give_back m.nr_used)
    ]

-- `master_dispatch`: a round for the events of each epoll_wait, until a signal sets `stop` or
-- epoll_wait fails.
unfoldable pub master_dispatch : ServIf → ℕ → List (List Event) → Master → Option Master
master_dispatch so fuel [] m = some m
master_dispatch so fuel (evs ∷ rest) m = do
  s ← master_round so fuel m.nr_used evs m.server
  master_dispatch so fuel rest (record m { server = s })

-- What meets `main`: the texts of both configuration files, or none if a file cannot be mapped,
-- with what stands in the loaders' arrays; the log, the arguments with malloc's answer; the answers
-- to `master_init` and to each start; and the library with what it does at the start and the end.
pub record Env : Type 0 where
  pub simple : Option Text
  pub work : Option Text
  pub key : Text
  pub value : Text
  pub ip : Text
  pub log_ok : Bool
  pub args : Args
  pub env_new : Option ℕ
  pub init : Init
  pub epfd : ℕ
  pub answers : ℕ → Answers
  pub library : ServIf
  pub serv_init : Server → Bool × Server
  pub serv_fini : Server → Server
  pub fuel : ℕ
  pub events : List (List Event)

-- How `main` ends: before a worker was started, with -1 while workers run, or behind `master_fini`.
pub data Ended : Type 0 where
  early : Ended
  left : Master → Ended
  finished : Master → List (ℕ × ℕ) → Ended

-- `master_fini` and the end
unfoldable pub finish_main : Env → Master → Option Ended
unfolding master_fini
finish_main e m = do r ← master_fini e.serv_fini e.epfd m; some (Ended.finished r.0 r.1)

-- The part of `main` behind the loop that starts the workers.
unfoldable pub run_main : Env → Round → Option Ended
unfolding master_dispatch finish_main
run_main e (Round.returned m) = some (Ended.left m)
run_main e (Round.fail m) = finish_main e m
run_main e (Round.started m) =
    let (failed, s) = e.serv_init m.server in
    let t : Master = record m { server = s } in
    if failed
    then some (Ended.left t)
    else (do u ← master_dispatch e.library e.fuel e.events t; finish_main e u)

abbrev pub is_failure : ℤ → Bool
is_failure (pos n) = false
is_failure (negsuc n) = true

-- The part of `main` behind the configuration.
unfoldable pub serve_main : Env → SvrSetting → Master → SharedObj → Option Ended
unfolding master_init start_all run_main save_args chg_proc_title
serve_main e setting m so =
    if e.log_ok
    then (elim (chg_proc_title setting.srv_name (save_args e.env_new e.args)) [
      | none ↦ none
      | some a ↦
          let (ret, t, loaded) =
            master_init (record (e.init) { data_so = setting.data_so; text_so = setting.text_so }) m
              so in
          if is_failure ret
          then some Ended.early
          else run_main e (start_all e.answers t.nr_used 0 t)
    ])
    else some Ended.early

-- `main`. `none` is an undefined behaviour on the way.
unfoldable pub main : Env → Master → SharedObj → Option Ended
unfolding load_conf init_setting serve_main
main e m so = do
  c ← load_conf e.simple e.work e.key e.value e.ip
  if is_failure c.0 then some Ended.early else (do
    r ← init_setting c.1
    if is_failure r.0
        then some Ended.early
        else serve_main e r.1 (record m { nr_used = c.2.nr_used }) so)
