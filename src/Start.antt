-- ===== src/Start.antt =====
-- work.c: how a worker begins and ends (`work_init`, `work_fini`).
pub mod Release
pub mod Ready
use sserver.Prelude.{
  ℕ, zero, suc, ◌+◌, ◌-◌, Bool, true, false, List, [], ◌∷◌, ◌++◌, Option, none, some, ◌==◌, ◌&&◌,
  length, if◌then◌else◌, ℤ, pos, negsuc,
}
use sserver.MemQueue.{mem_type_recv, mem_type_send}
use sserver.Socket.{minus_one}
use sserver.Server.{
  FdWrap, Server, listen, mcast, pipe, fd_wrap, with_epinfo, with_fd, with_closed, update,
}
use sserver.Epoll.{success, empty_buff, add_fdinfo_to_epinfo}
use sserver.Fds.{init_fds}
use sserver.Outer.{SharedObj, Slot, reg_so, reg_data_so}
use sserver.Mcast.{Group, Udp, mcast_cli_init, init_mcast_servs}
use sserver.Process.{Master, Answers, Fork, master_mq_create, master_listen, nr_entries}
use sserver.Text.{Text}
use sserver.Util.{Saved, chg_proc_title}

-- the ends of a worker's two pipes: 0 reads, 1 writes
pub record Pipes : Type 0 where
  pub rq_read : ℕ
  pub rq_write : ℕ
  pub sq_read : ℕ
  pub sq_write : ℕ

-- The globals of a process that becomes a worker. `unmapped` holds the queues that were given back,
-- by their worker and type, newest first.
pub record Child : Type 0 where
  pub group : Group
  pub pipes : ℕ → Pipes
  pub unmapped : List (ℕ × ℕ)
  pub epfd : ℕ
  pub args : Saved
  pub stop : Bool
  pub chl_pids : ℕ → ℕ
  pub work_idx : ℕ
  pub next_syn_addr : ℕ
  pub next_del_expire_addr : ℕ

-- What the system, the clock and the library answer to one `work_init`; `title` is the text that
-- vsprintf makes of the name and the id.
pub record Boot : Type 0 where
  pub log_ok : Bool
  pub title : List ℕ
  pub new_epfd : Option ℕ
  pub evs_ok : Bool
  pub fds_ok : Bool
  pub udp : Udp
  pub serv_init : Server → Bool × Server
  pub now : ℕ

abbrev pub with_server : Child → Server → Child
with_server c s = record c { group = record (c.group) { server = s } }

-- close of a descriptor that the table of epoll does not know
abbrev pub shut : Child → ℕ → Child
shut c fd = with_server c (with_closed c.group.server fd)

-- an entry of the table as calloc makes it: its type is 0, which is that of a listening socket
abbrev pub calloc_wrap : FdWrap
calloc_wrap = record {
  type = listen;
  fd = pos 0;
  idx = 0;
  flag = 0;
  buff = empty_buff;
  addr = record { ip = 0; port = 0 };
}

-- `mq_fini`: the mapping goes; its pipe stays open.
unfoldable pub mq_fini : ℕ → ℕ → Child → Child
mq_fini k type c = record c { unmapped = (k, type) ∷ c.unmapped }

-- The loop of `work_init` over the master's table: what is open is closed, an entry at a time.
unfoldable pub close_entry : ℤ → Server → Server
close_entry (pos (suc fd)) s = with_closed s (suc fd)
close_entry (pos zero) s = s
close_entry (negsuc n) s = s

unfoldable pub close_entries : ℕ → Server → Server
unfolding close_entry
close_entries zero s = s
close_entries (suc n) s = let t = close_entries n s in close_entry (fd_wrap t n).fd t

-- The master's table and its epoll are given back.
unfoldable pub release_master : Child → Child
unfolding close_entries
release_master c =
    let s =
      with_closed (close_entries (nr_entries c.group.server.epinfo.maxfd) c.group.server) c.epfd in
    with_server c (record s {
      epinfo = record (s.epinfo) { maxfd = pos 0; seq = 0; count = 0; fds = λ fd. calloc_wrap };
      kernel = record (s.kernel) { interest = λ fd. none };
    })

-- The queues that the process shares with the master: of its own it closes the ends that it does
-- not use, and the others go.
unfoldable pub leave_queue : ℕ → ℕ → Child → Child
unfolding mq_fini
leave_queue i k c =
    if k == i
    then shut (shut c (c.pipes i).rq_write) (c.pipes i).sq_read
    else shut (mq_fini k mem_type_send (mq_fini k mem_type_recv c)) (c.pipes k).rq_write

unfoldable pub leave_queues : ℕ → ℕ → Child → Child
unfolding leave_queue
leave_queues i zero c = c
leave_queues i (suc n) c = leave_queue i n (leave_queues i n c)

-- A call that returns -1 ends `work_init`.
abbrev pub and_then : ℤ × Child → (Child → ℤ × Child) → ℤ × Child
and_then (pos n, c) f = f c
and_then (negsuc n, c) f = (minus_one, c)

-- a new epoll with its table
unfoldable pub make_epoll : Boot → Child → ℤ × Child
make_epoll b c = elim b.new_epfd [
  | none ↦ (minus_one, c)
  | some fd ↦
      if b.evs_ok
      then (if b.fds_ok
          then (success, record c { epfd = fd })
          else (minus_one, record c { epfd = fd }))
      else (minus_one, record c { epfd = fd })
]

-- the pipe of the receive queue
unfoldable pub watch_pipe : ℕ → Child → ℤ × Child
watch_pipe i c =
    let (ret, s) = add_fdinfo_to_epinfo c.group.server (c.pipes i).rq_read i pipe 0 0 in
    (ret, with_server c s)

-- the socket of the multicast group
unfoldable pub join_group : Boot → ℕ → Child → ℤ × Child
join_group b i c = elim (mcast_cli_init b.udp).0 [
  | negsuc n ↦ (minus_one, c)
  | pos fd ↦
      let (ret, s) = add_fdinfo_to_epinfo c.group.server fd i mcast 0 0 in (ret, with_server c s)
]

-- The tables of the worker, its library and its clock. `none` is an unlinking of the lists' heads from
-- nodes of the master's table, which was freed.
unfoldable pub begin_work : Boot → ℕ → Child → Option (ℤ × Child)
unfolding init_fds init_mcast_servs
begin_work b i c =
    let (failed, s) = b.serv_init (init_fds c.group.server) in
    let d : Child = record (with_server c s) { stop = false; chl_pids = λ k. 0 } in
    if failed
    then some (minus_one, d)
    else if length s.epinfo.readlist == 0 && length s.epinfo.closelist == 0
    then some (
      success,
      record d {
        group = record (d.group) { servs = init_mcast_servs };
        work_idx = i;
        next_syn_addr = b.now + 5;
        next_del_expire_addr = b.now + 10;
      },
    )
    else none

-- The steps of `work_init` behind the registrations.
abbrev pub and_begin : ℤ × Child → (Child → Option (ℤ × Child)) → Option (ℤ × Child)
and_begin (pos n, c) f = f c
and_begin (negsuc n, c) f = some (minus_one, c)

-- `work_init` of worker `i`, of `nr_used`. A log that fails ends it with 0. `none` is a title that
-- does not fit, or a write to the freed table.
unfoldable pub work_init : Boot → ℕ → Bool → ℕ → Child → Option (ℤ × Child)
unfolding release_master leave_queues make_epoll watch_pipe join_group begin_work chg_proc_title
work_init b i isreboot nr_used c =
    if b.log_ok
    then (let d = leave_queues i (if isreboot then nr_used else i + 1) (release_master c) in
        elim (chg_proc_title b.title d.args) [
          | none ↦ none
          | some a ↦
              and_begin
                (and_then (and_then (make_epoll b (record d { args = a })) (watch_pipe i))
                  (join_group b i))
                (begin_work b i)
        ])
    else some (success, c)

-- `work_fini`
unfoldable pub work_fini : (Server → Server) → ℕ → Child → Child
unfolding mq_fini
work_fini serv_fini i c =
    shut
      (mq_fini i mem_type_send (mq_fini i mem_type_recv (with_server c (serv_fini c.group.server))))
      c.epfd
