-- ===== src/WorkLoop.antt =====
-- work.c: a round of the worker's event loop, `work_dispatch`, with `do_proc_pipe`.
use sserver.Prelude.{
  ℕ, zero, suc, ◌+◌, ltb, Bool, true, false, List, [], ◌∷◌, Option, none, some, leb, if◌then◌else◌,
  length, ◌>>=◌,
}
use sserver.Socket.{Recv, put_back}
use sserver.Server.{ServIf, Server, listen, connect, mcast, pipe, cli, svr, null, fd_wrap, update}
use sserver.Dispatch.{or_close, write_event, handle_readlist, handle_closelist}
use sserver.Work.{do_proc_svr, handle_mq_recv}
use sserver.Outer.{SharedObj}
use sserver.Mcast.{Around, Group, Udp, do_proc_mcast, do_syn_serv_addr}

-- PIPE_MSG_LEN
abbrev pub pipe_msg_len : ℕ
pipe_msg_len = 1024

-- The loop of `do_proc_pipe`: a read that fills its buffer is followed by another. It has fuel for
-- the reads.
unfoldable pub pipe_reads : ℕ → List Recv → Option (List Recv)
unfolding put_back
pipe_reads zero s = none
pipe_reads (suc fuel) [] = some []
pipe_reads (suc fuel) (Recv.delivers bs ∷ s) = elim (leb pipe_msg_len (length bs)) [
  | true ↦ pipe_reads fuel (put_back pipe_msg_len bs s)
  | false ↦ some s
]
pipe_reads (suc fuel) (r ∷ s) = some s

-- `do_proc_pipe`
unfoldable pub do_proc_pipe : ℕ → Server → ℕ → Option Server
unfolding pipe_reads
do_proc_pipe fuel s fd = do
  rest ← pipe_reads fuel (s.kernel.incoming fd)
  some (record s { kernel = record (s.kernel) { incoming = update s.kernel.incoming fd rest } })

-- what epoll reports to a worker, with the datagrams that wait if it is the multicast socket
pub record WorkEvent : Type 0 where
  pub fd : ℕ
  pub epollin : Bool
  pub epollout : Bool
  pub datagrams : List (List ℕ)

-- the worker's address as its notices tell it (`get_serv_ip`, `get_serv_port`, `get_serv_id`), and
-- the socket calls of a notice
pub record Notices : Type 0 where
  pub udp : Udp
  pub ip : ℕ
  pub port : ℕ
  pub id : ℕ

-- `so` gives the functions that the pointers of the loaded library stand for.
module _ (so : SharedObj → ServIf) (e : Around) where
  abbrev with_server : Group → Option Server → Option Group
  with_server g o = do s ← o; some (record g { server = s })

  -- The branch of EPOLLIN of `work_dispatch`.
  unfoldable pub work_read : ℕ → WorkEvent → Group → Option Group
  unfolding do_proc_pipe
  work_read fuel ev g = elim (fd_wrap g.server ev.fd).type [
    | pipe ↦ with_server g (do_proc_pipe fuel g.server ev.fd)
    | svr ↦
        with_server g
          (do r ← do_proc_svr (so g.so) fuel g.server ev.fd; some (or_close (so g.so) 0 ev.fd r))
    | mcast ↦ do_proc_mcast e ev.datagrams g
    | listen ↦ some g
    | connect ↦ some g
    | cli ↦ some g
    | null ↦ some g
  ]

  -- the events of one epoll_wait
  unfoldable pub work_events : ℕ → List WorkEvent → Group → Option Group
  unfolding work_read
  work_events fuel [] g = some g
  work_events fuel (ev ∷ evs) g = do
    t ←
        if ev.epollin
        then work_read fuel ev g
        else if ev.epollout
        then with_server g (write_event (so g.so) 0 g.server ev.fd)
        else some g
    work_events fuel evs t

  -- One round of `work_dispatch` of worker `i`, up to the notices that go by the clock.
  unfoldable pub work_round : ℕ → ℕ → List WorkEvent → Group → Option Group
  unfolding work_events
  work_round fuel i evs g = do
    a ← work_events fuel evs g
    b ← with_server a (handle_mq_recv (so a.so) fuel a.server i)
    some (record b { server = (so b.so).handle_timer b.server })

  -- The notice of `do_syn_serv_addr` in a round, when its time has come; `wait` is what
  -- `random_range(1, 10)` gives. (`do_del_expired_addr` is empty.)
  unfoldable pub syn_round : Notices → ℕ → ℕ → Option (ℕ × List (List ℕ))
  unfolding do_syn_serv_addr
  syn_round n wait next_syn_addr =
      if ltb next_syn_addr e.now
      then (do
        p ← do_syn_serv_addr n.udp n.ip n.port n.id e.srv_name
        some (e.now + wait, p.datagrams))
      else some (next_syn_addr, [])

  -- What `work_dispatch` does before its loop, once.
  unfoldable pub work_start : ℕ → Group → Option Group
  work_start fuel g = do
    a ← with_server g (handle_closelist (so g.so) 0 g.server)
    with_server a (handle_readlist (so a.so) fuel 0 a.server)
