-- ===== src/Lib.antt =====
-- sserver is a process framework for TCP servers. One master process accepts the clients, cuts
-- their bytes into messages and hands them to worker processes; each worker runs a business
-- library that is loaded at run time. A master and a worker talk through two queues in shared
-- memory, each with a pipe that wakes the other side. This library models the framework's core in
-- C (mem_queue, net_util, master, work, fds, conf, outer, mcast, util, simple_svr), the sample library
-- and two of its clients as functions on an explicit state.
--
-- The files, with the code that each models:
--   Prelude, Prelude/    the libraries' names, Boolean tests, lists and integers on native numbers
--   Mem, Mem/Frame       raw memory as bytes at addresses: memcpy, memmove, int fields
--   MemQueue             mem_queue.h, mem_queue.c: mq_init, mq_get, mq_push, mq_pop
--   MemQueue/Layout      blocks and messages in memory
--   MemQueue/Chain       messages laid end to end
--   MemQueue/Fifo        each operation of the queue against the list of waiting messages
--   MemQueue/Run, Run/Counter   sequences of operations
--   MemQueue/Room        what a push does to the tail, the counter and the pipe
--   MemQueue/Measure     the room that every accepted push takes
--   MemQueue/Race        mq_push while the other process reads
--   Socket, Socket/      net_util.c: safe_tcp_recv_n, safe_tcp_send_n, safe_tcp_accept, timeouts
--   Server               net_util.h, fds.h, outer.h: the state of one process and its kernel
--   Epoll, Epoll/        net_util.c: add_fdinfo_to_epinfo, the read and close lists, do_fd_close
--   NetUtil, NetUtil/    net_util.c: handle_read, do_fd_close, send_to_cli
--   NetSend, NetSend/    net_util.c: do_fd_write, do_fd_send
--   NetSend/Carried, Returns   do_fd_send as the master calls it: what it keeps, and that it returns
--   Master, Master/      master.c: handle_cli, handle_mq_send, do_blk_send, do_fd_open
--   Master/Stream, Cutting, Handing, Receiving, Returning   how a client's bytes reach a worker
--   Master/Deliver, Draining   how the messages of the workers reach their descriptors
--   Fds                  fds.c: the table of sessions
--   Work, Work/          work.c: handle_mq_recv, do_blk_msg, do_blk_open, do_blk_close, do_proc_svr
--   Work/Serve, Serving  handle_mq_recv against the list of waiting messages
--   Flow                 a client's bytes from its socket to the worker's library
--   Sample, Sample/      test_sserv: test_serv.cpp, switch.cpp, the library that sends back what it gets
--   Util, Util/Title     util.c: save_args, chg_proc_title, set_io_nonblock
--   Connect, Connect/    net_util.c: safe_socket_listen, safe_tcp_connect, connect_to_serv
--   Dispatch             master.c, net_util.c: a round of master_dispatch, handle_readlist, handle_closelist
--   Dispatch/Flush, Releasing, Closing   handle_closelist against the lists and the wires
--   Process, Process/    master.c: handle_sigchld, start_work, master_listen, handle_term
--   Start, Start/        work.c: work_init and work_fini; master.c: the queues that a worker leaves
--   Main, Main/Workers   simple_svr.c: main; master.c: master_init, master_fini
--   WorkLoop             work.c: a round of work_dispatch, do_proc_pipe
--   Text, Text/          C strings: strcmp, sscanf with %s and %d, atoi
--   Conf, Conf/Settings  conf.c: load_simple_data, load_work_data, the getters; master.c: init_setting
--   Outer, Outer/        outer.c: reg_so, unreg_so, reg_data_so, unreg_data_so
--   Mcast, Mcast/        mcast.h, mcast.c, work.c: the address cache, do_proc_mcast, do_syn_serv_addr
--   ReloadCli, ReloadCli/   test_mcast/reloadso_cli.c: the order to load a library again
--   McastPub, McastPub/Same   test_mcast/mcast_pub.c: the test programs' copies of mcast.c's calls
--   Client, Client/      epoll_cli.cpp: the rounds of the client that tests the sample library
--   Tests, Tests/        each theorem at a concrete input
--
-- The state. A queue (MemQueue) is the mapped memory as a function from offsets to bytes, with the
-- head, the tail and the counter of mem_head_t beside it. A process (Server) is its epoll_info_t,
-- the table of workers with their queues, the sessions, the settings, and the kernel's side of each
-- descriptor: a script of what recv, send and accept answer, what went out on the wire, what epoll
-- watches, and what was closed. Pointers into buffers are offsets, and NULL is none. A function
-- that fails by a return value gives that value with the state; where C would fail an assertion or
-- write through NULL, the model gives none.
--
-- Fuel. mq_push and mq_get jump back at most once each, so their fuel is 2. The retry loops of the
-- sockets recurse on the kernel's script, so they need no fuel. handle_cli takes at least a byte of
-- the buffer or a block's head of the queue in each round, and its fuel is the sum of both, which is
-- enough whatever the library answers. handle_mq_send and handle_mq_recv take their fuel as an
-- argument, and as many steps as messages wait, and one more, are enough. do_proc_svr, the event
-- loops and the client's loop over received bytes also take theirs as an argument: the first two
-- go on as long as the system or a faulty handler makes them, and the last needs a step for each
-- packet, since a packet of length 0 repeats it for ever.
--
-- Not modelled: logging, init_rlimit, the table of global variables (global.c), the registration of
-- signal handlers, daemon, and the test programs that are listed nowhere above: pingpong, which
-- writes over the ends of its arrays at each answer, test_mcast, which sends a text every two
-- seconds, and reloadconf_cli, which is empty. A negative length from the library's get_msg_len is
-- left out, since the lengths of the model are natural numbers. The functions of the business library
-- are a parameter (ServIf), and so is what dlopen and dlsym find; GLib's hash tables are functions
-- from keys. Numbers are natural where the code only counts with them; 32-bit fields in shared memory
-- are four bytes, little-endian.
-- The table of descriptors is a function from all numbers, so its bound nr_max_fd, beyond which C
-- writes behind it, is left out. A push that would loop for ever, which no push on a queue of the
-- invariant does, counts as a refusal where the model needs a return value. A page has 4096 bytes.
-- A descriptor's read buffer is always one that handle_read has mapped, so free of it gives none.
pub mod Prelude
pub mod Mem
pub mod MemQueue
pub mod Socket
pub mod Server
pub mod Text
pub mod Conf
pub mod Outer
pub mod Mcast
pub mod Epoll
pub mod NetUtil
pub mod NetSend
pub mod Master
pub mod Fds
pub mod Work
pub mod Flow
pub mod Sample
pub mod Util
pub mod Connect
pub mod Dispatch
pub mod Process
pub mod Start
pub mod Main
pub mod ReloadCli
pub mod McastPub
pub mod Client
pub mod WorkLoop
pub mod Tests
