-- ===== src/Tests/Parts.antt =====
-- The theorems on the master's handlers, the notices and the processes.
use sserver.Prelude.{ℕ, ◌+◌, ◌<◌, ◌≡◌, refl, true, false, [], ◌∷◌, none, some, arith, pos}
use sserver.Mem.{Mem, blit}
use sserver.Server.{Server, with_buff}
use sserver.NetUtil.{blank}
use sserver.Socket.{Recv}
use sserver.Text.{Text, codes}
use sserver.Outer.{reg_so}
use sserver.Outer.Loading.{RegPost, reg_so_lem}
use sserver.Process.{Master, Answers, Fork, child_ended, handle_term}
use sserver.Process.Ending.{handle_term_lem}
use sserver.Process.Restart.{Restarted, child_ended_lem}
use sserver.Mcast.{
  Udp, SentPkg, Around, Group, add_serv_to_cach, mcast_serv_noti, mcast_pkg, serv_noti,
  do_syn_serv_addr, send_pkg_to_mcast, do_proc_mcast,
}
use sserver.Mcast.Cache.{Added, both, Learnt, add_serv_to_cach-Learnt}
use sserver.Mcast.Notice.{do_proc_mcast-do_syn_serv_addr}
use sserver.Conf.{no_data, load_simple_data}
use sserver.Conf.Entries.{Line, Fine, IsWord, text_of, table_of, load_simple_data-text_of}
use sserver.Text.{is_space}
use sserver.Prelude.{List}
use sserver.Mem.{get32, slice}
use sserver.MemQueue.{read_type}
use sserver.MemQueue.Layout.{Held}
use sserver.Server.{with_rq, update}
use sserver.Fds.{get_fd}
use sserver.Work.{handle_block}
use sserver.Work.Opening.{opening, handle_block-opening}
use sserver.Connect.{Setup, SockType, Made, safe_socket_listen, safe_tcp_connect}
use sserver.Connect.Open.{Balanced, safe_socket_listen_lem, safe_tcp_connect_lem}
use sserver.Conf.{WorkMgr, load_work_data, scan_lines, end_line, add_work, scan_entry, store_entry}
use sserver.Text.{
  scan_int, scan_signed, scan_nat, scan_digits, is_digit, skip_space, scan_word, first_word,
  span_word, with_sign, to_unsigned,
}
use sserver.Conf.Workers.{Sound, load_work_data-Sound}
use sserver.Prelude.{◌≤◌}
use sserver.Tests.Data.{empty_queue, buffers, server, library}

abbrev waiting : Mem
waiting = blit blank 0 (1 ∷ 65 ∷ [])

-- two bytes of a client wait, and three come: two messages of two bytes and the start of a third
abbrev reading : Server
reading = record (with_buff server 5 (record buffers { rlen = 2; rbf = some waiting })) {
  kernel = record (server.kernel) { incoming = λ fd. Recv.delivers (1 ∷ 66 ∷ 1 ∷ []) ∷ [] };
}

abbrev udp : Udp
udp = record {
  sockfd = some 9;
  reuse_ok = true;
  bind_ok = true;
  ttl_ok = true;
  loop_ok = true;
  if_ok = true;
  join_ok = true;
  sendto = λ n. pos n;
}

abbrev echo : Text
echo = codes "echo"

abbrev around : Around
around = record {
  code = λ f. library;
  dlopen = λ name. some 1;
  dlsym = λ h x. some 7;
  readable = λ name. true;
  now = 60;
  alloc = both;
  srv_name = echo;
  work_id = 1;
}

abbrev group : Group
group = record {
  server = server;
  servs = λ name. none;
  so = record { data_handle = none; handle = none; slot = λ x. none; unloaded = [] };
  buf = blank;
}

abbrev sent_notice : SentPkg
sent_notice = record {
  ret = pos 0;
  datagrams = mcast_pkg mcast_serv_noti (serv_noti 167772161 8000 2 echo) ∷ [];
  left_open = [];
}

do_proc_mcast-do_syn_serv_addr_example :
    (h : Group) × (do_proc_mcast around sent_notice.datagrams group ≡ some h)
    × Added group.servs echo 2
        (record { serv_id = 2; ip = 167772161; port = 8000; last_syn = 60 })
        h.servs
unfolding do_syn_serv_addr send_pkg_to_mcast serv_noti
do_proc_mcast-do_syn_serv_addr_example =
    do_proc_mcast-do_syn_serv_addr udp sent_notice around group 167772161 8000 2 echo refl refl refl
      (omega arith) (omega arith) (omega arith) (omega arith)
      (omega arith, (omega arith, (omega arith, (omega arith, tt))))

add_serv_to_cach-Learnt_example :
    Learnt both
      (λ name. none)
      echo
      2
      (record { serv_id = 2; ip = 9; port = 8000; last_syn = 60 })
      (add_serv_to_cach 60 both (λ name. none) echo 2 9 8000)
add_serv_to_cach-Learnt_example = add_serv_to_cach-Learnt 60 both (λ name. none) echo 2 9 8000

reg_so_lem_example :
    RegPost around.dlopen around.dlsym group.so echo
      (reg_so around.dlopen around.dlsym group.so echo)
reg_so_lem_example = reg_so_lem around.dlopen around.dlsym group.so echo

abbrev master : Master
master = record { server = server; chl_pids = λ i. 100 + i; nr_used = 2; stop = false; kills = [] }

handle_term_lem_example :
    ((handle_term 7 15 master).stop ≡ true)
    × ((i : ℕ) → i < 2 → (handle_term 7 15 master).chl_pids i ≡ 0)
    × ((handle_term 7 15 master).kills ≡ (0, 15) ∷ (0, 15) ∷ [])
handle_term_lem_example = handle_term_lem 7 15 master (λ j l e. omega (arith, e))

abbrev answers : Answers
answers = record {
  mem_queue_len = 100;
  listenfd = some 8;
  ip = 1;
  port = 2;
  pipefd = 9;
  rq_read = 21;
  sq_write = 22;
  old_rq_write = 23;
  fork = Fork.parent 300;
}

child_ended_lem_example : Restarted master 1 300 (child_ended answers master 101)
child_ended_lem_example =
    child_ended_lem answers master 101 1 300 8 (omega arith) refl (λ j l e. omega (arith, l, e))
      (omega arith) refl refl refl refl

abbrev lines : List Line
lines = Line.note (codes " settings") ∷ Line.empty ∷ Line.entry (codes "k") (codes "12") ∷ []

lines-Fine : Fine lines
unfolding is_space
lines-Fine = (
  (
    (omega arith, omega arith),
    (
      (omega arith, omega arith),
      (
        (omega arith, omega arith),
        (
          (omega arith, omega arith),
          (
            (omega arith, omega arith),
            (
              (omega arith, omega arith),
              (
                (omega arith, omega arith),
                ((omega arith, omega arith), ((omega arith, omega arith), tt)),
              ),
            ),
          ),
        ),
      ),
    ),
  ),
  (
    (
      (
        IsWord.word ((refl, omega arith, omega arith), tt),
        IsWord.word ((refl, omega arith, omega arith), ((refl, omega arith, omega arith), tt)),
      ),
      (omega arith, omega arith),
    ),
    tt,
  ),
)

load_simple_data-text_of_example :
    load_simple_data (some (text_of lines)) [] [] ≡ some (pos 0, table_of no_data lines)
load_simple_data-text_of_example =
    load_simple_data-text_of lines [] [] lines-Fine (omega arith) (omega arith)

-- an opening block of descriptor 5 for 9.0.0.0, port 8000, at the tail of the receive queue
abbrev opened : Mem
opened =
    blit blank 12
      (0 ∷ 0 ∷ 0 ∷ 0 ∷ 5 ∷ 0 ∷ 0 ∷ 0 ∷ 3 ∷ 19 ∷ 0 ∷ 0 ∷ 0 ∷ 9 ∷ 0 ∷ 0 ∷ 0 ∷ 64 ∷ 31 ∷ [])

abbrev worker : Server
worker = with_rq server 0 (record empty_queue { mem = opened; head = 31 })

opened-Held : Held opened 12 (opening 0 5 9 8000)
unfolding get32 blit slice read_type
opened-Held = record { id = refl; fd = refl; type = refl; len = refl; bytes = refl }

handle_block-opening_example : handle_block library worker 0 12 ≡ record worker {
  sessions = update worker.sessions 5 (some (record { fd = 5; id = 0; ip = 9; port = 8000 }));
}
unfolding get_fd
handle_block-opening_example =
    handle_block-opening library worker 0 12 0 5 9 8000 (omega arith) (omega arith) opened-Held refl

abbrev setup : Setup
setup = record {
  socket = some 9;
  inet_pton_ok = true;
  reuse_ok = true;
  rcvbuf_ok = true;
  sndbuf_ok = true;
  bind_ok = false;
  listen_ok = true;
  connect_ok = true;
}

safe_socket_listen_lem_example :
    (r : Made) × (safe_socket_listen setup SockType.stream 1024 8192 ≡ some r) × Balanced r
safe_socket_listen_lem_example =
    safe_socket_listen_lem setup SockType.stream 1024 8192 (omega arith) (omega arith) (omega arith)

safe_tcp_connect_lem_example : Balanced (safe_tcp_connect setup)
safe_tcp_connect_lem_example = safe_tcp_connect_lem setup

-- a file of one worker
abbrev work_conf : Text
work_conf = 49 ∷ 32 ∷ 97 ∷ 32 ∷ 56 ∷ 10 ∷ []

abbrev one_worker : WorkMgr
one_worker = record {
  nr_work = 100;
  nr_used = 1;
  works = (record { id = 1; idx = 5; ip = 97 ∷ []; port = 8 }) ∷ [];
  room = 9100;
}

load_work_data-Sound_example : Sound one_worker × (1 ≤ 101)
unfolding load_work_data scan_lines end_line add_work scan_entry store_entry scan_int scan_signed
    scan_nat scan_digits is_digit is_space skip_space scan_word first_word span_word with_sign
    to_unsigned
load_work_data-Sound_example = load_work_data-Sound work_conf [] (pos 0) one_worker refl
