-- ===== src/Tests/Clients.antt =====
-- The theorems on the client programs.
use sserver.Prelude.{ℕ, pos, ◌+◌, ◌≡◌, refl, true, [], ◌∷◌, ◌++◌, none, some, arith, List}
use sserver.Text.{Text, codes}
use sserver.NetUtil.{blank}
use sserver.Mcast.{Around, Group, do_proc_mcast, Udp}
use sserver.McastPub
use sserver.McastPub.Same.{Copies, send_pkg_to_mcast_lem}
use sserver.Mcast.Cache.{both}
use sserver.ReloadCli.{order}
use sserver.ReloadCli.Order.{obey, received, do_proc_mcast-order}
use sserver.Socket.{Recv, safe_tcp_recv_n, recv_loop}
use sserver.Socket.Stream.{stream}
use sserver.Sample.Echo.{AllWhole}
use sserver.Client.{Cli, Turn, cli_turn, send_pkgs, make_pkg, pkg_bytes}
use sserver.Client.Echoes.{pkgs}
use sserver.Client.Round.{cli_turn-echo}
use sserver.Master.Stream.{joined}
use sserver.Tests.Data.{server, library}

abbrev around : Around
around = record {
  code = λ p. library;
  dlopen = λ file. some 3;
  dlsym = λ h slot. some 4;
  readable = λ file. true;
  now = 60;
  alloc = both;
  srv_name = codes "ab";
  work_id = 1;
}

abbrev group : Group
group = record {
  server = server;
  servs = λ name. none;
  so = record { data_handle = none; handle = none; slot = λ x. none; unloaded = [] };
  buf = blank;
}

-- a name and a file
abbrev name : Text
name = 97 ∷ 98 ∷ []

abbrev file : Text
file = 46 ∷ 47 ∷ 115 ∷ []

do_proc_mcast-order_example :
    do_proc_mcast around (order blank 1 name file ∷ []) group
    ≡ some (obey around (record group { buf = received blank blank 1 name file }) 1 name file).1
do_proc_mcast-order_example =
    do_proc_mcast-order around group blank 1 name file (omega arith) (omega arith) (omega arith)
      (omega arith, (omega arith, tt)) (omega arith, (omega arith, (omega arith, tt)))

-- a system that does all that is asked
abbrev udp : Udp
udp = record {
  sockfd = some 7;
  reuse_ok = true;
  bind_ok = true;
  ttl_ok = true;
  loop_ok = true;
  if_ok = true;
  join_ok = true;
  sendto = pos;
}

send_pkg_to_mcast_lem_example :
    Copies
      (McastPub.send_pkg_to_mcast udp 2 (1 ∷ 2 ∷ []))
      (sserver.Mcast.send_pkg_to_mcast udp 2 (1 ∷ 2 ∷ []))
send_pkg_to_mcast_lem_example = send_pkg_to_mcast_lem udp 2 (1 ∷ 2 ∷ [])

abbrev cli : Cli
cli = record { seq = 5; times = []; sent = (7 ∷ []) ∷ [] }

abbrev text : List ℕ
text = 104 ∷ 105 ∷ []

abbrev both_sent : Cli
both_sent = send_pkgs (λ i. i) (λ i. 1024) text 2 0 cli

-- everything arrives in one piece
abbrev arrives : List Recv
arrives = Recv.delivers (joined (pkgs text 2 0 5)) ∷ Recv.again ∷ []

cli_turn-echo_example :
    (cli_turn 2 (λ i. i) (λ i. 1024) text [] 2 [] cli ≡ some (Turn.turn both_sent))
    × (both_sent.sent ≡ cli.sent ++ pkgs text 2 0 5)
    × AllWhole (pkgs text 2 0 5)
    × (cli_turn 2 (λ i. 9 + i) (λ i. 0) text [] 2 (arrives ∷ []) both_sent
        ≡ some (
            Turn.turn (send_pkgs (λ i. 9 + i) (λ i. 0) text 2 0 (record both_sent { times = [] }))))
unfolding recv_loop safe_tcp_recv_n stream pkg_bytes make_pkg
cli_turn-echo_example =
    cli_turn-echo 2 (λ i. i) (λ i. 9 + i) (λ i. 1024) (λ i. 0) text text [] 2 cli arrives
      (recv_loop arrives blank 0 102400 0) (omega arith) (omega arith) (omega arith) refl
      (λ j l. omega arith) (omega arith) (omega arith) refl refl refl
