-- ===== src/Tests/Life.antt =====
-- The theorems on the beginning and the end of the processes.
use sserver.Prelude.{ℕ, suc, refl, inl, true, false, [], ◌∷◌, none, some, arith, pos}
use sserver.Mem.{blit}
use sserver.NetUtil.{blank}
use sserver.Util.{Args, Saved, save_args, chg_proc_title, env_size, first_arg, args_end}
use sserver.Util.Title.{TitlePost, saved, chg_proc_title_lem}
use sserver.Mcast.{Udp, mcast_cli_init}
use sserver.Process.{Master, Answers, Fork}
use sserver.Main.{start_all}
use sserver.Main.Workers.{RunPost, start_all_lem}
use sserver.Start.{Child, Boot, work_init}
use sserver.Start.Ready.{ReadyPost, work_init_lem}
use sserver.Tests.Data.{server}

-- "svr" and two strings of the environment behind it
abbrev args : Args
args = record {
  mem = blit blank 100 (115 ∷ 118 ∷ 114 ∷ 0 ∷ 65 ∷ 61 ∷ 49 ∷ 0 ∷ 66 ∷ 0 ∷ []);
  argv = (100, 3) ∷ [];
  environ = (104, 3) ∷ (108, 1) ∷ [];
}

chg_proc_title_lem_example :
    TitlePost args (111 ∷ 110 ∷ []) (chg_proc_title (111 ∷ 110 ∷ []) (saved 200 args))
unfolding save_args args_end first_arg env_size
chg_proc_title_lem_example =
    chg_proc_title_lem args 200 (111 ∷ 110 ∷ []) (omega arith) (omega arith)
      (inl (omega arith), (inl (omega arith), tt)) (inl (omega arith))

abbrev master : Master
master = record { server = server; chl_pids = λ i. 0; nr_used = 2; stop = false; kills = [] }

abbrev given : ℕ → Answers
given i = record {
  mem_queue_len = 1000;
  listenfd = some 9;
  ip = 1;
  port = 9000;
  pipefd = 8;
  rq_read = 21;
  sq_write = 22;
  old_rq_write = 23;
  fork = Fork.parent (suc i);
}

start_all_lem_example : RunPost (λ i. suc i) 2 0 master (start_all given 2 0 master)
start_all_lem_example =
    start_all_lem given (λ i. suc i) 2 0 master
      (λ j. record { len = omega arith; fork = refl; listenfd = (9, refl) })
      (record { mmap = refl; epoll = refl })

abbrev udp : Udp
udp = record {
  sockfd = some 6;
  reuse_ok = true;
  bind_ok = true;
  ttl_ok = true;
  loop_ok = true;
  if_ok = true;
  join_ok = true;
  sendto = λ n. pos n;
}

abbrev boot : Boot
boot = record {
  log_ok = true;
  title = 111 ∷ 110 ∷ [];
  new_epfd = some 3;
  evs_ok = true;
  fds_ok = true;
  udp = udp;
  serv_init = λ s. (false, s);
  now = 60;
}

abbrev saved_args : Saved
saved_args = record { mem = blank; argv_start = 100; argv_end = 110; environ = [] }

abbrev child : Child
child = record {
  group = record {
    server = server;
    servs = λ name. none;
    so = record { data_handle = none; handle = none; slot = λ x. none; unloaded = [] };
    buf = blank;
  };
  pipes = λ i. record { rq_read = 10; rq_write = 11; sq_read = 12; sq_write = 13 };
  unmapped = [];
  epfd = 3;
  args = saved_args;
  stop = false;
  chl_pids = λ k. 7;
  work_idx = 0;
  next_syn_addr = 0;
  next_del_expire_addr = 0;
}

work_init_lem_example : ReadyPost boot 0 6 child (work_init boot 0 false 2 child)
unfolding chg_proc_title mcast_cli_init
work_init_lem_example =
    work_init_lem boot 0 6 2 false child _
      (record {
        log_ok = refl;
        epfd = (3, refl);
        evs_ok = refl;
        fds_ok = refl;
        group = refl;
        serv_init = λ s. refl;
      })
      refl (λ e. absurd (ground (arith, e))) (refl, refl) refl
