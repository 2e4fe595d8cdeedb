-- ===== src/Start/Ready.antt =====
-- What a worker begins with behind `work_init`.
use sserver.Prelude.{
  ℕ, suc, ◌+◌, ◌≤◌, ◌≡◌, ◌≢◌, refl, sym, ap, subst, ◌∙◌, Bool, true, false, [], Option, none, some,
  arith, if-both, if◌then◌else◌, ℤ, pos,
}
use sserver.Socket.{minus_one}
use sserver.Server.{FdWrap, Server, FdType, mcast, pipe, fd_wrap}
use sserver.Epoll.{success, empty_buff, in_only, in_out, interest_of, add_fdinfo_to_epinfo}
use sserver.Fds.{init_fds}
use sserver.Mcast.{mcast_cli_init}
use sserver.Util.{Saved, chg_proc_title}
use sserver.Start.{
  Pipes, Child, Boot, with_server, calloc_wrap, release_master, leave_queues, and_then, and_begin,
  make_epoll, watch_pipe, join_group, begin_work, work_init,
}
use sserver.Start.Release.{
  has, leave_queues-Keeps, Released, release_master-Released, Released-Keeps,
}

-- the entry of a descriptor that was just registered
abbrev pub new_wrap : ℕ → ℕ → FdType → FdWrap
new_wrap fd i type = record {
  type = type;
  fd = pos fd;
  idx = i;
  flag = 0;
  buff = empty_buff;
  addr = record { ip = 0; port = 0 };
}

-- What a registration leaves.
record Added (s : Server) (fd i : ℕ) (type : FdType) (t : Server) : Type 0 where
  here : fd_wrap t fd ≡ new_wrap fd i type
  there : (j : ℕ) → j ≢ fd → fd_wrap t j ≡ fd_wrap s j
  watched : t.kernel.interest fd ≡ some (interest_of type)
  unwatched : (j : ℕ) → j ≢ fd → t.kernel.interest j ≡ s.kernel.interest j
  closed : t.kernel.closed ≡ s.kernel.closed
  readlist : t.epinfo.readlist ≡ s.epinfo.readlist
  closelist : t.epinfo.closelist ≡ s.epinfo.closelist
  epoll : t.kernel.epoll_ctl_ok ≡ s.kernel.epoll_ctl_ok

data AddedRet (s : Server) (fd i : ℕ) (type : FdType) : ℤ × Server → Type 0 where
  added : {t : Server} → Added s fd i type t → AddedRet s fd i type (success, t)

add-AddedRet :
    (s : Server) (fd i : ℕ) (type : FdType)
    → s.kernel.epoll_ctl_ok ≡ true
    → AddedRet s fd i type (add_fdinfo_to_epinfo s fd i type 0 0)
unfolding add_fdinfo_to_epinfo
add-AddedRet s fd i type ok =
    if-both (AddedRet s fd i type) s.kernel.epoll_ctl_ok
      (λ e. AddedRet.added (record {
        here = ground arith;
        there = λ j d. ground (arith, d);
        watched = ground arith;
        unwatched = λ j d. ground (arith, d);
        closed = refl;
        readlist = refl;
        closelist = refl;
        epoll = refl;
      }))
      (λ e. absurd (ground (arith, ok, e)))

-- The system and the library give what a start needs, and the group's socket is `fd`.
pub record Willing (b : Boot) (fd : ℕ) : Type 0 where
  pub log_ok : b.log_ok ≡ true
  pub epfd : (e : ℕ) × (b.new_epfd ≡ some e)
  pub evs_ok : b.evs_ok ≡ true
  pub fds_ok : b.fds_ok ≡ true
  pub group : (mcast_cli_init b.udp).0 ≡ pos fd
  pub serv_init : (s : Server) → b.serv_init s ≡ (false, s)

-- The worker has the pipe of its queue and the socket of the group in its table, and nothing else;
-- epoll watches these two; there are no sessions, nothing is linked in a list, no address is known,
-- and no process is recorded; and every descriptor of the master's table was closed.
pub record Ready (b : Boot) (i fd : ℕ) (c t : Child) : Type 0 where
  pub queue : fd_wrap t.group.server (c.pipes i).rq_read ≡ new_wrap (c.pipes i).rq_read i pipe
  pub group : fd_wrap t.group.server fd ≡ new_wrap fd i mcast
  pub table : (j : ℕ) → j ≢ (c.pipes i).rq_read → j ≢ fd → fd_wrap t.group.server j ≡ calloc_wrap
  pub watched :
      (t.group.server.kernel.interest (c.pipes i).rq_read ≡ some in_only)
      × (t.group.server.kernel.interest fd ≡ some in_out)
  pub unwatched :
      (j : ℕ) → j ≢ (c.pipes i).rq_read → j ≢ fd → t.group.server.kernel.interest j ≡ none
  pub sessions : (j : ℕ) → t.group.server.sessions j ≡ none
  pub lists : (t.group.server.epinfo.readlist ≡ []) × (t.group.server.epinfo.closelist ≡ [])
  pub pids : (j : ℕ) → t.chl_pids j ≡ 0
  pub clock : (t.next_syn_addr ≡ b.now + 5) × (t.next_del_expire_addr ≡ b.now + 10)
  pub closed :
      (k maxfd x : ℕ)
      → c.group.server.epinfo.maxfd ≡ pos maxfd
      → k ≤ maxfd
      → (fd_wrap c.group.server k).fd ≡ pos (suc x)
      → has (suc x) t.group.server.kernel.closed ≡ true

pub data ReadyPost (b : Boot) (i fd : ℕ) (c : Child) : Option (ℤ × Child) → Type 0 where
  ready : {t : Child} → Ready b i fd c t → ReadyPost b i fd c (some (success, t))

-- The master had nothing in its lists when it forked.
abbrev pub Idle : Child → Type 0
Idle c = (c.group.server.epinfo.readlist ≡ []) × (c.group.server.epinfo.closelist ≡ [])

-- `begin_work` behind both registrations.
begin_work-ReadyPost :
    (b : Boot) (i fd : ℕ) (c d d1 : Child) (s t : Server)
    → Willing b fd
    → Released c d
    → (c.pipes i).rq_read ≢ fd
    → Idle c
    → Added d.group.server (c.pipes i).rq_read i pipe s
    → Added s fd i mcast t
    → ReadyPost b i fd c (begin_work b i (with_server d1 t))
unfolding begin_work init_fds interest_of
begin_work-ReadyPost b i fd c d d1 s t w r apart idle p g =
    rw (begin_work, w.serv_init (init_fds t), readlist, closelist)
      (ReadyPost.ready (record {
        queue = g.there (c.pipes i).rq_read apart ∙ p.here;
        group = g.here;
        table = λ j m n. g.there j n ∙ p.there j m ∙ r.table j;
        watched = (g.unwatched (c.pipes i).rq_read apart ∙ p.watched, g.watched);
        unwatched = λ j m n. g.unwatched j n ∙ p.unwatched j m ∙ r.interest j;
        sessions = λ j. refl;
        lists = (refl, refl);
        pids = λ j. refl;
        clock = (refl, refl);
        closed = λ k maxfd x e l o.
            subst (λ xs. has (suc x) xs ≡ true) (sym (g.closed ∙ p.closed))
              (r.closed k maxfd x e l o);
      }))
  where
    readlist : t.epinfo.readlist ≡ []
    readlist = g.readlist ∙ p.readlist ∙ r.readlist ∙ idle.0

    closelist : t.epinfo.closelist ≡ []
    closelist = g.closelist ∙ p.closelist ∙ r.closelist ∙ idle.1

-- The steps behind the new epoll.
join_group-ReadyPost :
    (b : Boot) (i fd : ℕ) (c d d1 : Child) (s : Server)
    → Willing b fd
    → Released c d
    → (c.pipes i).rq_read ≢ fd
    → Idle c
    → s.kernel.epoll_ctl_ok ≡ true
    → Added d.group.server (c.pipes i).rq_read i pipe s
    → ReadyPost b i fd c (and_begin (join_group b i (with_server d1 s)) (begin_work b i))
unfolding join_group
join_group-ReadyPost b i fd c d d1 s w r apart idle ok p =
    rw (join_group, w.group) (joined _ (add-AddedRet s fd i mcast ok))
  where
    joined :
        (q : ℤ × Server)
        → AddedRet s fd i mcast q
        → ReadyPost b i fd c (and_begin (q.0, with_server (with_server d1 s) q.1) (begin_work b i))
    joined _ (AddedRet.added {t} g) = begin_work-ReadyPost b i fd c d d1 s t w r apart idle p g

watch_pipe-ReadyPost :
    (b : Boot) (i fd : ℕ) (c d : Child) (a : Saved) (e : ℕ)
    → Willing b fd
    → Released c d
    → (c.pipes i).rq_read ≢ fd
    → Idle c
    → d.group.server.kernel.epoll_ctl_ok ≡ true
    → ReadyPost b i fd c (
        and_begin
          (and_then (watch_pipe i (record d { args = a; epfd = e })) (join_group b i))
          (begin_work b i))
unfolding watch_pipe
watch_pipe-ReadyPost b i fd c d a e w r apart idle ok =
    subst
      (λ n. ReadyPost b i fd c (and_begin (and_then (watched n) (join_group b i)) (begin_work b i)))
      (sym (ap (λ (p : ℕ → Pipes). (p i).rq_read) r.pipes))
      (joined _ (add-AddedRet d.group.server (c.pipes i).rq_read i pipe ok))
  where
    d1 : Child
    d1 = record d { args = a; epfd = e }

    watched : ℕ → ℤ × Child
    watched n =
        let q = add_fdinfo_to_epinfo d.group.server n i pipe 0 0 in (q.0, with_server d1 q.1)

    joined :
        (q : ℤ × Server)
        → AddedRet d.group.server (c.pipes i).rq_read i pipe q
        → ReadyPost b i fd c
            (and_begin (and_then (q.0, with_server d1 q.1) (join_group b i)) (begin_work b i))
    joined _ (AddedRet.added {t} p) =
        join_group-ReadyPost b i fd c d d1 t w r apart idle (p.epoll ∙ ok) p

make_epoll-made :
    (b : Boot) (fd : ℕ) (c : Child) (w : Willing b fd)
    → make_epoll b c ≡ (success, record c { epfd = w.epfd.0 })
unfolding make_epoll
make_epoll-made b fd c w = λ k. made (w.epfd.1 k) (w.evs_ok k) (w.fds_ok k)
  where
    made : Option ℕ → Bool → Bool → ℤ × Child
    made o evs_ok fds_ok = elim o [
      | none ↦ (minus_one, c)
      | some fd ↦
          if evs_ok
          then (if fds_ok
              then (success, record c { epfd = fd })
              else (minus_one, record c { epfd = fd }))
          else (minus_one, record c { epfd = fd })
    ]

-- `work_init` of a worker, if the system gives what it needs, serv_init succeeds and leaves the
-- process as it was, nothing was in the master's lists and the title fits: it returns 0, the worker
-- watches the pipe of its receive queue and the socket of the multicast group and has no other
-- descriptor in its table, no session, nothing in its lists and no recorded process; its first notice
-- is 5 seconds ahead; and every descriptor in the master's table up to its `maxfd` has been closed.
pub work_init_lem :
    (b : Boot) (i fd nr_used : ℕ) (isreboot : Bool) (c : Child) (a : Saved)
    → Willing b fd
    → c.group.server.kernel.epoll_ctl_ok ≡ true
    → (c.pipes i).rq_read ≢ fd
    → Idle c
    → chg_proc_title b.title c.args ≡ some a
    → ReadyPost b i fd c (work_init b i isreboot nr_used c)
unfolding work_init
work_init_lem b i fd nr_used isreboot c a w ok apart idle title =
    if-both (ReadyPost b i fd c) b.log_ok
      (λ e.
        subst (λ o. ReadyPost b i fd c (elim o [ none ↦ none | some a ↦ ran a ]))
          (sym (ap (chg_proc_title b.title) r.args ∙ title))
          (made (watch_pipe-ReadyPost b i fd c d a w.epfd.0 w r apart idle (r.epoll ∙ ok))))
      (λ e. absurd (ground (arith, w.log_ok, e)))
  where
    n : ℕ
    n = if isreboot then nr_used else i + 1

    d : Child
    d = leave_queues i n (release_master c)

    r : Released c d
    r =
        Released-Keeps c (release_master c) d (release_master-Released c)
          (leave_queues-Keeps i n (release_master c))

    ran : Saved → Option (ℤ × Child)
    ran a =
        and_begin
          (and_then (and_then (make_epoll b (record d { args = a })) (watch_pipe i))
            (join_group b i))
          (begin_work b i)

    made :
        ReadyPost b i fd c (
          and_begin
            (and_then (watch_pipe i (record d { args = a; epfd = w.epfd.0 })) (join_group b i))
            (begin_work b i))
        → ReadyPost b i fd c (ran a)
    made =
        subst
          (λ q.
            ReadyPost b i fd c
              (and_begin (and_then (and_then q (watch_pipe i)) (join_group b i)) (begin_work b i)))
          (sym (make_epoll-made b fd (record d { args = a }) w))
