-- ===== src/Start/Release.antt =====
-- What `work_init` gives back of the master's table, epoll and queues.
use sserver.Prelude.{
  ℕ, zero, suc, ◌≤◌, ◌<◌, ◌≡◌, refl, sym, ap, subst, ◌∙◌, ◌⊎◌, inl, inr, Bool, true, false, List,
  [], ◌∷◌, none, arith, ◌==◌, if-both, if◌then◌else◌, ℤ, pos, negsuc,
}
use sserver.Server.{EpollInfo, Server, fd_wrap}
use sserver.Process.{nr_entries}
use sserver.Start.{
  Child, shut, calloc_wrap, mq_fini, close_entry, close_entries, release_master, leave_queue,
  leave_queues,
}

-- whether a descriptor is in a list
abbrev pub has : ℕ → List ℕ → Bool
has x [] = false
has x (y ∷ ys) = let rest = has x ys in if x == y then true else rest

has-cons : (x y : ℕ) (ys : List ℕ) → has x ys ≡ true → has x (y ∷ ys) ≡ true
has-cons x y ys h = ground (arith, h)

has-head : (x : ℕ) (ys : List ℕ) → has x (x ∷ ys) ≡ true
has-head x ys = ground arith

-- What the steps of `work_init` behind the release leave alone.
pub record Keeps (c t : Child) : Type 0 where
  pub args : t.args ≡ c.args
  pub pipes : t.pipes ≡ c.pipes
  pub epinfo : t.group.server.epinfo ≡ c.group.server.epinfo
  pub epoll : t.group.server.kernel.epoll_ctl_ok ≡ c.group.server.kernel.epoll_ctl_ok
  pub interest :
      ((j : ℕ) → c.group.server.kernel.interest j ≡ none)
      → (j : ℕ) → t.group.server.kernel.interest j ≡ none
  pub closed :
      (x : ℕ)
      → has x c.group.server.kernel.closed ≡ true
      → has x t.group.server.kernel.closed ≡ true

Keeps-trans : (c t u : Child) → Keeps c t → Keeps t u → Keeps c u
Keeps-trans c t u a b = record {
  args = b.args ∙ a.args;
  pipes = b.pipes ∙ a.pipes;
  epinfo = b.epinfo ∙ a.epinfo;
  epoll = b.epoll ∙ a.epoll;
  interest = λ h. b.interest (a.interest h);
  closed = λ x h. b.closed x (a.closed x h);
}

shut-Keeps : (c : Child) (fd : ℕ) → Keeps c (shut c fd)
shut-Keeps c fd = record {
  args = refl;
  pipes = refl;
  epinfo = refl;
  epoll = refl;
  interest = λ h j. ground (arith, h j);
  closed = λ x h. has-cons x fd c.group.server.kernel.closed h;
}

mq_fini-Keeps : (c : Child) (k type : ℕ) → Keeps c (mq_fini k type c)
unfolding mq_fini
mq_fini-Keeps c k type = record {
  args = refl;
  pipes = refl;
  epinfo = refl;
  epoll = refl;
  interest = λ h. h;
  closed = λ x h. h;
}

leave_queue-Keeps : (i k : ℕ) (c : Child) → Keeps c (leave_queue i k c)
unfolding leave_queue
leave_queue-Keeps i k c =
    if-both (Keeps c) (k == i)
      (λ e.
        Keeps-trans c (shut c (c.pipes i).rq_write) _ (shut-Keeps c (c.pipes i).rq_write)
          (shut-Keeps (shut c (c.pipes i).rq_write) (c.pipes i).sq_read))
      (λ e.
        Keeps-trans c (mq_fini k 1 (mq_fini k 0 c)) _
          (Keeps-trans c (mq_fini k 0 c) _ (mq_fini-Keeps c k 0)
            (mq_fini-Keeps (mq_fini k 0 c) k 1))
          (shut-Keeps (mq_fini k 1 (mq_fini k 0 c)) (c.pipes k).rq_write))

pub leave_queues-Keeps : (i n : ℕ) (c : Child) → Keeps c (leave_queues i n c)
unfolding leave_queues
leave_queues-Keeps i zero c = record {
  args = refl;
  pipes = refl;
  epinfo = refl;
  epoll = refl;
  interest = λ h. h;
  closed = λ x h. h;
}
leave_queues-Keeps i (suc n) c =
    Keeps-trans c (leave_queues i n c) _ (leave_queues-Keeps i n c)
      (leave_queue-Keeps i n (leave_queues i n c))

-- The loop over the master's table leaves the table alone and closes what is open in it.
close_entry-epinfo : (fd : ℤ) (s : Server) → (close_entry fd s).epinfo ≡ s.epinfo
unfolding close_entry
close_entry-epinfo (pos (suc fd)) s = refl
close_entry-epinfo (pos zero) s = refl
close_entry-epinfo (negsuc n) s = refl

close_entry-epoll :
    (fd : ℤ) (s : Server) → (close_entry fd s).kernel.epoll_ctl_ok ≡ s.kernel.epoll_ctl_ok
unfolding close_entry
close_entry-epoll (pos (suc fd)) s = refl
close_entry-epoll (pos zero) s = refl
close_entry-epoll (negsuc n) s = refl

close_entry-closed :
    (fd : ℤ) (s : Server) (x : ℕ)
    → has x s.kernel.closed ≡ true
    → has x (close_entry fd s).kernel.closed ≡ true
unfolding close_entry
close_entry-closed (pos (suc fd)) s x h = has-cons x (suc fd) s.kernel.closed h
close_entry-closed (pos zero) s x h = h
close_entry-closed (negsuc n) s x h = h

close_entry-has :
    (fd : ℤ) (s : Server) (x : ℕ)
    → fd ≡ pos (suc x)
    → has (suc x) (close_entry fd s).kernel.closed ≡ true
unfolding close_entry
close_entry-has fd s x e =
    subst (λ fd. has (suc x) (close_entry fd s).kernel.closed ≡ true) (sym e)
      (has-head (suc x) s.kernel.closed)

close_entries-epinfo : (n : ℕ) (s : Server) → (close_entries n s).epinfo ≡ s.epinfo
unfolding close_entries
close_entries-epinfo zero s = refl
close_entries-epinfo (suc n) s =
    close_entry-epinfo (fd_wrap (close_entries n s) n).fd (close_entries n s)
    ∙ close_entries-epinfo n s

close_entries-epoll :
    (n : ℕ) (s : Server) → (close_entries n s).kernel.epoll_ctl_ok ≡ s.kernel.epoll_ctl_ok
unfolding close_entries
close_entries-epoll zero s = refl
close_entries-epoll (suc n) s =
    close_entry-epoll (fd_wrap (close_entries n s) n).fd (close_entries n s)
    ∙ close_entries-epoll n s

close_entries-closed :
    (n : ℕ) (s : Server) (k x : ℕ)
    → k < n
    → (fd_wrap s k).fd ≡ pos (suc x)
    → has (suc x) (close_entries n s).kernel.closed ≡ true
unfolding close_entries
close_entries-closed zero s k x l e = absurd (omega arith)
close_entries-closed (suc n) s k x l e = elim (order l) [
  | inl last ↦ close_entry-has (fd_wrap t n).fd t x (
      ap (λ (p : EpollInfo). (p.fds n).fd) (close_entries-epinfo n s)
      ∙ ap (λ j. (fd_wrap s j).fd) (sym last)
      ∙ e)
  | inr before ↦
      close_entry-closed (fd_wrap t n).fd t (suc x) (close_entries-closed n s k x before e)
]
  where
    t : Server
    t = close_entries n s

    order : k < suc n → (k ≡ n) ⊎ (k < n)
    order l = omega arith

-- What the release of the master's table leaves.
pub record Released (c t : Child) : Type 0 where
  pub args : t.args ≡ c.args
  pub pipes : t.pipes ≡ c.pipes
  pub table : (j : ℕ) → fd_wrap t.group.server j ≡ calloc_wrap
  pub readlist : t.group.server.epinfo.readlist ≡ c.group.server.epinfo.readlist
  pub closelist : t.group.server.epinfo.closelist ≡ c.group.server.epinfo.closelist
  pub epoll : t.group.server.kernel.epoll_ctl_ok ≡ c.group.server.kernel.epoll_ctl_ok
  pub interest : (j : ℕ) → t.group.server.kernel.interest j ≡ none
  pub closed :
      (k maxfd x : ℕ)
      → c.group.server.epinfo.maxfd ≡ pos maxfd
      → k ≤ maxfd
      → (fd_wrap c.group.server k).fd ≡ pos (suc x)
      → has (suc x) t.group.server.kernel.closed ≡ true

pub release_master-Released : (c : Child) → Released c (release_master c)
unfolding release_master nr_entries
release_master-Released c = record {
  args = refl;
  pipes = refl;
  table = λ j. refl;
  readlist =
      ap (λ (p : EpollInfo). p.readlist)
        (close_entries-epinfo (nr_entries c.group.server.epinfo.maxfd) c.group.server);
  closelist =
      ap (λ (p : EpollInfo). p.closelist)
        (close_entries-epinfo (nr_entries c.group.server.epinfo.maxfd) c.group.server);
  epoll = close_entries-epoll (nr_entries c.group.server.epinfo.maxfd) c.group.server;
  interest = λ j. refl;
  closed = λ k maxfd x e l o. has-cons (suc x) c.epfd _ (
      subst (λ n. has (suc x) (close_entries n c.group.server).kernel.closed ≡ true)
        (sym (ap nr_entries e))
        (close_entries-closed (suc maxfd) c.group.server k x (omega arith) o));
}

pub Released-Keeps : (c t u : Child) → Released c t → Keeps t u → Released c u
Released-Keeps c t u a b = record {
  args = b.args ∙ a.args;
  pipes = b.pipes ∙ a.pipes;
  table = λ j. ap (λ (p : EpollInfo). p.fds j) b.epinfo ∙ a.table j;
  readlist = ap (λ (p : EpollInfo). p.readlist) b.epinfo ∙ a.readlist;
  closelist = ap (λ (p : EpollInfo). p.closelist) b.epinfo ∙ a.closelist;
  epoll = b.epoll ∙ a.epoll;
  interest = b.interest a.interest;
  closed = λ k maxfd x e l o. b.closed (suc x) (a.closed k maxfd x e l o);
}
