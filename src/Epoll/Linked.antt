-- ===== src/Epoll/Linked.antt =====
-- The two intrusive lists against the flags of the descriptors.
use sserver.Prelude.{ℕ, ◌+◌, ◌/◌, ◌%◌, ◌≡◌, List, [], ◌∷◌, ◌++◌, arith, ◌==◌, if◌then◌else◌}
use sserver.Server.{FdType, EpollInfo, Server, fd_wrap}
use sserver.Epoll.{
  unlink, do_add_to_readlist, do_del_from_readlist, do_add_to_closelist, do_del_from_closelist,
  release_fd, add_fdinfo_to_epinfo,
}

-- how often a descriptor's node is linked in a list
abbrev pub count : ℕ → List ℕ → ℕ
count fd [] = 0
count fd (x ∷ xs) = (if x == fd then 1 else 0) + count fd xs

count-unlink :
    (fd j : ℕ) (xs : List ℕ) → count j (unlink fd xs) ≡ (if j == fd then 0 else count j xs)
unfolding unlink
count-unlink fd j [] = ground arith
count-unlink fd j (x ∷ xs) = ground (arith, count-unlink fd j xs)

count-snoc :
    (fd j : ℕ) (xs : List ℕ) → count j (xs ++ fd ∷ []) ≡ count j xs + (if j == fd then 1 else 0)
count-snoc fd j [] = ground arith
count-snoc fd j (x ∷ xs) = ground (arith, count-snoc fd j xs)

-- A descriptor is linked once in the read list if its read bit is set, once in the close list if
-- its close bit is set, and nowhere else.
pub record Linked (e : EpollInfo) : Type 0 where
  pub reading : (fd : ℕ) → count fd e.readlist ≡ (e.fds fd).flag % 2
  pub closing : (fd : ℕ) → count fd e.closelist ≡ (e.fds fd).flag / 2 % 2

pub do_add_to_readlist-Linked :
    (s : Server) (fd : ℕ) → Linked s.epinfo → Linked (do_add_to_readlist s fd).epinfo
unfolding do_add_to_readlist
do_add_to_readlist-Linked s fd l = record {
  reading = λ j. ground (arith, l.reading j, l.reading fd, count-snoc fd j s.epinfo.readlist);
  closing = λ j. ground (arith, l.closing j, l.closing fd);
}

pub do_del_from_readlist-Linked :
    (s : Server) (fd : ℕ) → Linked s.epinfo → Linked (do_del_from_readlist s fd).epinfo
unfolding do_del_from_readlist
do_del_from_readlist-Linked s fd l = record {
  reading = λ j. ground (arith, l.reading j, count-unlink fd j s.epinfo.readlist);
  closing = λ j. ground (arith, l.closing j, count-unlink fd j s.epinfo.closelist);
}

pub do_del_from_closelist-Linked :
    (s : Server) (fd : ℕ) → Linked s.epinfo → Linked (do_del_from_closelist s fd).epinfo
unfolding do_del_from_closelist
do_del_from_closelist-Linked s fd l = record {
  reading = λ j. ground (arith, l.reading j, count-unlink fd j s.epinfo.readlist);
  closing = λ j. ground (arith, l.closing j, count-unlink fd j s.epinfo.closelist);
}

pub do_add_to_closelist-Linked :
    (s : Server) (fd : ℕ) → Linked s.epinfo → Linked (do_add_to_closelist s fd).epinfo
unfolding do_add_to_closelist
do_add_to_closelist-Linked s fd l = record {
  reading = λ j. ground (arith, k.reading j, k.reading fd);
  closing = λ j. ground (arith, k.closing j, k.closing fd, count-snoc fd j t.epinfo.closelist);
}
  where
    t : Server
    t = do_del_from_readlist s fd

    k : Linked t.epinfo
    k = do_del_from_readlist-Linked s fd l

pub release_fd-Linked : (s : Server) (fd : ℕ) → Linked s.epinfo → Linked (release_fd s fd).epinfo
unfolding release_fd
release_fd-Linked s fd l = record {
  reading = λ j. ground (arith, k.reading j, k.reading fd);
  closing = λ j. ground (arith, k.closing j, k.closing fd);
}
  where
    k : Linked (do_del_from_closelist (do_del_from_readlist s fd) fd).epinfo
    k =
        do_del_from_closelist-Linked (do_del_from_readlist s fd) fd
          (do_del_from_readlist-Linked s fd l)

-- A flag of a descriptor outside both lists is clear of both bits, so registering it keeps them.
pub add_fdinfo_to_epinfo-Linked :
    (s : Server) (fd idx : ℕ) (type : FdType) (ip port : ℕ)
    → (fd_wrap s fd).flag ≡ 0
    → Linked s.epinfo
    → Linked (add_fdinfo_to_epinfo s fd idx type ip port).1.epinfo
unfolding add_fdinfo_to_epinfo
add_fdinfo_to_epinfo-Linked s fd idx type ip port h l = record {
  reading = λ j. ground (arith, l.reading j, l.reading fd);
  closing = λ j. ground (arith, l.closing j, l.closing fd);
}

-- One call on the lists.
pub data ListStep : Server → Server → Type 0 where
  add_read : (s : Server) (fd : ℕ) → ListStep s (do_add_to_readlist s fd)
  del_read : (s : Server) (fd : ℕ) → ListStep s (do_del_from_readlist s fd)
  add_close : (s : Server) (fd : ℕ) → ListStep s (do_add_to_closelist s fd)
  del_close : (s : Server) (fd : ℕ) → ListStep s (do_del_from_closelist s fd)
  release : (s : Server) (fd : ℕ) → ListStep s (release_fd s fd)
  register :
      (s : Server) (fd idx : ℕ) (type : FdType) (ip port : ℕ)
      → (fd_wrap s fd).flag ≡ 0
      → ListStep s (add_fdinfo_to_epinfo s fd idx type ip port).1

pub data ListRun (s : Server) : Server → Type 0 where
  here : ListRun s s
  next : {t u : Server} → ListRun s t → ListStep t u → ListRun s u

ListStep-Linked : {s t : Server} → ListStep s t → Linked s.epinfo → Linked t.epinfo
ListStep-Linked (add_read s fd) l = do_add_to_readlist-Linked s fd l
ListStep-Linked (del_read s fd) l = do_del_from_readlist-Linked s fd l
ListStep-Linked (add_close s fd) l = do_add_to_closelist-Linked s fd l
ListStep-Linked (del_close s fd) l = do_del_from_closelist-Linked s fd l
ListStep-Linked (release s fd) l = release_fd-Linked s fd l
ListStep-Linked (register s fd idx type ip port h) l =
    add_fdinfo_to_epinfo-Linked s fd idx type ip port h l

-- After any sequence of additions to and removals from the read and close lists, closes and
-- registrations of descriptors with a clear flag, every descriptor is linked once in the list that
-- its flag names and in no other place, if that was so at the start.
pub ListRun-Linked : {s t : Server} → ListRun s t → Linked s.epinfo → Linked t.epinfo
ListRun-Linked ListRun.here l = l
ListRun-Linked (ListRun.next r st) l = ListStep-Linked st (ListRun-Linked r l)
