-- ===== src/Dispatch/Releasing.antt =====
-- The close of the first descriptor of the close list.
use sserver.Prelude.{ℕ, ◌/◌, ◌%◌, ◌≡◌, ◌≢◌, refl, sym, ap, ◌∙◌, false, List, [], ◌∷◌, none, arith}
use sserver.Server.{null, ServIf, Server, fd_wrap}
use sserver.Epoll.{unlink, is_null, release_fd}
use sserver.Epoll.Linked.{count, Linked, release_fd-Linked}
use sserver.Epoll.Close.{release_fd_lem}
use sserver.NetUtil.{push_rq, close_block, do_fd_close}

unlink-absent : (fd : ℕ) (xs : List ℕ) → count fd xs ≡ 0 → unlink fd xs ≡ xs
unfolding unlink
unlink-absent fd [] h = refl
unlink-absent fd (x ∷ xs) h = ground (arith, h, unlink-absent fd xs (ground (arith, h)))

unlink-head : (fd : ℕ) (xs : List ℕ) → unlink fd (fd ∷ xs) ≡ unlink fd xs
unfolding unlink
unlink-head fd xs = ground arith

-- What closing the first descriptor of the list leaves.
pub record Released (fd : ℕ) (fds : List ℕ) (s t : Server) : Type 0 where
  pub linked : Linked t.epinfo
  pub closelist : t.epinfo.closelist ≡ fds
  pub type : (fd_wrap t fd).type ≡ null
  pub interest : t.kernel.interest fd ≡ none
  pub others : (j : ℕ) → j ≢ fd → fd_wrap t j ≡ fd_wrap s j
  pub wire : (j : ℕ) → t.kernel.wire j ≡ s.kernel.wire j
  pub others_interest : (j : ℕ) → j ≢ fd → t.kernel.interest j ≡ s.kernel.interest j

closelist-release_fd :
    (s : Server) (fd : ℕ)
    → (fd_wrap s fd).flag / 2 % 2 ≡ 1
    → (release_fd s fd).epinfo.closelist ≡ unlink fd s.epinfo.closelist
unfolding release_fd
closelist-release_fd s fd h = ground arith

interest-release_fd :
    (s : Server) (fd j : ℕ) → j ≢ fd → (release_fd s fd).kernel.interest j ≡ s.kernel.interest j
unfolding release_fd
interest-release_fd s fd j h = ground arith

wire-release_fd : (s : Server) (fd j : ℕ) → (release_fd s fd).kernel.wire j ≡ s.kernel.wire j
unfolding release_fd
wire-release_fd s fd j = ground arith

release_fd-Released :
    (s : Server) (fd : ℕ) (fds : List ℕ)
    → Linked s.epinfo
    → s.epinfo.closelist ≡ fd ∷ fds
    → Released fd fds s (release_fd s fd)
release_fd-Released s fd fds l e =
    let (type, buff, interest, reading, closing, others) = release_fd_lem s fd l in
    record {
      linked = release_fd-Linked s fd l;
      closelist =
          closelist-release_fd s fd flag
          ∙ ap (unlink fd) e
          ∙ unlink-head fd fds
          ∙ unlink-absent fd fds absent;
      type = type;
      interest = interest;
      others = others;
      wire = wire-release_fd s fd;
      others_interest = interest-release_fd s fd;
    }
  where
    twice : (fd_wrap s fd).flag / 2 % 2 ≡ count fd (fd ∷ fds)
    twice = sym (l.closing fd) ∙ ap (count fd) e

    flag : (fd_wrap s fd).flag / 2 % 2 ≡ 1
    flag = ground (arith, twice)

    absent : count fd fds ≡ 0
    absent = ground (arith, twice)

pub do_fd_close-Released :
    (so : ServIf) (s : Server) (fd : ℕ) (fds : List ℕ)
    → Linked s.epinfo
    → s.epinfo.closelist ≡ fd ∷ fds
    → is_null (fd_wrap s fd).type ≡ false
    → Released fd fds s (do_fd_close so s fd 1)
unfolding do_fd_close push_rq
do_fd_close-Released so s fd fds l e live =
    rw (do_fd_close, live)
      (record {
        linked = r.linked;
        closelist = r.closelist;
        type = r.type;
        interest = r.interest;
        others = r.others;
        wire = r.wire;
        others_interest = r.others_interest;
      })
  where
    told : Server
    told = (push_rq s (fd_wrap s fd).idx (close_block s fd) []).1

    r : Released fd fds told (release_fd told fd)
    r = release_fd-Released told fd fds l e
