-- ===== src/Dispatch/Closing.antt =====
-- What `handle_closelist` leaves in the master.
use sserver.Prelude.{
  ℕ, ◌<◌, ◌≡◌, ◌≢◌, refl, sym, ap, subst, ◌∙◌, inl, inr, false, List, [], ◌∷◌, ◌++◌, take, ap₂,
  Option, some, none, arith, ◌==◌, Bool-cases, ◌>>=◌,
}
use sserver.Server.{null, FdWrap, ServIf, Server, fd_wrap, buff_of}
use sserver.Epoll.{is_null}
use sserver.Epoll.Linked.{count, Linked}
use sserver.NetUtil.{do_fd_close}
use sserver.NetSend.Carried.{Buffered, do_fd_close-Carries}
use sserver.Dispatch.{close_each, handle_closelist}
use sserver.Dispatch.Flush.{waits, Went, Keeps, Keeps-Linked, Flushed, flush-Flushed}
use sserver.Dispatch.Releasing.{Released, do_fd_close-Released}

-- What `handle_closelist` leaves: the close list is empty, the descriptors that were in it are
-- closed, and the others are as they were; the lists and the buffers stay sound.
pub record Closed (fds : List ℕ) (s t : Server) : Type 0 where
  pub linked : Linked t.epinfo
  pub buffered : (j : ℕ) → Buffered (buff_of t j)
  pub closelist : t.epinfo.closelist ≡ []
  pub gone :
      (j : ℕ)
      → 0 < count j fds
      → ((fd_wrap t j).type ≡ null) × (t.kernel.interest j ≡ none) × Went j s t
  pub kept :
      (j : ℕ)
      → count j fds ≡ 0
      → (fd_wrap t j ≡ fd_wrap s j)
        × (t.kernel.interest j ≡ s.kernel.interest j)
        × (t.kernel.wire j ≡ s.kernel.wire j)

pub data Closes (fds : List ℕ) (s : Server) : Option Server → Type 0 where
  ends : {t : Server} → Closed fds s t → Closes fds s (some t)

-- A descriptor that is at the head of the close list is not in the rest of it.
absent-head :
    (s : Server) (fd : ℕ) (fds : List ℕ)
    → Linked s.epinfo
    → s.epinfo.closelist ≡ fd ∷ fds
    → count fd fds ≡ 0
absent-head s fd fds l e = ground (arith, sym (l.closing fd) ∙ ap (count fd) e)

-- A descriptor and then the rest of the list.
Closed-cons :
    (fd : ℕ) (fds : List ℕ) (s w u t : Server)
    → count fd fds ≡ 0
    → Keeps fd s w
    → Went fd s w
    → Released fd fds w u
    → Closed fds u t
    → Closed (fd ∷ fds) s t
Closed-cons fd fds s w u t absent k g r c = record {
  linked = c.linked;
  buffered = c.buffered;
  closelist = c.closelist;
  gone = λ j h. elim (Bool-cases (fd == j)) [
    | inl e ↦ subst Gone (ground (arith, e)) first
    | inr e ↦
        let (type, interest, sent) = c.gone j (ground (arith, h, e)) in
        let n : j ≢ fd = λ q. ground (arith, q, e) in (type, interest, later j n sent)
  ];
  kept = λ j h.
      let (wrap, interest, wire) = c.kept j (ground (arith, h)) in
      let n : j ≢ fd = λ e. ground (arith, h, e) in
      (
        wrap ∙ r.others j n ∙ k.others j n,
        interest ∙ r.others_interest j n ∙ k.interest j,
        wire ∙ r.wire j ∙ k.wires j n,
      );
}
  where
    Gone : ℕ → Type 0
    Gone j = ((fd_wrap t j).type ≡ null) × (t.kernel.interest j ≡ none) × Went j s t

    first : Gone fd
    first =
        let (wrap, interest, wire) = c.kept fd absent in
        (
          ap (λ (x : FdWrap). x.type) wrap ∙ r.type,
          interest ∙ r.interest,
          record { number = g.number; wire = wire ∙ r.wire fd ∙ g.wire },
        )

    later : (j : ℕ) → j ≢ fd → Went j u t → Went j s t
    later j n sent = record {
      number = sent.number;
      wire =
          sent.wire
          ∙ ap₂ ◌++◌ (r.wire j ∙ k.wires j n)
              (ap (λ (x : FdWrap). take sent.number (waits x.buff)) (r.others j n ∙ k.others j n));
    }

Closes-cons :
    (fd : ℕ) (fds : List ℕ) (s w u : Server) (o : Option Server)
    → count fd fds ≡ 0
    → Keeps fd s w
    → Went fd s w
    → Released fd fds w u
    → Closes fds u o
    → Closes (fd ∷ fds) s o
Closes-cons fd fds s w u _ absent k g r (Closes.ends {t} c) =
    Closes.ends (Closed-cons fd fds s w u t absent k g r c)

close_each-Closes :
    (so : ServIf) (fds : List ℕ) (s : Server)
    → Linked s.epinfo
    → ((j : ℕ) → Buffered (buff_of s j))
    → s.epinfo.closelist ≡ fds
    → ((j : ℕ) → 0 < count j fds → is_null (fd_wrap s j).type ≡ false)
    → Closes fds s (close_each so 1 fds s)
unfolding close_each
close_each-Closes so [] s l b e live = Closes.ends (record {
  linked = l;
  buffered = b;
  closelist = e;
  gone = λ j h. absurd (omega (arith, h));
  kept = λ j h. (refl, refl, refl);
})
close_each-Closes so (fd ∷ fds) s l b e live =
    after _ (flush-Flushed fd s (b fd))
      (λ t l' b' e' live'. close_each-Closes so fds t l' b' e' live')
  where
    absent : count fd fds ≡ 0
    absent = absent-head s fd fds l e

    r : (w : Server) → Keeps fd s w → Released fd fds w (do_fd_close so w fd 1)
    r w k =
        do_fd_close-Released so w fd fds (Keeps-Linked fd s w k l) (k.closelist ∙ e)
          (ap is_null (k.type fd) ∙ live fd (ground arith))

    after :
        (o : Option Server)
        → Flushed fd s o
        → ((t : Server)
            → Linked t.epinfo
            → ((j : ℕ) → Buffered (buff_of t j))
            → t.epinfo.closelist ≡ fds
            → ((j : ℕ) → 0 < count j fds → is_null (fd_wrap t j).type ≡ false)
            → Closes fds t (close_each so 1 fds t))
        → Closes (fd ∷ fds) s (o >>= λ t. close_each so 1 fds (do_fd_close so t fd 1))
    after _ (Flushed.ends {t = w} k g) next = Closes-cons fd fds s w _ _ absent k g (r w k) (
        next _ (r w k).linked
          ((do_fd_close-Carries so w fd 1 (omega arith)).buffered (k.buffered b)) (r w k).closelist
          (λ j h.
            ap (λ (x : FdWrap). is_null x.type)
              ((r w k).others j (λ e. ground (arith, h, absent, e)))
            ∙ ap is_null (k.type j)
            ∙ live j (ground (arith, h))))

-- `handle_closelist` in the master returns: of every descriptor that was in the close list some first
-- ones of the bytes that waited went out, its type is empty and epoll does not watch it; the close
-- list is empty; every other descriptor's entry, its wire and what epoll watches of it are as they
-- were; and the lists still agree with the flags, and bytes that wait stand in buffers; if they did,
-- and if no descriptor in the close list has an empty type.
pub handle_closelist_lem :
    (so : ServIf) (s : Server)
    → Linked s.epinfo
    → ((j : ℕ) → Buffered (buff_of s j))
    → ((j : ℕ) → 0 < count j s.epinfo.closelist → is_null (fd_wrap s j).type ≡ false)
    → Closes s.epinfo.closelist s (handle_closelist so 1 s)
unfolding handle_closelist
handle_closelist_lem so s l b live = close_each-Closes so s.epinfo.closelist s l b refl live
