-- ===== src/Epoll/Close.antt =====
-- What a close leaves of a descriptor, and what it makes of `maxfd`.
use sserver.Prelude.{
  ℕ, zero, suc, ◌≤◌, ◌<◌, ◌≡◌, ◌≢◌, sym, subst, ◌∙◌, ◌⊎◌, inl, inr, true, false, none, arith,
  if◌then◌else◌, Bool-cases, ℤ, pos, negsuc,
}
use sserver.Server.{null, FdWrap, Server, fd_wrap, buff_of}
use sserver.Epoll.{empty_buff, is_null, is_maxfd, null_below, release_fd}
use sserver.Epoll.Linked.{count, Linked, release_fd-Linked}

-- After the close of a descriptor its type is empty, its buffers are gone, epoll does not watch it,
-- it is in neither list, and every other descriptor's entry is as it was.
pub release_fd_lem :
    (s : Server) (fd : ℕ)
    → Linked s.epinfo
    → let t = release_fd s fd in
      ((fd_wrap t fd).type ≡ null)
      × (buff_of t fd ≡ empty_buff)
      × (t.kernel.interest fd ≡ none)
      × (count fd t.epinfo.readlist ≡ 0)
      × (count fd t.epinfo.closelist ≡ 0)
      × ((j : ℕ) → j ≢ fd → fd_wrap t j ≡ fd_wrap s j)
unfolding release_fd
release_fd_lem s fd l = (
  ground arith,
  ground arith,
  ground arith,
  ground (arith, k.reading fd),
  ground (arith, k.closing fd),
  λ j h. ground arith,
)
  where
    k : Linked (release_fd s fd).epinfo
    k = release_fd-Linked s fd l

-- What the loop that replaces `maxfd` finds below `n`.
abbrev pub NullBelow : (ℕ → FdWrap) → ℕ → ℤ → Type 0
NullBelow f n (pos i) =
    (i < n) × (is_null (f i).type ≡ true) × ((j : ℕ) → i < j → j < n → is_null (f j).type ≡ false)
NullBelow f n (negsuc k) = (j : ℕ) → j < n → is_null (f j).type ≡ false

null_below_lem : (f : ℕ → FdWrap) (n : ℕ) → NullBelow f n (null_below f n)
unfolding null_below
null_below_lem f zero = λ j h. absurd (omega arith)
null_below_lem f (suc i) = elim (Bool-cases (is_null (f i).type)) [
  | inl empty ↦ rw (empty) (omega arith, empty, λ j l u. absurd (omega arith))
  | inr live ↦ rw (live) (go (null_below f i) (null_below_lem f i) live)
]
  where
    last : (j : ℕ) → j < suc i → (j < i) ⊎ (j ≡ i)
    last j h = omega arith

    go : (r : ℤ) → NullBelow f i r → is_null (f i).type ≡ false → NullBelow f (suc i) r
    go (pos k) h live = (
      omega arith,
      h.1,
      λ j l u. elim (last j u) [ inl below ↦ h.2 j l below | inr e ↦ rw (e) live ],
    )
    go (negsuc k) h live = λ j u. elim (last j u) [ inl below ↦ h j below | inr e ↦ rw (e) live ]

-- Whether `maxfd` is at least a descriptor.
abbrev pub Covers : ℤ → ℕ → Type 0
Covers (pos m) fd = fd ≤ m
Covers (negsuc k) fd = ⊥

not-Covers :
    (f : ℕ → FdWrap) (n : ℕ) (r : ℤ)
    → NullBelow f (suc n) r
    → is_null (f n).type ≡ false
    → ¬ Covers r n
not-Covers f n (pos i) h live c = let e : i ≡ n = omega arith in cc (e, h.1, live)
not-Covers f n (negsuc k) h live c = c

kept : (s : Server) (fd j : ℕ) → j ≢ fd → fd_wrap (release_fd s fd) j ≡ fd_wrap s j
unfolding release_fd
kept s fd j h = ground arith

maxfd-release_fd :
    (s : Server) (fd : ℕ)
    → (release_fd s fd).epinfo.maxfd ≡ (
        if is_maxfd s.epinfo.maxfd fd
        then null_below (release_fd s fd).epinfo.fds fd
        else s.epinfo.maxfd)
unfolding release_fd
maxfd-release_fd s fd = ground arith

-- When the highest descriptor is closed while the one below it is in use, `maxfd` falls below the
-- one in use: the loop looks for the first entry that is empty, not for the first in use.
pub release_fd-maxfd :
    (s : Server) (fd : ℕ)
    → s.epinfo.maxfd ≡ pos (suc fd)
    → is_null (fd_wrap s fd).type ≡ false
    → ¬ Covers (release_fd s (suc fd)).epinfo.maxfd fd
release_fd-maxfd s fd h live =
    subst (λ r. ¬ Covers r fd) (sym (maxfd-release_fd s (suc fd) ∙ new))
      (not-Covers after fd (null_below after (suc fd)) (null_below_lem after (suc fd))
        (rw (kept s (suc fd) fd (omega arith)) live))
  where
    after : ℕ → FdWrap
    after = (release_fd s (suc fd)).epinfo.fds

    new :
        (if is_maxfd s.epinfo.maxfd (suc fd) then null_below after (suc fd) else s.epinfo.maxfd)
        ≡ null_below after (suc fd)
    new = ground arith
