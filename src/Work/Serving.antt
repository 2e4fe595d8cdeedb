-- ===== src/Work/Serving.antt =====
-- `handle_mq_recv` against the list of messages that wait in the worker's receive queue.
use sserver.Prelude.{
  ℕ, zero, suc, ◌<◌, ◌≡◌, refl, sym, ap, ◌∙◌, inl, inr, Bool, true, false, List, [], ◌∷◌, Option,
  none, some, arith, ◌==◌, Bool-cases, Option-cases, length, if◌then◌else◌, subst,
}
use sserver.MemQueue.{MemBlock, MemQueue, Got, blk_data, blk_open, blk_close, pop}
use sserver.MemQueue.Layout.{Message, Held}
use sserver.MemQueue.Fifo.{Holds, Gets, get_lem}
use sserver.Server.{FdSess, ServIf, Server, update, with_rq}
use sserver.Server.Updates.{rq-with_rq}
use sserver.NetUtil.{push_sq, push_ret}
use sserver.Fds.{get_fd, save_fd, remove_fd}
use sserver.Work.{do_blk_close, close_cli, handle_block, handle_mq_recv}
use sserver.Work.Serve.{serve_bytes, serve, handle_block-serve}

-- The library's callbacks leave the worker's receive queue and its table of sessions alone.
pub record Same (i : ℕ) (s t : Server) : Type 0 where
  pub rq : (t.works i).rq ≡ (s.works i).rq
  pub sessions : (fd : ℕ) → t.sessions fd ≡ s.sessions fd

pub record Quiet (so : ServIf) (i : ℕ) : Type 0 where
  pub cli_msg : (bs : List ℕ) (sess : FdSess) (s : Server) → Same i s (so.proc_cli_msg bs sess s).1
  pub cli_closed : (fd : ℕ) (s : Server) → Same i s (so.on_cli_closed fd s)

-- the descriptors that may be open behind a message, if these may be before it
abbrev pub opened : (ℕ → Bool) → Message → ℕ → Bool
opened o x =
    if x.type == blk_open
    then update o x.fd true
    else if x.type == blk_close
    then update o x.fd false
    else o

-- No opening message comes for a descriptor that may be open, and each has an address.
abbrev pub Orderly : (ℕ → Bool) → List Message → Type 0
Orderly o [] = Unit {0}
Orderly o (x ∷ xs) =
    (x.type ≡ blk_open → (length x.bytes ≡ 6) × (o x.fd ≡ false)) × Orderly (opened o x) xs

-- Only these descriptors may have a session.
abbrev pub Within : Server → (ℕ → Bool) → Type 0
Within s o = (fd : ℕ) → o fd ≡ false → s.sessions fd ≡ none

module _ (so : ServIf) where
  -- The messages served one after the other, each taken from the queue behind its service.
  pub data Serves (i : ℕ) : List Message → Server → Server → Type 0 where
    idle : {s : Server} {q : MemQueue} → Holds q [] → Serves i [] s (with_rq s i q)
    next :
        {s t : Server} {q q' : MemQueue} {x : Message} {xs : List Message}
        → Holds q (x ∷ xs)
        → Holds q' xs
        → Serves i xs (with_rq (serve so (with_rq s i q) x) i q') t
        → Serves i (x ∷ xs) s t

-- The queue is as it was, and no session has appeared.
record Keeps (i : ℕ) (s t : Server) : Type 0 where
  rq : (t.works i).rq ≡ (s.works i).rq
  fresh : (fd : ℕ) → s.sessions fd ≡ none → t.sessions fd ≡ none

Keeps-trans : (i : ℕ) (s t u : Server) → Keeps i s t → Keeps i t u → Keeps i s u
Keeps-trans i s t u a b = record { rq = b.rq ∙ a.rq; fresh = λ fd e. b.fresh fd (a.fresh fd e) }

Same-Keeps : (i : ℕ) (s t : Server) → Same i s t → Keeps i s t
Same-Keeps i s t a = record { rq = a.rq; fresh = λ fd e. a.sessions fd ∙ e }

push_sq-Keeps :
    (i : ℕ) (s : Server) (j : ℕ) (b : MemBlock) (bs : List ℕ) → Keeps i s (push_sq s j b bs).1
unfolding push_sq push_ret
push_sq-Keeps i s j b bs = record { rq = ground arith; fresh = λ fd e. e }

remove_fd-Keeps : (i : ℕ) (s : Server) (fd : ℕ) → Keeps i s (remove_fd s fd)
unfolding remove_fd
remove_fd-Keeps i s fd = record { rq = refl; fresh = λ j e. ground arith }

module _ (so : ServIf) (i : ℕ) (quiet : Quiet so i) where
  do_blk_close-Keeps : (s : Server) (fd : ℕ) → Keeps i s (do_blk_close so s fd).1
  unfolding do_blk_close get_fd
  do_blk_close-Keeps s fd = elim (Option-cases (s.sessions fd)) [
    | inl e ↦ rw (do_blk_close, e) (record { rq = refl; fresh = λ fd e. e })
    | inr (sess, e) ↦
        rw (do_blk_close, e)
          (Keeps-trans i s (so.on_cli_closed fd s) (remove_fd (so.on_cli_closed fd s) fd)
            (Same-Keeps i s (so.on_cli_closed fd s) (quiet.cli_closed fd s))
            (remove_fd-Keeps i (so.on_cli_closed fd s) fd))
  ]

  do_blk_close-none : (s : Server) (fd : ℕ) → (do_blk_close so s fd).1.sessions fd ≡ none
  unfolding do_blk_close get_fd remove_fd
  do_blk_close-none s fd = elim (Option-cases (s.sessions fd)) [
    | inl e ↦ rw (do_blk_close, e, e) refl
    | inr (sess, e) ↦ rw (do_blk_close, e) (ground arith)
  ]

  close_cli-Keeps : (s : Server) (fd : ℕ) → Keeps i s (close_cli so s fd)
  unfolding close_cli get_fd
  close_cli-Keeps s fd = elim (Option-cases (s.sessions fd)) [
    | inl e ↦ rw (close_cli, e) (record { rq = refl; fresh = λ fd e. e })
    | inr (sess, e) ↦
        rw (close_cli, e)
          (Keeps-trans i s _ _ (push_sq-Keeps i s sess.id _ [])
            (do_blk_close-Keeps (push_sq s sess.id _ []).1 fd))
  ]

  serve_bytes-Keeps :
      (s : Server) (fd : ℕ) (bs : List ℕ) (o : Option FdSess) → Keeps i s (serve_bytes so s fd bs o)
  serve_bytes-Keeps s fd bs none = record { rq = refl; fresh = λ fd e. e }
  serve_bytes-Keeps s fd bs (some sess) = elim (Bool-cases (so.proc_cli_msg bs sess s).0) [
    | inl e ↦ rw (e) (
        Keeps-trans i s (so.proc_cli_msg bs sess s).1 _ (Same-Keeps i s _ (quiet.cli_msg bs sess s))
          (close_cli-Keeps (so.proc_cli_msg bs sess s).1 fd))
    | inr e ↦ rw (e) (Same-Keeps i s _ (quiet.cli_msg bs sess s))
  ]

  -- A message that may be opened or need not be is served as the queue is left alone.
  serve-rq : (s : Server) (x : Message) → ((serve so s x).works i).rq ≡ (s.works i).rq
  unfolding save_fd
  serve-rq s x = elim (Bool-cases (x.type == blk_data)) [
    | inl e ↦ rw (e) (serve_bytes-Keeps s x.fd x.bytes (s.sessions x.fd)).rq
    | inr e ↦ rw (e) (elim (Bool-cases (x.type == blk_open)) [
      | inl e ↦ rw (e) refl
      | inr e ↦ rw (e) (elim (Bool-cases (x.type == blk_close)) [
        | inl e ↦ rw (e) (do_blk_close-Keeps s x.fd).rq
        | inr e ↦ rw (e) refl
      ])
    ])
  ]

  serve-Within :
      (s : Server) (x : Message) (o : ℕ → Bool) → Within s o → Within (serve so s x) (opened o x)
  unfolding save_fd
  serve-Within s x o w fd = elim (Bool-cases (x.type == blk_data)) [
    | inl e ↦
        rw (e, other blk_open (ground arith) e, other blk_close (ground arith) e)
          (λ f. (serve_bytes-Keeps s x.fd x.bytes (s.sessions x.fd)).fresh fd (w fd f))
    | inr e ↦ rw (e) (elim (Bool-cases (x.type == blk_open)) [
      | inl e ↦ rw (e) (elim (Bool-cases (fd == x.fd)) [
        | inl here ↦ rw (here) (λ f. absurd (ground (arith, f)))
        | inr there ↦ rw (there) (λ f. w fd f)
      ])
      | inr e ↦ rw (e) (elim (Bool-cases (x.type == blk_close)) [
        | inl e ↦ rw (e) (elim (Bool-cases (fd == x.fd)) [
          | inl here ↦ λ f.
              subst (λ j. (do_blk_close so s x.fd).1.sessions j ≡ none) (sym (ground (arith, here)))
                (do_blk_close-none s x.fd)
          | inr there ↦ rw (there) (λ f. (do_blk_close-Keeps s x.fd).fresh fd (w fd f))
        ])
        | inr e ↦ rw (e) (w fd)
      ])
    ])
  ]
    where
      other : (k : ℕ) → blk_data < k → (x.type == blk_data) ≡ true → (x.type == k) ≡ false
      other k l e = ground arith

  -- What `handle_mq_recv` gives: the messages have been served, and the queue is empty.
  pub data ServePost (xs : List Message) (s : Server) : Option Server → Type 0 where
    ends : {t : Server} → Serves so i xs s t → Holds (t.works i).rq [] → ServePost xs s (some t)

  Holds-with_rq :
      (s : Server) (q : MemQueue) (xs : List Message)
      → Holds q xs
      → Holds ((with_rq s i q).works i).rq xs
  Holds-with_rq s q xs h = subst (λ q. Holds q xs) (ground arith) h

  ServePost-next :
      (s : Server) (q : MemQueue) (x : Message) (xs : List Message) {r : Option Server}
      → Holds q (x ∷ xs)
      → Holds (pop q) xs
      → ServePost xs (with_rq (serve so (with_rq s i q) x) i (pop q)) r
      → ServePost (x ∷ xs) s r
  ServePost-next s q x xs h k (ServePost.ends v e) = ServePost.ends (Serves.next h k v) e

  -- the state behind a round for a message
  after_round :
      (s : Server) (q : MemQueue) (x : Message)
      → Held q.mem q.tail x
      → (x.type ≡ blk_open → (length x.bytes ≡ 6) × (s.sessions x.fd ≡ none))
      → (let t = handle_block so (with_rq s i q) i q.tail in with_rq t i (pop (t.works i).rq))
        ≡ with_rq (serve so (with_rq s i q) x) i (pop q)
  after_round s q x h fresh =
      ap (λ (t : Server). with_rq t i (pop (t.works i).rq))
        (handle_block-serve so (with_rq s i q) i q.tail x
          (subst (λ (q : MemQueue). Held q.mem p x) (sym (rq-with_rq s i q)) h) fresh)
      ∙ ap (λ q. with_rq (serve so (with_rq s i q') x) i (pop q))
          (serve-rq (with_rq s i q) x ∙ rq-with_rq s i q)
    where
      p : ℕ
      p = q.tail

      q' : MemQueue
      q' = q

  recv_round :
      (fuel : ℕ) (s : Server) (o : ℕ → Bool) (xs : List Message) (r : Got)
      → Gets xs r
      → Within s o
      → Orderly o xs
      → length xs < suc fuel
      → ((ys : List Message) (t : Server) (o : ℕ → Bool)
          → Holds (t.works i).rq ys
          → Within t o
          → Orderly o ys
          → length ys < fuel
          → ServePost ys t (handle_mq_recv so fuel t i))
      → ServePost xs s (elim r [
        | Got.spin ↦ none
        | Got.null q ↦ some (with_rq s i q)
        | Got.found p q ↦
            let t = handle_block so (with_rq s i q) i p in
            handle_mq_recv so fuel (with_rq t i (pop (t.works i).rq)) i
      ])
  recv_round fuel s o [] _ (Gets.null {q} k) w d l later =
      ServePost.ends (Serves.idle k) (Holds-with_rq s q [] k)
  recv_round fuel s o (x ∷ xs) _ (Gets.found {q} held k rest) w d l later =
      subst (λ z. ServePost (x ∷ xs) s (handle_mq_recv so fuel z i))
        (sym (after_round s q x held (λ e. ((d.0 e).0, w x.fd (d.0 e).1))))
        (ServePost-next s q x xs k rest (
          later xs _ (opened o x) (Holds-with_rq (serve so (with_rq s i q) x) (pop q) xs rest)
            (serve-Within (with_rq s i q) x o w) d.1 (omega arith)))

  -- `handle_mq_recv` on a queue that holds messages, which open no descriptor that may be open: it
  -- returns, has served exactly these messages in the order of the queue, each once, and the queue
  -- is empty, if the library leaves the queue and the table of sessions alone.
  pub handle_mq_recv_lem :
      (fuel : ℕ) (xs : List Message) (s : Server) (o : ℕ → Bool)
      → Holds (s.works i).rq xs
      → Within s o
      → Orderly o xs
      → length xs < fuel
      → ServePost xs s (handle_mq_recv so fuel s i)
  unfolding handle_mq_recv
  handle_mq_recv_lem zero xs s o h w d enough = absurd (omega arith)
  handle_mq_recv_lem (suc fuel) xs s o h w d enough =
      recv_round fuel s o xs _ (get_lem (s.works i).rq xs h) w d enough
        (λ ys t o. handle_mq_recv_lem fuel ys t o)
