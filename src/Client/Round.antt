-- ===== src/Client/Round.antt =====
-- A round of the client behind the round whose packets it gets back.
use sserver.Prelude.{
  ℕ, zero, suc, ◌+◌, ◌-◌, ◌≤◌, ◌<◌, ◌^◌, if◌then◌else◌, ◌≡◌, sym, ap, subst, ◌∙◌, ◌⊎◌, inl, inr,
  List, [], ◌∷◌, ◌++◌, append-nil, some, arith, length, length-append, ◌>>=◌, some_inj, ℤ, pos,
  pos_part, none, leb, false,
}
use sserver.Mem.{slice}
use sserver.Mem.Frame.{length-slice}
use sserver.Socket.{Recv, Received, minus_one, safe_tcp_recv_n}
use sserver.Socket.Stream.{RecvPost, stream, safe_tcp_recv_n_lem}
use sserver.NetUtil.{blank}
use sserver.Master.Stream.{joined}
use sserver.Sample.Echo.{AllWhole}
use sserver.Client.{
  Times, Cli, Read, on, quit, Turn, pkg_bytes, cli_turn, is_empty, send_pkgs, read_pkgs, cli_read,
  cli_event, cli_events,
}
use sserver.Client.Echoes.{
  Within, TakesWhole, pkgs, SentPkgs, send_pkgs-SentPkgs, read_pkgs-pkgs, pkgs-AllWhole,
}

-- two lists of one length of which one begins the other
prefix-same : (u w v : List ℕ) → length u ≡ length w → w ≡ u ++ v → u ≡ w
prefix-same u w [] l e = sym (append-nil u) ∙ sym e
prefix-same u w (b ∷ v) l e = absurd (omega (arith, l, ap length e, length-append u (b ∷ v)))

pos-apart : (n : ℕ) (z : ℤ) → z ≡ pos (suc n) → (z ≡ pos 0) ⊎ (z ≡ minus_one) → ⊥
pos-apart n z e (inl o) = omega (arith, ap pos_part (sym e ∙ o))
pos-apart n z e (inr o) = omega (arith, ap pos_part (sym e ∙ o))

-- A receive that returns as many bytes as the whole stream has leaves the stream.
post-whole :
    (w : List ℕ) (n total : ℕ) (r : Received)
    → length w ≡ suc n
    → r.ret ≡ pos (suc n)
    → RecvPost w blank 0 total 0 r
    → slice r.mem 0 (suc n) ≡ w
post-whole w n total r l e (inr o) = absurd (pos-apart n r.ret e o)
post-whole w n total r l e (inl (k, f, g)) =
    prefix-same (slice r.mem 0 (suc n)) w (stream r.rest) (length-slice r.mem 0 (suc n) ∙ sym l) (
      g.next
      ∙ ap (λ j. slice r.mem 0 j ++ stream r.rest) {x = k - 0} {y = suc n} (omega (arith, same)))
  where
    same : k ≡ suc n
    same = ap pos_part (sym f ∙ e)

recv-whole :
    (s : List Recv) (w : List ℕ) (n : ℕ) (r : Received)
    → stream s ≡ w
    → length w ≡ suc n
    → safe_tcp_recv_n s blank 0 102400 ≡ some r
    → r.ret ≡ pos (suc n)
    → slice r.mem 0 (suc n) ≡ w
recv-whole s w n r h l e f =
    let (q, g, post) = safe_tcp_recv_n_lem s blank 0 102400 (omega arith) in
    post-whole w n 102400 r l f (
      subst (λ x. RecvPost w blank 0 102400 0 x) (some_inj (sym g ∙ e))
        (subst (λ x. RecvPost x blank 0 102400 0 q) h post))

-- An event that receives the whole stream.
cli_event-whole :
    (behind : List ℕ) (fuel : ℕ) (s : List Recv) (w : List ℕ) (n : ℕ) (r : Received) (ts us : Times)
    → stream s ≡ w
    → length w ≡ suc n
    → safe_tcp_recv_n s blank 0 102400 ≡ some r
    → r.ret ≡ pos (suc n)
    → read_pkgs behind fuel w ts ≡ some us
    → cli_event behind fuel s ts ≡ some (Read.on us)
unfolding cli_event cli_read
cli_event-whole behind fuel s w n r ts us h l e f g =
    ap (λ o. o >>= (λ x. cli_read behind fuel ts x.mem x.ret)) e
    ∙ ap (cli_read behind fuel ts r.mem) f
    ∙ ap (λ x. read_pkgs behind fuel x ts >>= (λ t. some (Read.on t))) (recv-whole s w n r h l e f)
    ∙ ap (λ o. o >>= (λ t. some (Read.on t))) g

-- A round whose events leave no time sends.
cli_turn-sends :
    (m : ℕ) (clock taken : ℕ → ℕ) (input behind : List ℕ) (fuel : ℕ) (events : List (List Recv))
    (c : Cli)
    → length input < 200
    → cli_events behind fuel events c.times ≡ some (Read.on [])
    → cli_turn m clock taken input behind fuel events c
      ≡ some (Turn.turn (send_pkgs clock taken input m 0 (record c { times = [] })))
unfolding cli_turn is_empty
cli_turn-sends m clock taken input behind fuel events c l e =
    ap
      (λ o. o >>= (λ r. elim r [
        | quit ↦ some Turn.ended
        | on t ↦
            let d : Cli = record c { times = t } in
            if is_empty t
            then if leb 200 (length input)
              then none
              else some (Turn.turn (send_pkgs clock taken input m 0 d))
            else some (Turn.turn d)
      ]))
      e
    ∙ ap
        (λ b.
          if b
          then none
          else some (Turn.turn (send_pkgs clock taken input m 0 (record c { times = [] }))))
        {x = leb 200 (length input)} {y = false} (ground (arith, l))

cli_events-one :
    (behind : List ℕ) (fuel : ℕ) (s : List Recv) (ts us : Times)
    → cli_event behind fuel s ts ≡ some (Read.on us)
    → cli_events behind fuel (s ∷ []) ts ≡ some (Read.on us)
unfolding cli_events
cli_events-one behind fuel s ts us e =
    ap (λ o. o >>= (λ r. elim r [ on t ↦ cli_events behind fuel [] t | quit ↦ some Read.quit ])) e

-- What the client sent in a round.
record Sends (clock taken : ℕ → ℕ) (input behind : List ℕ) (fuel m : ℕ) (c : Cli) : Type 0 where
  turn :
      cli_turn m clock taken input behind fuel [] c
      ≡ some (Turn.turn (send_pkgs clock taken input m 0 c))
  sent : (send_pkgs clock taken input m 0 c).sent ≡ c.sent ++ pkgs input m 0 c.seq
  back :
      (k : ℕ)
      → m ≤ k
      → read_pkgs behind k (joined (pkgs input m 0 c.seq)) (send_pkgs clock taken input m 0 c).times
        ≡ some []

length-pkgs : (input : List ℕ) (m i seq : ℕ) → 0 < m → 0 < length (joined (pkgs input m i seq))
unfolding pkg_bytes
length-pkgs input zero i seq l = absurd (omega arith)
length-pkgs input (suc m) i seq l = omega arith

client-Sends :
    (clock taken : ℕ → ℕ) (input behind : List ℕ) (fuel m : ℕ) (c : Cli)
    → length input < 200
    → c.seq + m < 2 ^ 31
    → c.times ≡ []
    → TakesWhole taken input m
    → Sends clock taken input behind fuel m c
unfolding cli_events
client-Sends clock taken input behind fuel m c a b empty t = record {
  turn =
      cli_turn-sends m clock taken input behind fuel [] c a (ap (λ t. some (Read.on t)) empty)
      ∙ ap (λ t. some (Turn.turn (send_pkgs clock taken input m 0 (record c { times = t }))))
          (sym empty);
  sent = sent.sent;
  back = λ k l. read_pkgs-pkgs behind input m 0 c.seq k _ (omega (arith, a)) b l sent.times;
}
  where
    sent : SentPkgs c.seq input m 0 c (send_pkgs clock taken input m 0 c)
    sent =
        send_pkgs-SentPkgs clock taken input m m 0 c.seq c t (omega arith) (omega arith)
          (subst (Within c.seq c.seq) (sym empty) tt)

-- A client of `epoll_cli` that waits for nothing, and each of whose sends of the round takes its
-- packet whole, adds to what it sent, whatever their number `m`, packets that are whole for the
-- sample library; and when an event of the next round receives exactly these packets' bytes, in
-- however many pieces, it finds all of them, has no time left that waits, and sends the packets of
-- the next text, of which the sends may take anything; for texts that fit in their array, a sequence
-- number that fits, and as many steps for the bytes as there are packets.
pub cli_turn-echo :
    (m : ℕ) (clock clock' taken taken' : ℕ → ℕ) (input input' behind : List ℕ) (fuel : ℕ) (c : Cli)
    (s : List Recv) (r : Received)
    → length input < 200
    → length input' < 200
    → c.seq + m < 2 ^ 31
    → c.times ≡ []
    → TakesWhole taken input m
    → 0 < m
    → m ≤ fuel
    → stream s ≡ joined (pkgs input m 0 c.seq)
    → safe_tcp_recv_n s blank 0 102400 ≡ some r
    → r.ret ≡ pos (length (joined (pkgs input m 0 c.seq)))
    → let d = send_pkgs clock taken input m 0 c in
      (cli_turn m clock taken input behind fuel [] c ≡ some (Turn.turn d))
      × (d.sent ≡ c.sent ++ pkgs input m 0 c.seq)
      × AllWhole (pkgs input m 0 c.seq)
      × (cli_turn m clock' taken' input' behind fuel (s ∷ []) d
          ≡ some (Turn.turn (send_pkgs clock' taken' input' m 0 (record d { times = [] }))))
cli_turn-echo m clock clock' taken taken' input input' behind fuel c s r a a' b empty t l f e g k =
    (
      h.turn,
      h.sent,
      pkgs-AllWhole input m 0 c.seq (omega (arith, a)),
      cli_turn-sends m clock' taken' input' behind fuel (s ∷ []) d a' (
          cli_events-one behind fuel s d.times [] (
            cli_event-whole behind fuel s (joined (pkgs input m 0 c.seq)) n r d.times [] e size g
              (k ∙ ap pos size) (h.back fuel f))),
    )
  where
    h : Sends clock taken input behind fuel m c
    h = client-Sends clock taken input behind fuel m c a b empty t

    d : Cli
    d = send_pkgs clock taken input m 0 c

    n : ℕ
    n = length (joined (pkgs input m 0 c.seq)) - 1

    size : length (joined (pkgs input m 0 c.seq)) ≡ suc n
    size = omega (arith, length-pkgs input m 0 c.seq l)
