-- ===== src/ReloadCli/Order.antt =====
-- The order of the client against the workers that receive it.
use sserver.Prelude.{
  ℕ, zero, suc, ◌+◌, ◌-◌, ◌^◌, ◌≤◌, ◌<◌, ◌≡◌, sym, ap, ◌∙◌, inl, List, [], ◌∷◌, ◌++◌, some, arith,
  length, length-append, take_all, ◌==◌, ◌&&◌, ◌||◌, if◌then◌else◌, ◌>>=◌, ℤ, pos,
}
use sserver.Mem.{Mem, blit, slice}
use sserver.Mem.Frame.{slice-blit-Apart, slice-blit_self, slice_ext, length-slice}
use sserver.Text.{Text, text_eq}
use sserver.Mcast.{
  Group, Around, le16, get16, c_string, mcast_msg_len, mcast_serv_noti, mcast_reload_so, reload,
  do_mcast_serv_noti, do_mcast_realod_so, do_mcast_other_req, proc_packet, do_proc_mcast,
}
use sserver.Mcast.Notice.{At, slice-At, NoZero, c_string-At}
use sserver.ReloadCli.{reload_len, write_order, order}

-- What was copied from elsewhere reads as it did there.
blit-slice : (m w : Mem) (p n a : ℕ) → p ≤ a → a < p + n → blit m p (slice w p n) a ≡ w a
unfolding blit slice
blit-slice m w p zero a l u = absurd (omega arith)
blit-slice m w p (suc n) a l u = ground (arith, blit-slice m w (p + 1) n a)

-- the receiver's buffer behind the order
abbrev pub received : Mem → Mem → ℕ → Text → Text → Mem
received buf m id servname soname = blit buf 0 (order m id servname soname)

received-slice :
    (buf m : Mem) (id : ℕ) (servname soname : Text) (p n : ℕ)
    → p + n ≤ reload_len
    → slice (received buf m id servname soname) p n ≡ slice (write_order m id servname soname) p n
unfolding order
received-slice buf m id servname soname p n h =
    slice_ext _ _ p n (λ a l u. blit-slice buf _ 0 reload_len a (omega arith) (omega arith))

-- The fields of the order in the receiver's buffer.
record Reads (buf : Mem) (d : ℕ) (n so : Text) : Type 0 where
  type : buf 4 ≡ mcast_reload_so
  id : get16 buf 5 ≡ d
  servname : c_string (mcast_msg_len - 7) buf 7 ≡ n
  soname : c_string (mcast_msg_len - 39) buf 39 ≡ so

slice-blit_whole :
    (m : Mem) (q : ℕ) (bs : List ℕ) (n : ℕ) → length bs ≡ n → slice (blit m q bs) q n ≡ bs
slice-blit_whole m q bs n h = ap (slice (blit m q bs) q) (sym h) ∙ slice-blit_self m q bs

length-closed : (t : Text) → length (t ++ 0 ∷ []) ≡ length t + 1
length-closed t = length-append t (0 ∷ [])

received-Reads :
    (buf m : Mem) (id : ℕ) (servname soname : Text)
    → id < 2 ^ 16
    → length servname < 32
    → length soname < 128
    → NoZero servname
    → NoZero soname
    → Reads (received buf m id servname soname) id servname soname
unfolding write_order
received-Reads buf m id servname soname i l k y z = record {
  type = kind.0;
  id = omega (arith, place.0, place.1.0);
  servname = c_string-At 4089 b 7 servname y (omega arith) (
      slice-At b 7 (servname ++ 0 ∷ []) (
        ap (slice b 7) (length-closed servname)
        ∙ received-slice buf m id servname soname 7 (length servname + 1) (omega arith)
        ∙ (slice-blit-Apart _ 39 (soname ++ 0 ∷ []) 7 (length servname + 1) (inl (omega arith)))
        ∙ slice-blit_whole _ 7 (servname ++ 0 ∷ []) (length servname + 1)
            (length-closed servname)));
  soname = c_string-At 4057 b 39 soname z (omega arith) (
      slice-At b 39 (soname ++ 0 ∷ []) (
        ap (slice b 39) (length-closed soname)
        ∙ received-slice buf m id servname soname 39 (length soname + 1) (omega arith)
        ∙ (slice-blit_whole _ 39 (soname ++ 0 ∷ []) (length soname + 1) (length-closed soname))));
}
  where
    b : Mem
    b = received buf m id servname soname

    kind : At b 4 (mcast_reload_so ∷ [])
    kind = slice-At b 4 (mcast_reload_so ∷ []) (
        received-slice buf m id servname soname 4 1 (omega arith)
        ∙ (slice-blit-Apart _ 39 (soname ++ 0 ∷ []) 4 1 (inl (omega arith)))
        ∙ slice-blit-Apart _ 7 (servname ++ 0 ∷ []) 4 1 (inl (omega arith))
        ∙ slice-blit-Apart _ 5 (le16 id) 4 1 (inl (omega arith))
        ∙ slice-blit_self _ 4 (mcast_reload_so ∷ []))

    place : At b 5 (le16 id)
    place = slice-At b 5 (le16 id) (
        received-slice buf m id servname soname 5 2 (omega arith)
        ∙ (slice-blit-Apart _ 39 (soname ++ 0 ∷ []) 5 2 (inl (omega arith)))
        ∙ slice-blit-Apart _ 7 (servname ++ 0 ∷ []) 5 2 (inl (omega arith))
        ∙ slice-blit_self _ 5 (le16 id))

-- What a worker makes of an order in its buffer: a worker of this service with this id, or any if
-- the id is 0, loads the library if the file can be read.
abbrev pub obey : Around → Group → ℕ → Text → Text → ℤ × Group
obey e g id servname soname =
    if text_eq e.srv_name servname && (id == 0 || id == e.work_id) && e.readable soname
    then reload e g soname
    else (pos 0, g)

do_mcast_realod_so-Reads :
    (e : Around) (g : Group) (id : ℕ) (servname soname : Text)
    → Reads g.buf id servname soname
    → do_mcast_realod_so e g ≡ obey e g id servname soname
unfolding do_mcast_realod_so
do_mcast_realod_so-Reads e g id servname soname r =
    λ k. obey e g (r.id k) (r.servname k) (r.soname k)

proc_packet-order :
    (e : Around) (g : Group)
    → g.buf 4 ≡ mcast_reload_so
    → proc_packet e g ≡ some (do_mcast_realod_so e g).1
unfolding proc_packet
proc_packet-order e g h =
    ap
      (λ t.
        if t == mcast_serv_noti
        then do_mcast_serv_noti e g
        else if t == mcast_reload_so
        then some (do_mcast_realod_so e g).1
        else some (do_mcast_other_req e g))
      h

length-order :
    (m : Mem) (id : ℕ) (servname soname : Text) → length (order m id servname soname) ≡ reload_len
unfolding order
length-order m id servname soname = length-slice (write_order m id servname soname) 0 reload_len

-- A datagram that is not empty, and fits the array, alone.
do_proc_mcast-one :
    (e : Around) (g : Group) (p : List ℕ)
    → 0 < length p
    → length p ≤ mcast_msg_len
    → do_proc_mcast e (p ∷ []) g ≡ (proc_packet e (record g { buf = blit g.buf 0 p }) >>= some)
unfolding do_proc_mcast
do_proc_mcast-one e g [] l u = absurd (omega arith)
do_proc_mcast-one e g (b ∷ bs) l u =
    ap (λ p. proc_packet e (record g { buf = blit g.buf 0 p }) >>= some)
      (take_all mcast_msg_len (b ∷ bs) u)

-- The order of the client, whatever stood in its array, at a worker: `do_proc_mcast` loads the named
-- library again if the worker is of the named service and has this id, or the id is 0, and the file
-- can be read, and otherwise it changes nothing but its buffer; for an id that fits its type and
-- names that fit their arrays.
pub do_proc_mcast-order :
    (e : Around) (g : Group) (m : Mem) (id : ℕ) (servname soname : Text)
    → id < 2 ^ 16
    → length servname < 32
    → length soname < 128
    → NoZero servname
    → NoZero soname
    → do_proc_mcast e (order m id servname soname ∷ []) g
      ≡ some (obey e (record g { buf = received g.buf m id servname soname }) id servname soname).1
do_proc_mcast-order e g m id servname soname i l k y z =
    do_proc_mcast-one e g (order m id servname soname) (omega (arith, len)) (omega (arith, len))
    ∙ ap (λ o. o >>= some)
        (proc_packet-order e h r.type
          ∙ ap (λ q. some q.1) (do_mcast_realod_so-Reads e h id servname soname r))
  where
    len : length (order m id servname soname) ≡ reload_len
    len = length-order m id servname soname

    h : Group
    h = record g { buf = received g.buf m id servname soname }

    r : Reads h.buf id servname soname
    r = received-Reads g.buf m id servname soname i l k y z
