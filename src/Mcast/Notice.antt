-- ===== src/Mcast/Notice.antt =====
-- The notice that one worker sends is learnt by the others: `do_syn_serv_addr` against
-- `do_proc_mcast`.
use sserver.Prelude.{
  ℕ, zero, suc, ◌+◌, ◌-◌, ◌^◌, ◌≡◌, ◌≢◌, ◌<◌, ◌≤◌, refl, sym, subst, ap, ◌∙◌, List, [], ◌∷◌, ◌++◌,
  Option, some, arith, ◌==◌, pos, if◌then◌else◌, length, length-take, take, take_all, ◌>>=◌,
}
use sserver.Mem.{Mem, blit, slice, get32}
use sserver.Mem.Frame.{slice-blit_self}
use sserver.Text.{Text}
use sserver.Mcast.{
  Udp, SentPkg, do_syn_serv_addr, send_pkg_to_mcast, Group, Around, mcast_serv_noti, mcast_pkg,
  mcast_msg_len, serv_noti, zeros, get16, c_string, do_mcast_serv_noti, do_mcast_realod_so,
  do_mcast_other_req, proc_packet, do_proc_mcast, Servs, add_serv_to_cach, mcast_reload_so,
}
use sserver.Mcast.Cache.{Added, both, add_serv_to_cach_lem}

-- The bytes stand in memory from `p` on.
abbrev pub At : Mem → ℕ → List ℕ → Type 0
At m p [] = Unit {0}
At m p (b ∷ bs) = (m p ≡ b) × At m (p + 1) bs

pub slice-At : (m : Mem) (p : ℕ) (bs : List ℕ) → slice m p (length bs) ≡ bs → At m p bs
unfolding slice
slice-At m p [] e = tt
slice-At m p (b ∷ bs) e = (cc (e), slice-At m (p + 1) bs (cc (e)))

-- no character ends the text early
abbrev pub NoZero : Text → Type 0
NoZero [] = Unit {0}
NoZero (c ∷ cs) = (c ≢ 0) × NoZero cs

-- A name that is shorter than its array ends by a zero.
At-name :
    (m : Mem) (p k z : ℕ) (name : Text)
    → length name < k
    → At m p (take k (name ++ zeros (suc z)))
    → At m p (name ++ 0 ∷ [])
At-name m p zero z name l h = absurd (omega arith)
At-name m p (suc k) z [] l h = (h.0, tt)
At-name m p (suc k) z (c ∷ cs) l h = (h.0, At-name m (p + 1) k z cs (omega arith) h.1)

pub c_string-At :
    (n : ℕ) (m : Mem) (p : ℕ) (name : Text)
    → NoZero name
    → length name < n
    → At m p (name ++ 0 ∷ [])
    → c_string n m p ≡ name
unfolding c_string
c_string-At zero m p name z l h = absurd (omega arith)
c_string-At (suc n) m p [] z l h = rw (h.0) refl
c_string-At (suc n) m p (c ∷ cs) z l h =
    rw (h.0, c_string-At n m (p + 1) cs z.1 (omega arith) h.1) (ground (arith, z.0))

-- the packet of a notice
abbrev notice : ℕ → ℕ → ℕ → Text → List ℕ
unfolding mcast_pkg
notice ip port id name = mcast_pkg mcast_serv_noti (serv_noti ip port id name)

-- The fields of a notice as they stand in the receiver's buffer.
record Reads (m : Mem) (i p d : ℕ) (n : Text) : Type 0 where
  type : m 4 ≡ mcast_serv_noti
  ip : get32 m 5 ≡ i
  port : get16 m 9 ≡ p
  id : get16 m 11 ≡ d
  name : c_string (mcast_msg_len - 13) m 13 ≡ n

At-Reads :
    (m : Mem) (ip port id : ℕ) (name : Text)
    → ip < 2 ^ 32
    → port < 2 ^ 16
    → id < 2 ^ 16
    → length name < 16
    → NoZero name
    → At m 0 (notice ip port id name)
    → Reads m ip port id name
unfolding notice mcast_pkg serv_noti get32
At-Reads m ip port id name i p d l z
      (a0, (a1, (a2, (a3, (type, (i0, (i1, (i2, (i3, (p0, (p1, (d0, (d1, rest))))))))))))) =
    record {
      type = type;
      ip = omega (arith, i0, i1, i2, i3);
      port = omega (arith, p0, p1);
      id = omega (arith, d0, d1);
      name =
          c_string-At 4083 m 13 name z (omega arith) (At-name m 13 32 31 name (omega arith) rest);
    }

notice-length : (ip port id : ℕ) (name : Text) → length (notice ip port id name) ≤ 45
unfolding notice mcast_pkg serv_noti
notice-length ip port id name = omega (arith, length-take 32 (name ++ zeros 32))

-- The buffer after a notice has arrived.
received : Mem → ℕ → ℕ → ℕ → Text → Mem
received m ip port id name = blit m 0 (take mcast_msg_len (notice ip port id name))

received-Reads :
    (m : Mem) (ip port id : ℕ) (name : Text)
    → ip < 2 ^ 32
    → port < 2 ^ 16
    → id < 2 ^ 16
    → length name < 16
    → NoZero name
    → Reads (received m ip port id name) ip port id name
unfolding received
received-Reads m ip port id name i p d l z =
    subst (λ bs. Reads (blit m 0 bs) ip port id name)
      (sym (
        take_all mcast_msg_len (notice ip port id name)
          (omega (arith, notice-length ip port id name))))
      (At-Reads _ ip port id name i p d l z
        (slice-At _ 0 (notice ip port id name) (slice-blit_self m 0 (notice ip port id name))))

-- A packet of this type is a notice.
proc_packet-notice :
    (e : Around) (g : Group) → g.buf 4 ≡ mcast_serv_noti → proc_packet e g ≡ do_mcast_serv_noti e g
unfolding proc_packet
proc_packet-notice e g h =
    ap
      (λ t.
        if t == mcast_serv_noti
        then do_mcast_serv_noti e g
        else if t == mcast_reload_so
        then some (do_mcast_realod_so e g).1
        else some (do_mcast_other_req e g))
      h

-- A notice goes to the cache.
proc_packet-Added :
    (e : Around) (g : Group) (ip port id : ℕ) (name : Text)
    → e.alloc ≡ both
    → length name < 16
    → Reads g.buf ip port id name
    → (h : Group) × (proc_packet e g ≡ some h)
      × Added g.servs name id
          (record { serv_id = id; ip = ip; port = port; last_syn = e.now })
          h.servs
unfolding do_mcast_serv_noti
proc_packet-Added e g ip port id name a l r =
    let (u, done, added) = add_serv_to_cach_lem e.now g.servs name id ip port l in
    (
      record g { servs = u },
      proc_packet-notice e g r.type
          ∙ (λ k.
              add_serv_to_cach e.now (a k) g.servs (r.name k) (r.id k) (r.ip k) (r.port k)
              >>= store)
          ∙ ap (λ o. o >>= store) done,
      added,
    )
  where
    store : Servs → Option Group
    store t = some (record g { servs = t })

-- A send that returns 0 has sent the notice.
do_syn_serv_addr-notice :
    (u : Udp) (r : SentPkg) (ip port id : ℕ) (name : Text)
    → do_syn_serv_addr u ip port id name ≡ some r
    → r.ret ≡ pos 0
    → r.datagrams ≡ notice ip port id name ∷ []
unfolding do_syn_serv_addr send_pkg_to_mcast
do_syn_serv_addr-notice u r ip port id name e ok = ground arith

-- One notice that arrives.
do_proc_mcast-notice :
    (e : Around) (g : Group) (ip port id : ℕ) (name : Text)
    → do_proc_mcast e (notice ip port id name ∷ []) g
      ≡ (proc_packet e (record g { buf = received g.buf ip port id name }) >>= some)
unfolding do_proc_mcast received blit notice
do_proc_mcast-notice e g ip port id name = refl

-- A notice that `do_syn_serv_addr` has sent, with 0 returned, is learnt by every worker that it
-- reaches: `do_proc_mcast` ends there with this service's address under this id in the cache, at
-- the time of its arrival, and every other entry as it was. The fields fit their types, the name
-- fits the array of the cache, and the allocations succeed.
pub do_proc_mcast-do_syn_serv_addr :
    (u : Udp) (r : SentPkg) (e : Around) (g : Group) (ip port id : ℕ) (name : Text)
    → do_syn_serv_addr u ip port id name ≡ some r
    → r.ret ≡ pos 0
    → e.alloc ≡ both
    → ip < 2 ^ 32
    → port < 2 ^ 16
    → id < 2 ^ 16
    → length name < 16
    → NoZero name
    → (h : Group) × (do_proc_mcast e r.datagrams g ≡ some h)
      × Added g.servs name id
          (record { serv_id = id; ip = ip; port = port; last_syn = e.now })
          h.servs
do_proc_mcast-do_syn_serv_addr u r e g ip port id name sent ok a i p d l z =
    let (h, done, added) =
      proc_packet-Added e (record g { buf = received g.buf ip port id name }) ip port id name a l
        (received-Reads g.buf ip port id name i p d l z) in
    (
      h,
      ap (λ ps. do_proc_mcast e ps g) (do_syn_serv_addr-notice u r ip port id name sent ok)
          ∙ do_proc_mcast-notice e g ip port id name
          ∙ ap (λ o. o >>= some) done,
      added,
    )
