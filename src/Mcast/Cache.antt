-- ===== src/Mcast/Cache.antt =====
-- The address cache as a table of addresses by service and id: `add_serv_to_cach` sets one entry.
use sserver.Prelude.{
  ℕ, ◌≡◌, ◌≢◌, ◌<◌, refl, sym, ap, ◌∙◌, ◌⊎◌, inl, inr, true, false, Option, none, some, arith,
  if◌then◌else◌, if-both, leb, ◌≤◌, length, Bool-cases, Option-cases, lt→leb,
}
use sserver.Server.{update}
use sserver.Text.{Text, text_eq}
use sserver.Text.Equal.{text_eq_refl, text_eq_sound}
use sserver.Mcast.{AddrCach, ServCach, Servs, Alloc, set_serv, add_serv_to_cach}

-- the address of a service's worker, if it is there
abbrev pub addr_in : Option ServCach → ℕ → Option AddrCach
addr_in none id = none
addr_in (some serv) id = serv.addrs id

abbrev pub cached : Servs → Text → ℕ → Option AddrCach
cached t name id = addr_in (t name) id

abbrev pub both : Alloc
both = record { serv_ok = true; addr_ok = true }

-- The new table has the address under this name and id, and every other entry as it was.
pub record Added (t : Servs) (name : Text) (id : ℕ) (addr : AddrCach) (u : Servs) : Type 0 where
  pub here : cached u name id ≡ some addr
  pub there : (n : Text) (i : ℕ) → (n ≢ name) ⊎ (i ≢ id) → cached u n i ≡ cached t n i

-- of two differences, one is refuted
differs : {A B : Type 0} → ¬ A ⊎ ¬ B → A → ¬ B
differs (inl h) a = absurd (h a)
differs (inr h) a = h

set_serv-same :
    (t : Servs) (name : Text) (serv : ServCach) (n : Text)
    → text_eq n name ≡ true
    → set_serv t name serv n ≡ some serv
unfolding set_serv
set_serv-same t name serv n e = ap (λ b. if b then some serv else t n) e

set_serv-other :
    (t : Servs) (name : Text) (serv : ServCach) (n : Text)
    → text_eq n name ≡ false
    → set_serv t name serv n ≡ t n
unfolding set_serv
set_serv-other t name serv n e = ap (λ b. if b then some serv else t n) e

set_serv-Added :
    (t : Servs) (name : Text) (id : ℕ) (addr : AddrCach) (serv : ServCach)
    → ((i : ℕ) → i ≢ id → serv.addrs i ≡ cached t name i)
    → serv.addrs id ≡ some addr
    → Added t name id addr (set_serv t name serv)
set_serv-Added t name id addr serv old new = record {
  here = ap (λ o. addr_in o id) (set_serv-same t name serv name (text_eq_refl name)) ∙ new;
  there = λ n i d. elim (Bool-cases (text_eq n name)) [
    | inr other ↦ ap (λ o. addr_in o i) (set_serv-other t name serv n other)
    | inl same ↦
        ap (λ o. addr_in o i) (set_serv-same t name serv n same)
        ∙ old i (differs d (text_eq_sound n name same))
        ∙ ap (λ z. cached t z i) (sym (text_eq_sound n name same))
  ];
}

-- the cache with one address set under a service
with_addr : Servs → Text → Option ServCach → ℕ → AddrCach → ServCach
with_addr t name none id addr = record {
  serv_name = name;
  addrs = update (λ j. none) id (some addr);
}
with_addr t name (some serv) id addr = record serv { addrs = update serv.addrs id (some addr) }

with_addr-Added :
    (t : Servs) (name : Text) (o : Option ServCach) (id : ℕ) (addr : AddrCach)
    → t name ≡ o
    → Added t name id addr (set_serv t name (with_addr t name o id addr))
unfolding with_addr
with_addr-Added t name none id addr e =
    set_serv-Added t name id addr _ (λ i d. rw (e) (ground (arith, d))) (ground arith)
with_addr-Added t name (some serv) id addr e =
    set_serv-Added t name id addr _ (λ i d. rw (e) (ground (arith, d))) (ground arith)

-- `add_serv_to_cach` of a name that fits its array sets the address of this service's worker and
-- no other, whether the service, or the worker, was in the cache or not.
pub add_serv_to_cach_lem :
    (now : ℕ) (t : Servs) (name : Text) (id ip port : ℕ)
    → length name < 16
    → (u : Servs) × (add_serv_to_cach now both t name id ip port ≡ some u)
      × Added t name id (record { serv_id = id; ip = ip; port = port; last_syn = now }) u
unfolding add_serv_to_cach with_addr
add_serv_to_cach_lem now t name id ip port fits =
    (_, result, with_addr-Added t name (t name) id _ refl)
  where
    result :
        add_serv_to_cach now both t name id ip port
        ≡ some (
            set_serv t name (
              with_addr t name
                (t name)
                id
                (record { serv_id = id; ip = ip; port = port; last_syn = now })))
    result = elim (Option-cases (t name)) [
      | inl fresh ↦ rw (add_serv_to_cach, fresh, lt→leb 16 (length name) fits) refl
      | inr (serv, known) ↦
          rw (add_serv_to_cach, known)
            (elim (Option-cases (serv.addrs id)) [
              | inl unknown ↦ rw (unknown) refl
              | inr (old, there) ↦ rw (there) refl
            ])
    ]

-- What `add_serv_to_cach` may come to: the address is set and no other entry is changed; or the entry
-- was not there, an allocation failed, and nothing is changed; or the service was not there, and its
-- name is written behind its array.
pub data Learnt (alloc : Alloc) (t : Servs) (name : Text) (id : ℕ) (addr : AddrCach)
    : Option Servs → Type 0 where
  added : {u : Servs} → Added t name id addr u → Learnt alloc t name id addr (some u)
  dropped :
      cached t name id ≡ none
      → (alloc.addr_ok ≡ false) ⊎ ((t name ≡ none) × (alloc.serv_ok ≡ false))
      → Learnt alloc t name id addr (some t)
  over : 16 ≤ length name → t name ≡ none → alloc.serv_ok ≡ true → Learnt alloc t name id addr none

-- `add_serv_to_cach` for any name and any answers of the allocations: the address of this service's
-- worker is set and no other, whether the service or the worker was in the cache or not; or, where
-- the worker was not in it and an allocation that it needs failed, nothing is changed; or, where the service was
-- not in it, its memory was given and its name has 16 characters or more, the name is written behind
-- its array.
pub add_serv_to_cach-Learnt :
    (now : ℕ) (alloc : Alloc) (t : Servs) (name : Text) (id ip port : ℕ)
    → Learnt alloc t name id
        (record { serv_id = id; ip = ip; port = port; last_syn = now })
        (add_serv_to_cach now alloc t name id ip port)
unfolding add_serv_to_cach with_addr
add_serv_to_cach-Learnt now alloc t name id ip port = elim (Option-cases (t name)) [
  | inl fresh ↦
      rw (add_serv_to_cach, fresh)
        (if-both (Learnt alloc t name id addr) alloc.serv_ok
          (λ given.
            if-both (Learnt alloc t name id addr) (leb 16 (length name))
              (λ long. Learnt.over (ground (arith, long)) fresh given)
              (λ fits.
                if-both (Learnt alloc t name id addr) alloc.addr_ok
                  (λ both_given. Learnt.added (with_addr-Added t name none id addr fresh))
                  (λ failed. Learnt.dropped (unknown fresh) (inl failed))))
          (λ failed. Learnt.dropped (unknown fresh) (inr (fresh, failed))))
  | inr (serv, known) ↦
      rw (add_serv_to_cach, known)
        (elim (Option-cases (serv.addrs id)) [
          | inl absent ↦ rw (absent) (
              if-both (Learnt alloc t name id addr) alloc.addr_ok
                (λ given. Learnt.added (with_addr-Added t name (some serv) id addr known))
                (λ failed. Learnt.dropped (ap (λ o. addr_in o id) known ∙ absent) (inl failed)))
          | inr (old, there) ↦
              rw (there) (Learnt.added (with_addr-Added t name (some serv) id addr known))
        ])
]
  where
    addr : AddrCach
    addr = record { serv_id = id; ip = ip; port = port; last_syn = now }

    unknown : t name ≡ none → cached t name id ≡ none
    unknown e = ap (λ o. addr_in o id) e
