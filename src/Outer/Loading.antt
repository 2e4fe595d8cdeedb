-- ===== src/Outer/Loading.antt =====
-- When `reg_so` succeeds, and what it leaves.
use sserver.Prelude.{
  ℕ, ◌≡◌, ◌≢◌, refl, sym, ap, ◌∙◌, ◌⊎◌, inl, inr, true, false, Bool, List, [], ◌∷◌, Option, none,
  some, Option-cases, Bool-cases, ℤ, pos, arith,
}
use sserver.Socket.{minus_one}
use sserver.Text.{Text}
use sserver.Outer.{Slot, SharedObj, slot_eq, set_slot, required, dlfuncs, reg_so}

pub slot_eq_sound : (a b : Slot) → slot_eq a b ≡ true → a ≡ b
unfolding slot_eq
slot_eq_sound a b e = ground (arith, e)

module _ (dlopen : Text → Option ℕ) (dlsym : ℕ → Slot → Option ℕ) where
  -- Every name of the list is in the library.
  abbrev pub Complete : ℕ → List Slot → Type 0
  Complete h [] = Unit {0}
  Complete h (x ∷ xs) = (dlsym h x ≢ none) × Complete h xs

  -- Some name of the list is not in the library.
  pub data Incomplete (h : ℕ) : List Slot → Type 0 where
    here : {x : Slot} {xs : List Slot} → dlsym h x ≡ none → Incomplete h (x ∷ xs)
    there : {x : Slot} {xs : List Slot} → Incomplete h xs → Incomplete h (x ∷ xs)

  abbrev NotIn : Slot → List Slot → Type 0
  NotIn x [] = Unit {0}
  NotIn x (y ∷ ys) = (slot_eq x y ≡ false) × NotIn x ys

  -- What the names of a list make of the pointers.
  data DlPost (h : ℕ) (xs : List Slot) (so : SharedObj) : Bool × SharedObj → Type 0 where
    loaded :
        {t : SharedObj}
        → Complete h xs
        → ((x : Slot) → (t.slot x ≡ dlsym h x) ⊎ NotIn x xs × (t.slot x ≡ so.slot x))
        → t.handle ≡ so.handle
        → t.unloaded ≡ so.unloaded
        → DlPost h xs so (true, t)
    missing :
        {t : SharedObj}
        → Incomplete h xs
        → t.handle ≡ none
        → t.unloaded ≡ h ∷ so.unloaded
        → DlPost h xs so (false, t)

  -- A pointer that a name sets, and the others.
  set_slot-same :
      (so : SharedObj) (x : Slot) (v : Option ℕ) (y : Slot)
      → slot_eq y x ≡ true
      → (set_slot so x v).slot y ≡ v
  unfolding set_slot
  set_slot-same so x v y e = rw (set_slot, e) refl

  set_slot-other :
      (so : SharedObj) (x : Slot) (v : Option ℕ) (y : Slot)
      → slot_eq y x ≡ false
      → (set_slot so x v).slot y ≡ so.slot y
  unfolding set_slot
  set_slot-other so x v y e = rw (set_slot, e) refl

  DlPost-cons :
      (h : ℕ) (x : Slot) (xs : List Slot) (so : SharedObj) (f : ℕ) {r : Bool × SharedObj}
      → dlsym h x ≡ some f
      → DlPost h xs (set_slot so x (some f)) r
      → DlPost h (x ∷ xs) so r
  unfolding set_slot
  DlPost-cons h x xs so f e (DlPost.missing i a b) = DlPost.missing (Incomplete.there i) a b
  DlPost-cons h x xs so f e (DlPost.loaded {t} c s a b) =
      DlPost.loaded ((λ n. absurd (cc)), c) slots a b
    where
      slots : (y : Slot) → (t.slot y ≡ dlsym h y) ⊎ NotIn y (x ∷ xs) × (t.slot y ≡ so.slot y)
      slots y = elim (s y) [
        | inl set ↦ inl set
        | inr (out, kept) ↦ elim (Bool-cases (slot_eq y x)) [
          | inl same ↦ inl (
              kept
              ∙ set_slot-same so x (some f) y same
              ∙ sym e
              ∙ ap (dlsym h) (sym (slot_eq_sound y x same)))
          | inr other ↦ inr ((other, out), kept ∙ set_slot-other so x (some f) y other)
        ]
      ]

  dlfuncs-DlPost :
      (h : ℕ) (xs : List Slot) (so : SharedObj) → DlPost h xs so (dlfuncs dlopen dlsym h xs so)
  unfolding dlfuncs
  dlfuncs-DlPost h [] so = DlPost.loaded tt (λ x. inr (tt, refl)) refl refl
  dlfuncs-DlPost h (x ∷ xs) so = elim (Option-cases (dlsym h x)) [
    | inl lacking ↦ rw (dlfuncs, lacking) (DlPost.missing (Incomplete.here lacking) refl refl)
    | inr (f, e) ↦ rw (dlfuncs, e) (DlPost-cons h x xs so f e (dlfuncs-DlPost h xs _))
  ]

  -- What `reg_so` leaves of a name.
  pub data RegPost (so : SharedObj) (name : Text) : ℤ × SharedObj → Type 0 where
    unopened :
        {t : SharedObj}
        → dlopen name ≡ none
        → t.handle ≡ none
        → t.slot ≡ so.slot
        → RegPost so name (minus_one, t)
    incomplete :
        {h : ℕ} {t : SharedObj}
        → dlopen name ≡ some h
        → Incomplete h required
        → t.handle ≡ none
        → t.unloaded ≡ h ∷ so.unloaded
        → RegPost so name (minus_one, t)
    registered :
        {h : ℕ} {t : SharedObj}
        → dlopen name ≡ some h
        → Complete h required
        → ((x : Slot) → t.slot x ≡ dlsym h x)
        → t.handle ≡ some h
        → t.unloaded ≡ so.unloaded
        → RegPost so name (pos 0, t)

  -- Every pointer is among the required ones, or is that of `proc_mcast_msg`.
  not_required : (x : Slot) → NotIn x required → slot_eq x Slot.proc_mcast_msg ≡ true
  unfolding slot_eq
  not_required Slot.serv_init n = absurd (cc (n.0))
  not_required Slot.serv_fini n = absurd (cc (n.1.0))
  not_required Slot.handle_timer n = absurd (cc (n.1.1.0))
  not_required Slot.get_msg_len n = absurd (cc (n.1.1.1.0))
  not_required Slot.proc_cli_msg n = absurd (cc (n.1.1.1.1.0))
  not_required Slot.proc_serv_msg n = absurd (cc (n.1.1.1.1.1.0))
  not_required Slot.on_cli_closed n = absurd (cc (n.1.1.1.1.1.1.0))
  not_required Slot.on_serv_closed n = absurd (cc (n.1.1.1.1.1.1.1.0))
  not_required Slot.reload_logic n = absurd (cc (n.1.1.1.1.1.1.1.1.0))
  not_required Slot.proc_mcast_msg n = refl

  finish : ℕ → Bool × SharedObj → ℤ × SharedObj
  finish h r = elim r.0 [
    | true ↦ (pos 0, set_slot r.1 Slot.proc_mcast_msg (dlsym h Slot.proc_mcast_msg))
    | false ↦ (minus_one, r.1)
  ]

  finish-RegPost :
      (so : SharedObj) (name : Text) (h : ℕ) (r : Bool × SharedObj)
      → dlopen name ≡ some h
      → DlPost h required (record so { handle = some h }) r
      → RegPost so name (finish h r)
  unfolding finish set_slot
  finish-RegPost so name h r e (DlPost.missing i a b) = RegPost.incomplete e i a b
  finish-RegPost so name h r e (DlPost.loaded {t} c s a b) = RegPost.registered e c slots a b
    where
      slots :
          (x : Slot)
          → (set_slot t Slot.proc_mcast_msg (dlsym h Slot.proc_mcast_msg)).slot x ≡ dlsym h x
      slots x = elim (Bool-cases (slot_eq x Slot.proc_mcast_msg)) [
        | inl last ↦ set_slot-same t _ _ x last ∙ ap (dlsym h) (sym (slot_eq_sound x _ last))
        | inr earlier ↦ set_slot-other t _ _ x earlier ∙ (elim (s x) [
          | inl set ↦ set
          | inr (out, kept) ↦ absurd (cc (not_required x out, earlier))
        ])
      ]

  -- `reg_so` returns 0 exactly if the library opens and has the nine required functions; then
  -- every pointer is the library's, that of `proc_mcast_msg` being NULL if it has none. Else it
  -- returns -1 and leaves no handle, and a library that was opened has been unloaded.
  pub reg_so_lem : (so : SharedObj) (name : Text) → RegPost so name (reg_so dlopen dlsym so name)
  unfolding reg_so finish
  reg_so_lem so name = elim (Option-cases (dlopen name)) [
    | inl closed ↦ rw (reg_so, closed) (RegPost.unopened closed refl refl)
    | inr (h, e) ↦ rw (reg_so, e) (finish-RegPost so name h _ e (dlfuncs-DlPost h required _))
  ]
