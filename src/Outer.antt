-- ===== src/Outer.antt =====
-- outer.c: loading and unloading the business library. What dlopen and dlsym find is a parameter.
pub mod Loading
use sserver.Prelude.{ℕ, Bool, true, false, List, [], ◌∷◌, Option, none, some, ℤ, pos}
use sserver.Socket.{minus_one}
use sserver.Text.{Text}

-- the function pointers of `serv_if_t`
pub data Slot : Type 0 where
  serv_init serv_fini handle_timer get_msg_len proc_cli_msg proc_serv_msg : Slot
  on_cli_closed on_serv_closed reload_logic proc_mcast_msg : Slot

unfoldable pub slot_eq : Slot → Slot → Bool
slot_eq Slot.serv_init Slot.serv_init = true
slot_eq Slot.serv_fini Slot.serv_fini = true
slot_eq Slot.handle_timer Slot.handle_timer = true
slot_eq Slot.get_msg_len Slot.get_msg_len = true
slot_eq Slot.proc_cli_msg Slot.proc_cli_msg = true
slot_eq Slot.proc_serv_msg Slot.proc_serv_msg = true
slot_eq Slot.on_cli_closed Slot.on_cli_closed = true
slot_eq Slot.on_serv_closed Slot.on_serv_closed = true
slot_eq Slot.reload_logic Slot.reload_logic = true
slot_eq Slot.proc_mcast_msg Slot.proc_mcast_msg = true
slot_eq a b = false

-- The variable `so`: the two handles, the pointers (NULL is `none`), and the handles that dlclose
-- was called on, newest first.
pub record SharedObj : Type 0 where
  pub data_handle : Option ℕ
  pub handle : Option ℕ
  pub slot : Slot → Option ℕ
  pub unloaded : List ℕ

unfoldable pub set_slot : SharedObj → Slot → Option ℕ → SharedObj
unfolding slot_eq
set_slot so x v = record so { slot = λ y. elim (slot_eq y x) [ true ↦ v | false ↦ so.slot y ] }

-- the names that `DLFUNC` looks up, in order
abbrev pub required : List Slot
required =
    Slot.serv_init ∷ Slot.serv_fini ∷ Slot.handle_timer ∷ Slot.get_msg_len ∷ Slot.proc_cli_msg
    ∷ Slot.proc_serv_msg ∷ Slot.on_cli_closed ∷ Slot.on_serv_closed ∷ Slot.reload_logic ∷ []

module _ (dlopen : Text → Option ℕ) (dlsym : ℕ → Slot → Option ℕ) where
  -- `DLFUNC` for each name: the first that is missing unloads the library.
  unfoldable pub dlfuncs : ℕ → List Slot → SharedObj → Bool × SharedObj
  unfolding set_slot
  dlfuncs h [] so = (true, so)
  dlfuncs h (x ∷ xs) so = elim (dlsym h x) [
    | none ↦ (false, record (set_slot so x none) { handle = none; unloaded = h ∷ so.unloaded })
    | some f ↦ dlfuncs h xs (set_slot so x (some f))
  ]

  -- `reg_so`; its flag only chooses the log's words.
  unfoldable pub reg_so : SharedObj → Text → ℤ × SharedObj
  unfolding dlfuncs
  reg_so so name = elim (dlopen name) [
    | none ↦ (minus_one, record so { handle = none })
    | some h ↦
        let r = dlfuncs h required (record so { handle = some h }) in
        elim r.0 [
          | true ↦ (pos 0, set_slot r.1 Slot.proc_mcast_msg (dlsym h Slot.proc_mcast_msg))
          | false ↦ (minus_one, r.1)
        ]
  ]

  -- `reg_data_so`, of a name that is not NULL: a failure is not told.
  unfoldable pub reg_data_so : SharedObj → Text → ℤ × SharedObj
  reg_data_so so name = (pos 0, record so { data_handle = dlopen name })

-- `unreg_data_so`
unfoldable pub unreg_data_so : SharedObj → SharedObj
unreg_data_so so = elim so.data_handle [
  | none ↦ so
  | some h ↦ record so { data_handle = none; unloaded = h ∷ so.unloaded }
]

-- `unreg_so`
unfoldable pub unreg_so : SharedObj → SharedObj
unreg_so so = elim so.handle [
  | none ↦ so
  | some h ↦ record so { handle = none; unloaded = h ∷ so.unloaded }
]
