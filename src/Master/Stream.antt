-- ===== src/Master/Stream.antt =====
-- The bytes of a client cut into messages by the library, independently of `handle_cli`.
use sserver.Prelude.{
  ℕ, ◌+◌, ◌-◌, ◌≤◌, ◌≡◌, refl, sym, ap, ◌∙◌, List, [], ◌∷◌, ◌++◌, append_assoc, arith, ◌==◌,
  if◌then◌else◌, length,
}
use sserver.Mem.{Mem, slice}
use sserver.Mem.Frame.{slice-append, length-slice}
use sserver.MemQueue.{blk_data}
use sserver.MemQueue.Layout.{Message}
use sserver.Server.{ServIf}

-- the message of some bytes of a client
abbrev pub message : ℕ → ℕ → List ℕ → Message
message idx fd bs = record { id = idx; fd = fd; type = blk_data; bytes = bs }

abbrev pub messages : ℕ → ℕ → List (List ℕ) → List Message
messages idx fd [] = []
messages idx fd (bs ∷ bss) = message idx fd bs ∷ messages idx fd bss

abbrev pub joined : List (List ℕ) → List ℕ
joined [] = []
joined (bs ∷ bss) = bs ++ joined bss

module _ (so : ServIf) (fd : ℕ) (m : Mem) where
  -- What the library says of the bytes at `p`, unless it was asked for this message before.
  abbrev pub ask : ℕ → ℕ → ℕ → ℕ
  ask known p n = if known == 0 then so.get_msg_len fd (slice m p n) else known

  -- The `n` bytes at `p` cut into messages by the library, with `k` bytes at `q` left over; `known`
  -- is the length of the first message, or 0 if nobody asked yet.
  pub data Cut : ℕ → ℕ → ℕ → List (List ℕ) → ℕ → ℕ → Type 0 where
    rest : {known p n : ℕ} → Cut known p n [] p n
    cut :
        {known p n q k : ℕ} {bss : List (List ℕ)}
        → ask known p n ≤ n
        → Cut 0 (p + ask known p n) (n - ask known p n) bss q k
        → Cut known p n (slice m p (ask known p n) ∷ bss) q k

  pub Cut-joined :
      {known p n q k : ℕ} {bss : List (List ℕ)}
      → Cut known p n bss q k
      → slice m p n ≡ joined bss ++ slice m q k
  Cut-joined Cut.rest = refl
  Cut-joined (Cut.cut {known} {p} {n} h c) =
      ap (slice m p) (omega arith)
      ∙ slice-append m p (ask known p n) (n - ask known p n) (p + ask known p n) refl
      ∙ ap (λ l. slice m p (ask known p n) ++ l) (Cut-joined c)
      ∙ sym (append_assoc (slice m p (ask known p n)) _ _)

-- The length of the message that some bytes of a client begin with: `known` if it is not 0, or else
-- what the library says of these bytes.
abbrev pub asked : ServIf → ℕ → ℕ → List ℕ → ℕ
asked so fd known bs = if known == 0 then so.get_msg_len fd bs else known

-- Some bytes of a client are these messages, each as long as the library says of the bytes from it
-- on, and then a rest; `known` is the length of the first, or 0 if nobody asked yet.
pub data Cuts (so : ServIf) (fd : ℕ) : ℕ → List ℕ → List (List ℕ) → List ℕ → Type 0 where
  rest : {known : ℕ} {bs : List ℕ} → Cuts so fd known bs [] bs
  cut :
      {known : ℕ} {bs ws more left : List ℕ} {bss : List (List ℕ)}
      → bs ≡ ws ++ more
      → length ws ≡ asked so fd known bs
      → Cuts so fd 0 more bss left
      → Cuts so fd known bs (ws ∷ bss) left

pub Cut-Cuts :
    (so : ServIf) (fd : ℕ) (m : Mem) {known p n q k : ℕ} {bss : List (List ℕ)}
    → Cut so fd m known p n bss q k
    → Cuts so fd known (slice m p n) bss (slice m q k)
Cut-Cuts so fd m Cut.rest = Cuts.rest
Cut-Cuts so fd m (Cut.cut {known} {p} {n} h c) =
    Cuts.cut
      (ap (slice m p) (omega arith)
        ∙ slice-append m p (ask so fd m known p n) (n - ask so fd m known p n)
            (p + ask so fd m known p n) refl)
      (length-slice m p (ask so fd m known p n)) (Cut-Cuts so fd m c)

-- What is known of the rest behind some messages.
abbrev pub known_after : ℕ → List (List ℕ) → ℕ
known_after known [] = known
known_after known (bs ∷ bss) = 0

pub known_after-zero : (bss : List (List ℕ)) → known_after 0 bss ≡ 0
known_after-zero [] = refl
known_after-zero (bs ∷ bss) = refl
