-- ===== src/Util/Title.antt =====
-- The process title and the environment that it must not touch.
use sserver.Prelude.{
  ℕ, zero, suc, ◌+◌, ◌-◌, ◌≤◌, ◌<◌, ◌≡◌, refl, sym, ap, ap₂, ◌∙◌, ◌⊎◌, List, [], ◌∷◌, Option, some,
  arith, length, lt→leb, le→ltb,
}
use sserver.Mem.{Mem, blit, slice}
use sserver.Mem.Frame.{
  Apart, blit-outside, slice-blit-Apart, slice-blit_self, slice_ext, length-slice,
}
use sserver.Util.{Args, Saved, env_size, copy_env, save_args, zeros, chg_proc_title}

-- the strings of some addresses and lengths, with their final zeros
abbrev pub strings : Mem → List (ℕ × ℕ) → List (List ℕ)
strings m [] = []
strings m (e ∷ es) = slice m e.0 (e.1 + 1) ∷ strings m es

-- Every string is apart from the bytes at a place.
abbrev pub Clear : List (ℕ × ℕ) → ℕ → ℕ → Type 0
Clear [] q k = Unit {0}
Clear (e ∷ es) q k = Apart e.0 (e.1 + 1) q k × Clear es q k

copy_env-outside :
    (m : Mem) (env_new : ℕ) (es : List (ℕ × ℕ)) (a : ℕ)
    → (a < env_new) ⊎ (env_new + env_size es ≤ a)
    → (copy_env m env_new es).0 a ≡ m a
unfolding copy_env env_size
copy_env-outside m env_new [] a h = refl
copy_env-outside m env_new (e ∷ es) a h =
    copy_env-outside (blit m env_new (slice m e.0 (e.1 + 1))) (env_new + e.1 + 1) es a
      (omega (arith, h))
    ∙ blit-outside m env_new (slice m e.0 (e.1 + 1)) a
        (omega (arith, h, length-slice m e.0 (e.1 + 1)))

slice-blit_whole :
    (m : Mem) (q : ℕ) (bs : List ℕ) (n : ℕ) → length bs ≡ n → slice (blit m q bs) q n ≡ bs
slice-blit_whole m q bs n h = ap (slice (blit m q bs) q) (sym h) ∙ slice-blit_self m q bs

strings-blit :
    (m : Mem) (q : ℕ) (bs : List ℕ) (es : List (ℕ × ℕ))
    → Clear es q (length bs)
    → strings (blit m q bs) es ≡ strings m es
strings-blit m q bs [] h = refl
strings-blit m q bs (e ∷ es) h =
    ap₂ ◌∷◌ (slice-blit-Apart m q bs e.0 (e.1 + 1) h.0) (strings-blit m q bs es h.1)

strings-ext :
    (m m' : Mem) (es : List (ℕ × ℕ)) (q k : ℕ)
    → Clear es q k
    → ((a : ℕ) → (a < q) ⊎ (q + k ≤ a) → m a ≡ m' a)
    → strings m es ≡ strings m' es
strings-ext m m' [] q k h same = refl
strings-ext m m' (e ∷ es) q k h same =
    ap₂ ◌∷◌ (slice_ext m m' e.0 (e.1 + 1) (λ a l u. same a (omega (arith, h.0))))
      (strings-ext m m' es q k h.1 same)

Clear-part :
    (es : List (ℕ × ℕ)) (q k q' k' : ℕ) → q ≤ q' → q' + k' ≤ q + k → Clear es q k → Clear es q' k'
Clear-part [] q k q' k' a b h = tt
Clear-part (e ∷ es) q k q' k' a b h = (omega (arith, h.0), Clear-part es q k q' k' a b h.1)

-- The environment that was moved reads as before, if no string of it stands in the new place.
copy_env-strings :
    (m : Mem) (env_new : ℕ) (es : List (ℕ × ℕ))
    → Clear es env_new (env_size es)
    → strings (copy_env m env_new es).0 (copy_env m env_new es).1 ≡ strings m es
unfolding copy_env env_size
copy_env-strings m env_new [] h = refl
copy_env-strings m env_new (e ∷ es) h = ap₂ ◌∷◌ first (
    copy_env-strings m' (env_new + e.1 + 1) es (
      Clear-part es env_new (e.1 + 1 + env_size es) (env_new + e.1 + 1) (env_size es) (omega arith)
        (omega arith) h.1)
    ∙ strings-blit m env_new (slice m e.0 (e.1 + 1)) es (
        Clear-part es env_new (e.1 + 1 + env_size es) env_new (length (slice m e.0 (e.1 + 1)))
          (omega arith) (omega (arith, length-slice m e.0 (e.1 + 1))) h.1))
  where
    m' : Mem
    m' = blit m env_new (slice m e.0 (e.1 + 1))

    first : slice (copy_env m' (env_new + e.1 + 1) es).0 env_new (e.1 + 1) ≡ slice m e.0 (e.1 + 1)
    first =
        slice_ext (copy_env m' (env_new + e.1 + 1) es).0 m' env_new (e.1 + 1)
          (λ a l u. copy_env-outside m' (env_new + e.1 + 1) es a (omega arith))
        ∙ slice-blit_whole m env_new (slice m e.0 (e.1 + 1)) (e.1 + 1)
            (length-slice m e.0 (e.1 + 1))

moved-Clear :
    (m : Mem) (env_new : ℕ) (es : List (ℕ × ℕ)) (q k : ℕ)
    → Apart q k env_new (env_size es)
    → Clear (copy_env m env_new es).1 q k
unfolding copy_env env_size
moved-Clear m env_new [] q k h = tt
moved-Clear m env_new (e ∷ es) q k h = (
  omega (arith, h),
  moved-Clear (blit m env_new (slice m e.0 (e.1 + 1))) (env_new + e.1 + 1) es q k
      (omega (arith, h)),
)

length-zeros : (n : ℕ) → length (zeros n) ≡ n
unfolding zeros
length-zeros zero = refl
length-zeros (suc n) = ap suc (length-zeros n)

-- The memory that `chg_proc_title` leaves, of `n` bytes behind the title.
abbrev titled : Mem → ℕ → List ℕ → ℕ → Mem
titled m p text n =
    blit (blit (blit m p text) (p + length text) (0 ∷ [])) (p + length text) (zeros n)

slice-titled :
    (m : Mem) (p : ℕ) (text : List ℕ) (n : ℕ) → slice (titled m p text n) p (length text) ≡ text
slice-titled m p text n =
    slice-blit-Apart _ (p + length text) (zeros n) p (length text) (omega arith)
    ∙ slice-blit-Apart _ (p + length text) (0 ∷ []) p (length text) (omega arith)
    ∙ slice-blit_self m p text

titled-outside :
    (m : Mem) (p : ℕ) (text : List ℕ) (n a : ℕ)
    → 0 < n
    → (a < p) ⊎ (p + (length text + n) ≤ a)
    → titled m p text n a ≡ m a
titled-outside m p text n a l h =
    blit-outside _ (p + length text) (zeros n) a (omega (arith, h, length-zeros n))
    ∙ blit-outside _ (p + length text) (0 ∷ []) a (omega (arith, h, l))
    ∙ blit-outside m p text a (omega (arith, h))

-- The title stands at the start of the arguments, the rest of their place is zero, and the
-- environment reads as before, wherever it was moved.
pub record Titled (a : Args) (text : List ℕ) (t : Saved) : Type 0 where
  pub title : slice t.mem t.argv_start (length text) ≡ text
  pub rest :
      slice t.mem (t.argv_start + length text) (t.argv_end - t.argv_start - length text)
      ≡ zeros (t.argv_end - t.argv_start - length text)
  pub environ : strings t.mem t.environ ≡ strings a.mem a.environ

pub data TitlePost (a : Args) (text : List ℕ) : Option Saved → Type 0 where
  ends : {t : Saved} → Titled a text t → TitlePost a text (some t)

-- the state behind `save_args` when malloc gives `env_new`
abbrev pub saved : ℕ → Args → Saved
saved env_new a = save_args (some env_new) a

-- `chg_proc_title` behind `save_args`, of a title of less than 128 bytes that is shorter than the
-- place of the arguments and the environment: it stays within its arrays, the title stands at the
-- start of this place and the rest of it is zero, and every string of the environment reads as
-- before, if malloc's memory is apart from the old strings.
pub chg_proc_title_lem :
    (a : Args) (env_new : ℕ) (text : List ℕ)
    → length text < 128
    → length text < (saved env_new a).argv_end - (saved env_new a).argv_start
    → Clear a.environ env_new (env_size a.environ)
    → Apart
        (saved env_new a).argv_start
        ((saved env_new a).argv_end - (saved env_new a).argv_start)
        env_new
        (env_size a.environ)
    → TitlePost a text (chg_proc_title text (saved env_new a))
unfolding chg_proc_title
chg_proc_title_lem a env_new text short fits clear apart =
    rw
      (
        lt→leb 128 (length text) short,
        le→ltb (s.argv_end - s.argv_start) (length text) (omega (arith, fits)),
      )
      (TitlePost.ends (record {
        title = slice-titled s.mem s.argv_start text n;
        rest = slice-blit_whole _ (s.argv_start + length text) (zeros n) n (length-zeros n);
        environ =
            strings-ext (titled s.mem s.argv_start text n) s.mem s.environ s.argv_start
              (length text + n) (elsewhere)
              (λ b o. titled-outside s.mem s.argv_start text n b (omega (arith, fits)) o)
            ∙ kept;
      }))
  where
    s : Saved
    s = saved env_new a

    n : ℕ
    n = s.argv_end - s.argv_start - length text

    elsewhere : Clear s.environ s.argv_start (length text + n)
    elsewhere =
        unfold save_args in
        moved-Clear a.mem env_new a.environ s.argv_start (length text + n)
          (omega (arith, apart, fits))

    kept : strings s.mem s.environ ≡ strings a.mem a.environ
    kept = unfold save_args in copy_env-strings a.mem env_new a.environ clear
