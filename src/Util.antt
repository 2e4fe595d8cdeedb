-- ===== src/Util.antt =====
-- util.c: the copies of the arguments and of the environment, and the process title that is written
-- over them. The strings of argv and environ are given by their addresses and lengths.
pub mod Title
use sserver.Prelude.{
  ℕ, zero, suc, ◌+◌, ◌-◌, ◌/◌, ◌%◌, ◌==◌, Bool, List, [], ◌∷◌, Option, none, some, leb, ltb,
  if◌then◌else◌, length,
}
use sserver.Mem.{Mem, blit, slice}

-- `argv`, `environ` and what they point to
pub record Args : Type 0 where
  pub mem : Mem
  pub argv : List (ℕ × ℕ)
  pub environ : List (ℕ × ℕ)

-- the globals `argv_start` and `argv_end`, with `environ`
pub record Saved : Type 0 where
  pub mem : Mem
  pub argv_start : ℕ
  pub argv_end : ℕ
  pub environ : List (ℕ × ℕ)

-- The size of the strings with their final zeros.
unfoldable pub env_size : List (ℕ × ℕ) → ℕ
env_size [] = 0
env_size (e ∷ es) = e.1 + 1 + env_size es

-- The loop that copies the environment to `env_new` on.
unfoldable pub copy_env : Mem → ℕ → List (ℕ × ℕ) → Mem × List (ℕ × ℕ)
copy_env m env_new [] = (m, [])
copy_env m env_new (e ∷ es) =
    let (m', moved) = copy_env (blit m env_new (slice m e.0 (e.1 + 1))) (env_new + e.1 + 1) es in
    (m', (env_new, e.1) ∷ moved)

-- `argv[0]`
unfoldable pub first_arg : List (ℕ × ℕ) → ℕ
first_arg [] = 0
first_arg (a ∷ rest) = a.0

-- the end of `argv[argc-1]`
unfoldable pub args_end : List (ℕ × ℕ) → ℕ
args_end [] = 0
args_end (a ∷ []) = a.0 + a.1 + 1
args_end (a ∷ b ∷ rest) = args_end (b ∷ rest)

-- `save_args`, with malloc's answer for the environment. (The copies in `g_argv` are only printed
-- and freed.)
unfoldable pub save_args : Option ℕ → Args → Saved
unfolding first_arg args_end copy_env env_size
save_args none a = record {
  mem = a.mem;
  argv_start = first_arg a.argv;
  argv_end = args_end a.argv;
  environ = a.environ;
}
save_args (some env_new) a =
    let (m, moved) = copy_env a.mem env_new a.environ in
    record {
      mem = m;
      argv_start = first_arg a.argv;
      argv_end = args_end a.argv + env_size a.environ;
      environ = moved;
    }

-- memset with zeros
unfoldable pub zeros : ℕ → List ℕ
zeros zero = []
zeros (suc n) = 0 ∷ zeros n

-- `chg_proc_title`, of the text that vsprintf makes. `none` is a title over the end of `title`, or a
-- negative size for memset.
unfoldable pub chg_proc_title : List ℕ → Saved → Option Saved
unfolding zeros
chg_proc_title text s =
    let len = length text in
    if leb 128 len
    then none
    else if ltb (s.argv_end - s.argv_start) len
    then none
    else some (record s {
      mem =
          blit (blit (blit s.mem s.argv_start text) (s.argv_start + len) (0 ∷ []))
            (s.argv_start + len) (zeros (s.argv_end - s.argv_start - len));
    })

-- O_NONBLOCK
abbrev pub o_nonblock : ℕ
o_nonblock = 2048

-- `set_io_nonblock`: the flags that it sets, from those that fcntl gives
unfoldable pub set_io_nonblock : Bool → ℕ → ℕ
set_io_nonblock nonblock flags =
    let is_set = flags / o_nonblock % 2 == 1 in
    if nonblock
    then (if is_set then flags else flags + o_nonblock)
    else (if is_set then flags - o_nonblock else flags)
