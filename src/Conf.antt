-- ===== src/Conf.antt =====
-- conf.c: the files etc/simple.conf and etc/work.conf, and master.c's `init_setting`.
pub mod Settings
pub mod Lines
pub mod Entries
pub mod Workers
use sserver.Prelude.{
  ℕ, zero, suc, ◌+◌, ◌*◌, ◌%◌, ◌^◌, Bool, true, false, ◌&&◌, ◌||◌, List, [], ◌∷◌, ◌++◌, Option,
  none, some, leb, ltb, ◌==◌, if◌then◌else◌, length, take, ℤ, pos, negsuc, ◌>>=◌,
}
use sserver.Socket.{minus_one}
use sserver.Text.{Text, text_eq, scan_word, scan_int, atoi, to_unsigned}

-- The loop that both loaders run over the mapped file: a line with a `#` anywhere is a note, and
-- the others go to `add` without their newline, `i` being the newline's place. What follows the
-- last newline is dropped.
module _ {S : Type 0} (add : ℕ → Text → S → Option S) where
  -- one character
  unfoldable pub end_line : ℕ → Bool → Text → ℕ → S → Option S
  end_line i note line c s = if c == 10 then (if note then some s else add i line s) else some s

  -- `note` is `is_note`, `line` the characters from `start` on
  unfoldable pub scan_lines : ℕ → Bool → Text → Text → S → Option S
  unfolding end_line
  scan_lines i note line [] s = some s
  scan_lines i note line (c ∷ cs) s = if c == 0 then some s else (do
    t ← end_line i note line c s
    scan_lines (suc i) (if c == 10 then false else (c == 35 || note))
        (if c == 10 then [] else line ++ (c ∷ [])) cs t)

-- the characters before the first '\0', or all of them
unfoldable pub c_len : Text → ℕ
c_len [] = 0
c_len (c ∷ cs) = let rest = c_len cs in if c == 0 then 0 else suc rest

-- The bytes that both loaders map, and the bytes of a page.
abbrev pub map_len : ℕ
map_len = 10240

abbrev pub page_size : ℕ
page_size = 4096

-- Whether a '\0' ends the mapped text: one in the file, or one behind it in its last page, which
-- zeros fill. Else the loop reads out of the mapping or behind the file's last page.
unfoldable pub ends_within : Text → Bool
unfolding c_len
ends_within file =
    ltb (c_len file) map_len && (ltb (c_len file) (length file) || ltb 0 (length file % page_size))

-- `sim_data`: the last value of each key
abbrev pub Table : Type 0
Table = Text → Option Text

abbrev pub no_data : Table
no_data k = none

unfoldable pub insert : Table → Text → Text → Table
insert t k v j = if text_eq j k then some v else t j

-- the variables of `load_simple_data` that outlive a line
pub record Simple : Type 0 where
  pub sim_data : Table
  pub key : Text
  pub value : Text

-- `sscanf(line, "%s %s\n", key, value)`
unfoldable pub scan_pair : Text → Text → Text → Text × Text
scan_pair line key value = elim (scan_word line) [
  | none ↦ (key, value)
  | some r ↦ elim (scan_word r.1) [ none ↦ (r.0, value) | some q ↦ (r.0, q.0) ]
]

-- A line of `load_simple_data`. `none` is a write behind one of the arrays of 1024, 64 and 128
-- characters.
unfoldable pub add_pair : ℕ → Text → Simple → Option Simple
unfolding scan_pair insert
add_pair i [] d = some d
add_pair i (c ∷ cs) d =
    let (k, v) = scan_pair (c ∷ cs) d.key d.value in
    if leb 1024 (length (c ∷ cs)) || leb 64 (length k) || leb 128 (length v)
    then none
    else some (record { sim_data = insert d.sim_data k v; key = []; value = [] })

-- `load_simple_data`, of the file's text or a failed open, with what stands in `key` and `value`
-- before they are set. `none` is also a read of what is not mapped.
unfoldable pub load_simple_data : Option Text → Text → Text → Option (ℤ × Table)
unfolding scan_lines add_pair ends_within
load_simple_data none key value = some (minus_one, no_data)
load_simple_data (some file) key value =
    if ends_within file
    then (do
      d ←
          scan_lines add_pair 0 false [] file
            (record { sim_data = no_data; key = key; value = value })
      some (pos 0, d.sim_data))
    else none

-- the fields of `work_t` that work.conf sets
pub record WorkConf : Type 0 where
  pub id : ℕ
  pub idx : ℕ
  pub ip : Text
  pub port : ℕ

-- `work_mgr_t`, with the size in bytes of the memory that `works` points to
pub record WorkMgr : Type 0 where
  pub nr_work : ℕ
  pub nr_used : ℕ
  pub works : List WorkConf
  pub room : ℕ

-- the variables of `load_work_data` that outlive a line
pub record Loading : Type 0 where
  pub workmgr : WorkMgr
  pub id : ℤ
  pub ip : Text
  pub port : ℤ

-- sizeof(work_t), packed
abbrev pub work_size : ℕ
work_size = 91

-- `nr_work` of `load_work_data`
abbrev pub work_step : ℕ
work_step = 100

-- `sscanf(line, "%d %s %d", &id, ip, &port)`
unfoldable pub scan_entry : Text → Loading → Loading
scan_entry line d = elim (scan_int line) [
  | none ↦ d
  | some r ↦ elim (scan_word r.1) [
    | none ↦ record d { id = r.0 }
    | some q ↦ elim (scan_int q.1) [
      | none ↦ record d { id = r.0; ip = q.0 }
      | some p ↦ record d { id = r.0; ip = q.0; port = p.0 }
    ]
  ]
]

-- One entry to the table of workers: a full table grows, and the entry is dropped.
unfoldable pub store_entry : ℕ → Loading → Option Loading
store_entry i d =
    let w = d.workmgr in
    if leb w.nr_work w.nr_used
    then some (record d {
      workmgr = record w {
        room = work_size * w.nr_work + work_step;
        nr_work = w.nr_work + work_step;
      };
    })
    else if leb (work_size * (w.nr_used + 1)) w.room
    then some (record d {
      workmgr = record w {
        nr_used = w.nr_used + 1;
        works =
            w.works
            ++ ((record {
              id = to_unsigned 32 d.id;
              idx = i % 2 ^ 16;
              ip = d.ip;
              port = to_unsigned 16 d.port;
            })
                ∷ []);
      };
    })
    else none

-- A line of `load_work_data`. `none` is a write behind an array of 1024 or 32 characters, or
-- behind the table of workers.
unfoldable pub add_work : ℕ → Text → Loading → Option Loading
unfolding scan_entry store_entry
add_work i [] d = some d
add_work i (c ∷ cs) d =
    let e = scan_entry (c ∷ cs) d in
    if leb 1024 (length (c ∷ cs)) || leb 32 (length e.ip) then none else store_entry i e

abbrev pub new_workmgr : WorkMgr
new_workmgr = record { nr_work = work_step; nr_used = 0; works = []; room = work_size * work_step }

-- `load_work_data`, with what stands in `ip` before it is set. `none` is also a read of what is not
-- mapped.
unfoldable pub load_work_data : Option Text → Text → Option (ℤ × WorkMgr)
unfolding scan_lines add_work ends_within
load_work_data none ip = some (minus_one, new_workmgr)
load_work_data (some file) ip =
    if ends_within file
    then (do
      d ←
          scan_lines add_work 0 false [] file
            (record { workmgr = new_workmgr; id = pos 0; ip = ip; port = pos 0 })
      some (pos 0, d.workmgr))
    else none

-- `conf_get_str`
unfoldable pub conf_get_str : Table → Text → Text
conf_get_str t k = elim (t k) [ none ↦ [] | some v ↦ v ]

-- `conf_get_int_def`
unfoldable pub conf_get_int_def : Table → Text → ℤ → ℤ
conf_get_int_def t k def = elim (t k) [ none ↦ def | some v ↦ atoi v ]

-- `conf_get_int`
unfoldable pub conf_get_int : Table → Text → ℤ
conf_get_int t k = elim (t k) [ none ↦ pos 0 | some v ↦ atoi v ]

-- `load_conf`: the second file is read only if the first was.
unfoldable pub load_conf :
    Option Text → Option Text → Text → Text → Text → Option (ℤ × Table × WorkMgr)
unfolding load_simple_data load_work_data
load_conf simple work key value ip = do
  d ← load_simple_data simple key value
  elim d.0 [
    | pos zero ↦ (do
      w ← load_work_data work ip
      elim w.0 [
        | pos zero ↦ some (pos 0, d.1, w.1)
        | pos (suc n) ↦ some (minus_one, d.1, w.1)
        | negsuc n ↦ some (minus_one, d.1, w.1)
      ])
    | pos (suc n) ↦ some (minus_one, d.1, new_workmgr)
    | negsuc n ↦ some (minus_one, d.1, new_workmgr)
  ]
