-- ===== src/Conf/Workers.antt =====
-- The table of workers that `load_work_data` fills.
use sserver.Prelude.{
  ℕ, suc, ◌+◌, ◌*◌, ◌≡◌, ◌⊎◌, ◌≤◌, refl, sym, subst, ap, inl, inr, Bool, true, false, [], ◌∷◌,
  Option, none, some, some_inj, arith, leb, ◌==◌, if◌then◌else◌, length, length-append, ◌>>=◌,
  Bool-cases, ℤ, pos,
}
use sserver.Text.{Text}
use sserver.Conf.{
  end_line, scan_lines, WorkMgr, Loading, work_size, work_step, new_workmgr, scan_entry,
  store_entry, add_work, load_work_data, ends_within,
}

-- The property of a result, if there is one.
data OnSome {S : Type 0} (P : S → Type 0) : Option S → Type 0 where
  nothing : OnSome P none
  holds : {t : S} → P t → OnSome P (some t)

bind-OnSome :
    {S : Type 0} (P : S → Type 0) (o : Option S) (f : S → Option S)
    → OnSome P o
    → ((t : S) → P t → OnSome P (f t))
    → OnSome P (o >>= f)
bind-OnSome P o f OnSome.nothing h = OnSome.nothing
bind-OnSome P o f (OnSome.holds {t} p) h = h t p

if-OnSome :
    {S : Type 0} (P : S → Type 0) (b : Bool) (o o' : Option S)
    → OnSome P o
    → OnSome P o'
    → OnSome P (if b then o else o')
if-OnSome P true o o' h k = h
if-OnSome P false o o' h k = k

-- What every line keeps, the loop keeps.
scan_lines-OnSome :
    {S : Type 0} (add : ℕ → Text → S → Option S) (P : S → Type 0)
    → ((i : ℕ) (line : Text) (s : S) → P s → OnSome P (add i line s))
    → (cs : Text) (i : ℕ) (note : Bool) (line : Text) (s : S) → P s
    → OnSome P (scan_lines add i note line cs s)
unfolding scan_lines end_line
scan_lines-OnSome add P keep [] i note line s h = OnSome.holds h
scan_lines-OnSome add P keep (c ∷ cs) i note line s h =
    if-OnSome P (c == 0) (some s) _ (OnSome.holds h) (
      bind-OnSome P (end_line add i note line c s) _
        (if-OnSome P (c == 10) _ (some s)
          (if-OnSome P note (some s) (add i line s) (OnSome.holds h) (keep i line s h))
          (OnSome.holds h))
        (λ t k. scan_lines-OnSome add P keep cs (suc i) _ _ t k))

-- The count is that of the entries, which lie in the table's memory; the table has its first size,
-- or it has grown once.
pub record Sound (w : WorkMgr) : Type 0 where
  pub count : length w.works ≡ w.nr_used
  pub used : w.nr_used ≤ w.nr_work
  pub within : work_size * w.nr_used ≤ w.room
  pub size : (w.nr_work ≡ 100) × (w.room ≡ 9100) ⊎ (w.nr_work ≡ 200) × (w.room ≡ 9200)

scan_entry-workmgr : (line : Text) (d : Loading) → (scan_entry line d).workmgr ≡ d.workmgr
unfolding scan_entry
scan_entry-workmgr line d = ground arith

abbrev SoundLoading : Loading → Type 0
SoundLoading d = Sound d.workmgr

-- A full table grows, and takes no entry.
grow-OnSome :
    (d : Loading)
    → Sound d.workmgr
    → d.workmgr.nr_work ≤ d.workmgr.nr_used
    → Sound (record (d.workmgr) {
      room = work_size * d.workmgr.nr_work + work_step;
      nr_work = d.workmgr.nr_work + work_step;
    })
grow-OnSome d h l = elim h.size [
  | inl (n, r) ↦ record {
    count = h.count;
    used = omega (arith, h.used);
    within = omega (arith, h.used);
    size = inr (omega (arith, n), omega (arith, n));
  }
  | inr (n, r) ↦ absurd (omega (arith, n, r, h.within, l))
]

store_entry-OnSome : (i : ℕ) (d : Loading) → Sound d.workmgr → OnSome SoundLoading (store_entry i d)
unfolding store_entry
store_entry-OnSome i d h = elim (Bool-cases (leb d.workmgr.nr_work d.workmgr.nr_used)) [
  | inl over ↦ rw (over) (OnSome.holds (grow-OnSome d h (ground (arith, over))))
  | inr under ↦
      rw (under) (elim (Bool-cases (leb (work_size * (d.workmgr.nr_used + 1)) d.workmgr.room)) [
        | inl room ↦ rw (room) (
            OnSome.holds (record {
              count = omega (arith, length-append d.workmgr.works, h.count);
              used = ground (arith, under);
              within = ground (arith, room);
              size = h.size;
            }))
        | inr tight ↦ rw (tight) OnSome.nothing
      ])
]

add_work-OnSome :
    (i : ℕ) (line : Text) (d : Loading) → Sound d.workmgr → OnSome SoundLoading (add_work i line d)
unfolding add_work
add_work-OnSome i [] d h = OnSome.holds h
add_work-OnSome i (c ∷ cs) d h = if-OnSome SoundLoading _ none _ OnSome.nothing (
    store_entry-OnSome i (scan_entry (c ∷ cs) d)
      (subst Sound (sym (scan_entry-workmgr (c ∷ cs) d)) h))

loaded-Sound :
    (b : Bool) (o : Option Loading) (ret : ℤ) (w : WorkMgr)
    → OnSome SoundLoading o
    → (if b then ◌>>=◌ {B = ℤ × WorkMgr} o (λ d. some (pos 0, d.workmgr)) else none) ≡ some (ret, w)
    → Sound w
loaded-Sound false o ret w h e = absurd (cc)
loaded-Sound true o ret w OnSome.nothing e = absurd (cc)
loaded-Sound true o ret w (OnSome.holds {t} h) e =
    subst Sound (ap (λ (r : ℤ × WorkMgr). r.1) (some_inj e)) h

few_workers : (w : WorkMgr) → Sound w → w.nr_used ≤ 101
few_workers w h = elim h.size [
  | inl (n, r) ↦ omega (arith, r, h.within)
  | inr (n, r) ↦ omega (arith, r, h.within)
]

-- `load_work_data` of any file, where it returns without a write behind an array or a read of what is
-- not mapped, leaves a count that is that of the table's entries, at most its size, in the table's
-- memory; and it leaves at most 101 workers, because the one growth of the table adds 100 bytes
-- instead of 100 entries.
pub load_work_data-Sound :
    (file ip : Text) (ret : ℤ) (w : WorkMgr)
    → load_work_data (some file) ip ≡ some (ret, w)
    → Sound w × (w.nr_used ≤ 101)
unfolding load_work_data
load_work_data-Sound file ip ret w e = (sound, few_workers w sound)
  where
    sound : Sound w
    sound =
        loaded-Sound (ends_within file) _ ret w
          (scan_lines-OnSome add_work SoundLoading add_work-OnSome file 0 false []
            (record { workmgr = new_workmgr; id = pos 0; ip = ip; port = pos 0 })
            (record {
              count = refl;
              used = omega arith;
              within = omega arith;
              size = inl (refl, refl);
            }))
          e
