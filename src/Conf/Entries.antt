-- ===== src/Conf/Entries.antt =====
-- `load_simple_data` of a file of entries, notes and empty lines.
use sserver.Prelude.{
  ℕ, suc, ◌+◌, ◌≡◌, ◌≢◌, ◌<◌, ◌≤◌, ◌%◌, refl, ap, ◌∙◌, true, false, List, [], ◌∷◌, ◌++◌, Option,
  some, none, arith, leb, lt→leb, length, length-append, ◌>>=◌, pos, ℤ,
}
use sserver.Text.{Text, is_space, skip_space, span_word, first_word, scan_word}
use sserver.Conf.{
  Table, Simple, no_data, insert, scan_pair, add_pair, scan_lines, load_simple_data, c_len, map_len,
  page_size, ends_within,
}
use sserver.Conf.Lines.{
  OneLine, NoHash, scan_lines-plain, scan_lines-note, scan_lines-char, scan_lines-end,
}

-- no space, no end of the text and no start of a note
abbrev pub WordChars : Text → Type 0
WordChars [] = Unit {0}
WordChars (c ∷ cs) = ((is_space c ≡ false) × (c ≢ 0) × (c ≢ 35)) × WordChars cs

-- such a text that is not empty
pub data IsWord : Text → Type 0 where
  word : {c : ℕ} {cs : Text} → WordChars (c ∷ cs) → IsWord (c ∷ cs)

span_word-space : (w r : Text) → WordChars w → span_word (w ++ 32 ∷ r) ≡ (w, 32 ∷ r)
unfolding span_word is_space
span_word-space [] r h = refl
span_word-space (c ∷ cs) r h = rw (span_word, h.0.0, span_word-space cs r h.1) refl

span_word-end : (w : Text) → WordChars w → span_word w ≡ (w, [])
unfolding span_word
span_word-end [] h = refl
span_word-end (c ∷ cs) h = rw (span_word, h.0.0, span_word-end cs h.1) refl

scan_word-space : (w r : Text) → IsWord w → scan_word (w ++ 32 ∷ r) ≡ some (w, 32 ∷ r)
unfolding scan_word first_word skip_space
scan_word-space w r (IsWord.word {c} {cs} h) = rw (h.0.0) (ap some (span_word-space (c ∷ cs) r h))

scan_word-end : (w : Text) → IsWord w → scan_word (32 ∷ w) ≡ some (w, [])
unfolding scan_word first_word skip_space is_space
scan_word-end w (IsWord.word {c} {cs} h) = rw (h.0.0) (ap some (span_word-end (c ∷ cs) h))

scan_pair-entry :
    (k v key value : Text) → IsWord k → IsWord v → scan_pair (k ++ 32 ∷ v) key value ≡ (k, v)
unfolding scan_pair
scan_pair-entry k v key value a b =
    rw (scan_pair, scan_word-space k v a) (rw (scan_word-end v b) refl)

-- A line of a key and a value.
add_pair-entry :
    (i : ℕ) (k v : Text) (d : Simple)
    → IsWord k
    → IsWord v
    → length k < 64
    → length v < 128
    → add_pair i (k ++ 32 ∷ v) d
      ≡ some (record { sim_data = insert d.sim_data k v; key = []; value = [] })
unfolding add_pair
add_pair-entry i k v d (IsWord.word {c} {cs} h) b l m =
    rw (scan_pair-entry (c ∷ cs) v d.key d.value (IsWord.word h) b)
      (rw (short, lt→leb 64 (length (c ∷ cs)) l, lt→leb 128 (length v) m) refl)
  where
    short : leb 1024 (length ((c ∷ cs) ++ 32 ∷ v)) ≡ false
    short =
        lt→leb 1024 (length ((c ∷ cs) ++ 32 ∷ v)) (omega (arith, length-append (c ∷ cs) (32 ∷ v)))

-- What a line of the file is.
pub data Line : Type 0 where
  entry : Text → Text → Line
  note : Text → Line
  empty : Line

-- the text of a file
abbrev pub text_of : List Line → Text
text_of [] = []
text_of (entry k v ∷ ls) = (k ++ 32 ∷ v) ++ 10 ∷ text_of ls
text_of (note t ∷ ls) = 35 ∷ t ++ 10 ∷ text_of ls
text_of (empty ∷ ls) = 10 ∷ text_of ls

-- keys and values are words that fit their arrays, and a note is one line
abbrev pub Fine : List Line → Type 0
Fine [] = Unit {0}
Fine (entry k v ∷ ls) = ((IsWord k × IsWord v) × ((length k < 64) × (length v < 128))) × Fine ls
Fine (note t ∷ ls) = OneLine t × Fine ls
Fine (empty ∷ ls) = Fine ls

-- the table after these lines, a later value of a key instead of an earlier one
abbrev pub table_of : Table → List Line → Table
table_of t [] = t
table_of t (entry k v ∷ ls) = table_of (insert t k v) ls
table_of t (note x ∷ ls) = table_of t ls
table_of t (empty ∷ ls) = table_of t ls

word_line : (w : Text) → WordChars w → OneLine w × NoHash w
unfolding is_space
word_line [] h = (tt, tt)
word_line (c ∷ cs) h =
    let r = word_line cs h.1 in (((h.0.1, ground (arith, h.0.0)), r.0), (h.0.2, r.1))

entry_line : (k v : Text) → WordChars k → WordChars v → OneLine (k ++ 32 ∷ v) × NoHash (k ++ 32 ∷ v)
entry_line [] v a b =
    let r = word_line v b in (((omega arith, omega arith), r.0), (omega arith, r.1))
entry_line (c ∷ cs) v a b =
    let r = entry_line cs v a.1 b in let w = word_line (c ∷ cs) a in ((w.0.0, r.0), (w.1.0, r.1))

chars : {w : Text} → IsWord w → WordChars w
chars (IsWord.word h) = h

abbrev data_of : Option Simple → Option Table
data_of o = o >>= λ (e : Simple). some e.sim_data

-- The loop over the text of these lines.
scan_lines-text_of :
    (ls : List Line) (i : ℕ) (d : Simple)
    → Fine ls
    → data_of (scan_lines add_pair i false [] (text_of ls) d) ≡ some (table_of d.sim_data ls)
unfolding scan_lines add_pair
scan_lines-text_of [] i d f = refl
scan_lines-text_of (entry k v ∷ ls) i d ((a, b), f) =
    let (o, h) = entry_line k v (chars a.0) (chars a.1) in
    let j = i + length (k ++ 32 ∷ v) in
    ap data_of (
      scan_lines-plain add_pair i [] (k ++ 32 ∷ v) (10 ∷ text_of ls) d o h
      ∙ scan_lines-end add_pair j false (k ++ 32 ∷ v) (text_of ls) d
      ∙ ap (λ o. o >>= scan_lines add_pair (suc j) false [] (text_of ls))
          (add_pair-entry j k v d a.0 a.1 b.0 b.1))
    ∙ scan_lines-text_of ls (suc j)
        (record { sim_data = insert d.sim_data k v; key = []; value = [] }) f
scan_lines-text_of (note t ∷ ls) i d (o, f) =
    ap data_of (
      scan_lines-char add_pair i false [] 35 (t ++ 10 ∷ text_of ls) d (omega arith) (omega arith)
      ∙ scan_lines-note add_pair (suc i) (35 ∷ []) t (10 ∷ text_of ls) d o
      ∙ scan_lines-end add_pair (suc i + length t) true ((35 ∷ []) ++ t) (text_of ls) d)
    ∙ scan_lines-text_of ls (suc (suc i + length t)) d f
scan_lines-text_of (empty ∷ ls) i d f =
    ap data_of (scan_lines-end add_pair i false [] (text_of ls) d)
    ∙ scan_lines-text_of ls (suc i) d f

with_success :
    (o : Option Simple)
    → ◌>>=◌ {B = ℤ × Table} o (λ d. some (pos 0, d.sim_data))
      ≡ ◌>>=◌ {B = ℤ × Table} (data_of o) (λ t. some (pos 0, t))
with_success none = refl
with_success (some d) = refl

c_len-le : (t : Text) → c_len t ≤ length t
unfolding c_len
c_len-le [] = omega arith
c_len-le (c ∷ cs) = ground (arith, c_len-le cs)

ends_within-short :
    (t : Text) → length t < map_len → 0 < length t % page_size → ends_within t ≡ true
unfolding ends_within
ends_within-short t h l = ground (arith, c_len-le t)

-- `load_simple_data` of a file of lines that are each an entry, a note or empty, shorter than the
-- mapping and not filling its last page, returns 0 with the table of the entries, the last value of
-- each key, whatever stood in its arrays before; for keys and values that are words that fit their
-- arrays.
pub load_simple_data-text_of :
    (ls : List Line) (key value : Text)
    → Fine ls
    → length (text_of ls) < map_len
    → 0 < length (text_of ls) % page_size
    → load_simple_data (some (text_of ls)) key value ≡ some (pos 0, table_of no_data ls)
unfolding load_simple_data
load_simple_data-text_of ls key value f short part =
    rw (load_simple_data, ends_within-short (text_of ls) short part)
      (with_success (scan_lines add_pair 0 false [] (text_of ls) start)
        ∙ ap (λ o. ◌>>=◌ {B = ℤ × Table} o (λ t. some (pos 0, t)))
            (scan_lines-text_of ls 0 start f))
  where
    start : Simple
    start = record { sim_data = no_data; key = key; value = value }
