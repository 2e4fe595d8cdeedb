-- ===== src/Conf/Lines.antt =====
-- The loop over a configuration file, line by line.
use sserver.Prelude.{
  ℕ, suc, ◌+◌, ◌≡◌, ◌≢◌, refl, sym, ap, ◌∙◌, true, false, Bool, [], ◌∷◌, ◌++◌, append_assoc,
  append-nil, Option, some, arith, ◌==◌, ◌||◌, if◌then◌else◌, length, ◌>>=◌,
}
use sserver.Text.{Text}
use sserver.Conf.{end_line, scan_lines}

-- no character of the text ends it or its line
abbrev pub OneLine : Text → Type 0
OneLine [] = Unit {0}
OneLine (c ∷ cs) = ((c ≢ 0) × (c ≢ 10)) × OneLine cs

-- no character of the text makes a note of its line
abbrev pub NoHash : Text → Type 0
NoHash [] = Unit {0}
NoHash (c ∷ cs) = (c ≢ 35) × NoHash cs

==_no : (a b : ℕ) → a ≢ b → (a == b) ≡ false
==_no a b h = ground arith

module _ {S : Type 0} (add : ℕ → Text → S → Option S) where
  -- A character in the middle of a line.
  pub scan_lines-char :
      (i : ℕ) (note : Bool) (line : Text) (c : ℕ) (rest : Text) (s : S)
      → c ≢ 0
      → c ≢ 10
      → scan_lines add i note line (c ∷ rest) s
        ≡ scan_lines add (suc i) (c == 35 || note) (line ++ c ∷ []) rest s
  unfolding scan_lines end_line
  scan_lines-char i note line c rest s z n = rw (==_no c 0 z, ==_no c 10 n) refl

  -- The end of a line.
  pub scan_lines-end :
      (i : ℕ) (note : Bool) (line rest : Text) (s : S)
      → scan_lines add i note line (10 ∷ rest) s
        ≡ ((if note then some s else add i line s) >>= scan_lines add (suc i) false [] rest)
  unfolding scan_lines end_line
  scan_lines-end i note line rest s = refl

  -- The characters of a line that is no note so far.
  pub scan_lines-plain :
      (i : ℕ) (line w rest : Text) (s : S)
      → OneLine w
      → NoHash w
      → scan_lines add i false line (w ++ rest) s
        ≡ scan_lines add (i + length w) false (line ++ w) rest s
  scan_lines-plain i line [] rest s o h =
      λ k. scan_lines add (same k) false (sym (append-nil line) k) rest s
    where
      same : i ≡ i + 0
      same = omega arith
  scan_lines-plain i line (c ∷ cs) rest s o h =
      scan_lines-char i false line c (cs ++ rest) s o.0.0 o.0.1
      ∙ ap (λ b. scan_lines add (suc i) (b || false) (line ++ c ∷ []) (cs ++ rest) s)
          (==_no c 35 h.0)
      ∙ scan_lines-plain (suc i) (line ++ c ∷ []) cs rest s o.1 h.1
      ∙ (λ k. scan_lines add (place k) false (append_assoc line (c ∷ []) cs k) rest s)
    where
      place : suc i + length cs ≡ i + suc (length cs)
      place = omega arith

  -- The characters of a note.
  pub scan_lines-note :
      (i : ℕ) (line w rest : Text) (s : S)
      → OneLine w
      → scan_lines add i true line (w ++ rest) s
        ≡ scan_lines add (i + length w) true (line ++ w) rest s
  scan_lines-note i line [] rest s o =
      λ k. scan_lines add (same k) true (sym (append-nil line) k) rest s
    where
      same : i ≡ i + 0
      same = omega arith
  scan_lines-note i line (c ∷ cs) rest s o =
      scan_lines-char i true line c (cs ++ rest) s o.0.0 o.0.1
      ∙ ap (λ b. scan_lines add (suc i) b (line ++ c ∷ []) (cs ++ rest) s) (or_true (c == 35))
      ∙ scan_lines-note (suc i) (line ++ c ∷ []) cs rest s o.1
      ∙ (λ k. scan_lines add (place k) true (append_assoc line (c ∷ []) cs k) rest s)
    where
      place : suc i + length cs ≡ i + suc (length cs)
      place = omega arith

      or_true : (b : Bool) → (b || true) ≡ true
      or_true true = refl
      or_true false = refl
