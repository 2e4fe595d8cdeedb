-- ===== src/Process/Ending.antt =====
-- What `handle_term` does to the workers.
use sserver.Prelude.{
  ℕ, zero, suc, ◌+◌, ◌≡◌, ◌≢◌, ◌<◌, ◌≤◌, refl, sym, subst, ap, ◌∙◌, inl, inr, true, List, [], ◌∷◌,
  ◌++◌, arith, le→ltb, ◌==◌, if◌then◌else◌, Bool-cases,
}
use sserver.Server.{update}
use sserver.Process.{Master, find_pid, kill_one, kill_all, handle_term}

-- A process that is none of the `n` entries from `i` on is not found.
pub find_pid-missing :
    (pids : ℕ → ℕ) (pid n i : ℕ)
    → ((j : ℕ) → i ≤ j → j < i + n → pids j ≢ pid)
    → find_pid pids pid n i ≡ i + n
unfolding find_pid
find_pid-missing pids pid zero i h = omega arith
find_pid-missing pids pid (suc n) i h =
    rw (find_pid-missing pids pid n (suc i) (λ j l u. h j (omega arith) (omega arith)))
      (ground (arith, h i (omega arith) (omega arith)))

-- a number of signals to process 0
abbrev pub to_group : ℕ → ℕ → List (ℕ × ℕ)
to_group zero signo = []
to_group (suc n) signo = (0, signo) ∷ to_group n signo

-- the number of the first `n` workers that are running
abbrev pub running : (ℕ → ℕ) → ℕ → ℕ
running pids zero = 0
running pids (suc n) = if pids n == 0 then running pids n else suc (running pids n)

-- What the loop leaves after `n` entries.
record Killed (signo n : ℕ) (m k : Master) : Type 0 where
  cleared : (i : ℕ) → i < n → k.chl_pids i ≡ 0
  later : (i : ℕ) → n ≤ i → k.chl_pids i ≡ m.chl_pids i
  kills : k.kills ≡ to_group (running m.chl_pids n) signo ++ m.kills
  stop : k.stop ≡ m.stop

abbrev signalled : ℕ → ℕ → Master → Master
signalled signo n k = record k {
  chl_pids = update k.chl_pids n 0;
  kills = (update k.chl_pids n 0 n, signo) ∷ k.kills;
}

kill_one-Killed :
    (signo n : ℕ) (m k : Master) → Killed signo n m k → Killed signo (suc n) m (kill_one signo n k)
unfolding kill_one
kill_one-Killed signo n m k r = elim (Bool-cases (k.chl_pids n == 0)) [
  | inl idle ↦
      subst (Killed signo (suc n) m) (ap (λ b. if b then k else signalled signo n k) (sym idle))
        (record {
          cleared = λ i h. ground (arith, r.cleared i, idle);
          later = λ i h. r.later i (omega arith);
          kills = rw (same_test ∙ idle) r.kills;
          stop = r.stop;
        })
  | inr live ↦
      subst (Killed signo (suc n) m) (ap (λ b. if b then k else signalled signo n k) (sym live))
        (record {
          cleared = λ i h. ground (arith, r.cleared i);
          later = λ i h. ground (arith, r.later i (omega arith));
          kills = rw (same_test ∙ live) (ground (arith, r.kills));
          stop = r.stop;
        })
]
  where
    same_test : (m.chl_pids n == 0) ≡ (k.chl_pids n == 0)
    same_test = ap (λ p. p == 0) (sym (r.later n (omega arith)))

kill_all-Killed : (signo n : ℕ) (m : Master) → Killed signo n m (kill_all signo n m)
unfolding kill_all
kill_all-Killed signo zero m = record {
  cleared = λ i h. absurd (omega arith);
  later = λ i h. refl;
  kills = refl;
  stop = refl;
}
kill_all-Killed signo (suc n) m = kill_one-Killed signo n m _ (kill_all-Killed signo n m)

-- `handle_term` in a process that is no recorded worker: the master is told to stop, every entry
-- of the workers is cleared, and one signal goes out for each running worker, all of them to
-- process 0, which is the master's whole group, since the entry is cleared before it is read.
pub handle_term_lem :
    (ppid signo : ℕ) (m : Master)
    → ((j : ℕ) → j < m.nr_used → m.chl_pids j ≢ ppid)
    → ((handle_term ppid signo m).stop ≡ true)
      × ((i : ℕ) → i < m.nr_used → (handle_term ppid signo m).chl_pids i ≡ 0)
      × ((handle_term ppid signo m).kills
          ≡ to_group (running m.chl_pids m.nr_used) signo ++ m.kills)
unfolding handle_term
handle_term_lem ppid signo m h =
    rw (find_pid-missing m.chl_pids ppid m.nr_used 0 (λ j l u. h j (omega arith)))
      (rw (le→ltb (0 + m.nr_used) m.nr_used (omega arith)) (r.stop, r.cleared, r.kills))
  where
    r :
        Killed signo m.nr_used
          (record m { stop = true })
          (kill_all signo m.nr_used (record m { stop = true }))
    r = kill_all-Killed signo m.nr_used (record m { stop = true })
