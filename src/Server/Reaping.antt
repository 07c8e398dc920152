-- ===== src/Server/Reaping.antt =====
-- The children of src/server.c that end before the server: which of them `on_sigchld` collects.
use tcg_final_project.Prelude.{
  ℕ, ◌+◌, ◌≡◌, refl, sym, ap, ◌∙◌, List, [], ◌∷◌, ◌++◌, Bool, true, false, not, if◌then◌else◌,
  arith, drop, Bool-cases, inl, inr,
}
use tcg_final_project.Server.{System, Accepted, accept_round, created}
use tcg_final_project.Server.Main.{
  Main, Signal, sigint, sigterm, sigchld, usable, start_up, is_over, on_signal, on_signals,
  accept_loop,
}
use tcg_final_project.Server.Signals.{asks, calm, ints, terms}
use tcg_final_project.Server.Stopping.{Waits, round-Waits, loop-round, started-Waits}

-- The children that the signals tell of.
unfoldable pub ended_children : List Signal → List ℕ
ended_children [] = []
ended_children (sigint ∷ ss) = ended_children ss
ended_children (sigterm ∷ ss) = ended_children ss
ended_children (sigchld n ∷ ss) = n ∷ ended_children ss

abbrev pub total : List ℕ → ℕ
total [] = 0
total (n ∷ ns) = n + total ns

abbrev pub all_signals : List (Accepted × List Signal) → List Signal
all_signals [] = []
all_signals ((a, ss) ∷ rs) = ss ++ all_signals rs

-- The handler and the uncollected children behind some SIGCHLDs.
abbrev reap : Bool → List ℕ → Bool × ℕ → Bool × ℕ
reap one_shot [] p = p
reap one_shot (n ∷ ns) (true, z) = reap one_shot ns (not one_shot, 0)
reap one_shot (n ∷ ns) (false, z) = reap one_shot ns (false, z + n)

reap-append :
    (one_shot : Bool) (ms ns : List ℕ) (p : Bool × ℕ)
    → reap one_shot (ms ++ ns) p ≡ reap one_shot ns (reap one_shot ms p)
reap-append one_shot [] ns p = refl
reap-append one_shot (m ∷ ms) ns (true, z) = reap-append one_shot ms ns (not one_shot, 0)
reap-append one_shot (m ∷ ms) ns (false, z) = reap-append one_shot ms ns (false, z + m)

reap-unset :
    (one_shot : Bool) (ns : List ℕ) (z : ℕ) → (reap one_shot ns (false, z)).1 ≡ z + total ns
reap-unset one_shot [] z = omega arith
reap-unset one_shot (n ∷ ns) z = omega (arith, reap-unset one_shot ns (z + n))

reap-set : (ns : List ℕ) → (reap false ns (true, 0)).1 ≡ 0
reap-set [] = refl
reap-set (n ∷ ns) = reap-set ns

reap-total :
    (one_shot : Bool) (ns : List ℕ)
    → (reap one_shot ns (true, 0)).1 ≡ (if one_shot then total (drop 1 ns) else 0)
reap-total true [] = refl
reap-total true (n ∷ ns) = reap-unset true ns 0 ∙ omega arith
reap-total false ns = reap-set ns

ended_children-append :
    (xs ys : List Signal) → ended_children (xs ++ ys) ≡ ended_children xs ++ ended_children ys
unfolding ended_children
ended_children-append [] ys = refl
ended_children-append (sigint ∷ xs) ys = ended_children-append xs ys
ended_children-append (sigterm ∷ xs) ys = ended_children-append xs ys
ended_children-append (sigchld n ∷ xs) ys = ap (λ ns. n ∷ ns) (ended_children-append xs ys)

abbrev both : Main → Bool × ℕ
both m = (m.chld_set, m.zombies)

module _ (one_shot : Bool) where
  chld-reap :
      (n : ℕ) (m : Main)
      → is_over m ≡ false
      → let m' = on_signal one_shot (sigchld n) m in
        (is_over m' ≡ false)
        × ((m'.chld_set, m'.zombies) ≡ reap one_shot (n ∷ []) (m.chld_set, m.zombies))
  unfolding on_signal
  chld-reap n m on = elim (Bool-cases m.chld_set) [
    | inl set ↦ simp (on, set) (refl, refl)
    | inr unset ↦ simp (on, unset) (refl, refl)
  ]

  on_signals-reap :
      (ss : List Signal) (m : Main)
      → asks ss ≡ false
      → is_over m ≡ false
      → let m' = on_signals one_shot ss m in
        (m'.chld_set, m'.zombies) ≡ reap one_shot (ended_children ss) (m.chld_set, m.zombies)
  unfolding on_signals ended_children asks ints terms
  on_signals-reap [] m quiet on = refl
  on_signals-reap (sigint ∷ ss) m quiet on = absurd (ground (arith, quiet))
  on_signals-reap (sigterm ∷ ss) m quiet on = absurd (ground (arith, quiet))
  on_signals-reap (sigchld n ∷ ss) m quiet on =
      let (still, one) = chld-reap n m on in
      on_signals-reap ss (on_signal one_shot (sigchld n) m) quiet still
      ∙ ap (reap one_shot (ended_children ss)) one
      ∙ sym (reap-append one_shot (n ∷ []) (ended_children ss) (m.chld_set, m.zombies))

  loop-reap :
      (rs : List (Accepted × List Signal)) (s : System) (m : Main)
      → calm rs ≡ true
      → Waits s m
      → let m' = accept_loop one_shot rs m in
        (m'.chld_set, m'.zombies)
        ≡ reap one_shot (ended_children (all_signals rs)) (m.chld_set, m.zombies)
  unfolding calm accept_loop ended_children
  loop-reap [] s m quiet w = refl
  loop-reap ((a, ss) ∷ rs) s m quiet w =
      let served = record m { system = accept_round a m.system } in
      let p : Bool × ℕ = (m.chld_set, m.zombies) in
      ap both (loop-round one_shot a ss rs s m w)
      ∙ loop-reap rs (accept_round a s) (on_signals one_shot ss served) (ground (arith, quiet))
          (round-Waits one_shot a ss s m (ground (arith, quiet)) w)
      ∙ ap (reap one_shot (ended_children (all_signals rs))) (
          on_signals-reap ss served (ground (arith, quiet))
            (ground (arith, w.alive_eq, w.result_eq)))
      ∙ sym (reap-append one_shot (ended_children ss) (ended_children (all_signals rs)) p)
      ∙ ap (λ ns. reap one_shot ns p) (sym (ended_children-append ss (all_signals rs)))

-- Behind a start that gets all that it asks for, as long as no signal asks the server to stop:
-- where `signal` sets a handler for one delivery, the children that end behind the first SIGCHLD
-- are all left uncollected, and no other; and where handlers stay set, none is.
pub accept_loop-zombies :
    (one_shot : Bool) (rs : List (Accepted × List Signal))
    → calm rs ≡ true
    → (accept_loop one_shot rs (start_up true usable usable true)).zombies
      ≡ (if one_shot then total (drop 1 (ended_children (all_signals rs))) else 0)
unfolding start_up
accept_loop-zombies one_shot rs quiet =
    ap (λ p. p.1)
      (loop-reap one_shot rs created (start_up true usable usable true) quiet started-Waits)
    ∙ reap-total one_shot (ended_children (all_signals rs))
