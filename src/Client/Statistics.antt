-- ===== src/Client/Statistics.antt =====
-- What the stress client of src/client.c reports of its threads.
use tcg_final_project.Prelude.{
  ℕ, zero, suc, ◌+◌, ◌≡◌, ◌≢◌, ◌≤◌, ◌*◌, List, [], ◌∷◌, ◌++◌, length, Bool, false, Option, some,
  none,
}
use tcg_final_project.Session.World.{Received}
use tcg_final_project.Client.Launch.{Latency}
use tcg_final_project.Client.Stress.{Waited, both, hung_up, over, waiting, wait_loop}
use tcg_final_project.Client.Worker.{
  Ended, failed, summed, Tally, after_wait, ask, play_rounds, play_first, turn_end,
}

-- The latencies that are reported: those of the threads that have one above 0.
abbrev reported : List Ended → List ℕ
reported [] = []
reported (summed (suc x) ∷ es) = suc x ∷ reported es
reported (_ ∷ es) = reported es

abbrev total : List ℕ → ℕ
total [] = 0
total (x ∷ xs) = x + total xs

abbrev AllBetween : ℕ → ℕ → List ℕ → Type 0
AllBetween lo hi [] = Unit {0}
AllBetween lo hi (x ∷ xs) = (lo ≤ x) × (x ≤ hi) × AllBetween lo hi xs

-- What a tally adds to another for the latencies `xs`.
record Counts (xs : List ℕ) (t u : Tally) : Type 0 where
  ok_eq : u.ok ≡ t.ok + length xs
  sum_eq : u.sum ≡ t.sum + total xs
  min_le : u.min ≤ t.min
  max_le : t.max ≤ u.max
  within : AllBetween u.min u.max xs

-- The average that is printed lies between the least and the greatest latency.
abbrev pub IsMean : Option Latency → Type 0
IsMean none = Unit {0}
IsMean (some l) = (l.least * l.count ≤ l.sum) × (l.sum ≤ l.greatest * l.count)

module _ {C : Type 0} (send : Received → C → Option (List Received × C)) (clock : ℕ → ℕ)
    (first : Bool) where
  ask-reports :
      (r : Received) (rs : List Received) (s : C) (sum : ℕ) (on : List Received → C → Ended)
      → ((rest : List Received) (t : C) → on rest t ≢ failed)
      → ask send clock first r rs s sum on ≢ failed
  ask-reports r rs s sum on next =
      elim (send r s)
        as (λ o.
          (elim o [
            | none ↦ summed sum
            | some (more, t) ↦
                after_wait send clock first (wait_loop first false false (rs ++ more)) sum
                  (λ rest. on rest t)
          ])
          ≢ failed) [
            | none ↦ λ h. cc h
            | some (more, t) ↦ go (wait_loop first false false (rs ++ more)) t
          ]
    where
      go :
          (x : Waited × List Received) (t : C)
          → after_wait send clock first x sum (λ rest. on rest t) ≢ failed
      go (both, rest) t = next rest t
      go (hung_up, rest) t = next rest t
      go (over, rest) t = λ h. cc h
      go (waiting, rest) t = λ h. cc h

  -- Whatever the connection does, from the first round on, a thread of the stress client never
  -- reports -1: one whose connection breaks during the rounds is not told from one that has played
  -- them all.
  play_rounds-reports :
      (n k sum : ℕ) (rs : List Received) (s : C)
      → play_rounds send clock first n k sum rs s ≢ failed
  unfolding play_rounds
  play_rounds-reports zero k sum rs s = λ h. cc h
  play_rounds-reports (suc n) k sum rs s = ask-reports play_first rs s sum _ (λ rs1 s1.
      ask-reports turn_end rs1 s1 sum _ (λ rs2 s2. play_rounds-reports n (k + 2) _ rs2 s2))
