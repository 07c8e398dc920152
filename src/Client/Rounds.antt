-- ===== src/Client/Rounds.antt =====
-- A thread of src/client.c against the server of src/server.c: the login and all the rounds.
use tcg_final_project.Prelude.{
  ℕ, zero, suc, ◌+◌, ◌-◌, ◌≡◌, ◌≤◌, refl, sym, ap, ◌∙◌, List, [], ◌∷◌, ◌++◌, drop, drop-append,
  length, map, get_or, Bool, true, false, not, ◌&&◌, Option, some, ◌==◌, ==_iff, arith,
  if◌then◌else◌, Bool-cases, inl, inr,
}
use mathlib.Core.List.{map-append, append-nil}
use mathlib.Core.Path.{subst}
use tcg_final_project.Game.Defs.{State, Hand}
use tcg_final_project.Session.World.{Libc, World, Reply, Received}
use tcg_final_project.Session.World
use tcg_final_project.Session.Serve.{step}
use tcg_final_project.Session.Duty.{IsServing}
use tcg_final_project.Client.{game_over_at}
use tcg_final_project.Client.Answers.{Layout, wire, only_errors-games_in}
use tcg_final_project.Client.App.{between}
use tcg_final_project.Client.Stress.{both, over, wait_loop, wait_loop-others}
use tcg_final_project.Client.Telling.{Tells, step_play-Tells, step_end_turn-Tells}
use tcg_final_project.Client.Worker.{
  Ended, summed, after_wait, ask, play_rounds, play_first, turn_end,
}

-- A process that has left its loop ends the connection.
abbrev pub hang_up : World.Stage → List Received
hang_up World.closed = World.broken ∷ []
hang_up _ = []

-- The nanoseconds of `n` rounds.
unfoldable pub latencies : (ℕ → ℕ) → ℕ → ℕ → ℕ
latencies clock zero k = 0
latencies clock (suc n) k = (clock (k + 1) - clock k) + latencies clock n (k + 2)

module _ (c : Libc) (l : Layout)
    (placed : (st : State)
      → st.game_over ≤ 1
      → get_or (l.state_bytes st) game_over_at 0 ≡ st.game_over)
    (clock : ℕ → ℕ) (first : Bool) where
  open l use {state_bytes, state_length}

  -- The server behind a connection that loses nothing.
  unfoldable pub ask_server : Received → World → Option (List Received × World)
  ask_server r w = let w' = step c w r in some (between c l w w' ++ hang_up w'.stage, w')

  unfoldable pub game_ends : State → Bool
  game_ends st = first && not (st.game_over == 0)

  is_first : (st : State) → game_ends st ≡ true → first ≡ true
  unfolding game_ends
  is_first st h = ground (arith, h)

  wait_loop-behind :
      (st : State) (h : Hand)
      → st.game_over ≤ 1
      → wait_loop first false true (wire l (World.state st) ∷ wire l (World.hand h) ∷ [])
        ≡ (if game_ends st then over else both, wire l (World.hand h) ∷ [])
  unfolding wait_loop wire game_ends
  wait_loop-behind st h le =
      let size = (==_iff _ _).1 (state_length st) in
      elim (Bool-cases (first && not (st.game_over == 0))) [
        | inl last ↦ rw (size, placed st le, last) refl
        | inr on ↦ rw (size, placed st le, on) refl
      ]

  -- A thread has one hand more to read than it waits for, from the login on. It waits for the state
  -- that answers its request, and leaves the hand behind that.
  wait_loop-Tells :
      (w w' : World) (h0 : Hand)
      → (t : Tells w w')
      → wait_loop first false false
          (wire l (World.hand h0) ∷ (between c l w w' ++ hang_up w'.stage))
        ≡ (if game_ends w'.game.st then over else both, wire l (World.hand w'.game.hand) ∷ [])
  unfolding wait_loop wire
  wait_loop-Tells w w' h0 t =
      let game : List Reply = World.state w'.game.st ∷ World.hand w'.game.hand ∷ [] in
      let le = (t.serving.good.ready t.serving.at).shaped.over_le in
      let open_still : hang_up w'.stage ≡ [] = ap hang_up t.serving.at in
      let fresh : between c l w w' ≡ map (wire l) t.others ++ map (wire l) game =
        ap (λ s. map (wire l) (drop (length w.sent) s)) t.sent_eq
        ∙ ap (map (wire l)) (drop-append w.sent (t.others ++ game))
        ∙ map-append (wire l) t.others game in
      ap (wait_loop first false true)
        (ap (λ b. between c l w w' ++ b) open_still ∙ append-nil _ ∙ fresh)
      ∙ wait_loop-others l first true t.others (map (wire l) game)
          (only_errors-games_in t.others t.errors)
      ∙ wait_loop-behind w'.game.st w'.game.hand le

  -- An answer lets the rest of the round go on, or ends a first thread's rounds.
  data AskEnds (w w' : World) (h0 : Hand) (sum : ℕ) (on : List Received → World → Ended)
      (r : Received) : Type 0 where
    goes_on :
        ask ask_server clock first r (wire l (World.hand h0) ∷ []) w sum on
          ≡ on (wire l (World.hand w'.game.hand) ∷ []) w'
        → AskEnds w w' h0 sum on r
    ends :
        first ≡ true
        → ask ask_server clock first r (wire l (World.hand h0) ∷ []) w sum on ≡ summed sum
        → AskEnds w w' h0 sum on r

  ask-Tells :
      (r : Received) (w : World) (h0 : Hand) (sum : ℕ) (on : List Received → World → Ended)
      → Tells w (step c w r)
      → AskEnds w (step c w r) h0 sum on r
  unfolding ask_server
  ask-Tells r w h0 sum on t =
      let w' = step c w r in
      let e =
        ap (λ x. after_wait ask_server clock first x sum (λ rs. on rs w'))
          (wait_loop-Tells w w' h0 t) in
      elim (Bool-cases (game_ends w'.game.st)) [
        | inl last ↦ ends (is_first w'.game.st last) (e ∙ rw last refl)
        | inr more ↦ goes_on (e ∙ rw more refl)
      ]

  -- Some of `n` rounds, and all of them for any but the first thread, are played and summed.
  pub data Summed (n k sum : ℕ) (e : Ended) : Type 0 where
    summed_up :
        (m : ℕ)
        → m ≤ n
        → (first ≡ false → m ≡ n)
        → e ≡ summed (sum + latencies clock m k)
        → Summed n k sum e

  stopped : (n k sum : ℕ) (e : Ended) → first ≡ true → e ≡ summed sum → Summed n k sum e
  unfolding latencies
  stopped n k sum e one h =
      let nothing : sum ≡ sum + latencies clock 0 k = omega arith in
      summed_up 0 (omega arith) (λ other. absurd (cc (one, other))) (h ∙ ap summed nothing)

  one_more :
      (n k sum : ℕ) (e : Ended)
      → Summed n (k + 2) (sum + (clock (k + 1) - clock k)) e
      → Summed (suc n) k sum e
  unfolding latencies
  one_more n k sum e (summed_up m le all h) =
      let same : sum + (clock (k + 1) - clock k) + latencies clock m (k + 2)
          ≡ sum + latencies clock (suc m) k =
        omega arith in
      summed_up (suc m) (omega arith) (λ other. ap suc (all other)) (h ∙ ap summed same)

  pub play_rounds-Summed :
      (n k sum : ℕ) (w : World) (h0 : Hand)
      → IsServing w
      → Summed n k sum (play_rounds ask_server clock first n k sum (wire l (World.hand h0) ∷ []) w)
  unfolding play_rounds latencies
  play_rounds-Summed zero k sum w h0 v =
      let nothing : sum ≡ sum + latencies clock 0 k = omega arith in
      summed_up 0 (omega arith) (λ other. refl) (ap summed nothing)
  play_rounds-Summed (suc n) k sum w h0 v =
      let played = step_play-Tells c 0 w v in
      let w1 = step c w play_first in
      let ended = step_end_turn-Tells c w1 played.serving in
      let w2 = step c w1 turn_end in
      let on2 : List Received → World → Ended = λ rs2 s2.
        play_rounds ask_server clock first n (k + 2) (sum + (clock (k + 1) - clock k)) rs2 s2 in
      let on1 : List Received → World → Ended =
        λ rs1 s1. ask ask_server clock first turn_end rs1 s1 sum on2 in
      elim (ask-Tells play_first w h0 sum on1 played) [
        | ends one e ↦ stopped (suc n) k sum _ one e
        | goes_on e ↦ elim (ask-Tells turn_end w1 w1.game.hand sum on2 ended) [
          | ends one e2 ↦ stopped (suc n) k sum _ one (e ∙ e2)
          | goes_on e2 ↦ subst (Summed (suc n) k sum) (sym (e ∙ e2)) (
              one_more n k sum _ (
                play_rounds-Summed n (k + 2) (sum + (clock (k + 1) - clock k)) w2 w2.game.hand
                  ended.serving))
        ]
      ]
