-- ===== src/Client/Telling.antt =====
-- What the server of src/server.c sends behind a request of a player: errors, and then the game.
use native.Mathlib.Decide.{ℕ_discrete}
use tcg_final_project.Prelude.{
  ℕ, ◌≡◌, ◌≢◌, refl, sym, ap, ◌∙◌, List, [], ◌∷◌, ◌++◌, ◌==◌, ==_iff, true, arith,
}
use mathlib.Core.List.{append_assoc, append-nil}
use mathlib.Core.Path.{subst}
use tcg_final_project.Game.Rules.{handle_play_card}
use tcg_final_project.Game.Turns.{phase_end}
use tcg_final_project.Proto.Opcode.{op_play_card, op_end_turn}
use tcg_final_project.Session.World.{Libc, World, Reply, Received, send, send_game, save, touch}
use tcg_final_project.Session.World
use tcg_final_project.Session.Serve.{complain, let_ai_play, play, on_end_turn, step}
use tcg_final_project.Session.Duty.{IsServing, my_turn}
use tcg_final_project.Session.Serving.{counted-IsServing}
use tcg_final_project.Session.Waiting.{
  counted, send_game-IsServing, play-IsServing, on_end_turn-IsServing, step-play, step-on_end_turn,
  step-over,
}
use tcg_final_project.Client.Answers.{only_errors, complain-told, let_ai_play-sent}

-- From `w` to `w'` the server sends the game of `w'` behind other replies, and it waits again.
pub record Tells (w w' : World) : Type 0 where
  pub others : List Reply
  pub sent_eq :
      w'.sent ≡ w.sent ++ (others ++ World.state w'.game.st ∷ World.hand w'.game.hand ∷ [])
  pub errors : only_errors others ≡ true
  pub serving : IsServing w'

pub send_game-sent :
    (w w1 : World) (others : List Reply)
    → w1.sent ≡ w.sent ++ others
    → (send_game w1).sent
      ≡ w.sent ++ (others ++ World.state w1.game.st ∷ World.hand w1.game.hand ∷ [])
unfolding send_game send
send_game-sent w w1 others before =
    let game : List Reply = World.state w1.game.st ∷ World.hand w1.game.hand ∷ [] in
    append_assoc w1.sent (World.state w1.game.st ∷ []) (World.hand w1.game.hand ∷ [])
    ∙ ap (λ b. b ++ game) before
    ∙ append_assoc w.sent others game

send_game-Tells :
    (w w1 : World) (others : List Reply)
    → w1.sent ≡ w.sent ++ others
    → only_errors others ≡ true
    → IsServing (send_game w1)
    → Tells w (send_game w1)
unfolding send_game send
send_game-Tells w w1 others before errors serving = record {
  others = others;
  sent_eq = send_game-sent w w1 others before;
  errors = errors;
  serving = serving;
}

module _ (c : Libc) where
  play-Tells :
      (idx : ℕ) (w : World) → IsServing w → w.game.st.game_over ≡ 0 → Tells w (play c idx w)
  unfolding play save
  play-Tells idx w v on =
      let (rc, st) = handle_play_card w.game.st w.game.hand true idx in
      let played = record w { game = record w.game { st = st } } in
      let (others, told, quiet) = complain-told rc played in
      send_game-Tells w (save c (complain rc played)) others told quiet
        (play-IsServing c idx w v on)

  on_end_turn-Tells :
      (w : World) → IsServing w → w.game.st.game_over ≡ 0 → Tells w (on_end_turn c w)
  unfolding on_end_turn save only_errors
  on_end_turn-Tells w v on =
      let (turn, _) = my_turn w.game.st v.players on in
      let mine : (w.game.st.turn == 0) ≡ true = (==_iff _ _).1 turn in
      let ended = save c (record w { game = phase_end c.rand w.game }) in
      let same : on_end_turn c w ≡ send_game (let_ai_play c ended) = rw mine refl in
      subst (λ w'. Tells w w') (sym same)
        (send_game-Tells w (let_ai_play c ended) []
          (let_ai_play-sent c ended ∙ sym (append-nil w.sent)) refl
          (subst IsServing same (on_end_turn-IsServing c w v on)))

  over-Tells : (w : World) → IsServing w → Tells w (send_game w)
  unfolding only_errors
  over-Tells w v = send_game-Tells w w [] (sym (append-nil w.sent)) refl (send_game-IsServing w v)

  -- The count of a packet sends nothing.
  of_counted : (w w' : World) → Tells (counted c w) w' → Tells w w'
  unfolding touch
  of_counted w w' t = record {
    others = t.others;
    sent_eq = t.sent_eq;
    errors = t.errors;
    serving = t.serving;
  }

  is_over : (w : World) → IsServing w → w.game.st.game_over ≢ 0 → w.game.st.game_over ≡ 1
  is_over w v past = let most = (v.good.ready v.at).shaped.over_le in omega (arith, most, past)

  -- Whatever the state of the game, a play and the end of a turn are answered with it.
  pub step_play-Tells :
      (idx : ℕ) (w : World)
      → IsServing w
      → Tells w (step c w (World.packet op_play_card (idx ∷ [])))
  unfolding touch
  step_play-Tells idx w v =
      let x = counted-IsServing c w v in
      elim (ℕ_discrete w.game.st.game_over 0) [
        | yes on ↦
            subst (λ w'. Tells w w') (sym (step-play c idx w v on))
              (of_counted w _ (play-Tells idx (counted c w) x on))
        | no past ↦
            subst (λ w'. Tells w w')
              (sym (step-over c op_play_card (idx ∷ []) w v (is_over w v past) refl))
              (of_counted w _ (over-Tells (counted c w) x))
      ]

  pub step_end_turn-Tells :
      (w : World) → IsServing w → Tells w (step c w (World.packet op_end_turn []))
  unfolding touch
  step_end_turn-Tells w v =
      let x = counted-IsServing c w v in
      elim (ℕ_discrete w.game.st.game_over 0) [
        | yes on ↦
            subst (λ w'. Tells w w') (sym (step-on_end_turn c w v on))
              (of_counted w _ (on_end_turn-Tells (counted c w) x on))
        | no past ↦
            subst (λ w'. Tells w w') (sym (step-over c op_end_turn [] w v (is_over w v past) refl))
              (of_counted w _ (over-Tells (counted c w) x))
      ]
