-- ===== src/Session/Durable.antt =====
-- What the shared memory keeps of a session of src/server.c, and what a resumption gets back.
use tcg_final_project.Prelude.{ℕ, ◌≡◌, inl, inr, ap, true, ◌&&◌, some, ◌==◌, arith, Bool-cases}
use tcg_final_project.Ipc.Laws.{game_of, is_live}
use tcg_final_project.Session.World.{Libc, World, send, send_game, save}
use tcg_final_project.Session.Serve.{let_ai_play, play, on_end_turn}
use tcg_final_project.Session.Invariant.{save-saved}
use tcg_final_project.Session.Duty.{IsServing, my_turn}
use tcg_final_project.Session.Serving.{played-IsSavable}

-- The table's game of the session is the process's.
abbrev pub IsSaved : World → Type 0
IsSaved w = game_of w.store w.my_sid ≡ some (w.game.st, w.game.hand)

send_game-IsSaved : (w : World) → IsSaved w → IsSaved (send_game w)
unfolding send_game send
send_game-IsSaved w h = h

module _ (c : Libc) where
  save-IsSaved : (w : World) → is_live (game_of w.store w.my_sid) ≡ true → IsSaved (save c w)
  unfolding save
  save-IsSaved w live = save-saved c w live

  let_ai_play-IsSaved : (w : World) → IsSaved w → IsSaved (let_ai_play c w)
  unfolding let_ai_play
  let_ai_play-IsSaved w h = elim (Bool-cases (w.game.st.turn == 1 && w.game.st.game_over == 0)) [
    | inr other ↦ rw other h
    | inl ai ↦ rw ai (save-IsSaved _ (ap is_live h))
  ]

  -- After each card that the player plays, accepted or refused, and after each end of a turn, the AI's
  -- turn included, the table has the very game that the process goes on with.
  pub play-IsSaved :
      (idx : ℕ) (w : World)
      → IsServing w
      → w.game.st.game_over ≡ 0
      → IsSaved (play c idx w) × IsSaved (on_end_turn c w)
  unfolding play on_end_turn
  play-IsSaved idx w v on =
      let (t, _) = my_turn w.game.st v.players on in
      let mine : (w.game.st.turn == 0) ≡ true = ground arith in
      (
        send_game-IsSaved _ (save-IsSaved _ (played-IsSavable c idx w v on).live),
        rw mine (send_game-IsSaved _ (let_ai_play-IsSaved _ (save-IsSaved _ (v.good.live v.at)))),
      )
