-- ===== src/Session/Growth.antt =====
-- How large the numbers of a game grow in a whole session of src/server.c.
use tcg_final_project.Prelude.{
  ℕ, ◌+◌, ◌<◌, ◌≤◌, ◌≡◌, refl, sym, ap, ◌∙◌, List, length, get_or, true, false, ◌&&◌, ◌||◌, ◌==◌,
  ==_iff, arith, Bool-cases, inl, inr,
}
use mathlib.Core.Path.{subst}
use tcg_final_project.Game.Defs.{State}
use tcg_final_project.Game.Rules.{handle_play_card}
use tcg_final_project.Game.Turns.{phase_end}
use tcg_final_project.Game.Ai.{is_main, process_ai_turn}
use tcg_final_project.Game.Handover.{IsSound}
use tcg_final_project.Game.Ledger.{
  Fits, handle_play_card-Fits, phase_end-Fits, process_ai_turn-Fits,
}
use tcg_final_project.Proto.Opcode.{op_ping, op_login_req, op_resume_req, op_play_card, op_end_turn}
use tcg_final_project.Session.World.{
  Libc, World, Received, Reply, playing, closed, send, send_game, save, touch, close,
}
use tcg_final_project.Session.World
use tcg_final_project.Session.Serve.{
  let_ai_play, play, on_play_card, on_end_turn, dispatch, answer, serve, step, step_at,
}
use tcg_final_project.Session.Invariant.{is_turn_error, send-IsGood}
use tcg_final_project.Session.Duty.{IsServing, IsSound-of, my_turn}
use tcg_final_project.Session.Serving.{counted-IsServing, end_saved}
use tcg_final_project.Session.Waiting.{
  counted, complain-game, send_game-IsServing, play-IsServing, on_end_turn-IsServing, step-serve,
}

-- The process waits for the player, and the game's numbers are those of `b` turns at most; or it has
-- ended.
pub data Lasts (b : ℕ) (w : World) : Type 0 where
  going : IsServing w → Fits b w.game.st → Lasts b w
  gone : w.stage ≡ closed → Lasts b w

Fits-more : (b : ℕ) (st : State) → Fits b st → Fits (b + 2) st
Fits-more b st v = ground arith

send-IsServing :
    (r : Reply) (w : World) → is_turn_error r ≡ false → IsServing w → IsServing (send r w)
unfolding send
send-IsServing r w q v = record { good = send-IsGood r w q v.good; at = v.at; players = v.players }

-- A reply changes nothing of the game.
sends :
    (b : ℕ) (r : Reply) (w : World)
    → is_turn_error r ≡ false
    → IsServing w
    → Fits b w.game.st
    → Lasts (b + 2) (send r w)
unfolding send
sends b r w q v f = going (send-IsServing r w q v) (Fits-more b w.game.st f)

module _ (c : Libc) (b : ℕ) (small : b + 2 ≤ 3600) where
  play-Fits :
      (idx : ℕ) (w : World)
      → w.game.st.mana < 256
      → Fits b w.game.st
      → Fits b (play c idx w).game.st
  unfolding play save send_game send
  play-Fits idx w m f =
      let r = handle_play_card w.game.st w.game.hand true idx in
      subst (λ g. Fits b g.st)
        (sym (complain-game r.0 (record w { game = record w.game { st = r.1 } })))
        (handle_play_card-Fits b (omega arith) w.game.st w.game.hand true idx m f)

  let_ai_play-Fits :
      (w : World) → IsSound w.game → Fits (b + 1) w.game.st → Fits (b + 2) (let_ai_play c w).game.st
  unfolding let_ai_play save
  let_ai_play-Fits w v f = elim (Bool-cases (w.game.st.turn == 1 && w.game.st.game_over == 0)) [
    | inl ai ↦
        let f' = process_ai_turn-Fits (b + 1) (omega arith) c.rand w.game v f in
        let same : b + 1 + 1 ≡ b + 2 = omega arith in
        rw ai (subst (λ k. Fits k (process_ai_turn c.rand w.game).st) same f')
    | inr other ↦ rw other (ground arith)
  ]

  on_end_turn-Fits :
      (w : World)
      → IsServing w
      → w.game.st.game_over ≡ 0
      → Fits b w.game.st
      → Fits (b + 2) (on_end_turn c w).game.st
  unfolding on_end_turn send_game send save
  on_end_turn-Fits w v on f =
      let (turn, _) = my_turn w.game.st v.players on in
      let mine : (w.game.st.turn == 0) ≡ true = (==_iff _ _).1 turn in
      let (good, at) = end_saved c w v on in
      let ended = save c (record w { game = phase_end c.rand w.game }) in
      let before = IsSound-of w.game (v.good.ready v.at) in
      rw mine (
        let_ai_play-Fits ended (IsSound-of ended.game (good.ready at))
          (phase_end-Fits b (omega arith) c.rand w.game before f))

  -- Whatever a player asks for in its turn.
  dispatch-Lasts :
      (op : ℕ) (payload : List ℕ) (w : World)
      → IsServing w
      → w.game.st.game_over ≡ 0
      → Fits b w.game.st
      → Lasts (b + 2) (dispatch c op payload w)
  unfolding dispatch on_play_card
  dispatch-Lasts op payload w v on f =
      let (turn, phase) = my_turn w.game.st v.players on in
      let mine : (w.game.st.turn == 0) ≡ true = (==_iff _ _).1 turn in
      let mana = (v.good.ready v.at).shaped.mana_le in
      elim (Bool-cases (op == op_play_card)) [
        | inl p ↦ elim (Bool-cases (length payload == 1)) [
          | inl one ↦
              let idx = get_or payload 0 0 in
              rw (p, mine, ap is_main phase, one)
                (going (play-IsServing c idx w v on)
                  (Fits-more b (play c idx w).game.st (play-Fits idx w (omega (arith, mana)) f)))
          | inr bad ↦ rw (p, mine, ap is_main phase, bad) (sends b _ w refl v f)
        ]
        | inr np ↦ elim (Bool-cases (op == op_end_turn)) [
          | inl e ↦ rw (np, e) (going (on_end_turn-IsServing c w v on) (on_end_turn-Fits w v on f))
          | inr ne ↦ elim (Bool-cases (op == op_login_req || op == op_resume_req)) [
            | inl l ↦ rw (np, ne, l) (going v (Fits-more b w.game.st f))
            | inr u ↦ rw (np, ne, u) (sends b _ w refl v f)
          ]
        ]
      ]

  answer-Lasts :
      (op : ℕ) (payload : List ℕ) (w : World)
      → IsServing w
      → Fits b w.game.st
      → Lasts (b + 2) (answer c op payload w)
  unfolding answer send_game send
  answer-Lasts op payload w v f = elim (Bool-cases (op == op_ping)) [
    | inl p ↦ rw p (sends b _ w refl v f)
    | inr np ↦ elim (Bool-cases (w.game.st.game_over == 0)) [
      | inl on ↦ rw (np, on) (dispatch-Lasts op payload w v ((==_iff _ _).0 on) f)
      | inr over ↦ rw (np, over) (going (send_game-IsServing w v) (Fits-more b w.game.st f))
    ]
  ]

  pub step-Lasts : (r : Received) (w : World) → Lasts b w → Lasts (b + 2) (step c w r)
  unfolding serve close step step_at touch
  step-Lasts World.broken w (going v f) =
      subst (Lasts (b + 2)) (sym (step-serve c w World.broken v)) (gone refl)
  step-Lasts (World.packet op payload) w (going v f) =
      subst (Lasts (b + 2)) (sym (step-serve c w (World.packet op payload) v))
        (answer-Lasts op payload (counted c w) (counted-IsServing c w v) f)
  step-Lasts r w (gone at) =
      let same : step c w r ≡ w = ap (λ s. step_at c s r w) at in gone (ap (λ x. x.stage) same ∙ at)
