-- ===== src/Game/Turns.antt =====
-- src/server.c: the draw of a hand and the state machine of a turn. `rand n` is what the process's
-- n-th call of `rand` returns.
use tcg_final_project.Prelude.{ℕ, ◌+◌, ◌%◌, List, [], ◌∷◌, ◌==◌, if◌then◌else◌, get_or}
use tcg_final_project.Prelude.Words.{u8}
use tcg_final_project.Game.Defs.{Game, Phase, draw_phase, end_phase}
use tcg_final_project.Game.Rules.{push_log, tick_poison, check_game_over}

-- `pool` of `rand_card_id`
abbrev pub pool : List ℕ
pool = 100 ∷ 101 ∷ 102 ∷ 200 ∷ 201 ∷ 300 ∷ 301 ∷ 400 ∷ 401 ∷ 500 ∷ 501 ∷ []

module _ (rand : ℕ → ℕ) where
  unfoldable pub rand_card_id : ℕ → ℕ
  rand_card_id k = get_or pool (rand k % 11) 0

  unfoldable pub deal_hand : Game → Game
  deal_hand g = record g {
    hand = record {
      n = 3;
      card_ids =
          rand_card_id g.rands
          ∷ rand_card_id (g.rands + 1)
          ∷ rand_card_id (g.rands + 2)
          ∷ 0
          ∷ 0
          ∷ 0
          ∷ 0
          ∷ 0
          ∷ [];
    };
    rands = g.rands + 3;
  }

  unfoldable pub phase_draw : Game → Game
  phase_draw g =
      let dealt = deal_hand (record g { st = record g.st { mana = g.st.max_mana } }) in
      record dealt {
        st = record (push_log dealt.st (draw_phase (dealt.st.turn == 0))) { phase = Phase.main };
      }

  unfoldable pub enter_turn : Game → ℕ → Game
  enter_turn g side =
      phase_draw (record g { st = record g.st { turn = u8 side; phase = Phase.draw } })

  unfoldable pub phase_end : Game → Game
  phase_end g =
      let shown = push_log (record g.st { phase = Phase.finish }) (end_phase (g.st.turn == 0)) in
      let st = check_game_over (tick_poison shown) in
      let ended = record g { st = st } in
      if st.game_over == 0 then enter_turn ended (if st.turn == 0 then 1 else 0) else ended
