-- ===== src/Tests/Games.antt =====
-- Cards, plays and turns of src/server.c and src/common/cards.c at concrete states.
use tcg_final_project.Prelude.{
  ℕ, ◌+◌, ◌*◌, ◌≤◌, ◌≡◌, ◌⊎◌, inl, inr, refl, arith, [], ◌∷◌, none, true, false,
}
use tcg_final_project.Cards.{CardDef, atk, get_card_def}
use tcg_final_project.Game.Defs.{State, Hand, Game, Phase, zero_state}
use tcg_final_project.Game.Rules.{apply_card, handle_play_card}
use tcg_final_project.Game.Turns.{phase_end}
use tcg_final_project.Game.Ai.{best_card, ai_choice, ai_loop, process_ai_turn}
use tcg_final_project.Game.Spec.{effect, duel, fighter, HasRoom, apply_card_refines}
use tcg_final_project.Game.Invariant.{IsShaped, IsSettled}
use tcg_final_project.Game.Play.{Outcome, handle_play_card-Outcome}
use tcg_final_project.Game.Hands.{IsHand}
use tcg_final_project.Game.Handover.{IsSound, HasBegun, TurnEnds, phase_end_lem}
use tcg_final_project.Game.Choice.{Chosen, best_card-Chosen}
use tcg_final_project.Game.AiTurn.{ai_loop_exits, process_ai_turn_lem}

-- The player's first turn, after a poisoning and with a buff.
abbrev pub fresh : State
fresh = record zero_state {
  p_hp = 30;
  ai_hp = 30;
  phase = Phase.main;
  mana = 3;
  max_mana = 3;
  p_buff = 2;
  ai_shield = 4;
  p_poison = 1;
}

-- The AI's turn.
abbrev ai_state : State
ai_state = record fresh { turn = 1 }

abbrev three_cards : Hand
three_cards = record { n = 3; card_ids = 102 ∷ 300 ∷ 500 ∷ 0 ∷ 0 ∷ 0 ∷ 0 ∷ 0 ∷ [] }

abbrev ai_game : Game
ai_game = record { st = ai_state; hand = three_cards; rands = 7 }

abbrev counting : ℕ → ℕ
counting n = n * n + 5

abbrev card_102 : CardDef
card_102 = record { id = 102; type = atk; cost = 3; value = 8; duration = 0; name = "Execute" }

fresh-IsShaped : IsShaped fresh
fresh-IsShaped = record {
  turn_le = omega arith;
  mana_max = refl;
  mana_le = omega arith;
  head_lt = omega arith;
  logs_length = refl;
  over_le = omega arith;
  p_word = omega arith;
  ai_word = omega arith;
  p_turns = omega arith;
  ai_turns = omega arith;
}

fresh-IsSettled : IsSettled fresh
fresh-IsSettled = record { playing = λ _. (refl, refl); ended = λ e. absurd (omega arith) }

three_cards-IsHand : IsHand three_cards
unfolding get_card_def
three_cards-IsHand = record {
  n_eq = refl;
  places = refl;
  known = (
    inr (_, refl),
    (
      inr (_, refl),
      (inr (_, refl), (inl refl, (inl refl, (inl refl, (inl refl, (inl refl, tt)))))),
    ),
  );
}

ai_game-IsSound : IsSound ai_game
ai_game-IsSound = record {
  shaped = record {
    turn_le = omega arith;
    mana_max = refl;
    mana_le = omega arith;
    head_lt = omega arith;
    logs_length = refl;
    over_le = omega arith;
    p_word = omega arith;
    ai_word = omega arith;
    p_turns = omega arith;
    ai_turns = omega arith;
  };
  settled = record { playing = λ _. (refl, refl); ended = λ e. absurd (omega arith) };
  holds = three_cards-IsHand;
}

fresh-HasRoom : (v : ℕ) → v ≤ 8 → HasRoom v (fighter true fresh) × HasRoom v (fighter false fresh)
fresh-HasRoom v h = (
  record {
    hp_room = omega arith;
    armour_room = omega arith;
    rage_room = omega arith;
    venom_room = omega arith;
  },
  record {
    hp_room = omega arith;
    armour_room = omega arith;
    rage_room = omega arith;
    venom_room = omega arith;
  },
)

apply_card_refines_example :
    duel true (apply_card atk true card_102 fresh) ≡ effect atk 8 (duel true fresh)
apply_card_refines_example =
    apply_card_refines atk true card_102 fresh (fresh-HasRoom 8 (omega arith)).0
      (fresh-HasRoom 8 (omega arith)).1

handle_play_card-Outcome_example :
    Outcome fresh three_cards true 0 (handle_play_card fresh three_cards true 0)
handle_play_card-Outcome_example = handle_play_card-Outcome fresh three_cards true 0 (omega arith)

phase_end_lem_example :
    IsSound (phase_end counting ai_game) × TurnEnds counting ai_game (phase_end counting ai_game)
phase_end_lem_example = phase_end_lem counting ai_game ai_game-IsSound refl

best_card-Chosen_example : Chosen ai_state three_cards (best_card ai_state three_cards)
best_card-Chosen_example = best_card-Chosen ai_state three_cards

ai_loop_exits_example :
    (ai_choice (ai_loop 4 ai_game) ≡ none)
    × IsSound (ai_loop 4 ai_game)
    × ((ai_loop 4 ai_game).st.turn ≡ 1)
ai_loop_exits_example = ai_loop_exits 4 ai_game ai_game-IsSound (omega arith)

process_ai_turn_lem_example :
    IsSound (process_ai_turn counting ai_game)
    × (((process_ai_turn counting ai_game).st.game_over ≡ 1)
        ⊎ HasBegun 0 (process_ai_turn counting ai_game))
process_ai_turn_lem_example = process_ai_turn_lem counting ai_game ai_game-IsSound refl
