-- ===== src/Game/Invariant.antt =====
-- What holds of a `state_t` of src/server.c between any two calls, however long the game.

use tcg_final_project.Prelude.{
  ℕ, ◌%◌, ◌<◌, ◌≤◌, ◌≡◌, Bool, true, false, ◌||◌, arith, length, length-set, inl, inr, Bool-cases,
}
use tcg_final_project.Prelude.Words.{sext16, add_int}
use tcg_final_project.Cards.{CardType, CardDef, atk, heal, shield, buff, poison}
use tcg_final_project.Game.Defs.{State, LogLine, takes_poison, log_lines}
use tcg_final_project.Game.Rules.{
  push_log, strike, apply_card, tick_p, tick_ai, tick_poison, check_game_over, apply_damage, judge,
  is_dead, absorb, wound, poisoned_hp,
}

-- Every field in its range, the ring of log lines of its size and its head inside it.
pub record IsShaped (st : State) : Type 0 where
  pub turn_le : st.turn ≤ 1
  pub mana_max : st.max_mana ≡ 3
  pub mana_le : st.mana ≤ 3
  pub head_lt : st.log_head < log_lines
  pub logs_length : length st.logs ≡ log_lines
  pub over_le : st.game_over ≤ 1
  pub p_word : st.p_hp < 65536
  pub ai_word : st.ai_hp < 65536
  pub p_turns : st.p_poison < 256
  pub ai_turns : st.ai_poison < 256

abbrev pub anyone_dead : State → Bool
anyone_dead st = is_dead st.p_hp || is_dead st.ai_hp

-- The game is over exactly when a fighter is dead, and then the winner is the judge's.
pub record IsSettled (st : State) : Type 0 where
  pub playing : st.game_over ≡ 0 → (anyone_dead st ≡ false) × (st.winner ≡ 0)
  pub ended : st.game_over ≡ 1 → (anyone_dead st ≡ true) × (st.winner ≡ judge st)

pub push_log-IsShaped : (st : State) (l : LogLine) → IsShaped st → IsShaped (push_log st l)
unfolding push_log
push_log-IsShaped st l v = ground (arith, length-set st.logs (st.log_head % log_lines) l)

pub poisoned_hp-lt : (hp : ℕ) → poisoned_hp hp < 65536
unfolding poisoned_hp
poisoned_hp-lt hp = ground arith

pub apply_damage-lt : (hp s d : ℕ) → hp < 65536 → (apply_damage hp s d).0 < 65536
unfolding apply_damage absorb wound
apply_damage-lt hp s d h = ground arith

pub tick_p-IsShaped : (st : State) → IsShaped st → IsShaped (tick_p st)
unfolding tick_p push_log
tick_p-IsShaped st v = ground (
  arith,
  poisoned_hp-lt st.p_hp,
  length-set st.logs (st.log_head % log_lines) (takes_poison true),
)

pub tick_ai-IsShaped : (st : State) → IsShaped st → IsShaped (tick_ai st)
unfolding tick_ai push_log
tick_ai-IsShaped st v = ground (
  arith,
  poisoned_hp-lt st.ai_hp,
  length-set st.logs (st.log_head % log_lines) (takes_poison false),
)

pub tick_poison-IsShaped : (st : State) → IsShaped st → IsShaped (tick_poison st)
unfolding tick_poison
tick_poison-IsShaped st v = tick_ai-IsShaped (tick_p st) (tick_p-IsShaped st v)

strike-IsShaped :
    (side : Bool) (c : CardDef) (st : State) → IsShaped st → IsShaped (strike side c st)
unfolding strike
strike-IsShaped true c st v = push_log-IsShaped _ _ (
    ground
      (arith, apply_damage-lt st.ai_hp st.ai_shield (add_int (sext16 c.value) (sext16 st.p_buff))))
strike-IsShaped false c st v = push_log-IsShaped _ _ (
    ground
      (arith, apply_damage-lt st.p_hp st.p_shield (add_int (sext16 c.value) (sext16 st.ai_buff))))

pub apply_card-IsShaped :
    (t : CardType) (side : Bool) (c : CardDef) (st : State)
    → IsShaped st
    → IsShaped (apply_card t side c st)
unfolding apply_card
apply_card-IsShaped atk side c st v = strike-IsShaped side c st v
apply_card-IsShaped heal true c st v = push_log-IsShaped _ _ (ground arith)
apply_card-IsShaped heal false c st v = push_log-IsShaped _ _ (ground arith)
apply_card-IsShaped shield true c st v = push_log-IsShaped _ _ (ground arith)
apply_card-IsShaped shield false c st v = push_log-IsShaped _ _ (ground arith)
apply_card-IsShaped buff true c st v = push_log-IsShaped _ _ (ground arith)
apply_card-IsShaped buff false c st v = push_log-IsShaped _ _ (ground arith)
apply_card-IsShaped poison true c st v = push_log-IsShaped _ _ (ground arith)
apply_card-IsShaped poison false c st v = push_log-IsShaped _ _ (ground arith)

pub check_game_over-IsShaped : (st : State) → IsShaped st → IsShaped (check_game_over st)
unfolding check_game_over push_log
check_game_over-IsShaped st v =
    ground (arith, length-set st.logs (st.log_head % log_lines) LogLine.game_over)

-- Whoever fell before the check, the game is settled after it.
pub check_game_over-IsSettled :
    (st : State) → st.game_over ≡ 0 → st.winner ≡ 0 → IsSettled (check_game_over st)
unfolding check_game_over push_log judge
check_game_over-IsSettled st e w = elim (Bool-cases (anyone_dead st)) [
  | inl d ↦ rw (e, d) (ground arith)
  | inr d ↦ rw (e, d) (ground arith)
]
