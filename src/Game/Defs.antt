-- ===== src/Game/Defs.antt =====
-- The data of src/common/proto.h that the game works on: `state_t`, `hand_t`, and what `run_session`
-- keeps of a game.
use tcg_final_project.Prelude.{ℕ, Bool, List, replicate}
use tcg_final_project.Cards.{CardType}

-- `phase_t`; the byte `phase` holds nothing else.
pub data Phase : Type 0 where
  draw main finish : Phase

-- One line of the log: the format and the arguments given to `push_log`. What text `vsnprintf` makes
-- of them is the C library's. A line that begins with its speaker has a flag, true for "P" and false
-- for "AI".
pub data LogLine : Type 0 where
  blank : LogLine
  takes_poison : Bool → LogLine
  game_over : LogLine
  plays : Bool → CardType → ℕ → ℕ → LogLine
  draw_phase : Bool → LogLine
  end_phase : Bool → LogLine
  resumed : LogLine

-- `state_t`. The hit points, shields and buffs are `int16_t`, the other numbers `uint8_t`.
pub record State : Type 0 where
  pub p_hp : ℕ
  pub ai_hp : ℕ
  pub turn : ℕ
  pub phase : Phase
  pub game_over : ℕ
  pub winner : ℕ
  pub mana : ℕ
  pub max_mana : ℕ
  pub p_shield : ℕ
  pub ai_shield : ℕ
  pub p_buff : ℕ
  pub ai_buff : ℕ
  pub p_poison : ℕ
  pub ai_poison : ℕ
  pub log_head : ℕ
  pub logs : List LogLine

-- `hand_t`
pub record Hand : Type 0 where
  pub n : ℕ
  pub card_ids : List ℕ

-- The locals `st` and `hand` of a session's process, and how often it has called `rand`.
pub record Game : Type 0 where
  pub st : State
  pub hand : Hand
  pub rands : ℕ

-- `LOG_LINES`
abbrev pub log_lines : ℕ
log_lines = 6

-- What `memset` to 0 leaves.
abbrev pub zero_state : State
zero_state = record {
  p_hp = 0;
  ai_hp = 0;
  turn = 0;
  phase = draw;
  game_over = 0;
  winner = 0;
  mana = 0;
  max_mana = 0;
  p_shield = 0;
  ai_shield = 0;
  p_buff = 0;
  ai_buff = 0;
  p_poison = 0;
  ai_poison = 0;
  log_head = 0;
  logs = replicate 6 blank;
}

abbrev pub zero_hand : Hand
zero_hand = record { n = 0; card_ids = replicate 8 0 }
