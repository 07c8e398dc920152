-- ===== src/Client/Packing.antt =====
-- What a client reads of the packed structures of src/common/proto.h is what the server has put there.
use tcg_final_project.Prelude.{
  ℕ, zero, suc, ◌*◌, ◌<◌, ◌≤◌, ◌≡◌, refl, ◌∙◌, List, [], ◌∷◌, ◌++◌, length, length-append, get_or,
  arith,
}
use tcg_final_project.Game.Defs.{State, Hand, Phase, LogLine, blank}
use tcg_final_project.Session.World.{get_u64}
use tcg_final_project.Session.Resumption.{bytes_of, get_u64-bytes_of}
use tcg_final_project.Client.{state_size, hand_size, game_over_at}
use tcg_final_project.Client.Answers.{Layout}
use tcg_final_project.Client.Structs.{
  Text, phase_byte, head_bytes, ids_bytes, packed_hand, lines_bytes, packed_state, Seen, read_state,
  read_hand, ids_read,
}

-- Every field is within its type.
pub record IsWords (st : State) : Type 0 where
  pub p_hp_lt : st.p_hp < 65536
  pub ai_hp_lt : st.ai_hp < 65536
  pub turn_lt : st.turn < 256
  pub game_over_lt : st.game_over < 256
  pub winner_lt : st.winner < 256
  pub mana_lt : st.mana < 256
  pub max_mana_lt : st.max_mana < 256
  pub p_shield_lt : st.p_shield < 65536
  pub ai_shield_lt : st.ai_shield < 65536
  pub p_buff_lt : st.p_buff < 65536
  pub ai_buff_lt : st.ai_buff < 65536
  pub p_poison_lt : st.p_poison < 256
  pub ai_poison_lt : st.ai_poison < 256
  pub log_head_lt : st.log_head < 256

word : (n : ℕ) → n < 65536 → get_u64 (bytes_of 2 n) ≡ n
word n h = get_u64-bytes_of 2 n (omega arith)

byte : (n : ℕ) → n < 256 → get_u64 (bytes_of 1 n) ≡ n
byte n h = get_u64-bytes_of 1 n (omega arith)

phase_byte-lt : (p : Phase) → phase_byte p < 256
phase_byte-lt Phase.draw = omega arith
phase_byte-lt Phase.main = omega arith
phase_byte-lt Phase.finish = omega arith

abbrev pub AllWords : List ℕ → Type 0
AllWords [] = Unit {0}
AllWords (x ∷ xs) = (x < 65536) × AllWords xs

ids_read-ids_bytes :
    (k : ℕ) (ids : List ℕ) → length ids ≡ k → AllWords ids → ids_read k (ids_bytes k ids) ≡ ids
ids_read-ids_bytes zero [] h v = refl
ids_read-ids_bytes zero (x ∷ xs) h v = absurd (omega (arith, h))
ids_read-ids_bytes (suc k) [] h v = absurd (omega (arith, h))
ids_read-ids_bytes (suc k) (x ∷ xs) h v =
    cc (word x v.0, ids_read-ids_bytes k xs (omega (arith, h)) v.1)

-- What a client reads of the 17 bytes of a `hand_t` is the hand that the server has put there, if
-- it has eight places, and its numbers are within their types.
pub read_hand-packed_hand :
    (h : Hand)
    → h.n < 256
    → length h.card_ids ≡ 8
    → AllWords h.card_ids
    → read_hand (packed_hand h) ≡ h
unfolding read_hand packed_hand
read_hand-packed_hand h small places v =
    cc (byte h.n small, ids_read-ids_bytes 8 h.card_ids places v)

ids_bytes-length : (k : ℕ) (ids : List ℕ) → length (ids_bytes k ids) ≡ k * 2
ids_bytes-length zero ids = refl
ids_bytes-length (suc k) [] = omega (arith, ids_bytes-length k [])
ids_bytes-length (suc k) (x ∷ xs) = omega (arith, ids_bytes-length k xs)

pub packed_hand-length : (h : Hand) → length (packed_hand h) ≡ hand_size
unfolding packed_hand
packed_hand-length h = omega (arith, ids_bytes-length 8 h.card_ids)

module _ (t : Text) where
  -- The server's state as a client has it.
  abbrev pub seen : State → Seen
  seen st = record {
    p_hp = st.p_hp;
    ai_hp = st.ai_hp;
    turn = st.turn;
    phase = phase_byte st.phase;
    game_over = st.game_over;
    winner = st.winner;
    mana = st.mana;
    max_mana = st.max_mana;
    p_shield = st.p_shield;
    ai_shield = st.ai_shield;
    p_buff = st.p_buff;
    ai_buff = st.ai_buff;
    p_poison = st.p_poison;
    ai_poison = st.ai_poison;
    log_head = st.log_head;
    log_bytes = lines_bytes t 6 0 st.logs;
  }

  -- What a client reads of the 405 bytes of a `state_t` is, field by field, what the server has put
  -- there, and the bytes of the log's lines, if each field is within its type.
  pub read_state-packed_state : (st : State) → IsWords st → read_state (packed_state t st) ≡ seen st
  unfolding read_state packed_state head_bytes
  read_state-packed_state st v = cc (
    word st.p_hp v.p_hp_lt,
    word st.ai_hp v.ai_hp_lt,
    byte st.turn v.turn_lt,
    byte (phase_byte st.phase) (phase_byte-lt st.phase),
    byte st.game_over v.game_over_lt,
    byte st.winner v.winner_lt,
    byte st.mana v.mana_lt,
    byte st.max_mana v.max_mana_lt,
    word st.p_shield v.p_shield_lt,
    word st.ai_shield v.ai_shield_lt,
    word st.p_buff v.p_buff_lt,
    word st.ai_buff v.ai_buff_lt,
    byte st.p_poison v.p_poison_lt,
    byte st.ai_poison v.ai_poison_lt,
    byte st.log_head v.log_head_lt,
  )

  lines_bytes-length : (k i : ℕ) (lines : List LogLine) → length (lines_bytes t k i lines) ≡ k * 64
  lines_bytes-length zero i lines = refl
  lines_bytes-length (suc k) i lines =
      length-append (t.line_bytes (get_or lines i blank)) (lines_bytes t k (suc i) lines)
      ∙ omega (arith, t.line_length (get_or lines i blank), lines_bytes-length k (suc i) lines)

  pub packed_state-length : (st : State) → length (packed_state t st) ≡ state_size
  unfolding packed_state head_bytes
  packed_state-length st = omega (arith, lines_bytes-length 6 0 st.logs)

  -- The layout of the packed structures.
  abbrev pub packed : Layout
  packed = record {
    state_bytes = packed_state t;
    hand_bytes = packed_hand;
    login_bytes = bytes_of 4 1;
    resume_bytes = λ ok sid. bytes_of 4 ok ++ bytes_of 8 sid;
    error_bytes = λ code msg. bytes_of 4 code ++ t.msg_bytes msg;
    state_length = packed_state-length;
    hand_length = packed_hand-length;
  }

  -- `game_over` is where the clients look for it.
  pub packed-game_over :
      (st : State) → st.game_over ≤ 1 → get_or (packed_state t st) game_over_at 0 ≡ st.game_over
  unfolding packed_state head_bytes
  packed-game_over st le = omega arith
