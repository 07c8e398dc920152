-- ===== src/Proto/Opcode.antt =====
-- `enum opcode_t` of src/common/proto.h.
use tcg_final_project.Prelude.{ℕ}

abbrev pub op_login_req : ℕ
op_login_req = 0x0001

abbrev pub op_login_resp : ℕ
op_login_resp = 0x8001

abbrev pub op_ping : ℕ
op_ping = 0x0002

abbrev pub op_pong : ℕ
op_pong = 0x8002

abbrev pub op_resume_req : ℕ
op_resume_req = 0x0003

abbrev pub op_resume_resp : ℕ
op_resume_resp = 0x8003

abbrev pub op_play_card : ℕ
op_play_card = 0x0101

abbrev pub op_end_turn : ℕ
op_end_turn = 0x0102

abbrev pub op_state : ℕ
op_state = 0x0201

abbrev pub op_hand : ℕ
op_hand = 0x0202

abbrev pub op_error : ℕ
op_error = 0xFFFF
