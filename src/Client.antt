-- ===== src/Client.antt =====
-- The clients' side of a session: `recv_until` of src/client_app.c, and what the network thread of
-- src/client_gui.c makes of a packet.
use tcg_final_project.Prelude.{
  ℕ, List, [], ◌∷◌, ◌++◌, length, take, drop, replicate, Bool, true, false, ◌&&◌, Option, none,
  some, ◌==◌, leb, if◌then◌else◌, get_or,
}
use tcg_final_project.Prelude.Words.{neg}
use tcg_final_project.Proto.Opcode.{
  op_ping, op_pong, op_login_req, op_login_resp, op_resume_req, op_resume_resp, op_state, op_hand,
}
use tcg_final_project.Session.World.{Received, broken, get_u64}
use tcg_final_project.Session.World
pub mod Answers
pub mod Memory
pub mod Stress
pub mod App
pub mod InStep
pub mod Worker
pub mod Telling
pub mod Rounds
pub mod Thread
pub mod Statistics
pub mod NetThread
pub mod Clicking
pub mod Hearing
pub mod Playing
pub mod Flight
pub mod Returning
pub mod Asking
pub mod Reconnecting
pub mod Structs
pub mod Packing
pub mod Bytes
pub mod Screen
pub mod Drawing
pub mod Launch

-- `sizeof(state_t)`, `sizeof(hand_t)` and `sizeof(resume_resp_t)`, which are packed.
abbrev pub state_size : ℕ
state_size = 405

abbrev pub hand_size : ℕ
hand_size = 17

abbrev pub resume_resp_size : ℕ
resume_resp_size = 12

-- The locals of `recv_until`; the structures are their bytes.
pub record Heard : Type 0 where
  pub got_state : Bool
  pub got_hand : Bool
  pub st : List ℕ
  pub hand : List ℕ

-- What one packet changes.
unfoldable pub note_packet : ℕ → List ℕ → Heard → Heard
note_packet op payload h =
    if op == op_state && length payload == state_size
    then record h { got_state = true; st = payload }
    else if op == op_hand && length payload == hand_size
    then record h { got_hand = true; hand = payload }
    else h

-- The loop over what `proto_recv` returns: the result, none while it waits for a packet; the locals;
-- and what is not read yet.
unfoldable pub recv_loop : List Received → Heard → (Option ℕ) × Heard × List Received
recv_loop [] h = (if h.got_state && h.got_hand then some 0 else none, h, [])
recv_loop (broken ∷ rs) h =
    if h.got_state && h.got_hand then (some 0, h, broken ∷ rs) else (some (neg 1), h, rs)
recv_loop (World.packet op payload ∷ rs) h =
    let rest = recv_loop rs (note_packet op payload h) in
    if h.got_state && h.got_hand then (some 0, h, World.packet op payload ∷ rs) else rest

unfoldable pub recv_until : List Received → List ℕ → List ℕ → (Option ℕ) × Heard × List Received
recv_until rs st hand =
    recv_loop rs (record { got_state = false; got_hand = false; st = st; hand = hand })

-- `g_session_id` and `g_sh`. The damage that floats over a figure is left to the drawing.
pub record Gui : Type 0 where
  pub session_id : ℕ
  pub st : List ℕ
  pub hand : List ℕ
  pub has_state : Bool
  pub has_hand : Bool
  pub connected : Bool
  pub game_over : ℕ

-- The place of `game_over` in `state_t`.
abbrev pub game_over_at : ℕ
game_over_at = 6

-- The request that opens a connection.
unfoldable pub opening : (ℕ → List ℕ) → Gui → Received
opening put_u64 g =
    if g.session_id == 0
    then World.packet op_login_req []
    else World.packet op_resume_req (put_u64 g.session_id)

-- `OP_RESUME_RESP` with its payload: true if the thread breaks the connection off.
unfoldable pub on_resume_resp : List ℕ → Gui → Bool × Gui
on_resume_resp payload g =
    if leb resume_resp_size (length payload)
    then (if get_u64 (take 4 payload) == 0
        then (true, record g { session_id = 0 })
        else (false, record g { session_id = get_u64 (take 8 (drop 4 payload)) }))
    else (false, g)

-- One packet from the server.
unfoldable pub on_packet : ℕ → List ℕ → Gui → Bool × Gui
on_packet op payload g =
    if op == op_pong
    then (false, g)
    else if op == op_resume_resp
    then on_resume_resp payload g
    else if op == op_login_resp
    then (false, g)
    else if op == op_state && length payload == state_size
    then (
      false,
      record g {
        st = payload;
        has_state = true;
        connected = true;
        game_over = get_or payload game_over_at 0;
      },
    )
    else if op == op_hand && length payload == hand_size
    then (false, record g { hand = payload; has_hand = true })
    else (false, g)

-- The packets of one connection, in order: true if the thread has broken off.
unfoldable pub on_packets : List Received → Gui → Bool × Gui
on_packets [] g = (false, g)
on_packets (broken ∷ rs) g = (true, g)
on_packets (World.packet op payload ∷ rs) g =
    let (stop, g') = on_packet op payload g in
    elim stop [ true ↦ (true, g') | false ↦ on_packets rs g' ]
