-- ===== src/Client/NetThread.antt =====
-- `net_thread` of src/client_gui.c, with the pipe on which the main thread asks it to send, and what a
-- click asks for in `main`.
use tcg_final_project.Prelude.{
  ℕ, ◌-◌, List, [], ◌∷◌, ◌++◌, Bool, true, false, ◌&&◌, Option, none, some, ◌==◌, leb, ltb,
  if◌then◌else◌, get_or,
}
use tcg_final_project.Prelude.Words.{u8}
use tcg_final_project.Proto.Opcode.{op_ping, op_play_card, op_end_turn}
use tcg_final_project.Session.World.{Received}
use tcg_final_project.Session.World
use tcg_final_project.Client.{Gui, on_packet, opening, game_over_at}

-- A command on the pipe.
pub record Command : Type 0 where
  pub op : ℕ
  pub hand_idx : ℕ

-- What `select` finds: an error, nothing, or the pipe and the socket as they are ready. The socket is
-- what `proto_recv` returns.
pub data Selected : Type 0 where
  error idle : Selected
  ready : Option Command → Option Received → Selected

-- One round of the receive loop: the time, whether `proto_send` of a ping succeeds, and `select`.
pub record Turn : Type 0 where
  pub now : ℕ
  pub ping_sent : Bool
  pub found : Selected

-- The thread on a connection: what it shares, when it sent the last ping, and the packets sent.
pub record Net : Type 0 where
  pub gui : Gui
  pub last_ping : ℕ
  pub sent : List Received

unfoldable pub on_command : Command → Net → Net
on_command cmd n =
    if cmd.op == op_play_card
    then record n { sent = n.sent ++ World.packet op_play_card (cmd.hand_idx ∷ []) ∷ [] }
    else if cmd.op == op_end_turn
    then record n { sent = n.sent ++ World.packet op_end_turn [] ∷ [] }
    else n

abbrev pub on_pipe : Option Command → Net → Net
on_pipe none n = n
on_pipe (some cmd) n = on_command cmd n

-- True if the loop is left.
unfoldable pub on_socket : Option Received → Net → Bool × Net
on_socket none n = (false, n)
on_socket (some World.broken) n = (true, n)
on_socket (some (World.packet op payload)) n =
    let (stop, g) = on_packet op payload n.gui in (stop, record n { gui = g })

unfoldable pub on_select : Selected → Net → Bool × Net
on_select error n = (true, n)
on_select idle n = (false, n)
on_select (ready cmd got) n = on_socket got (on_pipe cmd n)

-- The heartbeat, every two seconds.
unfoldable pub heartbeat : ℕ → Bool → Net → Bool × Net
heartbeat now ok n =
    if leb 2 (now - n.last_ping)
    then (if ok
        then (false, record n { last_ping = now; sent = n.sent ++ World.packet op_ping [] ∷ [] })
        else (true, n))
    else (false, n)

unfoldable pub turn : Turn → Net → Bool × Net
turn t n =
    let (stop, n') = heartbeat t.now t.ping_sent n in
    elim stop [ true ↦ (true, n') | false ↦ on_select t.found n' ]

-- The receive loop: true if it has been left.
unfoldable pub turns : List Turn → Net → Bool × Net
turns [] n = (false, n)
turns (t ∷ ts) n =
    let (stop, n') = turn t n in elim stop [ true ↦ (true, n') | false ↦ turns ts n' ]

-- A round of the outer loop: the connection or the TLS handshake fails; the first request cannot be
-- sent; or the receive loop runs, from a time on.
pub data Attempt : Type 0 where
  no_connection no_tls no_send : Attempt
  connected : ℕ → List Turn → Attempt

unfoldable pub attempt : (ℕ → List ℕ) → Attempt → Gui → Bool × Net
attempt put_u64 no_connection g =
    (true, record { gui = record g { connected = false }; last_ping = 0; sent = [] })
attempt put_u64 no_tls g = (true, record { gui = g; last_ping = 0; sent = [] })
attempt put_u64 no_send g = (true, record { gui = g; last_ping = 0; sent = [] })
attempt put_u64 (connected now ts) g =
    let (stop, n) = turns ts (record { gui = g; last_ping = now; sent = opening put_u64 g ∷ [] }) in
    if stop then (true, record n { gui = record n.gui { connected = false } }) else (false, n)

-- The thread, up to a connection that stands.
unfoldable pub net_thread : (ℕ → List ℕ) → List Attempt → Gui → Bool × Gui
net_thread put_u64 [] g = (true, g)
net_thread put_u64 (a ∷ more) g =
    let (stop, n) = attempt put_u64 a g in
    let later = net_thread put_u64 more n.gui in if stop then later else (false, n.gui)

-- Where the mouse is: on the button, in the frame of a card, or elsewhere.
pub data Target : Type 0 where
  end_button elsewhere : Target
  card : ℕ → Target

-- The place of `turn` in `state_t`.
abbrev pub turn_at : ℕ
turn_at = 4

-- The cards that are shown.
unfoldable pub shown_cards : Gui → ℕ
shown_cards g = let n = get_or g.hand 0 0 in if g.has_hand then (if ltb 3 n then 3 else n) else 0

-- Whether a click may ask for something.
unfoldable pub may_ask : Gui → Bool
may_ask g =
    g.connected
    && g.has_state
    && g.has_hand
    && get_or g.st game_over_at 0 == 0
    && get_or g.st turn_at 0 == 0

abbrev pub is_selected : ℕ → Option ℕ → Bool
is_selected i none = false
is_selected i (some j) = i == j

-- A click that may ask for something, with a card selected or none: the command that goes to the
-- thread, and what is selected then.
unfoldable pub choose : Gui → Target → Option ℕ → Option Command × Option ℕ
choose g end_button selected = (some (record { op = op_end_turn; hand_idx = 0 }), none)
choose g (card i) selected =
    if ltb i (shown_cards g)
    then (if is_selected i selected
        then (some (record { op = op_play_card; hand_idx = u8 i }), none)
        else (none, some i))
    else (none, none)
choose g elsewhere selected = (none, none)

unfoldable pub click : Gui → Target → Option ℕ → Option Command × Option ℕ
click g at selected = if may_ask g then choose g at selected else (none, selected)
