-- ===== src/Client/App.antt =====
-- `run_app_mode` of src/client_app.c: the start, and the loop over the keys.
use tcg_final_project.Prelude.{
  ℕ, ◌-◌, List, [], ◌∷◌, drop, length, map, replicate, Bool, true, not, ◌||◌, Option, none, some,
  ◌==◌, leb, if◌then◌else◌, get_or,
}
use tcg_final_project.Prelude.Words.{u8}
use tcg_final_project.Proto.Opcode.{op_play_card, op_end_turn}
use tcg_final_project.Session.World.{Libc, World, Received}
use tcg_final_project.Session.World
use tcg_final_project.Session.Serve.{step}
use tcg_final_project.Client.{Heard, recv_until, game_over_at, state_size, hand_size}
use tcg_final_project.Client.Answers.{Layout, wire}

-- The locals `st` and `hand`, as bytes.
pub record App : Type 0 where
  pub st : List ℕ
  pub hand : List ℕ

-- What a key asks for.
pub data Request : Type 0 where
  quit nothing end_turn : Request
  play : ℕ → Request

-- A key is what `getch` returns.
unfoldable pub request : ℕ → App → Request
request ch a =
    if ch == b'q' || ch == b'Q'
    then quit
    else if not (get_or a.st game_over_at 0 == 0)
    then nothing
    else if ch == b'e' || ch == b'E'
    then end_turn
    else if ch == b'1' || ch == b'2' || ch == b'3'
    then (if leb (get_or a.hand 0 0) (ch - b'1') then nothing else play (u8 (ch - b'1')))
    else nothing

-- How a round of the loop ends: the loop goes on, it is left, or `recv_until` waits for a packet.
pub data Round : Type 0 where
  stays : App → Round
  leaves waits : Round

abbrev pub heard_round : Option ℕ → Heard → Round
heard_round none h = waits
heard_round (some rc) h = if rc == 0 then stays (record { st = h.st; hand = h.hand }) else leaves

-- A request and its answer: whether `proto_send` succeeds, and what `proto_recv` returns from then on.
unfoldable pub exchange : Bool → List Received → App → Round
exchange sent rs a =
    let (rc, h, _) = recv_until rs a.st a.hand in if sent then heard_round rc h else leaves

unfoldable pub app_round : Request → Bool → List Received → App → Round
app_round quit sent rs a = leaves
app_round nothing sent rs a = stays a
app_round end_turn sent rs a = exchange sent rs a
app_round (play i) sent rs a = exchange sent rs a

-- The start: whether the context, the connection, the two TLS handshakes and the login succeed, and
-- what `proto_recv` returns then. None is the result 1.
unfoldable pub start_app : Bool → Bool → Bool → Bool → List Received → Option Round
start_app ctx fd tls sent rs =
    if not ctx || not fd || not tls || not sent
    then none
    else elim (exchange true rs
        (record { st = replicate state_size 0; hand = replicate hand_size 0 })) [
          | leaves ↦ none
          | r ↦ some r
        ]

-- What follows a round: `on` is the rest of the loop.
abbrev pub follow : Round → World → (App → Round × World) → Round × World
follow (stays a) w on = on a
follow leaves w on = (leaves, w)
follow waits w on = (waits, w)

-- The packet that the server receives of a request.
abbrev pub packet_of : Request → Option Received
packet_of end_turn = some (World.packet op_end_turn [])
packet_of (play i) = some (World.packet op_play_card (i ∷ []))
packet_of _ = none

module _ (c : Libc) (l : Layout) where
  -- The server's world behind the request.
  abbrev pub served : Option Received → World → World
  served none w = w
  served (some r) w = step c w r

  -- The packets that came between.
  abbrev pub between : World → World → List Received
  between w w' = map (wire l) (drop (length w.sent) w'.sent)

  -- The loop over the keys against the server, over a connection that loses nothing.
  unfoldable pub drive : List ℕ → World → App → Round × World
  drive [] w a = (stays a, w)
  drive (ch ∷ keys) w a =
      let q = request ch a in
      let w' = served (packet_of q) w in
      follow (app_round q true (between w w') a) w' (λ a'. drive keys w' a')
