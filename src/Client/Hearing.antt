-- ===== src/Client/Hearing.antt =====
-- What the network thread of src/client_gui.c makes of the server's replies, src/server.c.
use tcg_final_project.Prelude.{
  ℕ, ◌≡◌, refl, ap, ◌∙◌, List, [], ◌∷◌, ◌++◌, map, get_or, true, false, ==_iff, arith,
}
use mathlib.Core.List.{map-append}
use tcg_final_project.Game.Defs.{State, Hand}
use tcg_final_project.Proto.Opcode.{op_state, op_hand}
use tcg_final_project.Session.World.{Reply, Received}
use tcg_final_project.Session.World
use tcg_final_project.Client.{Gui, game_over_at, on_packet, on_packets}
use tcg_final_project.Client.Answers.{Layout, wire, is_error, only_errors}

pub on_packets-cons :
    (op : ℕ) (payload : List ℕ) (rs : List Received) (g g' : Gui)
    → on_packet op payload g ≡ (false, g')
    → on_packets (World.packet op payload ∷ rs) g ≡ on_packets rs g'
unfolding on_packets
on_packets-cons op payload rs g g' h = rw (on_packets, h) (ap (λ r. on_packets rs r.1) h)

module _ (l : Layout) where
  open l use {state_bytes, hand_bytes, state_length, hand_length}

  pub on_packet-state :
      (st : State) (g : Gui)
      → on_packet op_state (state_bytes st) g ≡ (
        false,
        record g {
          st = state_bytes st;
          has_state = true;
          connected = true;
          game_over = get_or (state_bytes st) game_over_at 0;
        },
      )
  unfolding on_packet
  on_packet-state st g = rw ((==_iff _ _).1 (state_length st)) refl

  pub on_packet-hand :
      (h : Hand) (g : Gui)
      → on_packet op_hand (hand_bytes h) g
        ≡ (false, record g { hand = hand_bytes h; has_hand = true })
  unfolding on_packet
  on_packet-hand h g = rw ((==_iff _ _).1 (hand_length h)) refl

  -- A client that has got a game.
  abbrev pub after_game : State → Hand → Gui → Gui
  after_game st h g = record g {
    st = state_bytes st;
    has_state = true;
    connected = true;
    game_over = get_or (state_bytes st) game_over_at 0;
    hand = hand_bytes h;
    has_hand = true;
  }

  on_packets-game :
      (st : State) (h : Hand) (g : Gui)
      → on_packets (map (wire l) (World.state st ∷ World.hand h ∷ [])) g
        ≡ (false, after_game st h g)
  unfolding wire on_packets
  on_packets-game st h g =
      on_packets-cons op_state (state_bytes st) (World.packet op_hand (hand_bytes h) ∷ []) g _
        (on_packet-state st g)
      ∙ on_packets-cons op_hand (hand_bytes h) [] _ (after_game st h g) (on_packet-hand h _)

  on_packets-error :
      (r : Reply) (rest : List Received) (g : Gui)
      → is_error r ≡ true
      → on_packets (wire l r ∷ rest) g ≡ on_packets rest g
  unfolding wire on_packet on_packets
  on_packets-error World.pong rest g h = absurd (cc h)
  on_packets-error World.login_resp rest g h = absurd (cc h)
  on_packets-error (World.resume_resp ok sid) rest g h = absurd (cc h)
  on_packets-error (World.state st) rest g h = absurd (cc h)
  on_packets-error (World.hand hd) rest g h = absurd (cc h)
  on_packets-error (World.error code msg) rest g h = refl

  on_packets-errors :
      (rs : List Reply) (rest : List Received) (g : Gui)
      → only_errors rs ≡ true
      → on_packets (map (wire l) rs ++ rest) g ≡ on_packets rest g
  unfolding only_errors
  on_packets-errors [] rest g h = refl
  on_packets-errors (r ∷ rs) rest g h =
      on_packets-error r (map (wire l) rs ++ rest) g (ground (arith, h))
      ∙ on_packets-errors rs rest g (ground (arith, h))

  -- Errors are passed over, and the game behind them is shown.
  pub on_packets-after_game :
      (others : List Reply) (st : State) (h : Hand) (g : Gui)
      → only_errors others ≡ true
      → on_packets (map (wire l) (others ++ World.state st ∷ World.hand h ∷ [])) g
        ≡ (false, after_game st h g)
  on_packets-after_game others st h g quiet =
      let game : List Reply = World.state st ∷ World.hand h ∷ [] in
      ap (λ b. on_packets b g) (map-append (wire l) others game)
      ∙ on_packets-errors others (map (wire l) game) g quiet
      ∙ on_packets-game st h g
