-- ===== src/Client/Flight/Ahead.antt =====
-- One request of the graphical client of src/client_gui.c, and what the answer of src/server.c makes of it.
use tcg_final_project.Prelude.{
  ℕ, ◌≡◌, refl, sym, ap, ◌∙◌, List, [], ◌∷◌, ◌++◌, drop, drop-append, length, map, Bool, true,
  false,
}
use mathlib.Core.Path.{subst}
use tcg_final_project.Proto.Opcode.{op_ping, op_pong, op_play_card, op_end_turn}
use tcg_final_project.Session.World.{Libc, World, Reply, Received, send, touch}
use tcg_final_project.Session.World
use tcg_final_project.Session.Serve.{step, serve, answer}
use tcg_final_project.Session.Invariant.{send-IsGood}
use tcg_final_project.Session.Duty.{IsServing}
use tcg_final_project.Session.Serving.{counted-IsServing}
use tcg_final_project.Session.Waiting.{counted, step-serve}
use tcg_final_project.Client.{Gui, on_packet, on_packets}
use tcg_final_project.Client.Answers.{Layout, wire}
use tcg_final_project.Client.App.{between}
use tcg_final_project.Client.Telling.{Tells, step_play-Tells, step_end_turn-Tells}
use tcg_final_project.Client.Hearing.{after_game, on_packets-after_game}

-- What the client sends while it plays.
pub data IsRequest : Received → Type 0 where
  beat : IsRequest (World.packet op_ping [])
  play : (i : ℕ) → IsRequest (World.packet op_play_card (i ∷ []))
  end_turn : IsRequest (World.packet op_end_turn [])

abbrev pub AllRequests : List Received → Type 0
AllRequests [] = Unit {0}
AllRequests (r ∷ rs) = IsRequest r × AllRequests rs

pub AllRequests-append :
    (rs : List Received) (qs : List Received)
    → AllRequests rs
    → AllRequests qs
    → AllRequests (rs ++ qs)
AllRequests-append [] qs h k = k
AllRequests-append (r ∷ rs) qs h k = (h.0, AllRequests-append rs qs h.1 k)

-- A client that shows the game.
pub record Shows (l : Layout) (w : World) (g : Gui) : Type 0 where
  pub st_eq : g.st ≡ l.state_bytes w.game.st
  pub hand_eq : g.hand ≡ l.hand_bytes w.game.hand

-- What the client will be when it has read the replies.
pub record IsAhead (l : Layout) (w : World) (rs : List Received) (g : Gui) : Type 0 where
  pub behind : Gui
  pub heard : on_packets rs g ≡ (false, behind)
  pub shows : Shows l w behind

pub on_packets-append :
    (xs ys : List Received) (g g' : Gui)
    → on_packets xs g ≡ (false, g')
    → on_packets (xs ++ ys) g ≡ on_packets ys g'
unfolding on_packets
on_packets-append [] ys g g' h = ap (λ r. on_packets ys r.1) h
on_packets-append (World.broken ∷ xs) ys g g' h = absurd (cc h)
on_packets-append (World.packet op payload ∷ xs) ys g g' h =
    go (on_packet op payload g) h (λ g1. on_packets-append xs ys g1 g')
  where
    go :
        (r : Bool × Gui)
        → (elim r.0 [ true ↦ (true, r.1) | false ↦ on_packets xs r.1 ]) ≡ (false, g')
        → ((g1 : Gui)
            → on_packets xs g1 ≡ (false, g')
            → on_packets (xs ++ ys) g1 ≡ on_packets ys g')
        → (elim r.0 [ true ↦ (true, r.1) | false ↦ on_packets (xs ++ ys) r.1 ]) ≡ on_packets ys g'
    go (true, g1) e rest = absurd (cc e)
    go (false, g1) e rest = rest g1 e

module _ (c : Libc) (l : Layout) where
  Tells-IsAhead : (w w' : World) (g : Gui) → Tells w w' → IsAhead l w' (between c l w w') g
  Tells-IsAhead w w' g t =
      let told = t.others ++ World.state w'.game.st ∷ World.hand w'.game.hand ∷ [] in
      let fresh : between c l w w' ≡ map (wire l) told =
        ap (λ s. map (wire l) (drop (length w.sent) s)) t.sent_eq
        ∙ ap (map (wire l)) (drop-append w.sent told) in
      record {
        behind = after_game l w'.game.st w'.game.hand g;
        heard =
            ap (λ rs. on_packets rs g) fresh
            ∙ on_packets-after_game l t.others w'.game.st w'.game.hand g t.errors;
        shows = record { st_eq = refl; hand_eq = refl };
      }

  step-ping :
      (w : World) → IsServing w → step c w (World.packet op_ping []) ≡ send World.pong (counted c w)
  unfolding serve answer touch
  step-ping w v = step-serve c w (World.packet op_ping []) v

  ping-IsAhead :
      (w : World) (g : Gui)
      → Shows l w g
      → IsAhead l (send World.pong (counted c w)) (between c l w (send World.pong (counted c w))) g
  unfolding send touch wire on_packets on_packet
  ping-IsAhead w g s =
      let fresh : between c l w (send World.pong (counted c w)) ≡ World.packet op_pong [] ∷ [] =
        ap (map (wire l)) (drop-append w.sent (World.pong ∷ [])) in
      record {
        behind = g;
        heard = ap (λ rs. on_packets rs g) fresh;
        shows = record { st_eq = s.st_eq; hand_eq = s.hand_eq };
      }

  pong-IsServing : (w : World) → IsServing w → IsServing (send World.pong w)
  unfolding send
  pong-IsServing w v = record {
    good = send-IsGood World.pong w refl v.good;
    at = v.at;
    players = v.players;
  }

  pub step-IsAhead :
      (r : Received) (w : World) (g : Gui)
      → IsRequest r
      → IsServing w
      → Shows l w g
      → IsServing (step c w r) × IsAhead l (step c w r) (between c l w (step c w r)) g
  step-IsAhead r w g beat v s =
      subst (λ w'. IsServing w' × IsAhead l w' (between c l w w') g) (sym (step-ping w v))
        (pong-IsServing (counted c w) (counted-IsServing c w v), ping-IsAhead w g s)
  step-IsAhead r w g (play i) v s =
      let t = step_play-Tells c i w v in (t.serving, Tells-IsAhead w _ g t)
  step-IsAhead r w g end_turn v s =
      let t = step_end_turn-Tells c w v in (t.serving, Tells-IsAhead w _ g t)
