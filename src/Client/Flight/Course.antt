-- ===== src/Client/Flight/Course.antt =====
-- The graphical client of src/client_gui.c catches up with the server, whatever is under way.
use tcg_final_project.Prelude.{
  ℕ, ◌≡◌, refl, sym, ap, ◌∙◌, List, [], ◌∷◌, Bool, true, false, Option, none, some,
}
use mathlib.Core.Path.{subst}
use tcg_final_project.Prelude.Words.{u8}
use tcg_final_project.Session.World.{Libc, World, Reply, Received, send, touch}
use tcg_final_project.Session.World
use tcg_final_project.Session.Serve.{step}
use tcg_final_project.Session.Duty.{IsServing}
use tcg_final_project.Client.{Gui, on_packet, on_packets}
use tcg_final_project.Client.Answers.{Layout}
use tcg_final_project.Client.App.{between}
use tcg_final_project.Client.NetThread.{Command, on_command, on_socket, Target, click}
use tcg_final_project.Client.Clicking.{Asked, asks_end, asks_play, click-Asked}
use tcg_final_project.Client.Flight.{
  Flight, Move, clicks_on, beats, serves, hears, sent_for, serve_next, hear_next, move, moves,
}
use tcg_final_project.Client.Flight.Ahead.{
  beat, play, end_turn, AllRequests, AllRequests-append, Shows, IsAhead, on_packets-append,
  step-IsAhead,
}

-- The server waits for the player, and the client will show its game when it has read the replies.
pub record IsOnCourse (l : Layout) (f : Flight) : Type 0 where
  pub serving : IsServing f.world
  pub asked : AllRequests f.requests
  pub ahead : IsAhead l f.world f.replies f.gui
  pub stands : f.stopped ≡ false

module _ (c : Libc) (l : Layout) where
  serve_next-IsOnCourse :
      (rs : List Received) (f : Flight)
      → f.requests ≡ rs
      → IsOnCourse l f
      → IsOnCourse l (serve_next c l rs f)
  unfolding serve_next
  serve_next-IsOnCourse [] f e v = v
  serve_next-IsOnCourse (r ∷ rs) f e v =
      let all : AllRequests (r ∷ rs) = subst AllRequests e v.asked in
      let (serving, next) =
        step-IsAhead c l r f.world v.ahead.behind all.0 v.serving v.ahead.shows in
      record {
        serving = serving;
        asked = all.1;
        ahead = record {
          behind = next.behind;
          heard =
              on_packets-append f.replies (between c l f.world (step c f.world r)) f.gui
                v.ahead.behind v.ahead.heard
              ∙ next.heard;
          shows = next.shows;
        };
        stands = v.stands;
      }

  -- What is behind the first reply.
  heard_one :
      (f : Flight) (v : IsOnCourse l f) (rs : List Received) (r : Bool × Gui)
      → (elim r.0 [ true ↦ (true, r.1) | false ↦ on_packets rs r.1 ]) ≡ (false, v.ahead.behind)
      → IsOnCourse l (record f { gui = r.1; replies = rs; stopped = r.0 })
  heard_one f v rs (true, g1) h = absurd (cc h)
  heard_one f v rs (false, g1) h = record {
    serving = v.serving;
    asked = v.asked;
    ahead = record { behind = v.ahead.behind; heard = h; shows = v.ahead.shows };
    stands = refl;
  }

  hear_next-IsOnCourse :
      (rs : List Received) (f : Flight)
      → f.replies ≡ rs
      → IsOnCourse l f
      → IsOnCourse l (hear_next c l rs f)
  unfolding hear_next on_socket on_packets
  hear_next-IsOnCourse [] f e v = v
  hear_next-IsOnCourse (World.broken ∷ rs) f e v =
      let h : on_packets (World.broken ∷ rs) f.gui ≡ (false, v.ahead.behind) =
        ap (λ x. on_packets x f.gui) (sym e) ∙ v.ahead.heard in
      absurd (cc h)
  hear_next-IsOnCourse (World.packet op payload ∷ rs) f e v =
      heard_one f v rs (on_packet op payload f.gui)
        (ap (λ x. on_packets x f.gui) (sym e) ∙ v.ahead.heard)

  sent_for-AllRequests :
      (g : Gui) (at : Target) (selected : Option ℕ)
      → AllRequests (sent_for (click g at selected).0 g)
  unfolding on_command
  sent_for-AllRequests g at selected = go (click g at selected).0 λ cmd e.
      (click-Asked g at selected (click g at selected).1 cmd
        (ap (λ o. (o, (click g at selected).1)) e)).1
    where
      asked_for : (cmd : Command) → Asked g selected cmd → AllRequests (sent_for (some cmd) g)
      asked_for cmd asks_end = (end_turn, tt)
      asked_for cmd (asks_play i shown again) = (play (u8 i), tt)

      go :
          (o : Option Command)
          → ((cmd : Command) → o ≡ some cmd → Asked g selected cmd)
          → AllRequests (sent_for o g)
      go none asked = tt
      go (some cmd) asked = asked_for cmd (asked cmd refl)

  move-IsOnCourse : (m : Move) (f : Flight) → IsOnCourse l f → IsOnCourse l (move c l m f)
  unfolding move
  move-IsOnCourse (clicks_on at) f v = record {
    serving = v.serving;
    asked = AllRequests-append f.requests _ v.asked (sent_for-AllRequests f.gui at f.selected);
    ahead = v.ahead;
    stands = v.stands;
  }
  move-IsOnCourse beats f v = record {
    serving = v.serving;
    asked = AllRequests-append f.requests _ v.asked (beat, tt);
    ahead = v.ahead;
    stands = v.stands;
  }
  move-IsOnCourse serves f v = serve_next-IsOnCourse f.requests f refl v
  move-IsOnCourse hears f v = hear_next-IsOnCourse f.replies f refl v

  pub moves-IsOnCourse :
      (ms : List Move) (f : Flight) → IsOnCourse l f → IsOnCourse l (moves c l ms f)
  unfolding moves
  moves-IsOnCourse [] f v = v
  moves-IsOnCourse (m ∷ ms) f v = moves-IsOnCourse ms (move c l m f) (move-IsOnCourse m f v)

  -- A player clicks, heartbeats are sent, the server takes requests and the graphical client takes
  -- replies, in any order, from a client that will show the game of a server that waits for the
  -- player: whenever no reply is under way, the server waits for the player, the client has not
  -- broken off, and it shows the server's state and hand.
  pub moves-Shows :
      (ms : List Move) (f : Flight)
      → IsOnCourse l f
      → (moves c l ms f).replies ≡ []
      → IsServing (moves c l ms f).world
        × ((moves c l ms f).stopped ≡ false)
        × Shows l (moves c l ms f).world (moves c l ms f).gui
  unfolding on_packets
  moves-Shows ms f v none_left =
      let t = moves c l ms f in
      let u = moves-IsOnCourse ms f v in
      let heard : (false, t.gui) ≡ (false, u.ahead.behind) =
        ap (λ rs. on_packets rs t.gui) (sym none_left) ∙ u.ahead.heard in
      let same : u.ahead.behind ≡ t.gui = sym (ap (λ r. r.1) heard) in
      (u.serving, u.stands, subst (Shows l t.world) same u.ahead.shows)
