-- ===== src/Session/Hostile.antt =====
-- `run_session` of src/server.c over whatever bytes a peer sends: broken headers, wrong checksums,
-- lengths beyond the buffer and payloads that no client would send.
use tcg_final_project.Prelude.{
  ℕ, zero, suc, ◌≡◌, refl, sym, List, [], ◌∷◌, false, Option, none, some,
}
use mathlib.Core.Path.{subst}
use tcg_final_project.Ipc.{Entry, Stats}
use tcg_final_project.Proto.Packet.{proto_recv}
use tcg_final_project.Session.World.{Libc, World, Received, Stage, playing}
use tcg_final_project.Session.World
use tcg_final_project.Session.Serve.{step, run, start, let_ai_play}
use tcg_final_project.Session.Invariant.{IsGood, GoodAt, turn_errors}
use tcg_final_project.Session.Duty.{IsPlayers, let_ai_play-IsServing}
use tcg_final_project.Session.Run.{run-IsGood, start-IsGood}
use tcg_final_project.Session.Bytes.{payload_size, take_packet, unless_closed, run_bytes}

-- Some results of `proto_recv` take the session from `w` to `w'`.
record Taken (c : Libc) (w w' : World) : Type 0 where
  packets : List Received
  run_eq : w' ≡ run c w packets

module _ (c : Libc) {S : Type 0} (readn : S → ℕ → Option (List ℕ × S)) where
  Taken-none : (w : World) → Taken c w w
  unfolding run
  Taken-none w = record { packets = []; run_eq = refl }

  Taken-more : (r : Received) (w w' : World) → Taken c (step c w r) w' → Taken c w w'
  unfolding run
  Taken-more r w w' t = record { packets = r ∷ t.packets; run_eq = t.run_eq }

  unless_closed-Taken :
      (st : Stage) (w : World) (s : S) (on : World × S)
      → Taken c w on.0
      → Taken c w (unless_closed c readn st (w, s) on).0
  unless_closed-Taken World.handshake w s on t = t
  unless_closed-Taken World.playing w s on t = t
  unless_closed-Taken World.closed w s on t = Taken-none w

  -- However many calls of `proto_recv` a session makes, over any connection, it comes to what it would
  -- come to over some packets.
  run_bytes-Taken : (n : ℕ) (w : World) (s : S) → Taken c w (run_bytes c readn n w s).0
  unfolding run_bytes
  run_bytes-Taken zero w s = Taken-none w
  run_bytes-Taken (suc n) w s =
      unless_closed-Taken w.stage w s _
        (taken (proto_recv readn s payload_size) (λ w' t. run_bytes-Taken n w' t))
    where
      taken :
          (got : Option (ℕ × List ℕ × S))
          → ((w' : World) (t : S) → Taken c w' (run_bytes c readn n w' t).0)
          → Taken c w (take_packet c readn got w s (λ w' t. run_bytes c readn n w' t)).0
      taken none rest = Taken-more World.broken w _ (Taken-none _)
      taken (some (op, payload, t)) rest =
          Taken-more (World.packet op payload) w _ (rest (step c w (World.packet op payload)) t)

-- What holds of a session at every point.
pub record IsUnharmed (c : Libc) (w : World) : Type 0 where
  pub stored : (k : ℕ) → GoodAt w.store k
  pub players : w.stage ≡ playing → IsPlayers (let_ai_play c w).game.st
  pub quiet : turn_errors w.sent ≡ false

-- Whatever bytes a connection delivers or withholds, packets or not, to a new process over a table
-- of sound games, and after however many calls of `proto_recv`: every game of the table is sound,
-- the process has never sent the errors -11 or -12, and if it runs a session, then, behind the AI's
-- turn, the game is over or it is the player's main phase.
pub run_bytes-IsUnharmed :
    (c : Libc)
    → {S : Type 0} (readn : S → ℕ → Option (List ℕ × S)) (n : ℕ) (s : S)
    → (store : List Entry) (stats : Stats) → ((k : ℕ) → GoodAt store k)
    → IsUnharmed c (run_bytes c readn n (start store stats) s).0
run_bytes-IsUnharmed c readn n s store stats stored =
    let t = run_bytes-Taken c readn n (start store stats) s in
    let good : IsGood (run_bytes c readn n (start store stats) s).0 =
      subst IsGood (sym t.run_eq) (run-IsGood c t.packets _ (start-IsGood store stats stored)) in
    record {
      stored = good.stored;
      players = λ at. (let_ai_play-IsServing c _ good at).players;
      quiet = good.quiet;
    }
