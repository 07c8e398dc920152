-- ===== src/Session/Steps.antt =====
-- One packet of a session of src/server.c, as the other sessions see it on the shared table.
use tcg_final_project.Prelude.{
  ℕ, ◌+◌, ◌≡◌, ◌∙◌, refl, sym, ap, [], ◌∷◌, Bool, true, false, ◌==◌, ltb, length, take, arith,
  if◌then◌else◌, Option, none, some,
}
use native.Mathlib.Decide.{dec_lt}
use mathlib.Core.Path.{subst}
use tcg_final_project.Game.Defs.{State, Hand}
use tcg_final_project.Ipc.{ipc_load_session}
use tcg_final_project.Ipc.Laws.{game_of, game_of-load}
use tcg_final_project.Ipc.Alloc.{
  call, call_all, taken, taken-le, ipc_alloc_session-IsGrown, ipc_alloc_session-full,
}
use tcg_final_project.Ipc.Alloc
use tcg_final_project.Proto.Opcode.{op_ping, op_login_req, op_resume_req}
use tcg_final_project.Session.World.{
  Libc, World, Received, broken, Reply, send, send_game, close, save, get_u64,
}
use tcg_final_project.Session.World
use tcg_final_project.Session.Handshake.{
  new_game, allocate, welcome, log_in, take_over, resume, greet,
}
use tcg_final_project.Session.Serve.{let_ai_play, step_at, step}
use tcg_final_project.Session.Calls.{
  Acts, Stays, Acts-trans, Acts-same, Stays-same, Stays-trans, Stays-if, save-Stays,
  let_ai_play-Stays, serve-Stays,
}

-- On the session that the process has behind the packet.
abbrev OwnActs : World → World → Type 0
OwnActs w w' = Acts w'.my_sid w w'

OwnActs-if : (b : Bool) (w x y : World) → OwnActs w x → OwnActs w y → OwnActs w (if b then x else y)
OwnActs-if true w x y p q = p
OwnActs-if false w x y p q = q

OwnActs-Stays : (w x y : World) → OwnActs w x → Stays x y → OwnActs w y
OwnActs-Stays w x y a s =
    subst (λ k. Acts k w y) (sym s.sid_eq) (Acts-trans x.my_sid w x y a s.acts)

OwnActs-of_Stays : (w x : World) → Stays w x → OwnActs w x
OwnActs-of_Stays w x s = subst (λ k. Acts k w x) (sym s.sid_eq) s.acts

module _ (c : Libc) where
  allocate-OwnActs : (w : World) → OwnActs w (allocate c w)
  unfolding allocate call call_all
  allocate-OwnActs w =
      let t = c.time w.accesses in
      let u = c.time (w.accesses + 1) in
      let r = c.rand w.game.rands in
      record {
        calls = Alloc.alloc t u c.pid r ∷ [];
        store_eq = refl;
        others = λ k ne. elim (dec_lt (taken w.store) (length w.store)) [
          | yes free ↦ (ipc_alloc_session-IsGrown t u c.pid r w.store free).others k ne
          | no full ↦
              ap (λ p. game_of p.1 k)
                (ipc_alloc_session-full t u c.pid r w.store (omega (arith, taken-le w.store)))
        ];
      }

  welcome-Stays : (w : World) → Stays w (welcome c w)
  unfolding welcome send_game send close
  welcome-Stays w =
      let saved = save c w in
      Stays-if (w.my_sid == 0) w _ _ (Stays-same w _ refl refl)
        (Stays-trans w saved _ (save-Stays c w) (Stays-same saved _ refl refl))

  log_in-OwnActs : (w : World) → OwnActs w (log_in c w)
  unfolding log_in
  log_in-OwnActs w =
      let dealt = record w { game = new_game c w.game } in
      OwnActs-Stays w (allocate c dealt) _
        (Acts-trans (allocate c dealt).my_sid w dealt _
          (Acts-same (allocate c dealt).my_sid w dealt refl) (allocate-OwnActs dealt))
        (welcome-Stays (allocate c dealt))

  take_over-Acts :
      (k sid : ℕ) (found : Option (State × Hand)) (w : World) → Acts k w (take_over c sid found w)
  unfolding take_over send_game send
  take_over-Acts k sid none w = Acts-same k w _ refl
  take_over-Acts k sid (some (st, h)) w = Acts-same k w _ refl

  resume-OwnActs : (sid : ℕ) (w : World) → OwnActs w (resume c sid w)
  unfolding resume call call_all
  resume-OwnActs sid w =
      let r = ipc_load_session w.store sid (c.time w.accesses) in
      let loaded = record w { store = r.1; accesses = w.accesses + 1 } in
      Acts-trans _ w loaded _
        (record {
          calls = Alloc.load sid (c.time w.accesses) ∷ [];
          store_eq = refl;
          others = λ k ne. game_of-load w.store sid (c.time w.accesses) k;
        })
        (take_over-Acts _ sid r.0 loaded)

  greet-OwnActs : (r : Received) (w : World) → OwnActs w (greet c r w)
  unfolding greet close send
  greet-OwnActs broken w = Acts-same _ w _ refl
  greet-OwnActs (World.packet op payload) w =
      OwnActs-if (op == op_ping) w _ _ (Acts-same _ w _ refl) (
        OwnActs-if (op == op_login_req) w _ _ (log_in-OwnActs w) (
          OwnActs-if (op == op_resume_req) w _ _
            (OwnActs-if (ltb (length payload) 8) w _ _ (Acts-same _ w _ refl)
              (resume-OwnActs (get_u64 (take 8 payload)) w))
            (Acts-same _ w _ refl)))

  step_at-OwnActs : (s : World.Stage) (r : Received) (w : World) → OwnActs w (step_at c s r w)
  unfolding step_at
  step_at-OwnActs World.handshake r w = greet-OwnActs r w
  step_at-OwnActs World.playing r w = OwnActs-of_Stays w _ (
      Stays-trans w (let_ai_play c w) _ (let_ai_play-Stays c w) (serve-Stays c r (let_ai_play c w)))
  step_at-OwnActs World.closed r w = Acts-same _ w _ refl

  -- One packet.
  pub step-OwnActs : (w : World) (r : Received) → Acts (step c w r).my_sid w (step c w r)
  unfolding step
  step-OwnActs w r = step_at-OwnActs w.stage r w

  -- A session that runs keeps its id.
  pub step-my_sid :
      (w : World) (r : Received) → w.stage ≡ World.playing → (step c w r).my_sid ≡ w.my_sid
  unfolding step step_at
  step-my_sid w r at =
      ap (λ s. (step_at c s r w).my_sid) at
      ∙ (serve-Stays c r (let_ai_play c w)).sid_eq
      ∙ (let_ai_play-Stays c w).sid_eq
