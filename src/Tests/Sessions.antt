-- ===== src/Tests/Sessions.antt =====
-- Whole sessions of src/server.c, and what src/client_app.c makes of the answers.
use tcg_final_project.Prelude.{
  ℕ, ◌+◌, ◌≡◌, ◌%◌, ◌⊎◌, inl, inr, ◌==◌, ==_iff, refl, List, [], ◌∷◌, ◌++◌, map, replicate,
  length-replicate, arith, true, false,
}
use tcg_final_project.Game.Defs.{Phase, zero_hand, zero_state}
use tcg_final_project.Game.Rules.{push_log}
use tcg_final_project.Game.Turns.{enter_turn, phase_draw, deal_hand, rand_card_id}
use tcg_final_project.Session.Resumption.{Resumed, resume_req, bytes_of, play-Resumed}
use tcg_final_project.Client.{state_size, hand_size}
use tcg_final_project.Client.{Gui, on_packets, opening}
use tcg_final_project.Client.Memory.{Remembers, welcome-Remembers}
use tcg_final_project.Client.Answers.{wire, Layout}
use tcg_final_project.Tests.Games.{fresh}
use tcg_final_project.Ipc.{
  Stats, ipc_store_init, ipc_alloc_session, alloc_from, make_sid, zero_entry,
}
use tcg_final_project.Ipc.Laws.{game_of}
use tcg_final_project.Proto.Opcode.{op_login_req}
use tcg_final_project.Session.World.{
  Libc, World, Received, playing, send, send_game, save, touch, close,
}
use tcg_final_project.Session.World.{Reply}
use tcg_final_project.Session.World
use tcg_final_project.Session.Handshake.{greet, log_in, new_game, allocate, welcome}
use tcg_final_project.Session.Serve.{
  run, step, step_at, start, let_ai_play, play, on_end_turn, complain,
}
use tcg_final_project.Session.Invariant.{IsGood}
use tcg_final_project.Session.Duty.{IsServing}
use tcg_final_project.Session.Run.{init-GoodAt, run-IsGood, start-IsGood}

abbrev pub libc : Libc
libc = record { rand = λ n. n + 3; time = λ n. 1700000000 + n; pid = 42 }

abbrev pub no_stats : Stats
no_stats = record { total_connections = 0; total_packets = 0 }

abbrev pub login : Received
login = World.packet op_login_req []

unfoldable pub logged_in : World
logged_in = run libc (start ipc_store_init no_stats) (login ∷ [])

pub logged_in-running :
    (logged_in.stage ≡ playing)
    × (logged_in.game.st.turn ≡ 0)
    × (logged_in.game.st.game_over ≡ 0)
    × (logged_in.my_sid ≡ 27469803818)
unfolding logged_in run step step_at greet log_in welcome allocate new_game ipc_alloc_session
    alloc_from make_sid send send_game save ipc_store_init enter_turn phase_draw deal_hand push_log
    rand_card_id
logged_in-running = (refl, refl, refl, refl)

logged_in-IsGood : IsGood logged_in
unfolding logged_in
logged_in-IsGood = run-IsGood libc (login ∷ []) _ (start-IsGood ipc_store_init no_stats init-GoodAt)

pub logged_in-IsServing : IsServing logged_in
logged_in-IsServing = record {
  good = logged_in-IsGood;
  at = logged_in-running.0;
  players = inr (logged_in-running.1, main_phase_of logged_in-running.2);
}
  where
    main_phase_of : logged_in.game.st.game_over ≡ 0 → logged_in.game.st.phase ≡ Phase.main
    main_phase_of on = go (logged_in-IsGood.ready logged_in-running.0).main_phase
      where
        go :
            (logged_in.game.st.game_over ≡ 1) ⊎ (logged_in.game.st.phase ≡ Phase.main)
            → logged_in.game.st.phase ≡ Phase.main
        go (inl over) = absurd (omega arith)
        go (inr m) = m

complain-my_sid : (rc : ℕ) (w : World) → (complain rc w).my_sid ≡ w.my_sid
unfolding complain send
complain-my_sid rc w = ground arith

play-my_sid : (play libc 0 logged_in).my_sid ≡ logged_in.my_sid
unfolding play save send_game send
play-my_sid = complain-my_sid _ _

let_ai_play-my_sid : (w : World) → (let_ai_play libc w).my_sid ≡ w.my_sid
unfolding let_ai_play save
let_ai_play-my_sid w = ground arith

on_end_turn-my_sid : (on_end_turn libc logged_in).my_sid ≡ logged_in.my_sid
unfolding on_end_turn save send_game send
on_end_turn-my_sid =
    let mine : (logged_in.game.st.turn == 0) ≡ true = (==_iff _ _).1 logged_in-running.1 in
    rw mine (let_ai_play-my_sid _)

play-Resumed_example :
    let old = play libc 0 logged_in in
    Resumed
      (start old.store no_stats)
      (greet libc (resume_req old.my_sid) (start old.store no_stats))
      old.my_sid
      old.game.st
      old.game.hand
play-Resumed_example =
    play-Resumed libc 0 logged_in no_stats logged_in-IsServing logged_in-running.2
      (omega (arith, play-my_sid, logged_in-running.3))

-- A table with one game.
abbrev one_game : World
one_game = start (record zero_entry { valid = true; session_id = 9; st = fresh } ∷ []) no_stats

abbrev pub layout : Layout
layout = record {
  state_bytes = λ st. replicate state_size st.game_over;
  hand_bytes = λ h. replicate hand_size (h.n % 256);
  login_bytes = 1 ∷ 0 ∷ 0 ∷ 0 ∷ [];
  resume_bytes = λ ok sid. bytes_of 4 ok ++ bytes_of 8 sid;
  error_bytes = λ code msg. [];
  state_length = λ st. length-replicate state_size st.game_over;
  hand_length = λ h. length-replicate hand_size (h.n % 256);
}

allocated : World
allocated = record (start ipc_store_init no_stats) { my_sid = 5 }

-- A graphical client that has just started.
abbrev pub gui : Gui
gui = record {
  session_id = 0;
  st = [];
  hand = [];
  has_state = false;
  has_hand = false;
  connected = false;
  game_over = 0;
}

-- The server's process that has allocated the session of that table.
abbrev greeting : World
greeting = record one_game { my_sid = 9 }

welcome-Remembers_example :
    (told : List Reply) × ((welcome libc greeting).sent ≡ [] ++ told)
    × Remembers layout
        (λ ok sid. refl)
        9
        zero_state
        zero_hand
        (on_packets (map (wire layout) told) gui)
    × Resumed
        (start (welcome libc greeting).store no_stats)
        (greet libc
          (opening (bytes_of 8) (on_packets (map (wire layout) told) gui).1)
          (start (welcome libc greeting).store no_stats))
        9
        zero_state
        zero_hand
unfolding game_of
welcome-Remembers_example =
    welcome-Remembers layout (λ ok sid. refl) libc greeting gui no_stats (omega arith) (omega arith)
      refl
