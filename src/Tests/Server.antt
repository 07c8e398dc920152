-- ===== src/Tests/Server.antt =====
-- The server of src/server.c with a client, and two logins that race for a slot.
use tcg_final_project.Prelude.{
  ℕ, Option, ◌%◌, ◌+◌, true, ◌≡◌, refl, List, [], ◌∷◌, some, none, arith, false, get_elem?,
}
use tcg_final_project.Prelude.Words.{neg}
use tcg_final_project.Game.Defs.{zero_state, zero_hand}
use tcg_final_project.Game.Rules.{push_log}
use tcg_final_project.Game.Turns.{enter_turn, phase_draw, deal_hand, rand_card_id}
use tcg_final_project.Ipc.{
  ipc_store_init, ipc_alloc_session, alloc_from, make_sid, ipc_save_session,
}
use tcg_final_project.Ipc.Laws.{game_of}
use tcg_final_project.Ipc.Race.{look, take_slot, racing_logins_lose}
use tcg_final_project.Session.World.{Libc, World, playing, close, send, send_game, save}
use tcg_final_project.Session.World
use tcg_final_project.Session.Handshake.{greet, log_in, new_game, allocate, welcome}
use tcg_final_project.Session.Login.{LoggedIn, log_in-LoggedIn}
use tcg_final_project.Session.Serve.{step, step_at, serve, start, let_ai_play}
use tcg_final_project.Session.Duty.{IsPlayers}
use tcg_final_project.Session.Invariant.{turn_errors}
use tcg_final_project.Prelude.Resources.{held_after, handed}
use tcg_final_project.Net.Setup.{
  refuses, connects, tcp_connect, tcp_listen, ssl_init_server_ctx, conn_init, conn_close, Method,
  tls_server, tls_client, net_create_context,
}
use tcg_final_project.Net.Leaks.{set_up-held}
use tcg_final_project.Server.{
  Process, System, Happening, joined, accept_round, attach, receive, deliver, accepts, receives,
  happen, run_server, created,
}
use tcg_final_project.Server.Sharing.{deliver-others}
use tcg_final_project.Server.Apart.{shares_session, intrudes}
use tcg_final_project.Server.Surviving.{Regained, every_game_survives}
use tcg_final_project.Server.Counting.{monitor, monitor-connections}
use tcg_final_project.Server.Sound.{every_player_may_act, no_child_sends_turn_errors}
use tcg_final_project.Tests.Sessions.{libc, no_stats, login}
use tcg_final_project.Tests.Store.{two_slots}

-- A connection, and its login.
abbrev happenings : List Happening
happenings = accepts (joined libc) ∷ receives 0 login ∷ []

connected : System
connected = accept_round (joined libc) created

child : Process
child = record {
  libc = libc;
  world = step libc (attach connected (start ipc_store_init connected.stats)) login;
}

child-is_first : get_elem? (run_server created happenings).procs 0 ≡ some child
unfolding child connected run_server happen accept_round receive deliver created
child-is_first = refl

child-playing : child.world.stage ≡ playing
unfolding child connected accept_round created step step_at greet log_in welcome allocate new_game
    ipc_alloc_session alloc_from make_sid send send_game save ipc_store_init enter_turn phase_draw
    deal_hand push_log rand_card_id
child-playing = refl

every_player_may_act_example :
    IsPlayers (let_ai_play child.libc (attach (run_server created happenings) child.world)).game.st
every_player_may_act_example = every_player_may_act happenings 0 child child-is_first child-playing

no_child_sends_turn_errors_example : turn_errors child.world.sent ≡ false
no_child_sends_turn_errors_example = no_child_sends_turn_errors happenings 0 child child-is_first

-- A child with the session 9 behind it: the other session ids.
abbrev shared : System
shared = record { store = two_slots; stats = no_stats; procs = [] }

abbrev nine : Process
nine = record {
  libc = libc;
  world = record (start two_slots no_stats) { my_sid = 9; stage = playing };
}

nine-stays : (step nine.libc (attach shared nine.world) World.broken).my_sid ≡ 9
unfolding step step_at let_ai_play serve close
nine-stays = refl

deliver-others_example :
    game_of (deliver 0 nine World.broken shared).store 7 ≡ game_of shared.store 7
deliver-others_example =
    deliver-others 0 nine World.broken shared 7 (λ e. omega (arith, e, nine-stays))

log_in-LoggedIn_example :
    LoggedIn libc (start two_slots no_stats) (log_in libc (start two_slots no_stats))
log_in-LoggedIn_example = log_in-LoggedIn libc (start two_slots no_stats)

racing_logins_lose_example :
    (game_of (take_slot 1 6 104 (take_slot 1 5 103 two_slots)) 5 ≡ none)
    × ((ipc_save_session
          (take_slot 1 6 104 (take_slot 1 5 103 two_slots))
          5
          zero_state
          zero_hand
          105).0
        ≡ neg 1)
unfolding look game_of
racing_logins_lose_example =
    racing_logins_lose two_slots 1 5 6 103 104 zero_state zero_hand 105 refl (omega arith) refl

-- Only the server's method gives a context.
abbrev new_ctx : Method → Option ℕ
new_ctx tls_server = some 8
new_ctx tls_client = none

-- Two addresses, of which the second connects.
set_up-held_example :
    (held_after (tcp_connect 1 (some (refuses 4 ∷ connects 5 ∷ []))).1 (some [])
      ≡ some (handed (tcp_connect 1 (some (refuses 4 ∷ connects 5 ∷ []))).0))
    × (held_after (tcp_listen (some 3) true false).1 (some [])
        ≡ some (handed (tcp_listen (some 3) true false).0))
    × (held_after (ssl_init_server_ctx (some 3) true false false).1 (some [])
        ≡ some (handed (ssl_init_server_ctx (some 3) true false false).0))
    × (held_after (net_create_context new_ctx 1).1 (some [])
        ≡ some (handed (net_create_context new_ctx 1).0))
    × (held_after (conn_close (conn_init 5 (some 6))).1 (some (6 ∷ 5 ∷ [])) ≡ some [])
    × ((conn_close (conn_close (conn_init 5 (some 6))).0).1 ≡ [])
unfolding conn_init
set_up-held_example =
    set_up-held 1 (some (refuses 4 ∷ connects 5 ∷ [])) (some 3) true false false
      (conn_init 5 (some 6)) new_ctx 1

monitor-connections_example :
    monitor (some 3) (some (run_server created happenings).stats)
    ≡ some (1 % 18446744073709551616, (run_server created happenings).stats.total_packets)
monitor-connections_example = monitor-connections happenings 3

-- Two connections, and a login on each.
abbrev second_libc : Libc
second_libc = record { rand = λ n. n + 5; time = λ n. 1700000000 + n; pid = 43 }

abbrev two_logins : List Happening
two_logins =
    accepts (joined libc) ∷ accepts (joined second_libc) ∷ receives 0 login ∷ receives 1 login ∷ []

two_logins-apart : shares_session created two_logins ≡ false
unfolding shares_session intrudes happen accept_round receive deliver created step step_at greet
    log_in welcome allocate new_game ipc_alloc_session alloc_from make_sid send send_game save
    ipc_store_init enter_turn phase_draw deal_hand push_log rand_card_id ipc_save_session
two_logins-apart = refl

-- The first of them, as the second login leaves it.
first : Process
first = record {
  libc = libc;
  world =
      step libc
        (attach (accept_round (joined second_libc) connected)
          (start ipc_store_init connected.stats))
        login;
}

first-is_first : get_elem? (run_server created two_logins).procs 0 ≡ some first
unfolding first connected run_server happen accept_round receive deliver created
first-is_first = refl

first-running : first.world.stage ≡ playing
unfolding first connected accept_round created step step_at greet log_in welcome allocate new_game
    ipc_alloc_session alloc_from make_sid send send_game save ipc_store_init enter_turn phase_draw
    deal_hand push_log rand_card_id
first-running = refl

every_game_survives_example : Regained second_libc (run_server created two_logins) first
every_game_survives_example =
    every_game_survives two_logins two_logins-apart 0 first first-is_first first-running second_libc
