-- ===== src/Server/Counting.antt =====
-- The number of connections that src/server.c counts in the shared memory, and src/monitor.c shows.
use tcg_final_project.Prelude.{
  ℕ, suc, ◌+◌, ◌%◌, ◌<◌, ◌≡◌, refl, ap, ◌∙◌, List, [], ◌∷◌, true, false, Option, none, some, arith,
  inl, inr, get_elem?, get_or, take, Option-cases,
}
use tcg_final_project.Game.Turns.{phase_end}
use tcg_final_project.Game.Defs.{State, Hand}
use tcg_final_project.Ipc.Attach.{shm_init, ipc_stats_init}
use tcg_final_project.Ipc.{ipc_load_session, Stats, ipc_stats_inc_conn, ipc_stats_inc_pkt}
use tcg_final_project.Session.World.{
  Libc, World, Received, Reply, send, send_game, save, touch, close, get_u64,
}
use tcg_final_project.Session.World
use tcg_final_project.Session.Handshake.{greet, log_in, welcome, allocate, resume, take_over}
use tcg_final_project.Session.Serve.{
  complain, let_ai_play, play, on_play_card, on_end_turn, dispatch, answer, serve, step, step_at,
}
use tcg_final_project.Server.{
  System, attach, refused, no_fork, no_handshake, joined, accept_round, deliver, receive, Happening,
  accepts, receives, happen, run_server, created,
}

complain-stats : (rc : ℕ) (w : World) → (complain rc w).stats ≡ w.stats
unfolding complain send
complain-stats rc w = ground arith

module _ (c : Libc) where
  let_ai_play-stats : (w : World) → (let_ai_play c w).stats ≡ w.stats
  unfolding let_ai_play save
  let_ai_play-stats w = ground arith

  play-stats : (idx : ℕ) (w : World) → (play c idx w).stats ≡ w.stats
  unfolding play save send_game send
  play-stats idx w = complain-stats _ _

  on_play_card-stats : (payload : List ℕ) (w : World) → (on_play_card c payload w).stats ≡ w.stats
  unfolding on_play_card send
  on_play_card-stats payload w = ground (arith, play-stats (get_or payload 0 0) w)

  on_end_turn-stats : (w : World) → (on_end_turn c w).stats ≡ w.stats
  unfolding on_end_turn send_game send save
  on_end_turn-stats w =
      ground (arith, let_ai_play-stats (save c (record w { game = phase_end c.rand w.game })))

  dispatch-stats :
      (op : ℕ) (payload : List ℕ) (w : World) → (dispatch c op payload w).stats ≡ w.stats
  unfolding dispatch send
  dispatch-stats op payload w = ground (arith, on_play_card-stats payload w, on_end_turn-stats w)

  answer-stats : (op : ℕ) (payload : List ℕ) (w : World) → (answer c op payload w).stats ≡ w.stats
  unfolding answer send send_game
  answer-stats op payload w = ground (arith, dispatch-stats op payload w)

  serve-connections :
      (r : Received) (w : World) → (serve c r w).stats.total_connections ≡ w.stats.total_connections
  unfolding serve close touch ipc_stats_inc_pkt
  serve-connections World.broken w = refl
  serve-connections (World.packet op payload) w =
      ap (λ s. s.total_connections) (answer-stats op payload _)

  welcome-stats : (w : World) → (welcome c w).stats ≡ w.stats
  unfolding welcome send send_game save close
  welcome-stats w = ground arith

  log_in-stats : (w : World) → (log_in c w).stats ≡ w.stats
  unfolding log_in allocate
  log_in-stats w = welcome-stats _

  resume-stats : (sid : ℕ) (w : World) → (resume c sid w).stats ≡ w.stats
  unfolding resume take_over send_game send
  resume-stats sid w = go (ipc_load_session w.store sid (c.time w.accesses)).0 _ refl
    where
      go :
          (found : Option (State × Hand)) (x : World)
          → x.stats ≡ w.stats
          → (take_over c sid found x).stats ≡ w.stats
      go none x h = h
      go (some (st, h)) x e = e

  greet-stats : (r : Received) (w : World) → (greet c r w).stats ≡ w.stats
  unfolding greet send close
  greet-stats World.broken w = refl
  greet-stats (World.packet op payload) w =
      ground (arith, log_in-stats w, resume-stats (get_u64 (take 8 payload)) w)

  step-connections :
      (w : World) (r : Received) → (step c w r).stats.total_connections ≡ w.stats.total_connections
  unfolding step step_at
  step-connections w r = go w.stage
    where
      go :
          (st : World.Stage)
          → (step_at c st r w).stats.total_connections ≡ w.stats.total_connections
      go World.handshake = ap (λ s. s.total_connections) (greet-stats r w)
      go World.playing =
          serve-connections r (let_ai_play c w)
          ∙ ap (λ s. s.total_connections) (let_ai_play-stats w)
      go World.closed = refl

-- The children that run a session.
abbrev pub joins : List Happening → ℕ
joins [] = 0
joins (accepts (joined c) ∷ hs) = suc (joins hs)
joins (_ ∷ hs) = joins hs

receive-connections :
    (i : ℕ) (r : Received) (s : System)
    → (receive i r s).stats.total_connections ≡ s.stats.total_connections
unfolding receive deliver
receive-connections i r s = elim (Option-cases (get_elem? s.procs i)) [
  | inl gone ↦ rw (gone, receive) refl
  | inr (p, here) ↦ rw (here, receive) (step-connections p.libc (attach s p.world) r)
]

run_server-connections :
    (hs : List Happening) (s : System)
    → s.stats.total_connections < 18446744073709551616
    → (run_server s hs).stats.total_connections
      ≡ (s.stats.total_connections + joins hs) % 18446744073709551616
unfolding run_server happen accept_round ipc_stats_inc_conn
run_server-connections [] s small = omega arith
run_server-connections (accepts refused ∷ hs) s small = run_server-connections hs s small
run_server-connections (accepts no_fork ∷ hs) s small = run_server-connections hs s small
run_server-connections (accepts no_handshake ∷ hs) s small = run_server-connections hs s small
run_server-connections (accepts (joined c) ∷ hs) s small =
    let t = accept_round (joined c) s in omega (arith, run_server-connections hs t (omega arith))
run_server-connections (receives i r ∷ hs) s small =
    let same = receive-connections i r s in
    omega (arith, run_server-connections hs (receive i r s) (omega (arith, same)), same)

-- What a round of src/monitor.c shows: the two counters, or none if it cannot attach.
unfoldable pub monitor : Option ℕ → Option Stats → Option (ℕ × ℕ)
monitor shm mapped = elim (ipc_stats_init false shm true mapped).0 [
  | none ↦ none
  | some s ↦ some (s.total_connections, s.total_packets)
]

-- However the accept loop and the children take turns from the start of the server on: a round of
-- the monitor that attaches shows, as its first counter, how many children have ever begun a
-- session, modulo 2^64, whether they have ended or not.
pub monitor-connections :
    (hs : List Happening) (fd : ℕ)
    → let s = run_server created hs in
      monitor (some fd) (some s.stats)
      ≡ some (joins hs % 18446744073709551616, s.stats.total_packets)
unfolding monitor ipc_stats_init shm_init created
monitor-connections hs fd =
    let none_yet : 0 + joins hs ≡ joins hs = omega arith in
    let counted =
      run_server-connections hs created (omega arith)
      ∙ ap (λ n. n % 18446744073709551616) none_yet in
    ap (λ n. some (n, (run_server created hs).stats.total_packets)) counted
