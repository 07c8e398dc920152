-- ===== src/Server/Restarting.antt =====
-- A start of src/server.c on a machine where the program runs already, whose shared memories have the
-- same names.
use tcg_final_project.Prelude.{
  ℕ, ◌≡◌, refl, ap, ◌∙◌, List, [], ◌∷◌, ◌||◌, Bool, true, false, not, ◌&&◌, Option, none, some,
  ◌==◌, take, if◌then◌else◌, get_elem?, arith,
}
use tcg_final_project.Game.Defs.{State, Hand}
use tcg_final_project.Ipc.{ipc_load_session, ipc_store_init}
use tcg_final_project.Ipc.Laws.{game_of, game_of-load, ipc_load_session-game_of}
use tcg_final_project.Ipc.Attach.{shm_init, ipc_stats_init, ipc_store_attach}
use tcg_final_project.Proto.Opcode.{op_login_req}
use tcg_final_project.Session.World.{
  Libc, World, Received, resume_resp, get_u64, send, send_game, close,
}
use tcg_final_project.Session.World
use tcg_final_project.Session.Handshake.{greet, resume, take_over}
use tcg_final_project.Session.Serve.{step, step_at, start, let_ai_play}
use tcg_final_project.Session.Calls.{let_ai_play-Stays, serve-Stays}
use tcg_final_project.Session.Resumption.{resume_req, bytes_of}
use tcg_final_project.Server.{
  System, Process, Accepted, joined, refused, no_fork, no_handshake, Happening, accepts, receives,
  accept_round, attach, deliver, receive, happen, run_server,
}

-- What `main` gets before its loop: the TLS context; of each memory a descriptor, its size by
-- `ftruncate`, and its place by `mmap`; and the socket.
pub record Setting : Type 0 where
  pub ctx : Bool
  pub stats_fd : Option ℕ
  pub stats_sized : Bool
  pub stats_mapped : Bool
  pub store_fd : Option ℕ
  pub store_sized : Bool
  pub store_mapped : Bool
  pub lfd : Bool

-- The start of `main` over the memories that there are: 1, or 0 for the loop, and what the memories
-- have then.
unfoldable pub start_beside : Setting → System → ℕ × System
start_beside m s =
    if not m.ctx
    then (1, s)
    else elim (ipc_stats_init true m.stats_fd m.stats_sized
        (if m.stats_mapped then some s.stats else none)).0 [
          | none ↦ (1, s)
          | some stats ↦
              let counted = record s { stats = stats } in
              elim (ipc_store_attach true m.store_fd m.store_sized
                (if m.store_mapped then some s.store else none)).0 [
                  | none ↦ (1, counted)
                  | some store ↦ (if m.lfd then 0 else 1, record counted { store = store })
                ]
        ]

abbrev is_some : Option ℕ → Bool
is_some none = false
is_some (some _) = true

-- A login is among the packets.
abbrev is_login : Received → Bool
is_login World.broken = false
is_login (World.packet op payload) = op == op_login_req

unfoldable pub has_login : List Happening → Bool
has_login [] = false
has_login (accepts a ∷ hs) = has_login hs
has_login (receives i r ∷ hs) = is_login r || has_login hs

game_of-created : (sid : ℕ) → game_of ipc_store_init sid ≡ none
unfolding game_of ipc_store_init
game_of-created sid = refl

-- The process `w'` has brought no session id into the table of `w`.
abbrev Gone : World → World → Type 0
Gone w w' = (k : ℕ) → game_of w.store k ≡ none → game_of w'.store k ≡ none

Gone-if : (b : Bool) (w x y : World) → Gone w x → Gone w y → Gone w (if b then x else y)
Gone-if true w x y p q = p
Gone-if false w x y p q = q

module _ (c : Libc) where
  resume-Gone : (sid : ℕ) (w : World) → Gone w (resume c sid w)
  unfolding resume take_over send send_game
  resume-Gone sid w k gone =
      go (ipc_load_session w.store sid (c.time w.accesses)).0 _
        (game_of-load w.store sid (c.time w.accesses) k ∙ gone)
    where
      go :
          (found : Option (State × Hand)) (x : World)
          → game_of x.store k ≡ none
          → game_of (take_over c sid found x).store k ≡ none
      go none x h = h
      go (some (st, h)) x e = e

  greet-Gone : (r : Received) (w : World) → is_login r ≡ false → Gone w (greet c r w)
  unfolding greet close send
  greet-Gone World.broken w calm k h = h
  greet-Gone (World.packet op payload) w calm k h =
      ground (arith, calm, h, resume-Gone (get_u64 (take 8 payload)) w k h)

  step-Gone : (r : Received) (w : World) → is_login r ≡ false → Gone w (step c w r)
  unfolding step step_at
  step-Gone r w calm k h = go w.stage
    where
      go : (st : World.Stage) → game_of (step_at c st r w).store k ≡ none
      go World.handshake = greet-Gone r w calm k h
      go World.playing =
          (serve-Stays c r (let_ai_play c w)).gone k ((let_ai_play-Stays c w).gone k h)
      go World.closed = h

accept_round-gone :
    (a : Accepted) (s : System) (k : ℕ)
    → game_of s.store k ≡ none
    → game_of (accept_round a s).store k ≡ none
unfolding accept_round
accept_round-gone refused s k gone = gone
accept_round-gone no_fork s k gone = gone
accept_round-gone no_handshake s k gone = gone
accept_round-gone (joined c) s k gone = gone

receive-gone :
    (i : ℕ) (r : Received) (s : System) (k : ℕ)
    → is_login r ≡ false
    → game_of s.store k ≡ none
    → game_of (receive i r s).store k ≡ none
unfolding receive deliver
receive-gone i r s k calm gone = go (get_elem? s.procs i)
  where
    go :
        (o : Option Process)
        → game_of (elim o as (λ x. System) [ none ↦ s | some p ↦ deliver i p r s ]).store k ≡ none
    go none = gone
    go (some p) = step-Gone p.libc r (attach s p.world) calm k gone

run_server-gone :
    (hs : List Happening) (s : System) (k : ℕ)
    → has_login hs ≡ false
    → game_of s.store k ≡ none
    → game_of (run_server s hs).store k ≡ none
unfolding run_server has_login happen
run_server-gone [] s k calm gone = gone
run_server-gone (accepts a ∷ hs) s k calm gone =
    run_server-gone hs (accept_round a s) k calm (accept_round-gone a s k gone)
run_server-gone (receives i r ∷ hs) s k calm gone =
    run_server-gone hs (receive i r s) k (ground (arith, calm))
      (receive-gone i r s k (ground (arith, calm)) gone)

resume-refused :
    (c : Libc) (sid : ℕ) (s : System)
    → ((k : ℕ) → game_of s.store k ≡ none)
    → (greet c (resume_req sid) (start s.store s.stats)).sent ≡ resume_resp 0 0 ∷ []
unfolding greet resume take_over send
resume-refused c sid s gone =
    rw (ipc_load_session-game_of s.store (get_u64 (bytes_of 8 sid)) (c.time 0) ∙ gone _) refl

-- The start gets as far as the table.
unfoldable pub reaches_table : Setting → Bool
reaches_table m =
    m.ctx
    && (is_some m.stats_fd && m.stats_sized && m.stats_mapped)
    && (is_some m.store_fd && m.store_sized && m.store_mapped)

start_beside-created :
    (m : Setting) (s : System)
    → reaches_table m ≡ true
    → ((start_beside m s).0 ≡ (if m.lfd then 0 else 1))
      × ((start_beside m s).1.store ≡ ipc_store_init)
unfolding start_beside reaches_table ipc_stats_init ipc_store_attach shm_init
start_beside-created m s all = ground (arith, all)

-- If the program is started where it runs already and gets as far as the table, its start results
-- in 0, or in 1 when it gets no socket. From then on, whatever is accepted and whatever packets but
-- logins the children get, no session id has a game in the table, and a new process that is asked
-- for a session, whichever it is, refuses it.
pub start_beside-loses :
    (m : Setting) (s : System) (hs : List Happening) (sid : ℕ) (c : Libc)
    → reaches_table m ≡ true
    → has_login hs ≡ false
    → let (rc, t) = start_beside m s in
      let u = run_server t hs in
      (rc ≡ (if m.lfd then 0 else 1))
      × (game_of u.store sid ≡ none)
      × ((greet c (resume_req sid) (start u.store u.stats)).sent ≡ resume_resp 0 0 ∷ [])
start_beside-loses m s hs sid c all calm =
    let begun = start_beside-created m s all in
    let gone : (k : ℕ) → game_of (run_server (start_beside m s).1 hs).store k ≡ none = λ k.
      run_server-gone hs (start_beside m s).1 k calm
        (ap (λ es. game_of es k) begun.1 ∙ game_of-created k) in
    (begun.0, gone sid, resume-refused c sid (run_server (start_beside m s).1 hs) gone)
