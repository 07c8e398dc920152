-- ===== src/Server/Surviving.antt =====
-- The children of src/server.c that play different sessions: the shared table keeps the game of each.
use tcg_final_project.Prelude.{
  ℕ, zero, suc, ◌<◌, ◌≡◌, ◌⊎◌, inl, inr, sym, ap, ◌∙◌, List, [], ◌∷◌, ◌++◌, false, arith, none,
  some, get_elem?, set, length, get_elem?-set_self, get_elem?-set_ne, Option-cases,
}
use native.Mathlib.Decide.{ℕ_discrete}
use mathlib.Core.Path.{subst}
use tcg_final_project.Game.Defs.{State, resumed}
use tcg_final_project.Game.Rules.{push_log}
use tcg_final_project.Ipc.{ipc_stats_inc_conn}
use tcg_final_project.Ipc.Laws.{game_of, is_live}
use tcg_final_project.Session.World.{Libc, World, Received, handshake, playing}
use tcg_final_project.Session.Handshake.{greet}
use tcg_final_project.Session.Serve.{step, start}
use tcg_final_project.Session.Backed.{IsBacked, step-IsBacked}
use tcg_final_project.Session.Resumption.{resume_req, Resumed, resume-Resumed}
use tcg_final_project.Server.{
  Process, System, attach, Accepted, refused, no_fork, no_handshake, joined, accept_round, deliver,
  receive, Happening, accepts, receives, happen, run_server, created,
}
use tcg_final_project.Server.Sharing.{deliver-others, sids-AllU64}
use tcg_final_project.Server.Apart.{
  other_runs, intrudes, shares_session, runs-my_sid, other_runs-lookup,
}

-- The table has the game of each child that runs a session.
abbrev AllBacked : System → Type 0
AllBacked s =
    (i : ℕ) (p : Process)
    → get_elem? s.procs i ≡ some p
    → p.world.stage ≡ playing
    → IsBacked (attach s p.world)

append-cases :
    (ps : List Process) (new : Process) (i : ℕ) (p : Process)
    → get_elem? (ps ++ new ∷ []) i ≡ some p
    → (get_elem? ps i ≡ some p) ⊎ (new ≡ p)
append-cases [] new zero p e = inr (cc e)
append-cases [] new (suc i) p e = absurd (cc e)
append-cases (q ∷ ps) new zero p e = inl e
append-cases (q ∷ ps) new (suc i) p e = append-cases ps new i p e

accept_round-AllBacked : (a : Accepted) (s : System) → AllBacked s → AllBacked (accept_round a s)
unfolding accept_round
accept_round-AllBacked refused s b i p here at = b i p here at
accept_round-AllBacked no_fork s b i p here at = b i p here at
accept_round-AllBacked no_handshake s b i p here at = b i p here at
accept_round-AllBacked (joined c) s b i p here at = elim (append-cases s.procs _ i p here) [
  | inl old ↦ let v = b i p old at in record { stored = v.stored; there = v.there; same = v.same }
  | inr new ↦
      let waits : p.world.stage ≡ handshake = ap (λ q. q.world.stage) (sym new) in
      absurd (cc (waits, at))
]

get_elem?-bound :
    (ps : List Process) (i : ℕ) (p : Process) → get_elem? ps i ≡ some p → i < length ps
get_elem?-bound [] i p e = absurd (cc e)
get_elem?-bound (q ∷ ps) zero p e = omega arith
get_elem?-bound (q ∷ ps) (suc i) p e = omega (arith, get_elem?-bound ps i p e)

-- A child's game is still there in a table that has the same game of its session.
attach-IsBacked :
    (s t : System) (w : World)
    → game_of t.store w.my_sid ≡ game_of s.store w.my_sid
    → IsBacked (attach s w)
    → IsBacked (attach t w)
attach-IsBacked s t w e b = record { stored = b.stored; there = e ∙ b.there; same = b.same }

deliver-AllBacked :
    (i : ℕ) (p : Process) (r : Received) (s : System)
    → get_elem? s.procs i ≡ some p
    → other_runs (step p.libc (attach s p.world) r).my_sid i s.procs ≡ false
    → AllBacked s
    → AllBacked (deliver i p r s)
unfolding deliver
deliver-AllBacked i p r s here apart b j q there at =
    let w = step p.libc (attach s p.world) r in
    let served : Process = record p { world = w } in
    let t = deliver i p r s in
    elim (ℕ_discrete i j) [
      | yes self ↦
          let found : some served ≡ some q =
            sym (get_elem?-set_self s.procs i served (get_elem?-bound s.procs i p here))
            ∙ ap (get_elem? (set s.procs i served)) self
            ∙ there in
          let same : served ≡ q = cc found in
          let w_eq : w ≡ q.world = ap (λ x. x.world) same in
          let own : IsBacked w =
            step-IsBacked p.libc (attach s p.world) r (b i p here) (ap (λ x. x.stage) w_eq ∙ at) in
          subst (λ x. IsBacked (attach t x)) w_eq
            (record { stored = own.stored; there = own.there; same = own.same })
      | no ne ↦
          let old : get_elem? s.procs j ≡ some q =
            sym (get_elem?-set_ne s.procs served ne) ∙ there in
          let foreign =
            runs-my_sid w.my_sid q (other_runs-lookup w.my_sid i s.procs j q apart old ne) at in
          attach-IsBacked s t q.world (deliver-others i p r s q.world.my_sid foreign) (b j q old at)
    ]

receive-AllBacked :
    (i : ℕ) (r : Received) (s : System)
    → intrudes s (receives i r) ≡ false
    → AllBacked s
    → AllBacked (receive i r s)
unfolding receive intrudes
receive-AllBacked i r s apart b = elim (Option-cases (get_elem? s.procs i)) [
  | inl gone ↦ rw (gone, receive) b
  | inr (p, here) ↦
      let alone : other_runs (step p.libc (attach s p.world) r).my_sid i s.procs ≡ false =
        sym (
          ap
            (λ o. elim o [
              | none ↦ false
              | some x ↦ other_runs (step x.libc (attach s x.world) r).my_sid i s.procs
            ])
            here)
        ∙ apart in
      rw (here, receive) (deliver-AllBacked i p r s here alone b)
]

happen-AllBacked :
    (s : System) (h : Happening) → intrudes s h ≡ false → AllBacked s → AllBacked (happen s h)
unfolding happen
happen-AllBacked s (accepts a) e b = accept_round-AllBacked a s b
happen-AllBacked s (receives i r) e b = receive-AllBacked i r s e b

run_server-AllBacked :
    (s : System) (hs : List Happening)
    → shares_session s hs ≡ false
    → AllBacked s
    → AllBacked (run_server s hs)
unfolding run_server shares_session
run_server-AllBacked s [] e b = b
run_server-AllBacked s (h ∷ hs) e b =
    run_server-AllBacked (happen s h) hs (ground arith) (happen-AllBacked s h (ground arith) b)

created-AllBacked : AllBacked created
unfolding created
created-AllBacked i p here = absurd (cc here)

-- A child that is forked now and resumes the session of another: it goes on with that one's game, but
-- for the line that a resumption adds to the log.
pub record Regained (c : Libc) (s : System) (p : Process) : Type 0 where
  pub stored : State
  pub same : (p.world.game.st ≡ stored) ⊎ (p.world.game.st ≡ push_log stored resumed)
  pub resumed_ok :
      let new = start s.store (ipc_stats_inc_conn s.stats) in
      Resumed new (greet c (resume_req p.world.my_sid) new) p.world.my_sid stored p.world.game.hand

-- However the accept loop and the children take turns, from the table that the server creates, and
-- whatever packets they get, if no child takes a packet into a session that another child runs:
-- whenever the connection of a child that runs a session breaks, a process that is forked then and
-- asked for the session id goes on with that child's very game, but for the line that a resumption
-- adds to the log, and sends the game.
pub every_game_survives :
    (hs : List Happening)
    → shares_session created hs ≡ false
    → (i : ℕ) (p : Process) → get_elem? (run_server created hs).procs i ≡ some p
    → p.world.stage ≡ playing
    → (c : Libc) → Regained c (run_server created hs) p
every_game_survives hs apart i p here at c =
    let s = run_server created hs in
    let b = run_server-AllBacked created hs apart created-AllBacked i p here at in
    let small = sids-AllU64 hs p.world.my_sid (ap is_live b.there) in
    record {
      stored = b.stored;
      same = b.same;
      resumed_ok =
          resume-Resumed c p.world.my_sid b.stored p.world.game.hand
            (start s.store (ipc_stats_inc_conn s.stats)) small b.there;
    }
