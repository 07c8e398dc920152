-- ===== src/Server/Sharing.antt =====
-- What the children of src/server.c do to each other through the shared table.
use tcg_final_project.Prelude.{
  ℕ, ◌≡◌, ◌≢◌, ap, ◌∙◌, List, [], ◌∷◌, true, arith, length, get_elem?, Option, none, some,
}
use mathlib.Core.Path.{subst, sym}
use native.Mathlib.Decide.{dec_lt, ℕ_discrete}
use tcg_final_project.Ipc.{Entry, ipc_alloc_session}
use tcg_final_project.Ipc.Laws.{game_of, is_live, game_of-load, game_of-touch, game_of-save}
use tcg_final_project.Ipc.Alloc.{
  StoreCall, call, call_all, taken, taken-le, ipc_alloc_session-IsGrown, ipc_alloc_session-full,
}
use tcg_final_project.Ipc.Alloc
use tcg_final_project.Session.World.{Libc, World, Received}
use tcg_final_project.Session.Serve.{step}
use tcg_final_project.Session.Steps.{step-OwnActs}
use tcg_final_project.Ipc.Ids.{AllU64, init-AllU64, call_all-AllU64}
use tcg_final_project.Server.{
  Process, System, attach, deliver, Accepted, refused, no_fork, no_handshake, joined, accept_round,
  receive, Happening, accepts, receives, happen, run_server, created,
}

-- No call takes a session id out of the table.
call-live :
    (c : StoreCall) (es : List Entry) (k : ℕ)
    → is_live (game_of es k) ≡ true
    → is_live (game_of (call c es) k) ≡ true
unfolding call
call-live (Alloc.alloc time seen pid random) es k h = elim (dec_lt (taken es) (length es)) [
  | yes free ↦
      let g = ipc_alloc_session-IsGrown time seen pid random es free in
      let sid = (ipc_alloc_session time seen pid random es).0 in
      elim (ℕ_discrete k sid) [ yes same ↦ rw same g.live | no ne ↦ ap is_live (g.others k ne) ∙ h ]
  | no full ↦
      ap (λ r. is_live (game_of r.1 k))
        (ipc_alloc_session-full time seen pid random es (omega (arith, taken-le es)))
      ∙ h
]
call-live (Alloc.save sid st g now) es k h = ground (arith, game_of-save es sid st g now k)
call-live (Alloc.load sid now) es k h = ap is_live (game_of-load es sid now k) ∙ h
call-live (Alloc.touch sid now) es k h = ap is_live (game_of-touch es sid now k) ∙ h

call_all-live :
    (cs : List StoreCall) (es : List Entry) (k : ℕ)
    → is_live (game_of es k) ≡ true
    → is_live (game_of (call_all cs es) k) ≡ true
unfolding call_all
call_all-live [] es k h = h
call_all-live (c ∷ cs) es k h = call_all-live cs (call c es) k (call-live c es k h)

-- A packet to one session takes no session id out of the table.
pub step-live :
    (c : Libc) (w : World) (r : Received) (k : ℕ)
    → is_live (game_of w.store k) ≡ true
    → is_live (game_of (step c w r).store k) ≡ true
step-live c w r k h =
    let a = step-OwnActs c w r in
    ap (λ es. is_live (game_of es k)) a.store_eq ∙ call_all-live a.calls w.store k h

-- Whatever packet a child gets, at whatever stage, it leaves the games of all session ids in the
-- table as they were, but for the session id that the child itself has behind the packet.
pub deliver-others :
    (i : ℕ) (p : Process) (r : Received) (s : System) (k : ℕ)
    → k ≢ (step p.libc (attach s p.world) r).my_sid
    → game_of (deliver i p r s).store k ≡ game_of s.store k
unfolding deliver
deliver-others i p r s k ne = (step-OwnActs p.libc (attach s p.world) r).others k ne

accept_round-AllU64 : (a : Accepted) (s : System) → AllU64 s.store → AllU64 (accept_round a s).store
unfolding accept_round
accept_round-AllU64 refused s h = h
accept_round-AllU64 no_fork s h = h
accept_round-AllU64 no_handshake s h = h
accept_round-AllU64 (joined c) s h = h

receive-AllU64 : (i : ℕ) (r : Received) (s : System) → AllU64 s.store → AllU64 (receive i r s).store
unfolding receive deliver
receive-AllU64 i r s h = go (get_elem? s.procs i)
  where
    go :
        (o : Option Process)
        → AllU64 (elim o as (λ x. System) [ none ↦ s | some p ↦ deliver i p r s ]).store
    go none = h
    go (some p) =
        let a = step-OwnActs p.libc (attach s p.world) r in
        subst AllU64 (sym a.store_eq) (call_all-AllU64 a.calls s.store h)

run_server-AllU64 :
    (s : System) (hs : List Happening) → AllU64 s.store → AllU64 (run_server s hs).store
unfolding run_server happen
run_server-AllU64 s [] h = h
run_server-AllU64 s (accepts a ∷ hs) h =
    run_server-AllU64 (accept_round a s) hs (accept_round-AllU64 a s h)
run_server-AllU64 s (receives i r ∷ hs) h =
    run_server-AllU64 (receive i r s) hs (receive-AllU64 i r s h)

-- However the accept loop and the children take turns, from the table that the server creates, each
-- session id of the table is a `uint64_t`.
pub sids-AllU64 : (hs : List Happening) → AllU64 (run_server created hs).store
unfolding created
sids-AllU64 hs = run_server-AllU64 created hs init-AllU64
