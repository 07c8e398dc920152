-- ===== src/Server/Sound.antt =====
-- Every child of src/server.c, however the children and the accept loop take turns.
use tcg_final_project.Prelude.{
  ℕ, zero, suc, ◌≡◌, List, [], ◌∷◌, ◌++◌, true, false, some, get_elem?, set, Option-cases, inl, inr,
}
use mathlib.Core.Path.{subst}
use tcg_final_project.Ipc.Laws.{game_of, is_live}
use tcg_final_project.Session.World.{World, Received, playing}
use tcg_final_project.Session.Serve.{let_ai_play, step, start}
use tcg_final_project.Session.Invariant.{IsGood, GoodAt, turn_errors}
use tcg_final_project.Session.Duty.{IsPlayers, let_ai_play-IsServing}
use tcg_final_project.Session.Run.{step-IsGood, start-IsGood, init-GoodAt}
use tcg_final_project.Server.{
  Process, System, attach, Accepted, refused, no_fork, no_handshake, joined, accept_round, deliver,
  receive, Happening, accepts, receives, happen, run_server, created,
}
use tcg_final_project.Server.Sharing.{step-live}

abbrev AllGood : System → List Process → Type 0
AllGood s [] = Unit {0}
AllGood s (p ∷ ps) = IsGood (attach s p.world) × AllGood s ps

-- The games in the table are sound, and so is every child at the table.
pub record IsGoodSystem (s : System) : Type 0 where
  pub stored : (k : ℕ) → GoodAt s.store k
  pub all_good : AllGood s s.procs

-- What a child must find in a table that another has worked on.
pub record Follows (s t : System) : Type 0 where
  pub stored : (k : ℕ) → GoodAt t.store k
  pub kept : (k : ℕ) → is_live (game_of s.store k) ≡ true → is_live (game_of t.store k) ≡ true

pub carry : (s t : System) (w : World) → Follows s t → IsGood (attach s w) → IsGood (attach t w)
carry s t w f v = record {
  stored = f.stored;
  fresh = v.fresh;
  ready = v.ready;
  live = λ h. f.kept w.my_sid (v.live h);
  quiet = v.quiet;
}

carry_all : (s t : System) (ps : List Process) → Follows s t → AllGood s ps → AllGood t ps
carry_all s t [] f h = tt
carry_all s t (p ∷ ps) f h = (carry s t p.world f h.0, carry_all s t ps f h.1)

AllGood-lookup :
    (s : System) (ps : List Process) (i : ℕ) (p : Process)
    → get_elem? ps i ≡ some p
    → AllGood s ps
    → IsGood (attach s p.world)
AllGood-lookup s [] i p e h = cc e
AllGood-lookup s (q ∷ ps) zero p e h =
    let same : q ≡ p = cc e in subst (λ x. IsGood (attach s x.world)) same h.0
AllGood-lookup s (q ∷ ps) (suc i) p e h = AllGood-lookup s ps i p e h.1

AllGood-set :
    (s : System) (ps : List Process) (i : ℕ) (p : Process)
    → IsGood (attach s p.world)
    → AllGood s ps
    → AllGood s (set ps i p)
AllGood-set s [] i p v h = tt
AllGood-set s (q ∷ ps) zero p v h = (v, h.1)
AllGood-set s (q ∷ ps) (suc i) p v h = (h.0, AllGood-set s ps i p v h.1)

AllGood-append :
    (s : System) (ps : List Process) (p : Process)
    → IsGood (attach s p.world)
    → AllGood s ps
    → AllGood s (ps ++ p ∷ [])
AllGood-append s [] p v h = (v, tt)
AllGood-append s (q ∷ ps) p v h = (h.0, AllGood-append s ps p v h.1)

accept_round-IsGoodSystem :
    (a : Accepted) (s : System) → IsGoodSystem s → IsGoodSystem (accept_round a s)
unfolding accept_round
accept_round-IsGoodSystem refused s v = v
accept_round-IsGoodSystem no_fork s v = v
accept_round-IsGoodSystem no_handshake s v = v
accept_round-IsGoodSystem (joined c) s v =
    let t = accept_round (joined c) s in
    record {
      stored = v.stored;
      all_good =
          AllGood-append t s.procs (record { libc = c; world = start s.store t.stats })
            (start-IsGood s.store t.stats v.stored)
            (carry_all s t s.procs (record { stored = v.stored; kept = λ k h. h }) v.all_good);
    }

deliver-IsGoodSystem :
    (i : ℕ) (p : Process) (r : Received) (s : System)
    → IsGood (attach s p.world)
    → IsGoodSystem s
    → IsGoodSystem (deliver i p r s)
unfolding deliver
deliver-IsGoodSystem i p r s g v =
    let t = deliver i p r s in
    let w = step p.libc (attach s p.world) r in
    let good : IsGood w = step-IsGood p.libc (attach s p.world) r g in
    record {
      stored = good.stored;
      all_good =
          AllGood-set t s.procs i (record p { world = w }) good
            (carry_all s t s.procs
              (record { stored = good.stored; kept = step-live p.libc (attach s p.world) r })
              v.all_good);
    }

happen-IsGoodSystem : (s : System) (h : Happening) → IsGoodSystem s → IsGoodSystem (happen s h)
unfolding happen receive
happen-IsGoodSystem s (accepts a) v = accept_round-IsGoodSystem a s v
happen-IsGoodSystem s (receives i r) v = elim (Option-cases (get_elem? s.procs i)) [
  | inl gone ↦ rw (gone, receive) v
  | inr (p, here) ↦
      rw (here, receive)
        (deliver-IsGoodSystem i p r s (AllGood-lookup s s.procs i p here v.all_good) v)
]

pub run_server-IsGoodSystem :
    (s : System) (hs : List Happening) → IsGoodSystem s → IsGoodSystem (run_server s hs)
unfolding run_server
run_server-IsGoodSystem s [] v = v
run_server-IsGoodSystem s (h ∷ hs) v =
    run_server-IsGoodSystem (happen s h) hs (happen-IsGoodSystem s h v)

pub created-IsGoodSystem : IsGoodSystem created
unfolding created
created-IsGoodSystem = record { stored = init-GoodAt; all_good = tt }

-- However the accept loop and the children take turns, over one shared table and from the one that
-- the server creates, and whatever packets the children get: each time a child of a running session
-- waits for its next packet, its game is over or it is the player's own main phase.
pub every_player_may_act :
    (hs : List Happening) (i : ℕ) (p : Process)
    → get_elem? (run_server created hs).procs i ≡ some p
    → p.world.stage ≡ playing
    → IsPlayers (let_ai_play p.libc (attach (run_server created hs) p.world)).game.st
every_player_may_act hs i p here at =
    let s = run_server created hs in
    let v = run_server-IsGoodSystem created hs created-IsGoodSystem in
    (let_ai_play-IsServing p.libc (attach s p.world) (AllGood-lookup s s.procs i p here v.all_good)
      at).players

-- However the accept loop and the children take turns, from the table that the server creates, and
-- whatever packets they get: no child has ever sent the errors -11, not your turn, or -12, phase
-- error.
pub no_child_sends_turn_errors :
    (hs : List Happening) (i : ℕ) (p : Process)
    → get_elem? (run_server created hs).procs i ≡ some p
    → turn_errors p.world.sent ≡ false
no_child_sends_turn_errors hs i p here =
    let s = run_server created hs in
    let v = run_server-IsGoodSystem created hs created-IsGoodSystem in
    (AllGood-lookup s s.procs i p here v.all_good).quiet
