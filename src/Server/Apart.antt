-- ===== src/Server/Apart.antt =====
-- When the children of src/server.c play different sessions.
use tcg_final_project.Prelude.{
  ℕ, zero, suc, ◌≡◌, ◌≢◌, refl, ap, List, [], ◌∷◌, Bool, true, false, ◌&&◌, ◌||◌, ◌==◌, arith, none,
  some, get_elem?,
}
use mathlib.Core.Path.{subst}
use tcg_final_project.Session.World.{Stage, playing}
use tcg_final_project.Session.Serve.{step}
use tcg_final_project.Server.{Process, System, attach, Happening, accepts, receives, happen}

abbrev is_playing : Stage → Bool
is_playing playing = true
is_playing _ = false

-- The child runs the session.
abbrev runs : ℕ → Process → Bool
runs sid p = is_playing p.world.stage && p.world.my_sid == sid

abbrev any_runs : ℕ → List Process → Bool
any_runs sid [] = false
any_runs sid (p ∷ ps) = runs sid p || any_runs sid ps

-- A child other than the `i`-th runs the session.
abbrev pub other_runs : ℕ → ℕ → List Process → Bool
other_runs sid i [] = false
other_runs sid zero (p ∷ ps) = any_runs sid ps
other_runs sid (suc i) (p ∷ ps) = runs sid p || other_runs sid i ps

-- A child takes a packet into a session that another child runs.
unfoldable pub intrudes : System → Happening → Bool
intrudes s (accepts a) = false
intrudes s (receives i r) = elim (get_elem? s.procs i) [
  | none ↦ false
  | some p ↦ other_runs (step p.libc (attach s p.world) r).my_sid i s.procs
]

-- No two children ever run one session.
unfoldable pub shares_session : System → List Happening → Bool
shares_session s [] = false
shares_session s (h ∷ hs) = intrudes s h || shares_session (happen s h) hs

pub runs-my_sid :
    (sid : ℕ) (p : Process) → runs sid p ≡ false → p.world.stage ≡ playing → p.world.my_sid ≢ sid
runs-my_sid sid p none_runs at same = ground (arith, at)

any_runs-lookup :
    (sid : ℕ) (ps : List Process) (j : ℕ) (q : Process)
    → any_runs sid ps ≡ false
    → get_elem? ps j ≡ some q
    → runs sid q ≡ false
any_runs-lookup sid [] j q e h = cc h
any_runs-lookup sid (p ∷ ps) zero q e h =
    let same : p ≡ q = cc h in subst (λ x. runs sid x ≡ false) same (ground arith)
any_runs-lookup sid (p ∷ ps) (suc j) q e h = any_runs-lookup sid ps j q (ground arith) h

pub other_runs-lookup :
    (sid i : ℕ) (ps : List Process) (j : ℕ) (q : Process)
    → other_runs sid i ps ≡ false
    → get_elem? ps j ≡ some q
    → i ≢ j
    → runs sid q ≡ false
other_runs-lookup sid i [] j q e h ne = cc h
other_runs-lookup sid zero (p ∷ ps) zero q e h ne = absurd (ne refl)
other_runs-lookup sid zero (p ∷ ps) (suc j) q e h ne = any_runs-lookup sid ps j q e h
other_runs-lookup sid (suc i) (p ∷ ps) zero q e h ne =
    let same : p ≡ q = cc h in subst (λ x. runs sid x ≡ false) same (ground arith)
other_runs-lookup sid (suc i) (p ∷ ps) (suc j) q e h ne =
    other_runs-lookup sid i ps j q (ground arith) h (λ k. ne (ap suc k))
