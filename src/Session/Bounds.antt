-- ===== src/Session/Bounds.antt =====
-- The bounds of the numbers of a whole session of src/server.c, from its login on.
use tcg_final_project.Prelude.{
  ℕ, ◌+◌, ◌*◌, ◌≤◌, ◌≡◌, refl, sym, ap, ◌∙◌, List, [], ◌∷◌, length, arith,
}
use mathlib.Core.Path.{subst}
use tcg_final_project.Game.Defs.{Game, zero_state}
use tcg_final_project.Game.Rules.{push_log}
use tcg_final_project.Game.Turns.{enter_turn, phase_draw, deal_hand}
use tcg_final_project.Game.Ledger.{Fits}
use tcg_final_project.Ipc.{Entry, Stats}
use tcg_final_project.Proto.Opcode.{op_login_req}
use tcg_final_project.Session.World.{Libc, World, Received, playing, closed}
use tcg_final_project.Session.World
use tcg_final_project.Session.Handshake.{greet, log_in, new_game}
use tcg_final_project.Session.Serve.{step, step_at, run, start}
use tcg_final_project.Session.Invariant.{IsGood, GoodAt}
use tcg_final_project.Session.Duty.{closed≢playing}
use tcg_final_project.Session.Run.{step-IsGood, start-IsGood}
use tcg_final_project.Session.Login.{LoggedIn, seated, full, log_in-LoggedIn, login-IsServing}
use tcg_final_project.Session.Growth.{Lasts, going, gone, step-Lasts}

abbrev pub login_req : Received
login_req = World.packet op_login_req []

-- The first turn of a new game.
new_game-Fits : (c : Libc) (g : Game) → g.st ≡ zero_state → Fits 1 (new_game c g).st
unfolding new_game enter_turn phase_draw push_log deal_hand
new_game-Fits c g e =
    let p = ap (λ s. s.p_shield) e in
    let a = ap (λ s. s.ai_shield) e in
    let pb = ap (λ s. s.p_buff) e in
    let ab = ap (λ s. s.ai_buff) e in
    let pp = ap (λ s. s.p_poison) e in
    let ap' = ap (λ s. s.ai_poison) e in
    record {
      p_hp = omega arith;
      ai_hp = omega arith;
      p_shield = omega (arith, p);
      ai_shield = omega (arith, a);
      p_buff = omega (arith, pb);
      ai_buff = omega (arith, ab);
      p_poison = λ h. omega (arith, pp);
      ai_poison = λ h. omega (arith, ap');
    }

run-Lasts :
    (c : Libc) (rs : List Received) (b : ℕ) (w : World)
    → b + 2 * length rs ≤ 3600
    → Lasts b w
    → Lasts (b + 2 * length rs) (run c w rs)
unfolding run
run-Lasts c [] b w small v = let same : b ≡ b + 0 = omega arith in subst (λ k. Lasts k w) same v
run-Lasts c (r ∷ rs) b w small v =
    let same : b + 2 + 2 * length rs ≡ b + 2 * length (r ∷ rs) = omega arith in
    subst (λ k. Lasts k (run c (step c w r) rs)) same
      (run-Lasts c rs (b + 2) (step c w r) (omega (arith, small))
        (step-Lasts c b (omega (arith, small)) r w v))

login-Lasts :
    (c : Libc) (store : List Entry) (stats : Stats)
    → ((k : ℕ) → GoodAt store k)
    → Lasts 1 (step c (start store stats) login_req)
unfolding step step_at greet
login-Lasts c store stats sound =
    let w = start store stats in
    go (log_in c w) (step-IsGood c w login_req (start-IsGood store stats sound))
      (log_in-LoggedIn c w)
  where
    go : (w' : World) → IsGood w' → LoggedIn c (start store stats) w' → Lasts 1 w'
    go w' good (seated free at pos st hand stored sent) =
        going (login-IsServing c (start store stats).game w' good at st)
          (subst (Fits 1) (sym st) (new_game-Fits c (start store stats).game refl))
    go w' good (full all at same sent) = gone at

pub session-Lasts :
    (c : Libc) (store : List Entry) (stats : Stats) (rs : List Received)
    → ((k : ℕ) → GoodAt store k)
    → length rs ≤ 1799
    → Lasts (1 + 2 * length rs) (run c (start store stats) (login_req ∷ rs))
unfolding run
session-Lasts c store stats rs sound few =
    run-Lasts c rs 1 _ (omega (arith, few)) (login-Lasts c store stats sound)

-- From a login over a table of sound games on, for at most 1799 packets of any kind: while the
-- session goes on, hit points, with three for each mana that is left, are within 30 and nine for
-- each turn, and shields and buffs, with three for each mana, within nine for each turn; and for
-- the first 85 turns the poison, with one for each mana, is within three for each turn. The turns
-- are one for the login and two for each packet.
pub session-Fits :
    (c : Libc) (store : List Entry) (stats : Stats) (rs : List Received)
    → ((k : ℕ) → GoodAt store k)
    → length rs ≤ 1799
    → let w = run c (start store stats) (login_req ∷ rs) in
      w.stage ≡ playing → Fits (1 + 2 * length rs) w.game.st
session-Fits c store stats rs sound few at = go (session-Lasts c store stats rs sound few)
  where
    go :
        Lasts (1 + 2 * length rs) (run c (start store stats) (login_req ∷ rs))
        → Fits (1 + 2 * length rs) (run c (start store stats) (login_req ∷ rs)).game.st
    go (going v f) = f
    go (gone shut) = absurd (closed≢playing (sym shut ∙ at))
