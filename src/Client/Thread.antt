-- ===== src/Client/Thread.antt =====
-- A thread of src/client.c from its connection on, against the server of src/server.c.
use tcg_final_project.Prelude.{
  ℕ, ◌-◌, ◌≡◌, ◌≤◌, ◌<◌, refl, sym, ap, ◌∙◌, List, [], ◌∷◌, ◌++◌, length, map, get_or, Bool, true,
}
use mathlib.Core.Path.{subst}
use tcg_final_project.Prelude.Words.{neg}
use tcg_final_project.Game.Defs.{State, Hand}
use tcg_final_project.Ipc.{Entry, Stats}
use tcg_final_project.Ipc.Alloc.{taken}
use tcg_final_project.Proto.Opcode.{op_login_req}
use tcg_final_project.Session.World.{Libc, World, Reply, Received}
use tcg_final_project.Session.World
use tcg_final_project.Session.Handshake.{greet, log_in}
use tcg_final_project.Session.Serve.{step, step_at, start}
use tcg_final_project.Session.Invariant.{IsGood, GoodAt}
use tcg_final_project.Session.Run.{step-IsGood, start-IsGood}
use tcg_final_project.Session.Login.{
  LoggedIn, seated, full, answers, log_in-LoggedIn, login-IsServing,
}
use tcg_final_project.Client.{game_over_at}
use tcg_final_project.Client.Answers.{Layout, wire}
use tcg_final_project.Client.App.{between}
use tcg_final_project.Client.Worker.{
  Ended, failed, summed, Login, lost, state_loop, read_login, after_login, play_rounds, worker,
}
use tcg_final_project.Client.Worker
use tcg_final_project.Client.Rounds.{hang_up, ask_server, Summed, play_rounds-Summed}

abbrev login_req : Received
login_req = World.packet op_login_req []

module _ (c : Libc) (l : Layout)
    (placed : (st : State)
      → st.game_over ≤ 1
      → get_or (l.state_bytes st) game_over_at 0 ≡ st.game_over)
    (clock : ℕ → ℕ) (first : Bool) (rounds : ℕ) where
  -- A free slot: rounds are played and summed, all of them by any but the first thread. A full table:
  -- -1.
  pub data Worked (store : List Entry) (e : Ended) : Type 0 where
    played :
        taken store < length store
        → Summed c l placed clock first rounds 2 (clock 1 - clock 0) e
        → Worked store e
    turned_away : taken store ≡ length store → e ≡ failed → Worked store e

  read_login-answers :
      (sid : ℕ) (st : State) (h : Hand)
      → read_login (map (wire l) (answers sid st h)) ≡ Worker.seated (wire l (World.hand h) ∷ [])
  unfolding read_login state_loop wire
  read_login-answers sid st h = refl

  -- What the thread gets of what the server has told a new child.
  told :
      (store : List Entry) (stats : Stats) (w' : World) (rs : List Reply) (s : World.Stage)
      → w'.sent ≡ [] ++ rs
      → w'.stage ≡ s
      → between c l (start store stats) w' ++ hang_up w'.stage ≡ map (wire l) rs ++ hang_up s
  told store stats w' rs s sent at =
      ap (λ xs. map (wire l) xs ++ hang_up w'.stage) sent
      ∙ ap (λ x. map (wire l) rs ++ hang_up x) at

  -- A thread of the stress client against a new child of the server, whose table has sound games,
  -- over a connection that loses nothing, and for a layout that puts `game_over` in its place: with
  -- a free slot the thread ends, and reports the time of its login and of some of its rounds, and
  -- of all of them unless it is the first thread; at a full table it reports -1. It never waits for
  -- a packet that does not come.
  pub worker-Worked :
      (store : List Entry) (stats : Stats)
      → ((k : ℕ) → GoodAt store k)
      → Worked store (
          worker
            (ask_server c l placed clock first)
            clock
            first
            true
            true
            rounds
            (start store stats))
  unfolding worker ask_server step step_at greet read_login state_loop wire
  worker-Worked store stats sound =
      let w = start store stats in
      let w' = log_in c w in
      let good : IsGood w' = step-IsGood c w login_req (start-IsGood store stats sound) in
      go w' good (log_in-LoggedIn c w)
    where
      go :
          (w' : World)
          → IsGood w'
          → LoggedIn c (start store stats) w'
          → Worked store (
              after_login
                (ask_server c l placed clock first)
                clock
                first
                (read_login (between c l (start store stats) w' ++ hang_up w'.stage))
                rounds
                w')
      go w' good (seated free at pos st hand stored sent) =
          let fresh =
            told store stats w' (answers w'.my_sid w'.game.st w'.game.hand) World.playing sent at in
          let serving = login-IsServing c (start store stats).game w' good at st in
          let read = ap read_login fresh ∙ read_login-answers w'.my_sid w'.game.st w'.game.hand in
          played free (
            subst
              (λ x.
                Summed c l placed clock first rounds 2 (clock 1 - clock 0)
                  (after_login (ask_server c l placed clock first) clock first x rounds w'))
              (sym read)
              (play_rounds-Summed c l placed clock first rounds 2 (clock 1 - clock 0) w'
                w'.game.hand serving))
      go w' good (full all at same sent) =
          let fresh =
            told store stats w' (World.error (neg 999) "server full" ∷ []) World.closed sent at in
          turned_away all (
            ap
              (λ x.
                after_login (ask_server c l placed clock first) clock first (read_login x) rounds
                  w')
              fresh)
