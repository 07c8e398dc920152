-- ===== src/Session/Resumption.antt =====
-- A resumption in src/server.c: what a client gets back that lost its connection.
use tcg_final_project.Prelude.{
  ℕ, zero, suc, ◌/◌, ◌%◌, ◌<◌, ◌≡◌, refl, sym, ap, ◌∙◌, List, [], ◌∷◌, ◌++◌, some, arith,
}
use mathlib.Core.List.{append_assoc}
use tcg_final_project.Game.Defs.{State, Hand, resumed}
use tcg_final_project.Game.Rules.{push_log}
use tcg_final_project.Ipc.{ipc_load_session, Stats}
use tcg_final_project.Ipc.Laws.{game_of, ipc_load_session-game_of}
use tcg_final_project.Proto.Opcode.{op_resume_req}
use tcg_final_project.Session.World.{
  Libc, World, Reply, Received, resume_resp, state, hand, playing, send, send_game, get_u64,
}
use tcg_final_project.Session.World
use tcg_final_project.Session.Handshake.{take_over, resume, greet}
use tcg_final_project.Session.Serve.{play, on_end_turn, start}
use tcg_final_project.Session.Duty.{IsServing}
use tcg_final_project.Session.Durable.{play-IsSaved}

-- The first `k` bytes of a number, the lowest first.
abbrev pub bytes_of : ℕ → ℕ → List ℕ
bytes_of zero n = []
bytes_of (suc k) n = n % 256 ∷ bytes_of k (n / 256)

abbrev pub shifted : ℕ → ℕ → ℕ
shifted zero n = n
shifted (suc k) n = shifted k (n / 256)

pub get_u64-bytes_of : (k n : ℕ) → shifted k n ≡ 0 → get_u64 (bytes_of k n) ≡ n
unfolding get_u64
get_u64-bytes_of zero n h = sym h
get_u64-bytes_of (suc k) n h = omega (arith, get_u64-bytes_of k (n / 256) h)

pub u64-shifted : (n : ℕ) → n < 18446744073709551616 → shifted 8 n ≡ 0
u64-shifted n h = omega arith

-- `resume_req_t`
abbrev pub resume_req : ℕ → Received
resume_req sid = World.packet op_resume_req (bytes_of 8 sid)

-- The world behind a resumption of `sid` with the game `st` and `h`.
pub record Resumed (w w' : World) (sid : ℕ) (st : State) (h : Hand) : Type 0 where
  pub stage_eq : w'.stage ≡ playing
  pub sid_eq : w'.my_sid ≡ sid
  pub st_eq : w'.game.st ≡ push_log st resumed
  pub hand_eq : w'.game.hand ≡ h
  pub sent_eq : w'.sent ≡ w.sent ++ resume_resp 1 sid ∷ state st ∷ hand h ∷ []

module _ (c : Libc) where
  take_over-Resumed :
      (sid : ℕ) (st : State) (h : Hand) (w w1 : World)
      → w1.sent ≡ w.sent
      → Resumed w (take_over c sid (some (st, h)) w1) sid st h
  unfolding take_over send_game send
  take_over-Resumed sid st h w w1 same = record {
    stage_eq = refl;
    sid_eq = refl;
    st_eq = refl;
    hand_eq = refl;
    sent_eq =
        append_assoc (w1.sent ++ resume_resp 1 sid ∷ []) (state st ∷ []) (hand h ∷ [])
        ∙ append_assoc w1.sent (resume_resp 1 sid ∷ []) (state st ∷ hand h ∷ [])
        ∙ ap (λ b. b ++ resume_resp 1 sid ∷ state st ∷ hand h ∷ []) same;
  }

  -- A client that asks for a session id of the table, a `uint64_t`, goes on with the table's game,
  -- to whose log a line is added: it is sent the id, the state and the hand.
  pub resume-Resumed :
      (sid : ℕ) (st : State) (h : Hand) (w : World)
      → sid < 18446744073709551616
      → game_of w.store sid ≡ some (st, h)
      → Resumed w (greet c (resume_req sid) w) sid st h
  unfolding greet resume
  resume-Resumed sid st h w small found =
      let sid_back : get_u64 (bytes_of 8 sid) ≡ sid =
        get_u64-bytes_of 8 sid (u64-shifted sid small) in
      let there : (ipc_load_session w.store sid (c.time w.accesses)).0 ≡ some (st, h) =
        ipc_load_session-game_of w.store sid (c.time w.accesses) ∙ found in
      rw (sid_back, there) (take_over-Resumed sid st h w _ refl)

  -- A connection of a game that goes on breaks behind a play, accepted or refused, and nothing is
  -- lost: a new process that resumes the session goes on with the very game that the old one had
  -- behind the play, a line added to its log, and sends that game. The session id is a `uint64_t`.
  pub play-Resumed :
      (idx : ℕ) (w : World) (stats : Stats)
      → IsServing w
      → w.game.st.game_over ≡ 0
      → (play c idx w).my_sid < 18446744073709551616
      → let old = play c idx w in
        Resumed
          (start old.store stats)
          (greet c (resume_req old.my_sid) (start old.store stats))
          old.my_sid
          old.game.st
          old.game.hand
  play-Resumed idx w stats v on small =
      let old = play c idx w in
      resume-Resumed old.my_sid old.game.st old.game.hand (start old.store stats) small
        (play-IsSaved c idx w v on).0

  -- A connection of a game that goes on breaks behind the end of the player's turn, the AI's turn
  -- included, and nothing is lost: a new process that resumes the session goes on with the very
  -- game that the old one had then, a line added to its log, and sends that game. The session id is
  -- a `uint64_t`.
  pub on_end_turn-Resumed :
      (w : World) (stats : Stats)
      → IsServing w
      → w.game.st.game_over ≡ 0
      → (on_end_turn c w).my_sid < 18446744073709551616
      → let old = on_end_turn c w in
        Resumed
          (start old.store stats)
          (greet c (resume_req old.my_sid) (start old.store stats))
          old.my_sid
          old.game.st
          old.game.hand
  on_end_turn-Resumed w stats v on small =
      let old = on_end_turn c w in
      resume-Resumed old.my_sid old.game.st old.game.hand (start old.store stats) small
        (play-IsSaved c 0 w v on).1
