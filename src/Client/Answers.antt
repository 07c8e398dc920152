-- ===== src/Client/Answers.antt =====
-- The server's answers, src/server.c, as `recv_until` of src/client_app.c takes them.
use tcg_final_project.Prelude.{
  ℕ, ◌≡◌, ◌≢◌, inl, inr, refl, sym, ap, ◌∙◌, List, [], ◌∷◌, ◌++◌, map, length, Bool, true, false,
  ◌&&◌, ◌||◌, some, ◌==◌, ==_iff, Bool-cases, arith,
}
use mathlib.Core.List.{map-append, append_assoc, append-nil}
use tcg_final_project.Prelude.Words.{neg}
use tcg_final_project.Game.Defs.{State, Hand}
use tcg_final_project.Game.Rules.{handle_play_card}
use tcg_final_project.Proto.Opcode.{
  op_pong, op_login_resp, op_resume_resp, op_state, op_hand, op_error,
}
use tcg_final_project.Session.World.{Libc, World, Reply, Received, send, send_game, save}
use tcg_final_project.Session.World
use tcg_final_project.Session.Serve.{complain, let_ai_play, play, on_end_turn}
use tcg_final_project.Session.Handshake.{welcome}
use tcg_final_project.Client.{Heard, state_size, hand_size, note_packet, recv_loop, recv_until}
use Prim.Native.String.{String}

-- How the compiler lays the structures out, and what text `snprintf` puts in the logs.
pub record Layout : Type 0 where
  pub state_bytes : State → List ℕ
  pub hand_bytes : Hand → List ℕ
  pub login_bytes : List ℕ
  pub resume_bytes : ℕ → ℕ → List ℕ
  pub error_bytes : ℕ → String → List ℕ
  pub state_length : (st : State) → length (state_bytes st) ≡ state_size
  pub hand_length : (h : Hand) → length (hand_bytes h) ≡ hand_size

abbrev pub is_game : Reply → Bool
is_game (World.state _) = true
is_game (World.hand _) = true
is_game _ = false

unfoldable pub games_in : List Reply → Bool
games_in [] = false
games_in (r ∷ rs) = is_game r || games_in rs

pub or_false : (a b : Bool) → (a || b) ≡ false → (a ≡ false) × (b ≡ false)
or_false a b h = ground (arith, h)

abbrev pub is_error : Reply → Bool
is_error (World.error _ _) = true
is_error _ = false

unfoldable pub only_errors : List Reply → Bool
only_errors [] = true
only_errors (r ∷ rs) = is_error r && only_errors rs

error-is_game : (r : Reply) → is_error r ≡ true → is_game r ≡ false
error-is_game World.pong h = refl
error-is_game World.login_resp h = refl
error-is_game (World.resume_resp ok sid) h = refl
error-is_game (World.state st) h = cc h
error-is_game (World.hand hd) h = cc h
error-is_game (World.error code msg) h = refl

-- Errors hold no game.
pub only_errors-games_in : (rs : List Reply) → only_errors rs ≡ true → games_in rs ≡ false
unfolding only_errors games_in
only_errors-games_in [] h = refl
only_errors-games_in (r ∷ rs) h =
    let this : is_error r ≡ true = ground (arith, h) in
    let later : only_errors rs ≡ true = ground (arith, h) in
    ground (arith, error-is_game r this, only_errors-games_in rs later)

pub complain-told :
    (rc : ℕ) (w : World)
    → (others : List Reply) × ((complain rc w).sent ≡ w.sent ++ others)
      × (only_errors others ≡ true)
unfolding complain send only_errors
complain-told rc w = elim (Bool-cases (rc == 0)) [
  | inl fine ↦ ([], rw fine (sym (append-nil w.sent)), refl)
  | inr bad ↦ elim (Bool-cases (rc == neg 1)) [
    | inl place ↦ (World.error (neg 1) "invalid hand idx" ∷ [], rw (bad, place) refl, refl)
    | inr rest ↦ elim (Bool-cases (rc == neg 2)) [
      | inl mana ↦ (World.error (neg 2) "not enough mana" ∷ [], rw (bad, rest, mana) refl, refl)
      | inr card ↦ (World.error (neg 3) "invalid card" ∷ [], rw (bad, rest, card) refl, refl)
    ]
  ]
]

pub let_ai_play-sent : (c : Libc) (w : World) → (let_ai_play c w).sent ≡ w.sent
unfolding let_ai_play save
let_ai_play-sent c w = ground arith

module _ (l : Layout) where
  open l use {
    state_bytes, hand_bytes, login_bytes, resume_bytes, error_bytes, state_length, hand_length,
  }

  -- A reply as the client receives it.
  unfoldable pub wire : Reply → Received
  wire World.pong = World.packet op_pong []
  wire World.login_resp = World.packet op_login_resp login_bytes
  wire (World.resume_resp ok sid) = World.packet op_resume_resp (resume_bytes ok sid)
  wire (World.state st) = World.packet op_state (state_bytes st)
  wire (World.hand h) = World.packet op_hand (hand_bytes h)
  wire (World.error code msg) = World.packet op_error (error_bytes code msg)

  abbrev heard : Bool → Bool → List ℕ → List ℕ → Heard
  heard s h st hand = record { got_state = s; got_hand = h; st = st; hand = hand }

  note-state :
      (st : State) (h : Heard)
      → note_packet op_state (state_bytes st) h ≡ record h { got_state = true; st = state_bytes st }
  unfolding note_packet
  note-state st h = rw ((==_iff _ _).1 (state_length st)) refl

  note-hand :
      (hd : Hand) (h : Heard)
      → note_packet op_hand (hand_bytes hd) h ≡ record h { got_hand = true; hand = hand_bytes hd }
  unfolding note_packet
  note-hand hd h = rw ((==_iff _ _).1 (hand_length hd)) refl

  recv_loop-done :
      (rs : List Received) (st hand : List ℕ)
      → recv_loop rs (heard true true st hand) ≡ (some 0, heard true true st hand, rs)
  unfolding recv_loop
  recv_loop-done [] st hand = refl
  recv_loop-done (World.broken ∷ rs) st hand = refl
  recv_loop-done (World.packet op payload ∷ rs) st hand = refl

  recv_loop-game :
      (st : State) (h : Hand) (rest : List Received) (st0 hand0 : List ℕ)
      → recv_loop (wire (World.state st) ∷ wire (World.hand h) ∷ rest) (heard false false st0 hand0)
        ≡ (some 0, heard true true (state_bytes st) (hand_bytes h), rest)
  unfolding recv_loop wire
  recv_loop-game st h rest st0 hand0 =
      rw
        (
          note-state st (heard false false st0 hand0),
          note-hand h (heard true false (state_bytes st) hand0),
        )
        (recv_loop-done rest (state_bytes st) (hand_bytes h))

  -- Replies before the game's are passed over.
  recv_loop-other :
      (r : Reply) (rest : List Received) (st0 hand0 : List ℕ)
      → is_game r ≡ false
      → recv_loop (wire r ∷ rest) (heard false false st0 hand0)
        ≡ recv_loop rest (heard false false st0 hand0)
  unfolding recv_loop wire note_packet
  recv_loop-other World.pong rest st0 hand0 h = refl
  recv_loop-other World.login_resp rest st0 hand0 h = refl
  recv_loop-other (World.resume_resp ok sid) rest st0 hand0 h = refl
  recv_loop-other (World.state st) rest st0 hand0 h = absurd (cc h)
  recv_loop-other (World.hand hd) rest st0 hand0 h = absurd (cc h)
  recv_loop-other (World.error code msg) rest st0 hand0 h = refl

  recv_loop-others :
      (rs : List Reply) (rest : List Received) (st0 hand0 : List ℕ)
      → games_in rs ≡ false
      → recv_loop (map wire rs ++ rest) (heard false false st0 hand0)
        ≡ recv_loop rest (heard false false st0 hand0)
  unfolding games_in
  recv_loop-others [] rest st0 hand0 h = refl
  recv_loop-others (r ∷ rs) rest st0 hand0 h =
      let (first, later) = or_false (is_game r) (games_in rs) h in
      recv_loop-other r (map wire rs ++ rest) st0 hand0 first
      ∙ recv_loop-others rs rest st0 hand0 later

  -- From `w` to `w'` the server sends packets with which `recv_until` returns 0, with exactly the state
  -- and the hand of `w'`, and without a look at what follows.
  abbrev pub Answered : World → World → List Received → List ℕ → List ℕ → Type 0
  Answered w w' rest st0 hand0 =
      (told : List Reply) × (w'.sent ≡ w.sent ++ told)
      × (recv_until (map wire told ++ rest) st0 hand0
          ≡ (some 0, heard true true (state_bytes w'.game.st) (hand_bytes w'.game.hand), rest))

  send_game-Answered :
      (w w1 : World) (others : List Reply) (rest : List Received) (st0 hand0 : List ℕ)
      → w1.sent ≡ w.sent ++ others
      → games_in others ≡ false
      → Answered w (send_game w1) rest st0 hand0
  unfolding send_game send recv_until
  send_game-Answered w w1 others rest st0 hand0 before quiet =
      let game : List Reply = World.state w1.game.st ∷ World.hand w1.game.hand ∷ [] in
      (
        others ++ game,
        append_assoc w1.sent (World.state w1.game.st ∷ []) (World.hand w1.game.hand ∷ [])
            ∙ ap (λ b. b ++ game) before
            ∙ append_assoc w.sent others game,
        ap (λ b. recv_loop (b ++ rest) (heard false false st0 hand0)) (map-append wire others game)
            ∙ ap (λ b. recv_loop b (heard false false st0 hand0))
                (append_assoc (map wire others) (map wire game) rest)
            ∙ recv_loop-others others (map wire game ++ rest) st0 hand0 quiet
            ∙ recv_loop-game w1.game.st w1.game.hand rest st0 hand0,
      )

  -- Whatever place the player plays, accepted or refused: the packets that the server sends let the
  -- client's `recv_until` return 0, with the bytes of the state and the hand that the server has
  -- then, and with no packet read behind them.
  pub play-Answered :
      (c : Libc) (idx : ℕ) (w : World) (rest : List Received) (st0 hand0 : List ℕ)
      → Answered w (play c idx w) rest st0 hand0
  unfolding play save
  play-Answered c idx w rest st0 hand0 =
      let (rc, st) = handle_play_card w.game.st w.game.hand true idx in
      let played = record w { game = record w.game { st = st } } in
      let (others, told, quiet) = complain-told rc played in
      send_game-Answered w (save c (complain rc played)) others rest st0 hand0 told
        (only_errors-games_in others quiet)

  -- When the player ends its turn, the packets that the server sends, behind the AI's whole turn,
  -- let the client's `recv_until` return 0, with the bytes of the state and the hand that the
  -- server has then, and with no packet read behind them.
  pub on_end_turn-Answered :
      (c : Libc) (w : World) (rest : List Received) (st0 hand0 : List ℕ)
      → w.game.st.turn ≡ 0
      → Answered w (on_end_turn c w) rest st0 hand0
  unfolding on_end_turn save games_in
  on_end_turn-Answered c w rest st0 hand0 t =
      let mine : (w.game.st.turn == 0) ≡ true = (==_iff _ _).1 t in
      rw mine (
        send_game-Answered w _ [] rest st0 hand0 (let_ai_play-sent c _ ∙ sym (append-nil w.sent))
          refl)

  -- When a login gets a session id that is not 0, the packets that the server sends let the
  -- client's `recv_until` return 0, with the bytes of the new game's state and hand, and with no
  -- packet read behind them.
  pub welcome-Answered :
      (c : Libc) (w : World) (rest : List Received) (st0 hand0 : List ℕ)
      → w.my_sid ≢ 0
      → Answered w (welcome c w) rest st0 hand0
  unfolding welcome save send games_in
  welcome-Answered c w rest st0 hand0 got =
      let live : (w.my_sid == 0) ≡ false = ground arith in
      rw live (
        send_game-Answered w
          (send (World.resume_resp 1 w.my_sid) (send World.login_resp (save c w)))
          (World.login_resp ∷ World.resume_resp 1 w.my_sid ∷ []) rest st0 hand0
          (append_assoc w.sent (World.login_resp ∷ []) (World.resume_resp 1 w.my_sid ∷ [])) refl)
