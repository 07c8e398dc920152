-- ===== src/Client/Stress.antt =====
-- How `worker` of src/client.c waits for the answer to a play or to the end of a turn.
use tcg_final_project.Prelude.{
  ℕ, ◌≡◌, refl, ap, ◌∙◌, List, [], ◌∷◌, ◌++◌, map, length, get_or, Bool, true, false, not, ◌&&◌,
  ◌==◌, ==_iff, if◌then◌else◌, Bool-cases, inl, inr,
}
use mathlib.Core.List.{map-append, append_assoc}
use tcg_final_project.Game.Defs.{State, Hand}
use tcg_final_project.Game.Rules.{handle_play_card}
use tcg_final_project.Proto.Opcode.{op_state, op_hand}
use tcg_final_project.Session.World.{Libc, World, Reply, Received, send, send_game, save}
use tcg_final_project.Session.World
use tcg_final_project.Session.Serve.{complain, play}
use tcg_final_project.Client.{state_size, game_over_at}
use tcg_final_project.Client.Answers.{
  Layout, wire, is_game, games_in, or_false, complain-told, only_errors-games_in,
}

-- How the wait ends: both packets have come; `proto_recv` has failed; the first thread has seen the
-- end of the game; or it goes on.
pub data Waited : Type 0 where
  both hung_up over waiting : Waited

-- A state that ends the rounds of the thread, if it is the `first` one.
abbrev pub is_last : Bool → List ℕ → Bool
is_last first payload =
    length payload == state_size && first && not (get_or payload game_over_at 0 == 0)

-- The loop `while (!seen_state || !seen_hand)` over what `proto_recv` returns, and what is not read yet.
unfoldable pub wait_loop : Bool → Bool → Bool → List Received → Waited × List Received
wait_loop first seen_state seen_hand [] = (if seen_state && seen_hand then both else waiting, [])
wait_loop first seen_state seen_hand (World.broken ∷ rs) =
    if seen_state && seen_hand then (both, World.broken ∷ rs) else (hung_up, rs)
wait_loop first seen_state seen_hand (World.packet op payload ∷ rs) =
    let on_state = wait_loop first true seen_hand rs in
    let on_hand = wait_loop first seen_state true rs in
    let on_other = wait_loop first seen_state seen_hand rs in
    if seen_state && seen_hand
    then (both, World.packet op payload ∷ rs)
    else if op == op_state
    then (if is_last first payload then (over, rs) else on_state)
    else if op == op_hand
    then on_hand
    else on_other

pub wait_loop-both : (first : Bool) (rs : List Received) → wait_loop first true true rs ≡ (both, rs)
unfolding wait_loop
wait_loop-both first [] = refl
wait_loop-both first (World.broken ∷ rs) = refl
wait_loop-both first (World.packet op payload ∷ rs) = refl

module _ (l : Layout) where
  wait_loop-other :
      (first seen_hand : Bool) (r : Reply) (rest : List Received)
      → is_game r ≡ false
      → wait_loop first false seen_hand (wire l r ∷ rest) ≡ wait_loop first false seen_hand rest
  unfolding wait_loop wire
  wait_loop-other first seen_hand World.pong rest h = refl
  wait_loop-other first seen_hand World.login_resp rest h = refl
  wait_loop-other first seen_hand (World.resume_resp ok sid) rest h = refl
  wait_loop-other first seen_hand (World.state st) rest h = absurd (cc h)
  wait_loop-other first seen_hand (World.hand hd) rest h = absurd (cc h)
  wait_loop-other first seen_hand (World.error code msg) rest h = refl

  pub wait_loop-others :
      (first seen_hand : Bool) (rs : List Reply) (rest : List Received)
      → games_in rs ≡ false
      → wait_loop first false seen_hand (map (wire l) rs ++ rest)
        ≡ wait_loop first false seen_hand rest
  unfolding games_in
  wait_loop-others first seen_hand [] rest h = refl
  wait_loop-others first seen_hand (r ∷ rs) rest h =
      let (this, later) = or_false (is_game r) (games_in rs) h in
      wait_loop-other first seen_hand r (map (wire l) rs ++ rest) this
      ∙ wait_loop-others first seen_hand rs rest later

module _ (l : Layout)
    (placed : (st : State) → get_or (l.state_bytes st) game_over_at 0 ≡ st.game_over) where
  open l use {state_length}

  -- What the thread has of an answer with the state `st` and the hand `h`.
  abbrev pub heard_answer : Bool → State → Hand → List Received → Waited × List Received
  heard_answer first st h rest =
      if first && not (st.game_over == 0)
      then (over, wire l (World.hand h) ∷ rest)
      else (both, rest)

  wait_loop-game :
      (first : Bool) (st : State) (h : Hand) (rest : List Received)
      → wait_loop first false false (wire l (World.state st) ∷ wire l (World.hand h) ∷ rest)
        ≡ heard_answer first st h rest
  unfolding wait_loop wire
  wait_loop-game first st h rest =
      let size = (==_iff _ _).1 (state_length st) in
      elim (Bool-cases (first && not (st.game_over == 0))) [
        | inl last ↦ rw (size, placed st, last) refl
        | inr on ↦ rw (size, placed st, on) (wait_loop-both first rest)
      ]

  -- Whatever place a thread of the stress client plays, accepted or refused: the packets that the
  -- server sends end the loop in which it waits, behind the state and the hand with no packet read
  -- behind them, or, for the first thread and a game that is over, behind the state.
  pub play-wait_loop :
      (c : Libc) (idx : ℕ) (w : World) (first : Bool) (rest : List Received)
      → (told : List Reply) × ((play c idx w).sent ≡ w.sent ++ told)
        × (wait_loop first false false (map (wire l) told ++ rest)
            ≡ heard_answer first (play c idx w).game.st (play c idx w).game.hand rest)
  unfolding play save send_game send
  play-wait_loop c idx w first rest =
      let (rc, st) = handle_play_card w.game.st w.game.hand true idx in
      let played = record w { game = record w.game { st = st } } in
      let (others, told, quiet) = complain-told rc played in
      let w1 = complain rc played in
      let game : List Reply = World.state w1.game.st ∷ World.hand w1.game.hand ∷ [] in
      (
        others ++ game,
        append_assoc w1.sent (World.state w1.game.st ∷ []) (World.hand w1.game.hand ∷ [])
            ∙ ap (λ b. b ++ game) told
            ∙ append_assoc w.sent others game,
        ap (λ b. wait_loop first false false (b ++ rest)) (map-append (wire l) others game)
            ∙ ap (wait_loop first false false)
                (append_assoc (map (wire l) others) (map (wire l) game) rest)
            ∙ wait_loop-others l first false others (map (wire l) game ++ rest)
                (only_errors-games_in others quiet)
            ∙ wait_loop-game first w1.game.st w1.game.hand rest,
      )
