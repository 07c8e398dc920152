-- ===== src/Session/Invariant.antt =====
-- What holds between two packets of a session of src/server.c: of the game, of the games in the table,
-- and of the packets sent.
use tcg_final_project.Prelude.{
  ℕ, ◌≡◌, ◌≢◌, ◌⊎◌, refl, sym, ap, ◌∙◌, List, [], ◌∷◌, ◌++◌, Bool, true, false, ◌||◌, some, ◌==◌,
  arith,
}
use native.Mathlib.Decide.{ℕ_discrete}
use mathlib.Core.Path.{subst₂}
use tcg_final_project.Prelude.Words.{neg}
use tcg_final_project.Game.Defs.{State, Hand, Phase, zero_state}
use tcg_final_project.Game.Invariant.{IsShaped, IsSettled}
use tcg_final_project.Game.Hands.{IsHand}
use tcg_final_project.Ipc.{Entry, ipc_save_session}
use tcg_final_project.Ipc.Laws.{game_of, is_live, game_of-save_self, game_of-save_ne, game_of-touch}
use tcg_final_project.Session.World.{
  Libc, World, Reply, error, handshake, playing, send, send_game, save, touch,
}

-- A game that a session can go on with: sound, and over or in somebody's main phase.
pub record IsPlayable (st : State) (h : Hand) : Type 0 where
  pub shaped : IsShaped st
  pub settled : IsSettled st
  pub holds : IsHand h
  pub main_phase : (st.game_over ≡ 1) ⊎ (st.phase ≡ Phase.main)

-- The game of a session id, if it has one, is playable.
abbrev pub GoodAt : List Entry → ℕ → Type 0
GoodAt store k = (st : State) (h : Hand) → game_of store k ≡ some (st, h) → IsPlayable st h

-- The errors -11 and -12.
abbrev pub is_turn_error : Reply → Bool
is_turn_error (error code msg) = code == neg 11 || code == neg 12
is_turn_error _ = false

unfoldable pub turn_errors : List Reply → Bool
turn_errors [] = false
turn_errors (r ∷ rs) = is_turn_error r || turn_errors rs

turn_errors-append :
    (xs : List Reply) (r : Reply) → turn_errors (xs ++ r ∷ []) ≡ (turn_errors xs || is_turn_error r)
unfolding turn_errors
turn_errors-append [] r = ground arith
turn_errors-append (x ∷ xs) r = ground (arith, turn_errors-append xs r)

pub record IsGood (w : World) : Type 0 where
  pub stored : (k : ℕ) → GoodAt w.store k
  pub fresh : w.stage ≡ handshake → w.game.st ≡ zero_state
  pub ready : w.stage ≡ playing → IsPlayable w.game.st w.game.hand
  pub live : w.stage ≡ playing → is_live (game_of w.store w.my_sid) ≡ true
  pub quiet : turn_errors w.sent ≡ false

pub send-IsGood : (r : Reply) (w : World) → is_turn_error r ≡ false → IsGood w → IsGood (send r w)
unfolding send
send-IsGood r w q v = record {
  stored = v.stored;
  fresh = v.fresh;
  ready = v.ready;
  live = v.live;
  quiet = ground (arith, turn_errors-append w.sent r, v.quiet);
}

pub send_game-IsGood : (w : World) → IsGood w → IsGood (send_game w)
unfolding send_game
send_game-IsGood w v = send-IsGood _ _ refl (send-IsGood _ _ refl v)

-- A save puts a playable game in the place of another.
save_at :
    (store : List Entry) (sid : ℕ) (st : State) (h : Hand) (now k : ℕ)
    → IsPlayable st h
    → is_live (game_of store sid) ≡ true
    → (k ≢ sid → GoodAt store k)
    → GoodAt (ipc_save_session store sid st h now).1 k
save_at store sid st h now k p live others st' h' e = elim (ℕ_discrete k sid) [
  | yes same ↦
      let now_there : some (st, h) ≡ some (st', h') =
        sym (game_of-save_self store sid st h now live)
        ∙ ap (game_of (ipc_save_session store sid st h now).1) (sym same)
        ∙ e in
      let st_eq : st ≡ st' = cc now_there in
      let h_eq : h ≡ h' = cc now_there in subst₂ IsPlayable st_eq h_eq p
  | no ne ↦ others ne st' h' (sym (game_of-save_ne store sid st h now k ne) ∙ e)
]

-- A world whose game and table entry are in order, but for the entry's game.
pub record IsSavable (w : World) : Type 0 where
  pub game_ok : IsPlayable w.game.st w.game.hand
  pub live : is_live (game_of w.store w.my_sid) ≡ true
  pub others : (k : ℕ) → k ≢ w.my_sid → GoodAt w.store k
  pub begun : w.stage ≡ handshake → ⊥
  pub quiet : turn_errors w.sent ≡ false

pub send-IsSavable :
    (r : Reply) (w : World) → is_turn_error r ≡ false → IsSavable w → IsSavable (send r w)
unfolding send
send-IsSavable r w q v = record {
  game_ok = v.game_ok;
  live = v.live;
  others = v.others;
  begun = v.begun;
  quiet = ground (arith, turn_errors-append w.sent r, v.quiet);
}

module _ (c : Libc) where
  -- A save makes such a world good, and the table has the game.
  pub save-IsGood : (w : World) → IsSavable w → IsGood (save c w)
  unfolding save
  save-IsGood w v = record {
    stored = λ k. save_at w.store w.my_sid w.game.st w.game.hand _ k v.game_ok v.live (v.others k);
    fresh = λ h. absurd (v.begun h);
    ready = λ _. v.game_ok;
    live = λ _. ap is_live (game_of-save_self w.store w.my_sid w.game.st w.game.hand _ v.live);
    quiet = v.quiet;
  }

  pub save-saved :
      (w : World)
      → is_live (game_of w.store w.my_sid) ≡ true
      → game_of (save c w).store w.my_sid ≡ some (w.game.st, w.game.hand)
  unfolding save
  save-saved w v = game_of-save_self w.store w.my_sid w.game.st w.game.hand _ v

  pub touch-IsGood : (w : World) → IsGood w → IsGood (touch c w)
  unfolding touch
  touch-IsGood w v = record {
    stored = λ k st h e. v.stored k st h (sym (game_of-touch w.store w.my_sid _ k) ∙ e);
    fresh = v.fresh;
    ready = v.ready;
    live = λ p. ap is_live (game_of-touch w.store w.my_sid _ w.my_sid) ∙ v.live p;
    quiet = v.quiet;
  }
