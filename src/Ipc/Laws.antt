-- ===== src/Ipc/Laws.antt =====
-- The table of sessions of src/common/ipc.c as a map from session ids to games.
use tcg_final_project.Prelude.{
  ℕ, ◌≡◌, ◌≢◌, refl, List, [], ◌∷◌, Bool, true, false, ◌&&◌, Option, none, some, ◌==◌,
  if◌then◌else◌, arith,
}
use tcg_final_project.Prelude.Words.{neg}
use tcg_final_project.Game.Defs.{State, Hand}
use tcg_final_project.Ipc.{
  Entry, is_entry_of, ipc_save_session, ipc_load_session, ipc_touch_session,
}

-- The game that a session id stands for.
unfoldable pub game_of : List Entry → ℕ → Option (State × Hand)
game_of [] sid = none
game_of (e ∷ es) sid = if is_entry_of sid e then some (e.st, e.hand) else game_of es sid

abbrev pub is_live : Option (State × Hand) → Bool
is_live none = false
is_live (some _) = true

-- A load returns exactly the game that the map has for the session id, or fails where it has none.
pub ipc_load_session-game_of :
    (es : List Entry) (sid now : ℕ) → (ipc_load_session es sid now).0 ≡ game_of es sid
unfolding ipc_load_session game_of
ipc_load_session-game_of [] sid now = refl
ipc_load_session-game_of (e ∷ es) sid now = ground (arith, ipc_load_session-game_of es sid now)

pub game_of-load :
    (es : List Entry) (sid now k : ℕ) → game_of (ipc_load_session es sid now).1 k ≡ game_of es k
unfolding ipc_load_session game_of
game_of-load [] sid now k = refl
game_of-load (e ∷ es) sid now k = ground (arith, game_of-load es sid now k)

pub game_of-touch :
    (es : List Entry) (sid now k : ℕ) → game_of (ipc_touch_session es sid now).1 k ≡ game_of es k
unfolding ipc_touch_session game_of
game_of-touch [] sid now k = refl
game_of-touch (e ∷ es) sid now k = ground (arith, game_of-touch es sid now k)

-- Seen as a map from session ids to games, a save replaces the game of its id where the id has one,
-- and changes nothing else.
pub game_of-save :
    (es : List Entry) (sid : ℕ) (st : State) (h : Hand) (now k : ℕ)
    → game_of (ipc_save_session es sid st h now).1 k
      ≡ (if k == sid && is_live (game_of es sid) then some (st, h) else game_of es k)
unfolding ipc_save_session game_of
game_of-save [] sid st h now k = ground arith
game_of-save (e ∷ es) sid st h now k = ground (arith, game_of-save es sid st h now k)

pub ipc_save_session-rc :
    (es : List Entry) (sid : ℕ) (st : State) (h : Hand) (now : ℕ)
    → (ipc_save_session es sid st h now).0 ≡ (if is_live (game_of es sid) then 0 else neg 1)
unfolding ipc_save_session game_of
ipc_save_session-rc [] sid st h now = refl
ipc_save_session-rc (e ∷ es) sid st h now = ground (arith, ipc_save_session-rc es sid st h now)

pub game_of-save_self :
    (es : List Entry) (sid : ℕ) (st : State) (h : Hand) (now : ℕ)
    → is_live (game_of es sid) ≡ true
    → game_of (ipc_save_session es sid st h now).1 sid ≡ some (st, h)
game_of-save_self es sid st h now live = ground (arith, game_of-save es sid st h now sid)

pub game_of-save_ne :
    (es : List Entry) (sid : ℕ) (st : State) (h : Hand) (now k : ℕ)
    → k ≢ sid
    → game_of (ipc_save_session es sid st h now).1 k ≡ game_of es k
game_of-save_ne es sid st h now k ne = ground (arith, game_of-save es sid st h now k)

-- A save brings no session id into the table.
pub game_of-save_gone :
    (es : List Entry) (sid : ℕ) (st : State) (h : Hand) (now k : ℕ)
    → game_of es k ≡ none
    → game_of (ipc_save_session es sid st h now).1 k ≡ none
game_of-save_gone es sid st h now k gone = ground (arith, game_of-save es sid st h now k)
