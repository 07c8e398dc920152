-- ===== src/Session/World.antt =====
-- What a session's process of src/server.c works on: its locals, the shared memory, and the packets
-- that it has sent.
use tcg_final_project.Prelude.{ℕ, ◌+◌, ◌*◌, List, [], ◌∷◌, ◌++◌}
use tcg_final_project.Game.Defs.{State, Hand, Game}
use tcg_final_project.Ipc.{Entry, Stats, ipc_save_session, ipc_touch_session}
use Prim.Native.String.{String}

-- What the system returns to a process: its n-th `rand`, the time at its n-th access to the table of
-- sessions, and its `getpid`.
pub record Libc : Type 0 where
  pub rand : ℕ → ℕ
  pub time : ℕ → ℕ
  pub pid : ℕ

-- A packet to the client: the opcode and the structure that is its payload.
pub data Reply : Type 0 where
  pong : Reply
  login_resp : Reply
  resume_resp : ℕ → ℕ → Reply
  state : State → Reply
  hand : Hand → Reply
  error : ℕ → String → Reply

-- What `proto_recv` returns: an opcode and a payload, or -1.
pub data Received : Type 0 where
  packet : ℕ → List ℕ → Received
  broken : Received

pub data Stage : Type 0 where
  handshake playing closed : Stage

-- `accesses` counts the accesses to the table. `sent` are the packets given to `proto_send`, whose
-- result `run_session` does not look at.
pub record World : Type 0 where
  pub stage : Stage
  pub my_sid : ℕ
  pub game : Game
  pub accesses : ℕ
  pub store : List Entry
  pub stats : Stats
  pub sent : List Reply

unfoldable pub send : Reply → World → World
send r w = record w { sent = w.sent ++ r ∷ [] }

-- `OP_STATE` and `OP_HAND`, as they are sent together.
unfoldable pub send_game : World → World
send_game w = send (hand w.game.hand) (send (state w.game.st) w)

unfoldable pub close : World → World
close w = record w { stage = closed }

module _ (c : Libc) where
  -- `ipc_save_session(store, my_sid, &st, &hand)`
  unfoldable pub save : World → World
  save w = record w {
    store = (ipc_save_session w.store w.my_sid w.game.st w.game.hand (c.time w.accesses)).1;
    accesses = w.accesses + 1;
  }

  -- `ipc_touch_session(store, my_sid)`
  unfoldable pub touch : World → World
  touch w = record w {
    store = (ipc_touch_session w.store w.my_sid (c.time w.accesses)).1;
    accesses = w.accesses + 1;
  }

-- The `uint64_t` in the first eight bytes of a payload, on a little-endian machine.
unfoldable pub get_u64 : List ℕ → ℕ
get_u64 [] = 0
get_u64 (b ∷ bs) = b + 256 * get_u64 bs
