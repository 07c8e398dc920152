-- ===== src/Ipc.antt =====
-- src/common/ipc.c on the shared memory of src/common/ipc.h: the counters and the table of sessions.
-- Attaching the memory (`shm_open`, `mmap`) is the system's; a table just created is zero.
pub mod Laws
pub mod Alloc
pub mod Race
pub mod Attach
pub mod Ids
use Prim.Native.Nat.{bit_xor}
use tcg_final_project.Prelude.{
  ℕ, ◌+◌, ◌*◌, ◌%◌, List, [], ◌∷◌, Bool, true, false, ◌&&◌, Option, none, some, ◌==◌, if◌then◌else◌,
  replicate,
}
use tcg_final_project.Prelude.Words.{neg}
use tcg_final_project.Game.Defs.{State, Hand, zero_state, zero_hand}

-- `shm_stats_t`, two `uint64_t`.
pub record Stats : Type 0 where
  pub total_connections : ℕ
  pub total_packets : ℕ

abbrev pub u64 : ℕ → ℕ
u64 n = n % 18446744073709551616

unfoldable pub ipc_stats_inc_conn : Stats → Stats
ipc_stats_inc_conn s = record s { total_connections = u64 (s.total_connections + 1) }

unfoldable pub ipc_stats_inc_pkt : Stats → Stats
ipc_stats_inc_pkt s = record s { total_packets = u64 (s.total_packets + 1) }

-- `session_entry_t`; `valid` is 0 or 1.
pub record Entry : Type 0 where
  pub session_id : ℕ
  pub last_seen : ℕ
  pub st : State
  pub hand : Hand
  pub valid : Bool

-- `MAX_SESSIONS`
abbrev pub max_sessions : ℕ
max_sessions = 128

abbrev pub zero_entry : Entry
zero_entry = record {
  session_id = 0;
  last_seen = 0;
  st = zero_state;
  hand = zero_hand;
  valid = false;
}

-- The `sessions` of a `shm_store_t` that `ipc_store_init` has created.
unfoldable pub ipc_store_init : List Entry
ipc_store_init = replicate max_sessions zero_entry

-- The session id of slot `i`: `time` and `seen` are what the two calls of `time` return, `pid` the
-- process, and `random` what `rand` returns.
unfoldable pub make_sid : ℕ → ℕ → ℕ → ℕ → ℕ
make_sid time pid random i =
    let sid = bit_xor (u64 (time + i + pid)) (u64 (random * 4294967296)) in
    if sid == 0 then 1 else sid

module _ (time seen pid random : ℕ) where
  -- The loop from slot `i` on; 0 where every slot is taken.
  unfoldable pub alloc_from : ℕ → List Entry → ℕ × List Entry
  alloc_from i [] = (0, [])
  alloc_from i (e ∷ es) =
      let sid = make_sid time pid random i in
      let (found, es') = alloc_from (i + 1) es in
      if e.valid
      then (found, e ∷ es')
      else (sid, record e { valid = true; session_id = sid; last_seen = seen } ∷ es)

  unfoldable pub ipc_alloc_session : List Entry → ℕ × List Entry
  ipc_alloc_session store = alloc_from 0 store

-- The test that the three searches share.
abbrev pub is_entry_of : ℕ → Entry → Bool
is_entry_of sid e = e.valid && e.session_id == sid

-- `now` is what `time` returns.
unfoldable pub ipc_save_session : List Entry → ℕ → State → Hand → ℕ → ℕ × List Entry
ipc_save_session [] sid st h now = (neg 1, [])
ipc_save_session (e ∷ es) sid st h now =
    let (rc, es') = ipc_save_session es sid st h now in
    if is_entry_of sid e
    then (0, record e { st = st; hand = h; last_seen = now } ∷ es)
    else (rc, e ∷ es')

-- The game is written through the pointers where the result is 0.
unfoldable pub ipc_load_session : List Entry → ℕ → ℕ → Option (State × Hand) × List Entry
ipc_load_session [] sid now = (none, [])
ipc_load_session (e ∷ es) sid now =
    let (found, es') = ipc_load_session es sid now in
    if is_entry_of sid e
    then (some (e.st, e.hand), record e { last_seen = now } ∷ es)
    else (found, e ∷ es')

unfoldable pub ipc_touch_session : List Entry → ℕ → ℕ → ℕ × List Entry
ipc_touch_session [] sid now = (neg 1, [])
ipc_touch_session (e ∷ es) sid now =
    let (rc, es') = ipc_touch_session es sid now in
    if is_entry_of sid e then (0, record e { last_seen = now } ∷ es) else (rc, e ∷ es')
