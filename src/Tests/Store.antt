-- ===== src/Tests/Store.antt =====
-- The table of sessions of src/common/ipc.c at concrete tables.
use tcg_final_project.Prelude.{◌≡◌, ◌≤◌, ◌==◌, List, [], ◌∷◌, true}
use tcg_final_project.Game.Defs.{zero_state, zero_hand}
use tcg_final_project.Ipc.{Entry, zero_entry, max_sessions, ipc_store_init, ipc_alloc_session}
use tcg_final_project.Ipc.Alloc.{
  StoreCall, taken, IsGrown, call_all, all_granted, ipc_alloc_session-IsGrown, call_all-counted,
  logins_bounded,
}
use tcg_final_project.Ipc.Alloc
use tcg_final_project.Tests.Games.{fresh}

-- One game under the id 9, and a free slot.
abbrev pub two_slots : List Entry
two_slots = record zero_entry { valid = true; session_id = 9; st = fresh } ∷ zero_entry ∷ []

abbrev calls : List StoreCall
calls = Alloc.alloc 100 101 42 7 ∷ Alloc.save 9 zero_state zero_hand 104 ∷ Alloc.touch 9 105 ∷ []

logins_bounded_example :
    (all_granted calls ipc_store_init ≤ max_sessions)
    × (((ipc_alloc_session 106 107 43 8 (call_all calls ipc_store_init)).0 == 0)
        ≡ (all_granted calls ipc_store_init == max_sessions))
logins_bounded_example = logins_bounded calls 106 107 43 8
