-- ===== src/Ipc/Attach.antt =====
-- The attachment of the shared memory in src/common/ipc.c, `ipc_stats_init` and `ipc_store_init`.
use tcg_final_project.Prelude.{
  ℕ, ◌≡◌, ◌⊎◌, inl, inr, refl, ap, List, [], ◌∷◌, Bool, true, false, not, ◌&&◌, Option, none, some,
  if◌then◌else◌,
}
use tcg_final_project.Prelude.Resources.{Call, makes, frees, held_after, give_back-first}
use tcg_final_project.Ipc.{Entry, Stats, ipc_store_init}

-- Both functions, for a memory of type `A`: whether it is to be created, what `shm_open` returns,
-- whether `ftruncate` succeeds, and what `mmap` finds in the memory. None is NULL.
unfoldable pub shm_init :
    {A : Type 0} → A → Bool → Option ℕ → Bool → Option A → Option A × List Call
shm_init zero create none truncated mapped = (none, [])
shm_init zero create (some fd) truncated mapped =
    if create && not truncated then (none, makes fd ∷ frees fd ∷ []) else elim mapped [
      | none ↦ (none, makes fd ∷ frees fd ∷ [])
      | some old ↦ (some (if create then zero else old), makes fd ∷ frees fd ∷ [])
    ]

unfoldable pub ipc_stats_init : Bool → Option ℕ → Bool → Option Stats → Option Stats × List Call
ipc_stats_init = shm_init (record { total_connections = 0; total_packets = 0 })

unfoldable pub ipc_store_attach :
    Bool → Option ℕ → Bool → Option (List Entry) → Option (List Entry) × List Call
ipc_store_attach = shm_init ipc_store_init

shm_init-held :
    {A : Type 0} (zero : A) (create : Bool) (shm : Option ℕ) (truncated : Bool) (mapped : Option A)
    → held_after (shm_init zero create shm truncated mapped).1 (some []) ≡ some []
unfolding shm_init held_after
shm_init-held zero create none truncated mapped = refl
shm_init-held zero true (some fd) true none = ap (held_after []) (give_back-first fd [])
shm_init-held zero true (some fd) true (some old) = ap (held_after []) (give_back-first fd [])
shm_init-held zero true (some fd) false mapped = ap (held_after []) (give_back-first fd [])
shm_init-held zero false (some fd) truncated none = ap (held_after []) (give_back-first fd [])
shm_init-held zero false (some fd) truncated (some old) = ap (held_after []) (give_back-first fd [])

-- The attachment of the table gives back the descriptor that it opens, whatever fails; and it
-- returns none, or the empty table where it creates, or the table that the memory has where it does
-- not.
pub ipc_store_attach-held :
    (create : Bool) (shm : Option ℕ) (truncated : Bool) (mapped : Option (List Entry))
    → let r = ipc_store_attach create shm truncated mapped in
      (held_after r.1 (some []) ≡ some [])
      × ((r.0 ≡ none) ⊎ (r.0 ≡ (if create then some ipc_store_init else mapped)))
unfolding ipc_store_attach shm_init
ipc_store_attach-held create shm truncated mapped =
    (shm_init-held ipc_store_init create shm truncated mapped, found create shm truncated mapped)
  where
    found :
        (create : Bool) (shm : Option ℕ) (truncated : Bool) (mapped : Option (List Entry))
        → let r = ipc_store_attach create shm truncated mapped in
          (r.0 ≡ none) ⊎ (r.0 ≡ (if create then some ipc_store_init else mapped))
    found create none truncated mapped = inl refl
    found true (some fd) true none = inl refl
    found true (some fd) true (some old) = inr refl
    found true (some fd) false mapped = inl refl
    found false (some fd) truncated none = inl refl
    found false (some fd) truncated (some old) = inr refl
