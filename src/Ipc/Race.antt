-- ===== src/Ipc/Race.antt =====
-- `ipc_alloc_session` of src/common/ipc.c in two steps, the look for a free slot and the taking of it,
-- between which another process may run.
use tcg_final_project.Prelude.{
  ℕ, zero, suc, ◌+◌, ◌≡◌, ◌≢◌, refl, ap, ◌∙◌, List, [], ◌∷◌, true, Option, none, some, arith,
  if◌then◌else◌, Bool-cases, inl, inr,
}
use mathlib.Core.Path.{subst}
use tcg_final_project.Prelude.Words.{neg}
use tcg_final_project.Game.Defs.{State, Hand}
use tcg_final_project.Ipc.{Entry, make_sid, alloc_from, ipc_alloc_session, ipc_save_session}
use tcg_final_project.Ipc.Laws.{game_of, ipc_save_session-rc}

-- The slot at which the loop stops.
abbrev next : Option ℕ → Option ℕ
next none = none
next (some i) = some (suc i)

unfoldable pub look : List Entry → Option ℕ
look [] = none
look (e ∷ es) = let rest = look es in if e.valid then next rest else some 0

-- What is written into slot `i`.
unfoldable pub take_slot : ℕ → ℕ → ℕ → List Entry → List Entry
take_slot i sid seen [] = []
take_slot zero sid seen (e ∷ es) =
    record e { valid = true; session_id = sid; last_seen = seen } ∷ es
take_slot (suc i) sid seen (e ∷ es) = e ∷ take_slot i sid seen es

module _ (time seen pid random : ℕ) where
  -- The two steps of one process, with nothing between them; `base` is the number of the first slot.
  abbrev pub alone : ℕ → Option ℕ → List Entry → ℕ × List Entry
  alone base none es = (0, es)
  alone base (some i) es =
      let sid = make_sid time pid random (base + i) in (sid, take_slot i sid seen es)

  alone-next :
      (base : ℕ) (o : Option ℕ) (e : Entry) (es : List Entry)
      → alone base (next o) (e ∷ es) ≡ ((alone (base + 1) o es).0, e ∷ (alone (base + 1) o es).1)
  unfolding take_slot
  alone-next base none e es = refl
  alone-next base (some i) e es =
      let same : base + suc i ≡ base + 1 + i = omega arith in
      ap (λ n. (make_sid time pid random n, e ∷ take_slot i (make_sid time pid random n) seen es))
        same

  alloc_from-look :
      (base : ℕ) (es : List Entry)
      → alloc_from time seen pid random base es ≡ alone base (look es) es
  unfolding alloc_from look take_slot
  alloc_from-look base [] = refl
  alloc_from-look base (e ∷ es) =
      ground (arith, alloc_from-look (base + 1) es, alone-next base (look es) e es)

  -- `ipc_alloc_session` is its look for the first free slot and then the taking of that slot, with
  -- nothing between them.
  pub ipc_alloc_session-look :
      (es : List Entry) → ipc_alloc_session time seen pid random es ≡ alone 0 (look es) es
  unfolding ipc_alloc_session
  ipc_alloc_session-look es = alloc_from-look 0 es

next-eq-some : (o : Option ℕ) (i : ℕ) → next o ≡ some i → (j : ℕ) × (o ≡ some j) × (suc j ≡ i)
next-eq-some none i h = absurd cc
next-eq-some (some j) i h = (j, refl, cc h)

lost :
    (es : List Entry) (i a b t u : ℕ)
    → look es ≡ some i
    → a ≢ b
    → game_of es a ≡ none
    → game_of (take_slot i b u (take_slot i a t es)) a ≡ none
unfolding look take_slot game_of
lost [] i a b t u h ne gone = cc h
lost (e ∷ es) i a b t u h ne gone = elim (Bool-cases e.valid) [
  | inl used ↦
      let (j, at, same) = next-eq-some (look es) i (ground (arith, used, h)) in
      subst (λ k. game_of (take_slot k b u (take_slot k a t (e ∷ es))) a ≡ none) same
        (ground (arith, used, gone, lost es j a b t u at ne))
  | inr free ↦
      let first : some 0 ≡ some i = ground (arith, free, h) in
      let same : 0 ≡ i = cc first in
      subst (λ k. game_of (take_slot k b u (take_slot k a t (e ∷ es))) a ≡ none) same
        (ground (arith, free, gone, ne))
]

-- If two processes look at the table before either takes the slot that both have seen, and then
-- both take it under different session ids, of which the first was not in the table, then the first
-- process's session id is not in the table, and its save fails with -1.
pub racing_logins_lose :
    (es : List Entry) (i a b t u : ℕ) (st : State) (h : Hand) (now : ℕ)
    → look es ≡ some i
    → a ≢ b
    → game_of es a ≡ none
    → let es' = take_slot i b u (take_slot i a t es) in
      (game_of es' a ≡ none) × ((ipc_save_session es' a st h now).0 ≡ neg 1)
racing_logins_lose es i a b t u st h now at ne gone =
    let l = lost es i a b t u at ne gone in
    (l, ipc_save_session-rc (take_slot i b u (take_slot i a t es)) a st h now ∙ rw l refl)
