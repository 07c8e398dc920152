-- ===== src/Ipc/Alloc.antt =====
-- How the table of sessions of src/common/ipc.c fills up: nothing in the program frees a slot.
use tcg_final_project.Prelude.{
  ℕ, suc, ◌+◌, ◌≤◌, ◌<◌, ◌≡◌, ◌≢◌, inl, inr, refl, ap, ◌∙◌, List, [], ◌∷◌, true, ◌==◌,
  if◌then◌else◌, arith, length, Bool-cases,
}
use Prim.Native.Nat.{bit_xor, ◌*◌}
use native.Mathlib.Decide.{dec_lt}
use tcg_final_project.Game.Defs.{State, Hand}
use tcg_final_project.Ipc.{
  u64, Entry, make_sid, alloc_from, ipc_alloc_session, ipc_save_session, ipc_load_session,
  ipc_touch_session, ipc_store_init, max_sessions,
}
use tcg_final_project.Ipc.Laws.{game_of, is_live}

-- The slots in use.
unfoldable pub taken : List Entry → ℕ
taken [] = 0
taken (e ∷ es) = if e.valid then suc (taken es) else taken es

pub taken-le : (es : List Entry) → taken es ≤ length es
unfolding taken
taken-le [] = omega arith
taken-le (e ∷ es) = ground (arith, taken-le es)

or_one-pos : (s : ℕ) → (if s == 0 then 1 else s) ≢ 0
or_one-pos s e = ground arith

pub make_sid-pos : (time pid random i : ℕ) → make_sid time pid random i ≢ 0
unfolding make_sid
make_sid-pos time pid random i e =
    or_one-pos (bit_xor (u64 (time + i + pid)) (u64 (random * 4294967296))) e

-- What an allocation does.
pub record IsGrown (es es' : List Entry) (sid : ℕ) : Type 0 where
  pub sid_pos : sid ≢ 0
  pub one_more : taken es' ≡ suc (taken es)
  pub same_length : length es' ≡ length es
  pub live : is_live (game_of es' sid) ≡ true
  pub others : (k : ℕ) → k ≢ sid → game_of es' k ≡ game_of es k

module _ (time seen pid random : ℕ) where
  alloc_from_full :
      (i : ℕ) (es : List Entry)
      → taken es ≡ length es
      → alloc_from time seen pid random i es ≡ (0, es)
  unfolding alloc_from taken
  alloc_from_full i [] h = refl
  alloc_from_full i (e ∷ es) h = ground (arith, alloc_from_full (i + 1) es, taken-le es)

  alloc_from-IsGrown :
      (i : ℕ) (es : List Entry)
      → taken es < length es
      → let r = alloc_from time seen pid random i es in IsGrown es r.1 r.0
  unfolding alloc_from taken game_of
  alloc_from-IsGrown i [] h = absurd (omega arith)
  alloc_from-IsGrown i (e ∷ es) h = elim (Bool-cases e.valid) [
    | inl used ↦
        let g = alloc_from-IsGrown (i + 1) es (ground arith) in
        rw used (record {
          sid_pos = g.sid_pos;
          one_more = ap suc g.one_more;
          same_length = ap suc g.same_length;
          live = ground (arith, g.live);
          others = λ k ne. ground (arith, g.others k ne);
        })
    | inr free ↦ rw free (record {
      sid_pos = make_sid-pos time pid random i;
      one_more = refl;
      same_length = refl;
      live = ground arith;
      others = λ k ne. ground arith;
    })
  ]

  -- An allocation in a table with a free slot takes one slot more, returns a session id that is not
  -- 0 and for which an entry is found from then on, and leaves all other ids with their games.
  pub ipc_alloc_session-IsGrown :
      (es : List Entry)
      → taken es < length es
      → let r = ipc_alloc_session time seen pid random es in IsGrown es r.1 r.0
  unfolding ipc_alloc_session
  ipc_alloc_session-IsGrown es h = alloc_from-IsGrown 0 es h

  pub ipc_alloc_session-full :
      (es : List Entry) → taken es ≡ length es → ipc_alloc_session time seen pid random es ≡ (0, es)
  unfolding ipc_alloc_session
  ipc_alloc_session-full es h = alloc_from_full 0 es h

-- The calls that a process can make on the table, with what the system returns to them.
pub data StoreCall : Type 0 where
  alloc : ℕ → ℕ → ℕ → ℕ → StoreCall
  save : ℕ → State → Hand → ℕ → StoreCall
  load touch : ℕ → ℕ → StoreCall

unfoldable pub call : StoreCall → List Entry → List Entry
call (alloc time seen pid random) es = (ipc_alloc_session time seen pid random es).1
call (save sid st h now) es = (ipc_save_session es sid st h now).1
call (load sid now) es = (ipc_load_session es sid now).1
call (touch sid now) es = (ipc_touch_session es sid now).1

-- 1 for an allocation that succeeds.
pub granted : StoreCall → List Entry → ℕ
granted (alloc time seen pid random) es =
    if (ipc_alloc_session time seen pid random es).0 == 0 then 0 else 1
granted _ es = 0

unfoldable pub call_all : List StoreCall → List Entry → List Entry
call_all [] es = es
call_all (c ∷ cs) es = call_all cs (call c es)

pub all_granted : List StoreCall → List Entry → ℕ
all_granted [] es = 0
all_granted (c ∷ cs) es = granted c es + all_granted cs (call c es)

abbrev SameSize : List Entry → List Entry → Type 0
SameSize es es' = (taken es' ≡ taken es) × (length es' ≡ length es)

save-SameSize :
    (es : List Entry) (sid : ℕ) (st : State) (h : Hand) (now : ℕ)
    → SameSize es (ipc_save_session es sid st h now).1
unfolding ipc_save_session taken
save-SameSize [] sid st h now = (refl, refl)
save-SameSize (e ∷ es) sid st h now = ground (arith, save-SameSize es sid st h now)

load-SameSize : (es : List Entry) (sid now : ℕ) → SameSize es (ipc_load_session es sid now).1
unfolding ipc_load_session taken
load-SameSize [] sid now = (refl, refl)
load-SameSize (e ∷ es) sid now = ground (arith, load-SameSize es sid now)

touch-SameSize : (es : List Entry) (sid now : ℕ) → SameSize es (ipc_touch_session es sid now).1
unfolding ipc_touch_session taken
touch-SameSize [] sid now = (refl, refl)
touch-SameSize (e ∷ es) sid now = ground (arith, touch-SameSize es sid now)

abbrev Counted : StoreCall → List Entry → Type 0
Counted c es = (taken (call c es) ≡ granted c es + taken es) × (length (call c es) ≡ length es)

call-Counted : (c : StoreCall) (es : List Entry) → Counted c es
unfolding call granted
call-Counted (alloc time seen pid random) es = elim (dec_lt (taken es) (length es)) [
  | yes free ↦
      let g = ipc_alloc_session-IsGrown time seen pid random es free in
      (ground (arith, g.one_more, g.sid_pos), g.same_length)
  | no full ↦
      ground (arith, ipc_alloc_session-full time seen pid random es (omega (arith, taken-le es)))
]
call-Counted (save sid st h now) es = let (t, l) = save-SameSize es sid st h now in (omega arith, l)
call-Counted (load sid now) es = let (t, l) = load-SameSize es sid now in (omega arith, l)
call-Counted (touch sid now) es = let (t, l) = touch-SameSize es sid now in (omega arith, l)

-- Over any sequence of calls, by any processes, the slots in use grow by exactly the allocations
-- that succeeded, and the table keeps its size: no call gives a slot back.
pub call_all-counted :
    (cs : List StoreCall) (es : List Entry)
    → (taken (call_all cs es) ≡ all_granted cs es + taken es)
      × (length (call_all cs es) ≡ length es)
unfolding call_all all_granted
call_all-counted [] es = (omega arith, refl)
call_all-counted (c ∷ cs) es =
    let (t, l) = call-Counted c es in
    let (t', l') = call_all-counted cs (call c es) in (omega arith, l' ∙ l)

init_taken : (taken ipc_store_init ≡ 0) × (length ipc_store_init ≡ max_sessions)
unfolding ipc_store_init taken
init_taken = (refl, refl)

-- From the table that the server creates, whatever calls are made, at most 128 allocations succeed;
-- and a further allocation is refused exactly when 128 have succeeded.
pub logins_bounded :
    (cs : List StoreCall) (time seen pid random : ℕ)
    → (all_granted cs ipc_store_init ≤ max_sessions)
      × (((ipc_alloc_session time seen pid random (call_all cs ipc_store_init)).0 == 0)
          ≡ (all_granted cs ipc_store_init == max_sessions))
logins_bounded cs time seen pid random =
    let es = call_all cs ipc_store_init in
    let (t, l) = call_all-counted cs ipc_store_init in
    let (t0, l0) = init_taken in
    let inside : all_granted cs ipc_store_init ≤ max_sessions = omega (arith, taken-le es) in
    elim (dec_lt (taken es) (length es)) [
      | yes free ↦
          let g = ipc_alloc_session-IsGrown time seen pid random es free in
          (inside, ground (arith, g.sid_pos, t, t0, l, l0))
      | no full ↦
          let none_left : taken es ≡ length es = omega (arith, taken-le es) in
          (
            inside,
            ground (arith, ipc_alloc_session-full time seen pid random es none_left, t, t0, l, l0),
          )
    ]
