-- ===== src/Prelude/Resources.antt =====
-- Resources that calls of the system and of OpenSSL make and take back: descriptors and structures.
use tcg_final_project.Prelude.{
  ℕ, ◌≡◌, refl, ap, List, [], ◌∷◌, ◌++◌, Option, none, some, ◌==◌, ==_iff, if◌then◌else◌,
  Bool-cases, inl, inr,
}

-- A call that makes a resource, a descriptor or a structure of OpenSSL's, or gives it back.
pub data Call : Type 0 where
  makes frees : ℕ → Call

-- A resource taken out of those that are held, if it is one of them.
unfoldable pub give_back : ℕ → List ℕ → Option (List ℕ)
give_back x [] = none
give_back x (y ∷ ys) =
    let rest = give_back x ys in
    if x == y then some ys else elim rest [ none ↦ none | some zs ↦ some (y ∷ zs) ]

-- What is held behind some calls: none if one of them gives back what is not held.
unfoldable pub held_after : List Call → Option (List ℕ) → Option (List ℕ)
held_after cs none = none
held_after [] (some held) = some held
held_after (makes x ∷ cs) (some held) = held_after cs (some (x ∷ held))
held_after (frees x ∷ cs) (some held) = held_after cs (give_back x held)

-- What a result hands on.
abbrev pub handed : Option ℕ → List ℕ
handed none = []
handed (some x) = x ∷ []

pub held_after-append :
    (xs ys : List Call) (h : Option (List ℕ))
    → held_after (xs ++ ys) h ≡ held_after ys (held_after xs h)
unfolding held_after
held_after-append [] ys none = refl
held_after-append (x ∷ xs) ys none = refl
held_after-append [] ys (some h) = refl
held_after-append (makes x ∷ xs) ys (some h) = held_after-append xs ys (some (x ∷ h))
held_after-append (frees x ∷ xs) ys (some h) = held_after-append xs ys (give_back x h)

pub give_back-first : (x : ℕ) (held : List ℕ) → give_back x (x ∷ held) ≡ some held
unfolding give_back
give_back-first x held = rw ((==_iff x x).1 refl) refl

pub give_back-second : (x : ℕ) (o : Option ℕ) → give_back x (handed o ++ x ∷ []) ≡ some (handed o)
unfolding give_back
give_back-second x none = give_back-first x []
give_back-second x (some y) = elim (Bool-cases (x == y)) [
  | inl same ↦ let e = (==_iff x y).0 same in rw same (ap (λ z. some (z ∷ [])) e)
  | inr other ↦ rw other (rw (give_back-first x []) refl)
]
