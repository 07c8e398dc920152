-- ===== src/Net/Writing.antt =====
-- What the writes of src/common/net.c hand over, and when they end.
use tcg_final_project.Prelude.{
  ℕ, zero, suc, ◌+◌, ◌≤◌, ◌≡◌, refl, sym, ap, ◌∙◌, List, [], ◌∷◌, ◌++◌, length, length-drop, take,
  drop, take-append-drop, arith, Option, some,
}
use mathlib.Core.Path.{subst}
use mathlib.Core.List.{append_assoc, append-nil}
use tcg_final_project.Net.{
  Written, wrote, again, failed, Ret, count, minus_one, on_write, write_loop,
}

-- What `SSL_write` is documented to do: it takes a first part of the bytes, at least one; asks for a
-- retry, which happens `retries` more times; or reports an error.
pub record Sink (S : Type 0) : Type 0 where
  pub wr : S → List ℕ → Written × S
  pub written : S → List ℕ
  pub retries : S → ℕ
  pub wrote_part :
      (s : S) (b : ℕ) (bs : List ℕ) (k : ℕ) (s' : S)
      → wr s (b ∷ bs) ≡ (wrote k, s')
      → (1 ≤ k)
        × (k ≤ suc (length bs))
        × (written s' ≡ written s ++ take k (b ∷ bs))
        × (retries s' ≤ retries s)
  pub again_waits :
      (s : S) (b : ℕ) (bs : List ℕ) (s' : S)
      → wr s (b ∷ bs) ≡ (again, s')
      → (written s' ≡ written s) × (suc (retries s') ≤ retries s)
  pub failed_unwritten :
      (s : S) (b : ℕ) (bs : List ℕ) (s' : S) → wr s (b ∷ bs) ≡ (failed, s') → written s' ≡ written s

-- What a write of `bytes` comes to: all of them are handed over, or an error follows a first part.
pub data Wrote {S : Type 0} (written : S → List ℕ) (n : ℕ) (s : S) (bytes : List ℕ)
    (r : (Option Ret) × S) : Type 0 where
  whole : r.0 ≡ some (count n) → written r.1 ≡ written s ++ bytes → Wrote written n s bytes r
  part :
      (ps qs : List ℕ)
      → r.0 ≡ some minus_one
      → bytes ≡ ps ++ qs
      → written r.1 ≡ written s ++ ps
      → Wrote written n s bytes r

module _ {S : Type 0} (c : Sink S) (n : ℕ) where
  open c use {wr, written, retries, wrote_part, again_waits, failed_unwritten}

  Wrote-more :
      (s s' : S) (ps qs : List ℕ) (r : (Option Ret) × S)
      → written s' ≡ written s ++ ps
      → Wrote written n s' qs r
      → Wrote written n s (ps ++ qs) r
  Wrote-more s s' ps qs r split (whole e all) =
      whole e (all ∙ ap (λ b. b ++ qs) split ∙ append_assoc (written s) ps qs)
  Wrote-more s s' ps qs r split (part us vs e parts upto) =
      part (ps ++ us) vs e (ap (λ b. ps ++ b) parts ∙ sym (append_assoc ps us vs))
        (upto ∙ ap (λ b. b ++ us) split ∙ append_assoc (written s) ps us)

  Wrote-again :
      (s s' : S) (bytes : List ℕ) (r : (Option Ret) × S)
      → written s' ≡ written s
      → Wrote written n s' bytes r
      → Wrote written n s bytes r
  Wrote-again s s' bytes r same (whole e all) = whole e (all ∙ ap (λ b. b ++ bytes) same)
  Wrote-again s s' bytes r same (part us vs e parts upto) =
      part us vs e parts (upto ∙ ap (λ b. b ++ us) same)

  -- Over a connection that behaves as documented, a loop with fuel for the bytes and the retries
  -- ends: it returns the count `n` and the connection has taken all the bytes, in order, or it
  -- returns -1 and the connection has taken a first part of them.
  pub write_loop_lem :
      (fuel : ℕ) (s : S) (bytes : List ℕ)
      → length bytes + retries s ≤ fuel
      → Wrote written n s bytes (write_loop wr n fuel s bytes)
  unfolding write_loop on_write
  write_loop_lem fuel s [] enough = whole refl (sym (append-nil (written s)))
  write_loop_lem zero s (b ∷ bs) enough = absurd (omega arith)
  write_loop_lem (suc fuel) s (b ∷ bs) enough =
      go (wr s (b ∷ bs)) refl (λ s' xs. write_loop_lem fuel s' xs)
    where
      go :
          (r : Written × S)
          → wr s (b ∷ bs) ≡ r
          → ((s' : S) (xs : List ℕ)
              → length xs + retries s' ≤ fuel
              → Wrote written n s' xs (write_loop wr n fuel s' xs))
          → Wrote written n s
              (b ∷ bs)
              (on_write r.0 (λ xs. write_loop wr n fuel r.1 xs) r.1 (b ∷ bs))
      go (wrote k, s') h rest =
          let (some_taken, small, split, calm) = wrote_part s b bs k s' h in
          let shorter : length (drop k (b ∷ bs)) + retries s' ≤ fuel =
            omega (arith, enough, some_taken, calm, length-drop k (b ∷ bs)) in
          subst (λ xs. Wrote written n s xs (write_loop wr n fuel s' (drop k (b ∷ bs))))
            (take-append-drop k (b ∷ bs))
            (Wrote-more s s' (take k (b ∷ bs)) (drop k (b ∷ bs)) _ split
              (rest s' (drop k (b ∷ bs)) shorter))
      go (again, s') h rest =
          let (same, fewer) = again_waits s b bs s' h in
          Wrote-again s s' (b ∷ bs) _ same (rest s' (b ∷ bs) (omega (arith, enough, fewer)))
      go (failed, s') h rest =
          part [] (b ∷ bs) refl refl (failed_unwritten s b bs s' h ∙ sym (append-nil (written s)))
