-- ===== src/Net/Reading.antt =====
-- What the reads of src/common/net.c deliver, and when they end.
use tcg_final_project.Prelude.{
  ℕ, zero, suc, ◌+◌, ◌-◌, ◌≤◌, ◌≡◌, ◌⊎◌, inl, inr, refl, sym, ap, ◌∙◌, List, [], ◌++◌, length,
  length-append, arith,
}
use mathlib.Core.Path.{subst}
use mathlib.Core.List.{append_assoc, append-nil}
use tcg_final_project.Net.{
  Event, got, ended, again, failed, Ret, count, Exit, returned, running, on_read, read_loop,
}

-- What `SSL_read` is documented to do: it delivers the next bytes that are `pending`, at least one and
-- at most as many as asked for; asks for a retry, which happens `retries` more times; or reports an
-- error.
pub record Source (S : Type 0) : Type 0 where
  pub rd : S → ℕ → Event × S
  pub pending : S → List ℕ
  pub retries : S → ℕ
  pub got_next :
      (s : S) (n : ℕ) (bytes : List ℕ) (s' : S)
      → rd s (suc n) ≡ (got bytes, s')
      → (1 ≤ length bytes)
        × (length bytes ≤ suc n)
        × (pending s ≡ bytes ++ pending s')
        × (retries s' ≤ retries s)
  pub again_waits :
      (s : S) (n : ℕ) (s' : S)
      → rd s (suc n) ≡ (again, s')
      → (pending s' ≡ pending s) × (suc (retries s') ≤ retries s)
  pub stops_unread :
      (s : S) (n : ℕ) (e : Event) (s' : S)
      → rd s (suc n) ≡ (e, s')
      → (e ≡ ended) ⊎ (e ≡ failed)
      → pending s' ≡ pending s

-- What a read of `left` bytes behind `buf` comes to: those very bytes, or behind fewer an end or an
-- error, at which the loop stops.
pub data Read {S : Type 0} (c : Source S) (stop : Event → ℕ → ℕ → Ret) (n : ℕ) (s : S) (left : ℕ)
    (buf : List ℕ) (r : Exit × S) : Type 0 where
  whole :
      (bytes : List ℕ)
      → length bytes ≡ left
      → c.pending s ≡ bytes ++ c.pending r.1
      → r.0 ≡ returned (count n) (buf ++ bytes)
      → Read c stop n s left buf r
  part :
      (e : Event) (rest : ℕ) (bytes : List ℕ) (last : S)
      → c.rd last (suc rest) ≡ (e, r.1)
      → (e ≡ ended) ⊎ (e ≡ failed)
      → length bytes + suc rest ≡ left
      → c.pending s ≡ bytes ++ c.pending r.1
      → r.0 ≡ returned (stop e n (suc rest)) (buf ++ bytes)
      → Read c stop n s left buf r

module _ {S : Type 0} (c : Source S) (stop : Event → ℕ → ℕ → Ret) (n : ℕ) where
  open c use {rd, pending, retries, got_next, again_waits, stops_unread}

  -- One more piece in front of the rest.
  Read-got :
      (s s' : S) (left : ℕ) (buf bytes : List ℕ) (r : Exit × S)
      → length bytes ≤ left
      → pending s ≡ bytes ++ pending s'
      → Read c stop n s' (left - length bytes) (buf ++ bytes) r
      → Read c stop n s left buf r
  Read-got s s' left buf bytes r small split (whole more len split' e) =
      whole (bytes ++ more) (omega (arith, length-append bytes more, len))
        (split ∙ ap (λ b. bytes ++ b) split' ∙ sym (append_assoc bytes more (pending r.1)))
        (e ∙ ap (returned (count n)) (append_assoc buf bytes more))
  Read-got s s' left buf bytes r small split (part why rest more last it w len split' e) =
      part why rest (bytes ++ more) last it w (omega (arith, length-append bytes more, len))
        (split ∙ ap (λ b. bytes ++ b) split' ∙ sym (append_assoc bytes more (pending r.1)))
        (e ∙ ap (returned (stop why n (suc rest))) (append_assoc buf bytes more))

  Read-again :
      (s s' : S) (left : ℕ) (buf : List ℕ) (r : Exit × S)
      → pending s' ≡ pending s
      → Read c stop n s' left buf r
      → Read c stop n s left buf r
  Read-again s s' left buf r same (whole bytes len split e) = whole bytes len (sym same ∙ split) e
  Read-again s s' left buf r same (part why rest bytes last it w len split e) =
      part why rest bytes last it w len (sym same ∙ split) e

  Read-stop :
      (s s' : S) (left : ℕ) (buf : List ℕ) (e : Event)
      → rd s (suc left) ≡ (e, s')
      → (e ≡ ended) ⊎ (e ≡ failed)
      → pending s' ≡ pending s
      → Read c stop n s (suc left) buf (returned (stop e n (suc left)) buf, s')
  Read-stop s s' left buf e it w same =
      part e left [] s it w (omega arith) (sym same)
        (ap (returned (stop e n (suc left))) (sym (append-nil buf)))

  -- Over a connection that behaves as documented, a loop with fuel for the bytes and the retries
  -- ends, and what it has read are exactly the next bytes of the connection: all of them, with the
  -- count `n`, or fewer before an end or an error.
  pub read_loop_lem :
      (fuel : ℕ) (s : S) (left : ℕ) (buf : List ℕ)
      → left + retries s ≤ fuel
      → Read c stop n s left buf (read_loop rd stop n fuel s left buf)
  unfolding read_loop on_read
  read_loop_lem fuel s zero buf enough =
      whole [] refl refl (ap (returned (count n)) (sym (append-nil buf)))
  read_loop_lem zero s (suc left) buf enough = absurd (omega arith)
  read_loop_lem (suc fuel) s (suc left) buf enough =
      go (rd s (suc left)) refl (λ s' l b. read_loop_lem fuel s' l b)
    where
      go :
          (r : Event × S)
          → rd s (suc left) ≡ r
          → ((s' : S) (l : ℕ) (b : List ℕ)
              → l + retries s' ≤ fuel
              → Read c stop n s' l b (read_loop rd stop n fuel s' l b))
          → Read c stop n s
              (suc left)
              buf
              (on_read stop n r.0 (λ l b. read_loop rd stop n fuel r.1 l b) r.1 (suc left) buf)
      go (got bytes, s') h rest =
          let (some_read, small, split, calm) = got_next s left bytes s' h in
          Read-got s s' (suc left) buf bytes _ small split (
            rest s' (suc left - length bytes) (buf ++ bytes)
              (omega (arith, enough, some_read, calm)))
      go (again, s') h rest =
          let (same, fewer) = again_waits s left s' h in
          Read-again s s' (suc left) buf _ same
            (rest s' (suc left) buf (omega (arith, enough, fewer)))
      go (ended, s') h rest =
          Read-stop s s' left buf ended h (inl refl) (stops_unread s left ended s' h (inl refl))
      go (failed, s') h rest =
          Read-stop s s' left buf failed h (inr refl) (stops_unread s left failed s' h (inr refl))

-- A connection that asks for a retry each time keeps the loop busy for ever: whatever the fuel, a
-- read of at least one byte does not come back.
pub read_loop-endless :
    {S : Type 0} (rd : S → ℕ → Event × S) (stop : Event → ℕ → ℕ → Ret) (n fuel : ℕ) (s : S)
    (left : ℕ) (buf : List ℕ)
    → ((t : S) (k : ℕ) → rd t k ≡ (again, t))
    → (read_loop rd stop n fuel s (suc left) buf).0 ≡ running
unfolding read_loop on_read
read_loop-endless rd stop n zero s left buf waits = refl
read_loop-endless rd stop n (suc fuel) s left buf waits =
    subst
      (λ r.
        (on_read stop n r.0 (λ l b. read_loop rd stop n fuel r.1 l b) r.1 (suc left) buf).0
        ≡ running)
      (sym (waits s (suc left))) (read_loop-endless rd stop n fuel s left buf waits)
