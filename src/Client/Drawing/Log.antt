-- ===== src/Client/Drawing/Log.antt =====
-- The battle log that src/client_gui.c draws, against `push_log` of src/server.c.
use tcg_final_project.Prelude.{
  ℕ, zero, suc, ◌+◌, ◌*◌, ◌%◌, ◌<◌, ◌≡◌, ◌≢◌, refl, sym, ap, ◌∙◌, map, List, [], ◌∷◌, ◌++◌, Option,
  none, some, ◌==◌, if◌then◌else◌, get_or, set, take, drop, length, arith,
}
use mathlib.Core.List.{map-append}
use tcg_final_project.Game.Defs.{State, LogLine, blank}
use tcg_final_project.Game.Rules.{push_log}
use tcg_final_project.Game.Invariant.{IsShaped}
use tcg_final_project.Client.Structs.{Text, lines_bytes}
use tcg_final_project.Client.Packing.{seen}
use tcg_final_project.Client.Drawing.{Mark, log_line, log_marks, draw_log}

take-append : (n : ℕ) (xs ys : List ℕ) → length xs ≡ n → take n (xs ++ ys) ≡ xs
take-append zero [] ys h = refl
take-append zero (x ∷ xs) ys h = absurd (omega (arith, h))
take-append (suc n) [] ys h = absurd (omega (arith, h))
take-append (suc n) (x ∷ xs) ys h = ap (λ l. x ∷ l) (take-append n xs ys (omega (arith, h)))

drop-past : (n : ℕ) (xs ys : List ℕ) (m : ℕ) → length xs ≡ n → drop (n + m) (xs ++ ys) ≡ drop m ys
drop-past zero [] ys m h = ap (λ k. drop k ys) (omega arith)
drop-past zero (x ∷ xs) ys m h = absurd (omega (arith, h))
drop-past (suc n) [] ys m h = absurd (omega (arith, h))
drop-past (suc n) (x ∷ xs) ys m h =
    let next : suc n + m ≡ suc (n + m) = omega arith in
    ap (λ k. drop k (x ∷ xs ++ ys)) next ∙ drop-past n xs ys m (omega (arith, h))

-- The lines from the oldest to the newest, which is the one before `log_head`.
unfoldable pub recent_from : ℕ → ℕ → State → List LogLine
recent_from zero i st = []
recent_from (suc k) i st = get_or st.logs ((st.log_head + i) % 6) blank ∷ recent_from k (suc i) st

unfoldable pub recent : State → List LogLine
recent st = recent_from 6 0 st

get_or-set_self :
    (xs : List LogLine) (i : ℕ) (l d : LogLine) → i < length xs → get_or (set xs i l) i d ≡ l
get_or-set_self [] i l d h = absurd (omega (arith, h))
get_or-set_self (x ∷ xs) zero l d h = refl
get_or-set_self (x ∷ xs) (suc i) l d h = get_or-set_self xs i l d (omega (arith, h))

get_or-set_ne :
    (xs : List LogLine) (i j : ℕ) (l d : LogLine) → i ≢ j → get_or (set xs i l) j d ≡ get_or xs j d
get_or-set_ne [] i j l d h = refl
get_or-set_ne (x ∷ xs) zero zero l d h = absurd (h refl)
get_or-set_ne (x ∷ xs) zero (suc j) l d h = refl
get_or-set_ne (x ∷ xs) (suc i) zero l d h = refl
get_or-set_ne (x ∷ xs) (suc i) (suc j) l d h = get_or-set_ne xs i j l d (λ e. h (ap suc e))

-- The lines that were there before move up by one.
recent_from-push_log :
    (k i : ℕ) (st : State) (l : LogLine)
    → st.log_head < 6
    → i + k ≡ 5
    → recent_from (suc k) i (push_log st l)
      ≡ recent_from k (suc i) st ++ get_or (push_log st l).logs (st.log_head % 6) blank ∷ []
unfolding recent_from push_log
recent_from-push_log zero i st l inside e =
    let at : ((st.log_head + 1) % 6 % 256 + i) % 6 ≡ st.log_head % 6 = omega (arith, inside, e) in
    ap (λ j. get_or (set st.logs (st.log_head % 6) l) j blank ∷ []) at
recent_from-push_log (suc k) i st l inside e =
    let at : ((st.log_head + 1) % 6 % 256 + i) % 6 ≡ (st.log_head + suc i) % 6 =
      omega (arith, inside, e) in
    let other : st.log_head % 6 ≢ (st.log_head + suc i) % 6 = λ q. omega (arith, q, inside, e) in
    let rest = recent_from-push_log k (suc i) st l inside (omega (arith, e)) in
    let first : get_or (set st.logs (st.log_head % 6) l) (((st.log_head + 1) % 6 % 256 + i) % 6)
          blank
        ≡ get_or st.logs ((st.log_head + suc i) % 6) blank =
      ap (λ j. get_or (set st.logs (st.log_head % 6) l) j blank) at
      ∙ get_or-set_ne st.logs (st.log_head % 6) ((st.log_head + suc i) % 6) l blank other in
    ap (λ x. x ∷ recent_from (suc k) (suc i) (push_log st l)) first
    ∙ ap (λ xs. get_or st.logs ((st.log_head + suc i) % 6) blank ∷ xs) rest

-- `push_log` on the ring of lines is a queue of six: the oldest line goes, and the new one is the last.
pub push_log-recent :
    (st : State) (l : LogLine) → IsShaped st → recent (push_log st l) ≡ drop 1 (recent st) ++ l ∷ []
unfolding recent recent_from push_log
push_log-recent st l v =
    let newest : get_or (set st.logs (st.log_head % 6) l) (st.log_head % 6) blank ≡ l =
      get_or-set_self st.logs (st.log_head % 6) l blank (omega (arith, v.logs_length)) in
    recent_from-push_log 5 0 st l v.head_lt (omega arith)
    ∙ ap (λ x. recent_from 5 1 st ++ x ∷ []) newest

-- What the client draws.
abbrev pub log_texts : List Mark → List (Option (List ℕ))
log_texts [] = []
log_texts (log_line ly text ∷ ms) = text ∷ log_texts ms
log_texts (_ ∷ ms) = log_texts ms

module _ (t : Text) where
  -- The text of a line, as it is drawn.
  abbrev pub caption : LogLine → Option (List ℕ)
  caption l = let b = t.line_bytes l in if get_or b 0 0 == 0 then none else some b

  line_at :
      (k i j : ℕ) (lines : List LogLine)
      → j < k
      → take 64 (drop (j * 64) (lines_bytes t k i lines))
        ≡ t.line_bytes (get_or lines (i + j) blank)
  line_at zero i j lines h = absurd (omega (arith, h))
  line_at (suc k) i zero lines h =
      let here : i + 0 ≡ i = omega arith in
      take-append 64 (t.line_bytes (get_or lines i blank)) (lines_bytes t k (suc i) lines)
        (t.line_length (get_or lines i blank))
      ∙ ap (λ x. t.line_bytes (get_or lines x blank)) (sym here)
  line_at (suc k) i (suc j) lines h =
      let far : suc j * 64 ≡ 64 + j * 64 = omega arith in
      let same : suc i + j ≡ i + suc j = omega arith in
      ap (λ x. take 64 (drop x (lines_bytes t (suc k) i lines))) far
      ∙ ap (take 64) (
          drop-past 64 (t.line_bytes (get_or lines i blank)) (lines_bytes t k (suc i) lines)
            (j * 64) (t.line_length (get_or lines i blank)))
      ∙ line_at k (suc i) j lines (omega (arith, h))
      ∙ ap (λ x. t.line_bytes (get_or lines x blank)) same

  log_marks-recent :
      (k i ly : ℕ) (st : State)
      → log_texts (log_marks k i ly (seen t st)) ≡ map caption (recent_from k i st)
  unfolding log_marks recent_from
  log_marks-recent zero i ly st = refl
  log_marks-recent (suc k) i ly st =
      let j = (st.log_head + i) % 6 in
      let line = line_at 6 0 j st.logs (omega arith) in
      let here : 0 + j ≡ j = omega arith in
      let same : take 64 (drop (j * 64) (lines_bytes t 6 0 st.logs))
          ≡ t.line_bytes (get_or st.logs j blank) =
        line ∙ ap (λ x. t.line_bytes (get_or st.logs x blank)) here in
      ap
        (λ b.
          (if get_or b 0 0 == 0 then none else some b)
          ∷ log_texts (log_marks k (suc i) (ly + 18) (seen t st)))
        same
      ∙ ap (λ xs. caption (get_or st.logs j blank) ∷ xs) (log_marks-recent k (suc i) (ly + 18) st)

  -- When the server has pushed a line to the log of a well-shaped state, the battle log that the
  -- client draws has lost its first line, its others have moved up, and the new line is the last.
  pub draw_log-push_log :
      (st : State) (l : LogLine)
      → IsShaped st
      → log_texts (draw_log (seen t (push_log st l)))
        ≡ drop 1 (log_texts (draw_log (seen t st))) ++ caption l ∷ []
  unfolding draw_log recent recent_from
  draw_log-push_log st l v =
      log_marks-recent 6 0 235 (push_log st l)
      ∙ ap (map caption) (push_log-recent st l v)
      ∙ map-append caption (drop 1 (recent st)) (l ∷ [])
      ∙ ap (λ xs. drop 1 xs ++ caption l ∷ []) (sym (log_marks-recent 6 0 235 st))
