-- ===== src/Client/Structs.antt =====
-- The payloads of src/common/proto.h in memory, as the packed structures are laid out where the lowest
-- byte comes first.
use tcg_final_project.Prelude.{
  ℕ, zero, suc, ◌-◌, ◌≤◌, ◌≢◌, refl, ap, ◌==◌, false, arith, replicate, ◌∙◌, length-append,
  length-replicate, if◌then◌else◌, ◌≡◌, List, [], ◌∷◌, ◌++◌, take, drop, length, get_or,
}
use Prim.Native.String.{String}
use tcg_final_project.Game.Defs.{State, Hand, Phase, LogLine, blank}
use tcg_final_project.Session.World.{get_u64}
use tcg_final_project.Session.Resumption.{bytes_of}

-- What `vsnprintf` and `snprintf` leave in an array of characters.
pub record Text : Type 0 where
  pub line_bytes : LogLine → List ℕ
  pub msg_bytes : String → List ℕ
  pub line_length : (x : LogLine) → length (line_bytes x) ≡ 64

abbrev pub phase_byte : Phase → ℕ
phase_byte Phase.draw = 0
phase_byte Phase.main = 1
phase_byte Phase.finish = 2

-- The fields of `state_t` before its log.
unfoldable pub head_bytes : State → List ℕ
head_bytes st =
    bytes_of 2 st.p_hp
    ++ bytes_of 2 st.ai_hp
    ++ bytes_of 1 st.turn
    ++ bytes_of 1 (phase_byte st.phase)
    ++ bytes_of 1 st.game_over
    ++ bytes_of 1 st.winner
    ++ bytes_of 1 st.mana
    ++ bytes_of 1 st.max_mana
    ++ bytes_of 2 st.p_shield
    ++ bytes_of 2 st.ai_shield
    ++ bytes_of 2 st.p_buff
    ++ bytes_of 2 st.ai_buff
    ++ bytes_of 1 st.p_poison
    ++ bytes_of 1 st.ai_poison
    ++ bytes_of 1 st.log_head

-- An array of `k` numbers of two bytes.
abbrev pub ids_bytes : ℕ → List ℕ → List ℕ
ids_bytes zero ids = []
ids_bytes (suc k) [] = bytes_of 2 0 ++ ids_bytes k []
ids_bytes (suc k) (x ∷ xs) = bytes_of 2 x ++ ids_bytes k xs

unfoldable pub packed_hand : Hand → List ℕ
packed_hand h = bytes_of 1 h.n ++ ids_bytes 8 h.card_ids

module _ (t : Text) where
  abbrev pub lines_bytes : ℕ → ℕ → List LogLine → List ℕ
  lines_bytes zero i lines = []
  lines_bytes (suc k) i lines = t.line_bytes (get_or lines i blank) ++ lines_bytes k (suc i) lines

  unfoldable pub packed_state : State → List ℕ
  packed_state st = head_bytes st ++ lines_bytes 6 0 st.logs

-- A `state_t` as the clients have it: the lines of the log are bytes.
pub record Seen : Type 0 where
  pub p_hp : ℕ
  pub ai_hp : ℕ
  pub turn : ℕ
  pub phase : ℕ
  pub game_over : ℕ
  pub winner : ℕ
  pub mana : ℕ
  pub max_mana : ℕ
  pub p_shield : ℕ
  pub ai_shield : ℕ
  pub p_buff : ℕ
  pub ai_buff : ℕ
  pub p_poison : ℕ
  pub ai_poison : ℕ
  pub log_head : ℕ
  pub log_bytes : List ℕ

abbrev field : ℕ → ℕ → List ℕ → ℕ
field at size bytes = get_u64 (take size (drop at bytes))

unfoldable pub read_state : List ℕ → Seen
read_state b = record {
  p_hp = field 0 2 b;
  ai_hp = field 2 2 b;
  turn = field 4 1 b;
  phase = field 5 1 b;
  game_over = field 6 1 b;
  winner = field 7 1 b;
  mana = field 8 1 b;
  max_mana = field 9 1 b;
  p_shield = field 10 2 b;
  ai_shield = field 12 2 b;
  p_buff = field 14 2 b;
  ai_buff = field 16 2 b;
  p_poison = field 18 1 b;
  ai_poison = field 19 1 b;
  log_head = field 20 1 b;
  log_bytes = drop 21 b;
}

abbrev pub ids_read : ℕ → List ℕ → List ℕ
ids_read zero b = []
ids_read (suc k) b = get_u64 (take 2 b) ∷ ids_read k (drop 2 b)

unfoldable pub read_hand : List ℕ → Hand
read_hand b = record { n = field 0 1 b; card_ids = ids_read 8 (drop 1 b) }

-- `err_send`: the `error_t`, whose message is what `strncpy` takes of `msg`, behind a `memset` to 0.
unfoldable pub error_payload : ℕ → List ℕ → List ℕ
error_payload code msg =
    let text = take 47 msg in bytes_of 4 code ++ (text ++ replicate (48 - length text) 0)

-- The characters in front of the first NUL.
abbrev pub c_string : List ℕ → List ℕ
c_string [] = []
c_string (b ∷ bs) = if b == 0 then [] else b ∷ c_string bs

abbrev pub NoNul : List ℕ → Type 0
NoNul [] = Unit {0}
NoNul (b ∷ bs) = (b ≢ 0) × NoNul bs

c_string-append : (xs : List ℕ) (k : ℕ) → NoNul xs → c_string (xs ++ replicate (suc k) 0) ≡ xs
c_string-append [] k h = refl
c_string-append (x ∷ xs) k h =
    let full : (x == 0) ≡ false = ground (arith, h.0) in
    rw full (ap (λ r. x ∷ r) (c_string-append xs k h.1))

take-short : (n : ℕ) (xs : List ℕ) → length xs ≤ n → take n xs ≡ xs
take-short zero [] h = refl
take-short zero (x ∷ xs) h = absurd (omega (arith, h))
take-short (suc n) [] h = refl
take-short (suc n) (x ∷ xs) h = ap (λ r. x ∷ r) (take-short n xs (omega (arith, h)))

-- A message of at most 47 characters arrives whole, in a payload of 52 bytes.
pub c_string-error_payload :
    (code : ℕ) (msg : List ℕ)
    → NoNul msg
    → length msg ≤ 47
    → (c_string (drop 4 (error_payload code msg)) ≡ msg) × (length (error_payload code msg) ≡ 52)
unfolding error_payload
c_string-error_payload code msg whole short =
    let same = take-short 47 msg short in
    let some_nul : 48 - length msg ≡ suc (47 - length msg) = omega (arith, short) in
    (
      ap (λ t. c_string (t ++ replicate (48 - length t) 0)) same
          ∙ ap (λ k. c_string (msg ++ replicate k 0)) some_nul
          ∙ c_string-append msg (47 - length msg) whole,
      ap (λ t. length (bytes_of 4 code ++ (t ++ replicate (48 - length t) 0))) same
          ∙ omega (
            arith,
            short,
            length-append msg (replicate (48 - length msg) 0),
            length-replicate {A = ℕ} (48 - length msg) 0,
          ),
    )
