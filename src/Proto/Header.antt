-- ===== src/Proto/Header.antt =====
-- The header of a packet, written and read: the parts of src/common/proto.c between the two reads.
use tcg_final_project.Prelude.{
  ℕ, ◌+◌, ◌*◌, ◌≤◌, ◌<◌, ◌≡◌, refl, sym, ap, ◌∙◌, List, [], ◌∷◌, ◌++◌, Option, some, length, arith,
  leb, ◌==◌, ==_iff, Bool,
}
use tcg_final_project.Prelude.Monad.{◌>>◌, guard, guard-eq-some}
use tcg_final_project.Proto.Fold.{AllBytes}
use tcg_final_project.Proto.Bytes.{put32, put16, get32, get16}
use tcg_final_project.Proto.Checksum.{proto_checksum16}
use tcg_final_project.Proto.Packet.{layout, packet, total_length, cleared, accept}

-- A packet that both sides can hold: at most 4096 bytes, of which the receiver's buffer has room for
-- the payload.
pub record IsSendable (bound opcode : ℕ) (payload : List ℕ) : Type 0 where
  pub opcode_lt : opcode < 65536
  pub fits : 8 + length payload ≤ 4096
  pub room : length payload ≤ bound

-- The first eight bytes of a packet.
abbrev pub head8 : ℕ → List ℕ → List ℕ
head8 opcode payload =
    put32 (total_length payload)
      (put16 opcode (put16 (proto_checksum16 (layout (total_length payload) opcode 0 payload)) []))

pub packet-split :
    (opcode : ℕ) (payload : List ℕ) → packet opcode payload ≡ head8 opcode payload ++ payload
unfolding packet layout
packet-split opcode payload = refl

checksum-lt : (xs : List ℕ) → proto_checksum16 xs < 65536
unfolding proto_checksum16
checksum-lt xs = omega arith

-- The header is read as it was written.
pub head8-get :
    (bound opcode : ℕ) (payload : List ℕ)
    → IsSendable bound opcode payload
    → (get32 (head8 opcode payload) 0 ≡ 8 + length payload)
      × (get16 (head8 opcode payload) 4 ≡ opcode)
      × (get16 (head8 opcode payload) 6
          ≡ proto_checksum16 (layout (total_length payload) opcode 0 payload))
head8-get bound opcode payload s =
    omega (arith, checksum-lt (layout (total_length payload) opcode 0 payload))

pub accept-head8 :
    (bound opcode : ℕ) (payload : List ℕ)
    → IsSendable bound opcode payload
    → accept (head8 opcode payload) payload ≡ some opcode
unfolding accept layout
accept-head8 bound opcode payload s = ground (arith, head8-get bound opcode payload s)

-- The tests behind the two reads, backwards.
accept-some :
    (header payload : List ℕ) (opcode : ℕ)
    → accept header payload ≡ some opcode
    → (get32 header 0 ≤ 4096)
      × (proto_checksum16 (cleared header payload) ≡ get16 header 6)
      × (get16 header 4 ≡ opcode)
unfolding accept
accept-some header payload opcode h =
    let sums : Bool = proto_checksum16 (cleared header payload) == get16 header 6 in
    let code : Option ℕ = some (get16 header 4) in
    let (short, h1) = guard-eq-some (leb (get32 header 0) 4096) (guard sums >> code) h in
    let (sum, h2) = guard-eq-some sums code h1 in (ground arith, (==_iff _ _).0 sum, cc h2)

put32-get32 :
    (t a b c d : ℕ) (rest : List ℕ)
    → AllBytes (a ∷ b ∷ c ∷ d ∷ [])
    → t ≡ (a * 256 + b) * 65536 + (c * 256 + d)
    → put32 t rest ≡ a ∷ b ∷ c ∷ d ∷ rest
put32-get32 t a b c d rest h e = ground arith

put16-get16 :
    (t a b : ℕ) (rest : List ℕ)
    → AllBytes (a ∷ b ∷ [])
    → t ≡ a * 256 + b
    → put16 t rest ≡ a ∷ b ∷ rest
put16-get16 t a b rest h e = ground arith

-- A header of bytes that is accepted in front of a payload of its length is the one of its packet.
packet-of_header :
    (a b c d e f g h opcode : ℕ) (payload : List ℕ)
    → AllBytes (a ∷ b ∷ c ∷ d ∷ e ∷ f ∷ g ∷ h ∷ [])
    → (a * 256 + b) * 65536 + (c * 256 + d) ≡ 8 + length payload
    → accept (a ∷ b ∷ c ∷ d ∷ e ∷ f ∷ g ∷ h ∷ []) payload ≡ some opcode
    → packet opcode payload ≡ a ∷ b ∷ c ∷ d ∷ e ∷ f ∷ g ∷ h ∷ payload
unfolding packet layout
packet-of_header a b c d e f g h opcode payload (ha, (hb, (hc, (hd, (he, (hf, (hg, (hh, _))))))))
      len acc =
    let (short, sum, op) = accept-some (a ∷ b ∷ c ∷ d ∷ e ∷ f ∷ g ∷ h ∷ []) payload opcode acc in
    let head = λ (rest : List ℕ).
      put32-get32 (total_length payload) a b c d rest (ha, (hb, (hc, (hd, tt)))) (omega arith) in
    let code = λ (rest : List ℕ). put16-get16 opcode e f rest (he, (hf, tt)) (sym op) in
    let blank : put32 (total_length payload) (put16 opcode (put16 0 payload))
        ≡ a ∷ b ∷ c ∷ d ∷ e ∷ f ∷ 0 ∷ 0 ∷ payload =
      head _ ∙ ap (λ r. a ∷ b ∷ c ∷ d ∷ r) (code _) in
    head _
    ∙ ap (λ r. a ∷ b ∷ c ∷ d ∷ r) (code _)
    ∙ ap (λ r. a ∷ b ∷ c ∷ d ∷ e ∷ f ∷ r)
        (put16-get16 _ g h payload (hg, (hh, tt)) (ap proto_checksum16 blank ∙ sum))

pub AllBytes-append : (xs ys : List ℕ) → AllBytes (xs ++ ys) → AllBytes xs × AllBytes ys
AllBytes-append [] ys h = (tt, h)
AllBytes-append (x ∷ xs) ys h = let (p, q) = AllBytes-append xs ys h.1 in ((h.0, p), q)

pub packet-of_accepted :
    (header payload : List ℕ) (opcode : ℕ)
    → length header ≡ 8
    → AllBytes header
    → get32 header 0 ≡ 8 + length payload
    → accept header payload ≡ some opcode
    → (packet opcode payload ≡ header ++ payload) × (opcode < 65536) × (8 + length payload ≤ 4096)
packet-of_accepted (a ∷ b ∷ c ∷ d ∷ e ∷ f ∷ g ∷ h ∷ []) payload opcode l all len acc =
    let (short, _, op) = accept-some (a ∷ b ∷ c ∷ d ∷ e ∷ f ∷ g ∷ h ∷ []) payload opcode acc in
    (packet-of_header a b c d e f g h opcode payload all len acc, omega arith, omega arith)
packet-of_accepted _ payload opcode l all len acc = absurd (omega arith)
