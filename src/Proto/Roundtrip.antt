-- ===== src/Proto/Roundtrip.antt =====
-- `proto_recv` against `proto_send` of src/common/proto.c: the one takes exactly the packets that the
-- other makes.
use tcg_final_project.Prelude.{
  ℕ, ◌+◌, ◌-◌, ◌≤◌, ◌≡◌, refl, sym, ap, ◌∙◌, List, [], ◌∷◌, ◌++◌, Option, some, length,
  length-append, arith, leb, ◌==◌, ==_iff, ◌&&◌, true, Bool-cases, inl, inr,
}
use mathlib.Core.Path.{subst}
use mathlib.Core.List.{append_assoc}
use tcg_final_project.Prelude.Monad.{◌>>=◌, >>=-eq-some, guard-eq-some}
use tcg_final_project.Proto.Fold.{AllBytes}
use tcg_final_project.Proto.Bytes.{get32, append-inj}
use tcg_final_project.Proto.Packet.{packet, accept, read_payload, recv_body, proto_recv}
use tcg_final_project.Proto.Header.{
  IsSendable, head8, packet-split, head8-get, accept-head8, packet-of_accepted, AllBytes-append,
}

-- A connection that delivers a stream of bytes and does not break off before its end: what
-- `conn_readn` gives its callers. `pending` are the bytes still to come.
pub record Stream : Type 1 where
  pub Conn : Type 0
  pub readn : Conn → ℕ → Option (List ℕ × Conn)
  pub pending : Conn → List ℕ
  pub readn_some :
      (c : Conn) (n : ℕ)
      → n ≤ length (pending c)
      → (bytes : List ℕ) × (c' : Conn) × (readn c n ≡ some (bytes, c'))
  pub readn_bytes :
      (c : Conn) (n : ℕ) (bytes : List ℕ) (c' : Conn)
      → readn c n ≡ some (bytes, c')
      → (length bytes ≡ n) × (pending c ≡ bytes ++ pending c')

module _ (r : Stream) where
  open r use {Conn, readn, pending, readn_some, readn_bytes}

  -- Reading the first `n` bytes of what is to come.
  readn_prefix :
      (c : Conn) (xs ys : List ℕ)
      → pending c ≡ xs ++ ys
      → (c' : Conn) × (readn c (length xs) ≡ some (xs, c')) × (pending c' ≡ ys)
  readn_prefix c xs ys e =
      let (bytes, c', got) =
        readn_some c (length xs) (omega (arith, ap (length {0}) e, length-append xs ys)) in
      let (len, split) = readn_bytes c (length xs) bytes c' got in
      let (same, rest) = append-inj bytes (pending c') xs ys len (sym split ∙ e) in
      (c', got ∙ ap (λ b. some (b, c')) same, rest)

  read_payload_prefix :
      (c : Conn) (xs ys : List ℕ)
      → pending c ≡ xs ++ ys
      → (c' : Conn) × (read_payload readn c (length xs) ≡ some (xs, c')) × (pending c' ≡ ys)
  unfolding read_payload
  read_payload_prefix c [] ys e = (c, refl, e)
  read_payload_prefix c (x ∷ xs) ys e =
      let (c', got, rest) = readn_prefix c (x ∷ xs) ys e in (c', ground arith, rest)

  recv_steps :
      (c c1 c2 : Conn) (bound opcode : ℕ) (header payload : List ℕ)
      → readn c 8 ≡ some (header, c1)
      → get32 header 0 ≡ 8 + length payload
      → length payload ≤ bound
      → read_payload readn c1 (length payload) ≡ some (payload, c2)
      → accept header payload ≡ some opcode
      → proto_recv readn c bound ≡ some (opcode, payload, c2)
  unfolding proto_recv recv_body
  recv_steps c c1 c2 bound opcode header payload got1 len room got2 taken =
      let inside : (leb 8 (get32 header 0) && leb (get32 header 0) (8 + bound)) ≡ true =
        ground arith in
      let left : get32 header 0 - 8 ≡ length payload = omega arith in
      rw (got1, inside, left, got2, taken)

  -- Over a connection that delivers what it was given, `proto_recv` gets back every packet that
  -- `proto_send` lays out, and leaves the connection just behind it, if the packet is at most 4096
  -- bytes long and its payload fits the receiver's buffer.
  pub proto_recv-packet :
      (c : Conn) (bound opcode : ℕ) (payload rest : List ℕ)
      → IsSendable bound opcode payload
      → pending c ≡ packet opcode payload ++ rest
      → (c' : Conn) × (proto_recv readn c bound ≡ some (opcode, payload, c')) × (pending c' ≡ rest)
  proto_recv-packet c bound opcode payload rest s e =
      let (len, _, _) = head8-get bound opcode payload s in
      let (c1, got1, rest1) =
        readn_prefix c (head8 opcode payload) (payload ++ rest)
          (e ∙ ap (λ p. p ++ rest) (packet-split opcode payload)) in
      let (c2, got2, rest2) = read_payload_prefix c1 payload rest rest1 in
      (
        c2,
        recv_steps c c1 c2 bound opcode (head8 opcode payload) payload got1 len s.room got2
            (accept-head8 bound opcode payload s),
        rest2,
      )

  -- What an accepted packet went through.
  record Received (c c' : Conn) (bound opcode : ℕ) (payload : List ℕ) : Type 0 where
    header : List ℕ
    behind : Conn
    got_header : readn c 8 ≡ some (header, behind)
    long : 8 ≤ get32 header 0
    short : get32 header 0 ≤ 8 + bound
    got_payload : read_payload readn behind (get32 header 0 - 8) ≡ some (payload, c')
    accepted : accept header payload ≡ some opcode

  abbrev give : List ℕ × Conn → ℕ → Option (ℕ × List ℕ × Conn)
  give (body, c) opcode = some (opcode, body, c)

  recv_body-Received :
      (c c' c1 : Conn) (bound opcode : ℕ) (header payload : List ℕ)
      → readn c 8 ≡ some (header, c1)
      → recv_body readn bound (header, c1) ≡ some (opcode, payload, c')
      → Received c c' bound opcode payload
  unfolding recv_body
  recv_body-Received c c' c1 bound opcode header payload got h =
      let (inside, h2) = guard-eq-some _ _ h in
      go inside (>>=-eq-some (read_payload readn c1 (get32 header 0 - 8)) _ h2)
    where
      go :
          (leb 8 (get32 header 0) && leb (get32 header 0) (8 + bound)) ≡ true
          → (b : List ℕ × Conn) × (read_payload readn c1 (get32 header 0 - 8) ≡ some b)
            × ((accept header b.0 >>= give b) ≡ some (opcode, payload, c'))
          → Received c c' bound opcode payload
      go inside ((body, c2), got2, h3) =
          let (op, acc, h4) = >>=-eq-some (accept header body) _ h3 in
          record {
            header = header;
            behind = c1;
            got_header = got;
            long = ground arith;
            short = ground arith;
            got_payload = got2 ∙ ap some (cc h4);
            accepted =
                ap (accept header) (let same : payload ≡ body = cc h4 in same)
                ∙ acc
                ∙ ap some (let same : op ≡ opcode = cc h4 in same);
          }

  read_payload-bytes :
      (c : Conn) (n : ℕ) (bytes : List ℕ) (c' : Conn)
      → read_payload readn c n ≡ some (bytes, c')
      → (length bytes ≡ n) × (pending c ≡ bytes ++ pending c')
  unfolding read_payload
  read_payload-bytes c n bytes c' h = elim (Bool-cases (n == 0)) [
    | inl z ↦
        let e : some ([], c) ≡ some (bytes, c') = rw z at h in
        let none_read : [] ≡ bytes = cc e in
        let still : c ≡ c' = cc e in
        (
          sym (ap (length {0}) none_read) ∙ sym ((==_iff n 0).0 z),
          ap pending still ∙ ap (λ b. b ++ pending c') none_read,
        )
    | inr nz ↦ readn_bytes c n bytes c' (rw nz at h)
  ]

  Received-packet :
      (c : Conn) (bound opcode : ℕ) (payload : List ℕ) (c' : Conn)
      → AllBytes (pending c)
      → Received c c' bound opcode payload
      → IsSendable bound opcode payload × (pending c ≡ packet opcode payload ++ pending c')
  Received-packet c bound opcode payload c' all v =
      let (eight_long, split) = readn_bytes c 8 v.header v.behind v.got_header in
      let (len, rest) =
        read_payload-bytes v.behind (get32 v.header 0 - 8) payload c' v.got_payload in
      let (same, code, fits) =
        packet-of_accepted v.header payload opcode eight_long
          (AllBytes-append v.header (pending v.behind) (subst AllBytes split all)).0
          (omega (arith, v.long, len)) v.accepted in
      (
        record { opcode_lt = code; fits = fits; room = omega (arith, v.short, v.long, len) },
        split
            ∙ ap (λ b. v.header ++ b) rest
            ∙ sym (append_assoc v.header payload (pending c'))
            ∙ ap (λ b. b ++ pending c') (sym same),
      )

  -- Every packet that `proto_recv` accepts from a connection that delivers bytes is, byte for byte,
  -- one that `proto_send` lays out for the same opcode and payload, within the limits of both
  -- sides.
  pub proto_recv_sound :
      (c : Conn) (bound opcode : ℕ) (payload : List ℕ) (c' : Conn)
      → AllBytes (pending c)
      → proto_recv readn c bound ≡ some (opcode, payload, c')
      → IsSendable bound opcode payload × (pending c ≡ packet opcode payload ++ pending c')
  unfolding proto_recv
  proto_recv_sound c bound opcode payload c' all h =
      let ((header, c1), got, h1) = >>=-eq-some (readn c 8) (recv_body readn bound) h in
      Received-packet c bound opcode payload c' all
        (recv_body-Received c c' c1 bound opcode header payload got h1)
