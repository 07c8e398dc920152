-- ===== src/Tests/Packets.antt =====
-- Packets of src/common/proto.c over a connection that delivers one byte at a time, and the loops of
-- src/common/net.c.
use tcg_final_project.Prelude.{
  ℕ, zero, suc, ◌≤◌, ◌≡◌, ◌≢◌, ◌⊎◌, inl, inr, refl, sym, ap, ◌∙◌, arith, List, [], ◌∷◌, ◌++◌,
  length, take,
}
use tcg_final_project.Net.{
  Event, got, ended, again, failed, Written, wrote, Ret, Exit, running, conn_stop, read_loop,
  on_read, on_write, write_loop,
}
use tcg_final_project.Net
use tcg_final_project.Net.Reading.{Source, Read, read_loop_lem, read_loop-endless}
use tcg_final_project.Net.Writing.{Sink}
use tcg_final_project.Net.Delivery.{tls_stream, whole_of}
use tcg_final_project.Proto.Checksum.{proto_checksum16, fold_carries, add_bytes}
use tcg_final_project.Proto.Fold.{proto_checksum16-single_byte}
use tcg_final_project.Proto.Packet.{packet, proto_recv, recv_body, read_payload, accept}
use tcg_final_project.Proto.Header.{IsSendable}
use tcg_final_project.Proto.Roundtrip.{Stream, proto_recv_sound}
use tcg_final_project.Proto.Opcode.{op_play_card}

-- The retries to come, and the bytes to come.
abbrev pub Wire : Type 0
Wire = ℕ × List ℕ

abbrev pub drip : Wire → ℕ → Event × Wire
drip (suc k, bytes) n = (again, (k, bytes))
drip (zero, []) n = (ended, (0, []))
drip (zero, b ∷ bytes) n = (got (b ∷ []), (0, bytes))

pub dripping-got_next :
    (s : Wire) (n : ℕ) (bytes : List ℕ) (s' : Wire)
    → drip s (suc n) ≡ (got bytes, s')
    → (1 ≤ length bytes) × (length bytes ≤ suc n) × (s.1 ≡ bytes ++ s'.1) × (s'.0 ≤ s.0)
dripping-got_next (suc k, xs) n bytes s' h = absurd (cc h)
dripping-got_next (zero, []) n bytes s' h = absurd (cc h)
dripping-got_next (zero, b ∷ xs) n bytes s' h =
    let e : got (b ∷ []) ≡ got bytes = ap (λ r. r.0) h in
    let q : b ∷ [] ≡ bytes = cc e in
    let t : (0, xs) ≡ s' = ap (λ r. r.1) h in
    (
      omega (arith, ap (length {0}) q),
      omega (arith, ap (length {0}) q),
      ap (λ y. y ++ xs) q ∙ ap (λ r. bytes ++ r.1) t,
      omega (arith, ap (λ r. r.0) t),
    )

pub dripping-again_waits :
    (s : Wire) (n : ℕ) (s' : Wire) → drip s (suc n) ≡ (again, s') → (s'.1 ≡ s.1) × (suc s'.0 ≤ s.0)
dripping-again_waits (suc k, xs) n s' h =
    let t : (k, xs) ≡ s' = ap (λ r. r.1) h in
    (sym (ap (λ r. r.1) t), omega (arith, ap (λ r. r.0) t))
dripping-again_waits (zero, []) n s' h = absurd (cc h)
dripping-again_waits (zero, b ∷ xs) n s' h = absurd (cc h)

pub dripping-stops_unread :
    (s : Wire) (n : ℕ) (e : Event) (s' : Wire)
    → drip s (suc n) ≡ (e, s')
    → (e ≡ ended) ⊎ (e ≡ failed)
    → s'.1 ≡ s.1
dripping-stops_unread (suc k, xs) n e s' h w =
    let t : (k, xs) ≡ s' = ap (λ r. r.1) h in sym (ap (λ r. r.1) t)
dripping-stops_unread (zero, []) n e s' h w =
    let t : ◌≡◌ {A = Wire} (0, []) s' = ap (λ r. r.1) h in sym (ap (λ r. r.1) t)
dripping-stops_unread (zero, b ∷ xs) n e s' h (inl w) =
    let f : got (b ∷ []) ≡ e = ap (λ r. r.0) h in absurd (cc (f, w))
dripping-stops_unread (zero, b ∷ xs) n e s' h (inr w) =
    let f : got (b ∷ []) ≡ e = ap (λ r. r.0) h in absurd (cc (f, w))

abbrev pub dripping : Source Wire
dripping = record {
  rd = drip;
  pending = λ w. w.1;
  retries = λ w. w.0;
  got_next = dripping-got_next;
  again_waits = dripping-again_waits;
  stops_unread = dripping-stops_unread;
}

pub steady :
    (s : Wire) (n : ℕ) (e : Event) (s' : Wire)
    → drip s (suc n) ≡ (e, s')
    → (e ≡ ended) ⊎ (e ≡ failed)
    → s'.1 ≡ []
steady (suc k, xs) n e s' h (inl w) = let f : again ≡ e = ap (λ r. r.0) h in absurd (cc (f, w))
steady (suc k, xs) n e s' h (inr w) = let f : again ≡ e = ap (λ r. r.0) h in absurd (cc (f, w))
steady (zero, []) n e s' h w =
    let t : ◌≡◌ {A = Wire} (0, []) s' = ap (λ r. r.1) h in sym (ap (λ r. r.1) t)
steady (zero, b ∷ xs) n e s' h (inl w) =
    let f : got (b ∷ []) ≡ e = ap (λ r. r.0) h in absurd (cc (f, w))
steady (zero, b ∷ xs) n e s' h (inr w) =
    let f : got (b ∷ []) ≡ e = ap (λ r. r.0) h in absurd (cc (f, w))

abbrev pub connection : Stream
connection = tls_stream dripping steady

read_loop_lem_example :
    Read dripping conn_stop 3
      (2, 1 ∷ 2 ∷ [])
      3
      []
      (read_loop drip conn_stop 3 9 (2, 1 ∷ 2 ∷ []) 3 [])
read_loop_lem_example = read_loop_lem dripping conn_stop 3 9 (2, 1 ∷ 2 ∷ []) 3 [] (omega arith)

waiting : Wire → ℕ → Event × Wire
waiting w n = (again, w)

read_loop-endless_example : (read_loop waiting conn_stop 8 100 (0, []) 8 []).0 ≡ running
unfolding waiting
read_loop-endless_example = read_loop-endless waiting conn_stop 8 100 (0, []) 7 [] (λ t k. refl)

-- One byte at a time goes out.
abbrev pub pour : Wire → List ℕ → Written × Wire
pour (suc k, out) bytes = (Net.Written.again, (k, out))
pour (zero, out) [] = (wrote 0, (0, out))
pour (zero, out) (b ∷ bytes) = (wrote 1, (0, out ++ b ∷ []))

pub pouring-wrote_part :
    (s : Wire) (b : ℕ) (bs : List ℕ) (k : ℕ) (s' : Wire)
    → pour s (b ∷ bs) ≡ (wrote k, s')
    → (1 ≤ k) × (k ≤ suc (length bs)) × (s'.1 ≡ s.1 ++ take k (b ∷ bs)) × (s'.0 ≤ s.0)
pouring-wrote_part (suc j, out) b bs k s' h =
    let f : Net.Written.again ≡ wrote k = ap (λ r. r.0) h in absurd (cc f)
pouring-wrote_part (zero, out) b bs k s' h =
    let f : wrote 1 ≡ wrote k = ap (λ r. r.0) h in
    let q : 1 ≡ k = cc f in
    let t : (0, out ++ b ∷ []) ≡ s' = ap (λ r. r.1) h in
    (
      omega (arith, q),
      omega (arith, q),
      sym (ap (λ r. r.1) t) ∙ ap (λ i. out ++ take i (b ∷ bs)) q,
      omega (arith, ap (λ r. r.0) t),
    )

pub pouring-again_waits :
    (s : Wire) (b : ℕ) (bs : List ℕ) (s' : Wire)
    → pour s (b ∷ bs) ≡ (Net.Written.again, s')
    → (s'.1 ≡ s.1) × (suc s'.0 ≤ s.0)
pouring-again_waits (suc k, out) b bs s' h =
    let t : (k, out) ≡ s' = ap (λ r. r.1) h in
    (sym (ap (λ r. r.1) t), omega (arith, ap (λ r. r.0) t))
pouring-again_waits (zero, out) b bs s' h =
    let f : wrote 1 ≡ Net.Written.again = ap (λ r. r.0) h in absurd (cc f)

pub pouring-failed_unwritten :
    (s : Wire) (b : ℕ) (bs : List ℕ) (s' : Wire)
    → pour s (b ∷ bs) ≡ (Net.Written.failed, s')
    → s'.1 ≡ s.1
pouring-failed_unwritten (suc k, out) b bs s' h =
    let f : Net.Written.again ≡ Net.Written.failed = ap (λ r. r.0) h in absurd (cc f)
pouring-failed_unwritten (zero, out) b bs s' h =
    let f : wrote 1 ≡ Net.Written.failed = ap (λ r. r.0) h in absurd (cc f)

abbrev pub pouring : Sink Wire
pouring = record {
  wr = pour;
  written = λ w. w.1;
  retries = λ w. w.0;
  wrote_part = pouring-wrote_part;
  again_waits = pouring-again_waits;
  failed_unwritten = pouring-failed_unwritten;
}

-- A request to play the third card, in front of two bytes of the next packet.
abbrev pub third_card : List ℕ
third_card = 2 ∷ []

pub third_card-IsSendable : IsSendable 1 op_play_card third_card
third_card-IsSendable = record { opcode_lt = omega arith; fits = omega arith; room = omega arith }

-- The bytes of that packet.
abbrev pub on_the_wire : List ℕ
on_the_wire = 0 ∷ 0 ∷ 0 ∷ 9 ∷ 1 ∷ 1 ∷ 255 ∷ 242 ∷ 2 ∷ []

proto_recv_sound_example :
    IsSendable 1 op_play_card third_card × (on_the_wire ≡ packet op_play_card third_card ++ [])
unfolding proto_recv recv_body read_payload accept whole_of read_loop on_read proto_checksum16
    fold_carries add_bytes
proto_recv_sound_example =
    proto_recv_sound connection (0, on_the_wire) 1 op_play_card third_card (0, []) (ground arith)
      refl

proto_checksum16-single_byte_example :
    proto_checksum16 (1 ∷ 2 ∷ 3 ∷ []) ≢ proto_checksum16 (1 ∷ 7 ∷ 3 ∷ [])
proto_checksum16-single_byte_example =
    proto_checksum16-single_byte (1 ∷ []) (3 ∷ []) 2 7
      (omega arith, (omega arith, (omega arith, tt))) (omega arith) (omega arith) (omega arith)
