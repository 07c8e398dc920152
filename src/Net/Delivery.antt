-- ===== src/Net/Delivery.antt =====
-- `conn_readn` of src/common/net.c over TLS as the `readn` that src/common/proto.c reads packets with.
use tcg_final_project.Prelude.{
  ℕ, suc, ◌+◌, ◌≤◌, ◌≡◌, ◌⊎◌, refl, sym, ap, ◌∙◌, List, [], ◌++◌, length, length-append, arith,
  Option, none, some,
}
use tcg_final_project.Net.{Event, ended, failed, count, Exit, returned, conn_stop, read_loop}
use tcg_final_project.Net.Reading.{Source, Read, whole, part, read_loop_lem}
use tcg_final_project.Proto.Roundtrip.{Stream}

-- A result that is a whole buffer: what the callers test for.
unfoldable pub whole_of {ℓ} : {S : Type ℓ} → Exit × S → Option (List ℕ × S)
whole_of (returned (count n) bytes, s) = some (bytes, s)
whole_of _ = none

-- A source that is not cut off: it ends or fails only behind the last byte.
module _ {S : Type 0} (c : Source S)
    (steady : (s : S) (n : ℕ) (e : Event) (s' : S)
      → c.rd s (suc n) ≡ (e, s')
      → (e ≡ ended) ⊎ (e ≡ failed)
      → c.pending s' ≡ []) where
  open c use {rd, pending, retries}

  -- `conn_readn` with the fuel that is enough.
  abbrev pub read_whole : S → ℕ → Option (List ℕ × S)
  read_whole s n = whole_of (read_loop rd conn_stop n (n + retries s) s n [])

  pub read_whole-some :
      (s : S) (n : ℕ)
      → n ≤ length (pending s)
      → (bytes : List ℕ) × (s' : S) × (read_whole s n ≡ some (bytes, s'))
  unfolding whole_of
  read_whole-some s n short =
      go (read_loop rd conn_stop n (n + retries s) s n [])
        (read_loop_lem c conn_stop n (n + retries s) s n [] (omega arith))
    where
      go :
          (r : Exit × S)
          → Read c conn_stop n s n [] r
          → (bytes : List ℕ) × (s' : S) × (whole_of r ≡ some (bytes, s'))
      go (e, s') (whole bytes len split h) = (bytes, s', rw h refl)
      go (e, s') (part why rest bytes last it w len split h) = absurd (
          omega (
            arith,
            ap (length {0}) split,
            length-append bytes (pending s'),
            ap (length {0}) (steady last rest why s' it w),
          ))

  pub read_whole-bytes :
      (s : S) (n : ℕ) (bytes : List ℕ) (s' : S)
      → read_whole s n ≡ some (bytes, s')
      → (length bytes ≡ n) × (pending s ≡ bytes ++ pending s')
  unfolding whole_of conn_stop
  read_whole-bytes s n bytes s' got =
      go (read_loop rd conn_stop n (n + retries s) s n [])
        (read_loop_lem c conn_stop n (n + retries s) s n [] (omega arith)) got
    where
      go :
          (r : Exit × S)
          → Read c conn_stop n s n [] r
          → whole_of r ≡ some (bytes, s')
          → (length bytes ≡ n) × (pending s ≡ bytes ++ pending s')
      go (e, s2) (whole bs len split h) q =
          let q' : some (bs, s2) ≡ some (bytes, s') = rw h at q in
          let same : bs ≡ bytes = cc q' in
          let end : s2 ≡ s' = cc q' in
          (
            sym (ap (length {0}) same) ∙ len,
            split ∙ ap (λ b. b ++ pending s2) same ∙ ap (λ t. bytes ++ pending t) end,
          )
      go (e, s2) (part why rest bs last it w len split h) q =
          let q' : ◌≡◌ {A = Option (List ℕ × S)} none (some (bytes, s')) = rw h at q in
          absurd (cc q')

  -- Over such a source `conn_readn` is a stream of whole reads, which is what `proto_recv` relies on.
  abbrev pub tls_stream : Stream
  tls_stream = record {
    Conn = S;
    readn = read_whole;
    pending = pending;
    readn_some = read_whole-some;
    readn_bytes = read_whole-bytes;
  }
