-- ===== src/Crypto/RoundTrip.antt =====
-- `decrypt_file` on what `encrypt_file` wrote behind the header.
use rsyncrypto.Prelude.{
  ℕ, zero, suc, ◌+◌, ◌-◌, ◌<◌, ◌≤◌, true, false, Bytes, IsByte, [], ◌∷◌, ◌++◌, reverse, ok, ◌==◌,
  leb, length, replicate, All, ◌≡◌, refl, ◌∙◌, arith, take-append_exact, length-append, append-nil,
  append_assoc, Bool-cases, inl, inr, All-append, All-replicate_zero,
}
use mathlib.Core.List.{reverse-append}
use rsyncrypto.CryptKey.{IsUsable}
use rsyncrypto.CryptKey.Window.{ends_block}
use rsyncrypto.AesCrypt.{Aes, AesKey, IsCbc, padded, block_size}
use rsyncrypto.Crypto.{DecryptState, decrypt_stream, encrypt_stream}
use rsyncrypto.Crypto.Position.{Fixed, IsIdle, IsOn-IsIdle}
use rsyncrypto.Crypto.Stream.{emit, trailer_of, leftover, stream_of}
use rsyncrypto.Crypto.Emit.{encrypt_stream-stream_of}
use rsyncrypto.Crypto.Scan.{
  IsQuiet, IsQuiet-concat, scan-IsQuiet, scan_cut, scan_whole, scan-IsIdle,
}
use rsyncrypto.Crypto.Round.{opened-IsOn}
use rsyncrypto.Crypto.Loop.{length-trailer_of, Gives}
use rsyncrypto.Crypto.Stream.{
  emit_end, emit_cut, emit_full, emit_more, leftover_cut, leftover_full, leftover_more,
}
use rsyncrypto.Crypto.Blocks.{Waits, length-rest, last_block, block}
use rsyncrypto.Crypto.Zeros.{overrun, overrun_cut, overrun_full, overrun_more, overrun_whole}

module _ (a : Aes) (f : Fixed) (L : IsCbc a f.secret) (u : IsUsable f.header) where
  abbrev BytesBack : ℕ → ℕ → DecryptState → Bytes → Bytes → Bytes → Type 0
  BytesBack fuel st_size s hist pend stream = Gives a f L u fuel st_size s (
      s.written
      ++ (pend ++ (stream ++ replicate (overrun f.header (reverse pend ++ hist) pend stream) 0)))

  module _ (st_size fuel : ℕ) (s : DecryptState) (ivec hist pend : Bytes) (pbytes : All IsByte pend)
      (quiet : IsQuiet f.header hist pend) (small : length pend < block_size) where
    -- The bytes end inside a block.
    back-nil :
        0 < length pend
        → Waits a f L u st_size (suc fuel) s ivec hist pend []
        → BytesBack (suc fuel) st_size s hist pend []
    unfolding leftover overrun
    back-nil pos w =
        let zeros : Bytes = replicate (block_size - length pend) 0 in
        let unread : s.unread
            ≡ (a.cbc_encrypt f.secret ivec pend).0 ++ trailer_of a f (length pend) =
          rw (emit_end a f ivec (reverse pend ++ hist) pend pos) at w.unread in
        let fits : length pend ≤ block_size = omega (arith, small) in
        let on = opened-IsOn a f L u s ivec hist pend _ w.at pos fits unread in
        let (k', _, e) = scan-IsQuiet f u pend zeros _ _ hist on pbytes quiet in
        let idle = rw e at (
          scan-IsIdle f u (padded pend) _ _ hist on (
            All-append IsByte pend zeros pbytes (All-replicate_zero (block_size - length pend)))) in
        let n =
          length-rest a f L u st_size fuel s ivec hist pend w.at w.not_done w.size w.fuel_left pos
            fits _ unread in
        let counted : (length pend == 0) ≡ false = ground arith in
        rw append-nil (
          rw (counted, take-append_exact pend zeros (length pend) refl) at
            (last_block a f L u st_size fuel s ivec hist pend w.at w.not_done w.size w.fuel_left pos
              fits _ _ (length pend) _ unread e idle (omega arith) small
              (omega (arith, n, w.fuel_left, length-trailer_of a f L u (length pend)))))

    module _ (c : ℕ) (cs : Bytes) (byte : IsByte c)
        (w : Waits a f L u st_size (suc fuel) s ivec hist pend (c ∷ cs)) where
      abbrev chunk : Bytes
      chunk = pend ++ (c ∷ [])

      abbrev out : Bytes
      out = (a.cbc_encrypt f.secret ivec chunk).0

      abbrev ivec' : Bytes
      ivec' = (a.cbc_encrypt f.secret ivec chunk).1

      abbrev hist' : Bytes
      hist' = c ∷ (reverse pend ++ hist)

      chunk_pos : 0 < length chunk
      chunk_pos = omega (arith, length-append pend (c ∷ []))

      chunk_fits : length chunk ≤ block_size
      chunk_fits = omega (arith, length-append pend (c ∷ []), small)

      abbrev zeros : Bytes
      zeros = replicate (block_size - length chunk) 0

      -- The block ends with the byte.
      back_cut :
          ends_block f.header hist' ≡ true
          → ((s' : DecryptState)
              → 0 < length cs
              → Waits a f L u st_size fuel s' f.iv [] [] cs
              → BytesBack fuel st_size s' [] [] cs)
          → BytesBack (suc fuel) st_size s hist pend (c ∷ cs)
      back_cut e next =
          let unread : s.unread
              ≡ out ++ (emit a f f.iv [] [] cs ++ trailer_of a f (leftover f.header [] [] cs)) =
            w.unread
            ∙ rw
                (
                  emit_cut a f ivec (reverse pend ++ hist) pend c cs e,
                  leftover_cut f.header (reverse pend ++ hist) pend cs c e,
                )
                (append_assoc out (emit a f f.iv [] [] cs)
                  (trailer_of a f (leftover f.header [] [] cs))) in
          let on = opened-IsOn a f L u s ivec hist chunk _ w.at chunk_pos chunk_fits unread in
          let (k', on', sc) = scan_cut f u pend zeros c _ _ hist on pbytes byte quiet e in
          let counted : length pend + 1 ≡ length chunk =
            omega (arith, length-append pend (c ∷ [])) in
          rw (overrun_cut f.header (reverse pend ++ hist) pend cs c e) (
            rw (append_assoc pend (c ∷ [])) at (
              block a f L u st_size fuel s ivec hist chunk w.at w.not_done w.size w.fuel_left
                chunk_pos chunk_fits k' true f.iv [] cs (overrun f.header [] [] cs) unread
                (rw (append_assoc pend (c ∷ []) zeros) (rw counted at sc))
                (IsOn-IsIdle f u k' _ hist' on', refl, refl) next))

      -- The byte fills the block.
      back_full :
          ends_block f.header hist' ≡ false
          → leb block_size (length chunk) ≡ true
          → ((s' : DecryptState)
              → 0 < length cs
              → Waits a f L u st_size fuel s' (a.cbc_encrypt f.secret ivec chunk).1 hist' [] cs
              → BytesBack fuel st_size s' hist' [] cs)
          → BytesBack (suc fuel) st_size s hist pend (c ∷ cs)
      back_full e n next =
          let unread : s.unread
              ≡ out
                ++ (emit a f ivec' hist' [] cs ++ trailer_of a f (leftover f.header hist' [] cs)) =
            w.unread
            ∙ rw
                (
                  emit_full a f ivec (reverse pend ++ hist) pend c cs e n,
                  leftover_full f.header (reverse pend ++ hist) pend cs c e n,
                )
                (append_assoc out (emit a f ivec' hist' [] cs)
                  (trailer_of a f (leftover f.header hist' [] cs))) in
          let on = opened-IsOn a f L u s ivec hist chunk _ w.at chunk_pos chunk_fits unread in
          let none : block_size - length chunk ≡ 0 = ground (arith, chunk_fits) in
          let whole : padded chunk ≡ chunk = rw (none, append-nil chunk) in
          let (k', on', sc) =
            scan_whole f u chunk _ _ hist on (All-append IsByte pend (c ∷ []) pbytes (byte, tt))
              (IsQuiet-concat f.header hist pend c quiet e) in
          let turned : reverse chunk ++ hist ≡ hist' = rw (reverse-append pend (c ∷ [])) refl in
          rw (overrun_full f.header (reverse pend ++ hist) pend cs c e n) (
            rw (append_assoc pend (c ∷ []), none, overrun_whole f.header hist' cs) at
              (block a f L u st_size fuel s ivec hist chunk w.at w.not_done w.size w.fuel_left
                chunk_pos chunk_fits k' false ivec' hist' cs (overrun f.header hist' [] cs) unread
                (rw whole sc) (rw turned at on') next))

  -- The loop and what follows it give the bytes back, from any place between two blocks on.
  decrypt-emit :
      (stream : Bytes) (st_size fuel : ℕ) (s : DecryptState) (ivec hist pend : Bytes)
      → All IsByte stream
      → All IsByte pend
      → IsQuiet f.header hist pend
      → length pend < block_size
      → 0 < length pend + length stream
      → Waits a f L u st_size fuel s ivec hist pend stream
      → BytesBack fuel st_size s hist pend stream
  decrypt-emit stream st_size zero s ivec hist pend bytes pbytes quiet small some w =
      absurd (omega (arith, w.fuel_left))
  decrypt-emit [] st_size (suc fuel) s ivec hist pend bytes pbytes quiet small some w =
      back-nil st_size fuel s ivec hist pend pbytes quiet small (omega (arith, some)) w
  decrypt-emit (c ∷ cs) st_size (suc fuel) s ivec hist pend bytes pbytes quiet small some w =
      elim (Bool-cases (ends_block f.header (c ∷ (reverse pend ++ hist)))) [
        | inl e ↦
            back_cut st_size fuel s ivec hist pend pbytes quiet small c cs bytes.0 w e λ s' more w'.
              decrypt-emit cs st_size fuel s' f.iv [] [] bytes.1 tt tt (omega arith)
                (omega (arith, more)) w'
        | inr e ↦ elim (Bool-cases (leb block_size (length (pend ++ (c ∷ []))))) [
          | inl n ↦
              back_full st_size fuel s ivec hist pend pbytes quiet small c cs bytes.0 w e n
                λ s' more w'.
                  decrypt-emit cs st_size fuel s' _ (c ∷ (reverse pend ++ hist)) [] bytes.1 tt tt
                    (omega arith) (omega (arith, more)) w'
          | inr n ↦
              let turned : reverse (pend ++ (c ∷ [])) ++ hist ≡ c ∷ (reverse pend ++ hist) =
                rw (reverse-append pend (c ∷ [])) refl in
              let w' : Waits a f L u st_size (suc fuel) s ivec hist (pend ++ (c ∷ [])) cs = record {
                at = w.at;
                not_done = w.not_done;
                unread = rw turned (
                    rw
                      (
                        emit_more a f ivec (reverse pend ++ hist) pend c cs e n,
                        leftover_more f.header (reverse pend ++ hist) pend cs c e n,
                      )
                      at w.unread);
                size = w.size;
                fuel_left = w.fuel_left;
              } in
              let more = length-append pend (c ∷ []) in
              rw (overrun_more f.header (reverse pend ++ hist) pend cs c e n) (
                rw (turned, append_assoc pend (c ∷ [])) at
                  (decrypt-emit cs st_size (suc fuel) s ivec hist (pend ++ (c ∷ [])) bytes.1
                    (All-append IsByte pend (c ∷ []) pbytes (bytes.0, tt))
                    (IsQuiet-concat f.header hist pend c quiet e) (ground (arith, more))
                    (omega (arith, more)) w'))
        ]
      ]

  -- With a cipher that behaves under the secret as documented and a usable header, for two keys at
  -- rest that share the header, the secret and the initial vector, and a stream of at least one
  -- byte: decrypt_stream turns what encrypt_stream wrote back into the stream; behind it stand the
  -- zeros that fill up a cut last block.
  pub decrypt_stream-encrypt_stream :
      (k k' : AesKey) (currpos : ℕ) (stream : Bytes)
      → IsIdle f k
      → IsIdle f k'
      → All IsByte stream
      → 0 < length stream
      → let written = (encrypt_stream a k stream).1 in
        (k'' : AesKey) × (decrypt_stream a k' currpos (currpos + length written) written
          ≡ ok (k'', stream ++ replicate (overrun f.header [] [] stream) 0))
  unfolding decrypt_stream stream_of
  decrypt_stream-encrypt_stream k k' currpos stream idle idle' bytes some =
      rw (encrypt_stream-stream_of a f u k stream bytes idle) (
        decrypt-emit stream _ _ _ f.iv [] [] bytes tt tt (omega arith) (omega (arith, some))
          (record {
            at = (idle', refl, refl);
            not_done = refl;
            unread = refl;
            size = refl;
            fuel_left = omega arith;
          }))
