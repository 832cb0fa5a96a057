-- ===== src/Crypto/Overrun.antt =====
-- When the stream comes back as it was, and when zeros follow it.
use rsyncrypto.Prelude.{
  ℕ, ◌+◌, ◌-◌, ◌<◌, true, false, Bytes, IsByte, [], ◌∷◌, ◌++◌, reverse, ok, leb, length, replicate,
  All, ◌≡◌, refl, arith, length-append, length-replicate, append-nil, append_assoc,
}
use mathlib.Core.List.{reverse-append}
use rsyncrypto.CryptKey.{Header, IsUsable}
use rsyncrypto.CryptKey.Window.{ends_block}
use rsyncrypto.AesCrypt.{Aes, AesKey, IsCbc, block_size}
use rsyncrypto.Crypto.{encrypt_stream, decrypt_stream}
use rsyncrypto.Crypto.Position.{Fixed, IsIdle}
use rsyncrypto.Crypto.Stream.{leftover}
use rsyncrypto.Crypto.Scan.{IsQuiet}
use rsyncrypto.Crypto.Zeros.{overrun}
use rsyncrypto.Crypto.RoundTrip.{decrypt_stream-encrypt_stream}

-- Less than a block of zeros follows, and none where the stream ends inside a block.
pub overrun_lt : (h : Header) (stream hist pend : Bytes) → overrun h hist pend stream < block_size
unfolding overrun
overrun_lt h [] hist pend = omega arith
overrun_lt h (c ∷ cs) hist pend = ground (
  arith,
  length-append pend (c ∷ []),
  overrun_lt h cs [] [],
  overrun_lt h cs (c ∷ hist) [],
  overrun_lt h cs (c ∷ hist) (pend ++ (c ∷ [])),
)

leftover-overrun :
    (h : Header) (stream hist pend : Bytes)
    → 0 < leftover h hist pend stream
    → overrun h hist pend stream ≡ 0
unfolding overrun leftover
leftover-overrun h [] hist pend pos = refl
leftover-overrun h (c ∷ []) hist pend pos = ground arith
leftover-overrun h (c ∷ d ∷ cs) hist pend pos = ground (
  arith,
  leftover-overrun h (d ∷ cs) [] [],
  leftover-overrun h (d ∷ cs) (c ∷ hist) [],
  leftover-overrun h (d ∷ cs) (c ∷ hist) (pend ++ (c ∷ [])),
)

-- A stream of fewer than sixteen bytes whose last byte is the first to end a block.
overrun_cut :
    (h : Header) (xs hist pend : Bytes) (c : ℕ)
    → IsQuiet h hist xs
    → ends_block h (c ∷ (reverse xs ++ hist)) ≡ true
    → length pend + length xs + 1 < block_size
    → overrun h hist pend (xs ++ (c ∷ [])) ≡ block_size - (length pend + length xs + 1)
unfolding overrun
overrun_cut h [] hist pend c q e short = rw e (omega (arith, length-append pend (c ∷ [])))
overrun_cut h (x ∷ xs) hist pend c q e short =
    let n = length-append pend (x ∷ []) in
    let small : leb block_size (length (pend ++ (x ∷ []))) ≡ false = ground (arith, n) in
    rw (q.0, small)
      (omega (
        arith,
        n,
        overrun_cut h xs (x ∷ hist) (pend ++ (x ∷ [])) c q.1
            (rw (reverse-append (x ∷ []) xs, append_assoc) at e) (omega (arith, n)),
      ))

module _ (a : Aes) (f : Fixed) (L : IsCbc a f.secret) (u : IsUsable f.header) (k k' : AesKey) where
  -- With a cipher as documented and a usable header, for two keys at rest that share the header,
  -- the secret and the initial vector: decryption gives back exactly the bytes of the stream, if
  -- there is one and its last block is neither whole nor cut.
  pub decrypt_stream_exact :
      (currpos : ℕ) (stream : Bytes)
      → IsIdle f k
      → IsIdle f k'
      → All IsByte stream
      → 0 < length stream
      → 0 < leftover f.header [] [] stream
      → let written = (encrypt_stream a k stream).1 in
        (k'' : AesKey) × (decrypt_stream a k' currpos (currpos + length written) written
          ≡ ok (k'', stream))
  decrypt_stream_exact currpos stream idle idle' bytes some pos =
      rw (leftover-overrun f.header stream [] [] pos, append-nil stream) at
        (decrypt_stream-encrypt_stream a f L u k k' currpos stream idle idle' bytes some)

  -- With a cipher as documented and a usable header, for two keys at rest that share the header,
  -- the secret and the initial vector: a stream of fewer than sixteen bytes, whose last byte is
  -- the first to end a block, comes back longer than it was.
  pub decrypt_stream_longer :
      (currpos : ℕ) (xs : Bytes) (c : ℕ)
      → IsIdle f k
      → IsIdle f k'
      → All IsByte (xs ++ (c ∷ []))
      → IsQuiet f.header [] xs
      → ends_block f.header (c ∷ reverse xs) ≡ true
      → length xs + 1 < block_size
      → let written = (encrypt_stream a k (xs ++ (c ∷ []))).1 in
        (k'' : AesKey) × (out : Bytes) × (decrypt_stream a k' currpos
            (currpos + length written)
            written
          ≡ ok (k'', out))
        × (length (xs ++ (c ∷ [])) < length out)
  decrypt_stream_longer currpos xs c idle idle' bytes quiet e short =
      let stream : Bytes = xs ++ (c ∷ []) in
      let n = length-append xs (c ∷ []) in
      let zeros = overrun_cut f.header xs [] [] c quiet (rw append-nil e) (omega (arith, short)) in
      let (k'', d) =
        decrypt_stream-encrypt_stream a f L u k k' currpos stream idle idle' bytes
          (omega (arith, n)) in
      (
        k'',
        stream ++ replicate (overrun f.header [] [] stream) 0,
        d,
        omega (
          arith,
          n,
          length-append stream (replicate (overrun f.header [] [] stream) 0),
          length-replicate {0} {A = ℕ} (overrun f.header [] [] stream) 0,
          zeros,
          short,
        ),
      )
