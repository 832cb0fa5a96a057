-- ===== src/CryptFile/Whole.antt =====
-- `decrypt_file` after `encrypt_file`.
use rsyncrypto.Prelude.{
  ℕ, ◌+◌, true, Bytes, IsByte, All, [], ◌++◌, ok, ◌>>=◌, none, some, ◌==◌, length, drop, ◌≡◌, refl,
  ◌∙◌, ap, arith, length-append, drop-append_exact,
}
use rsyncrypto.CryptKey.{IsUsable}
use rsyncrypto.AesCrypt.{Aes, AesKey, IsCbc}
use rsyncrypto.KeyFile.{Memory, be32, export_key, read_key}
use rsyncrypto.KeyFile.RoundTrip.{IsMade, reread, read_key-export_key}
use rsyncrypto.Crypto.{encrypt_stream, decrypt_stream}
use rsyncrypto.Crypto.Position.{IsIdle}
use rsyncrypto.Crypto.Zeros.{overrun}
use rsyncrypto.Crypto.RoundTrip.{decrypt_stream-encrypt_stream}
use rsyncrypto.Crypto.Overrun.{overrun_lt}
use rsyncrypto.Crypto.Keeps.{SameKey, encrypt_stream-SameKey}
use rsyncrypto.CryptFile.{
  Rsa, Gzip, header_size, header_encryption_version, encrypt_header, encrypt_file, decrypt_file,
  finish,
}
use rsyncrypto.CryptFile.RoundTrip.{
  IsRsa, IsGzip, IsMemory, fixed, reread-IsIdle, length-encrypt_header,
  decrypt_header-encrypt_header,
}

encrypt_header-SameKey :
    (rsa : Rsa) (k k' : AesKey) → SameKey k k' → encrypt_header k' rsa ≡ encrypt_header k rsa
unfolding encrypt_header export_key
encrypt_header-SameKey rsa k k' (h, x, i) = rw (h, x, i) refl

module _ (a : Aes) (g : Gzip) (z : IsGzip g) (m : Memory) (mem : IsMemory m) (heap : ℕ → Bytes)
    (rsa : Rsa) (r : IsRsa rsa) where
  -- An encrypted file is the header and the stream.
  encrypt_file-eq :
      (k : AesKey) (content c : Bytes)
      → rsa.public_encrypt (export_key k) ≡ some c
      → (front : Bytes) × (encrypt_header k rsa ≡ ok front)
        × (encrypt_file a g k rsa content
            ≡ ok (front ++ (encrypt_stream a k (g.compress content).0).1))
  unfolding encrypt_file
  encrypt_file-eq k content c e =
      let stream = (g.compress content).0 in
      let same =
        encrypt_header-SameKey rsa k (encrypt_stream a k stream).0
          (encrypt_stream-SameKey a k stream) in
      let done : ((g.compress content).1 == 0) ≡ true = ground (arith, z.succeeds content) in
      let h : encrypt_header k rsa ≡ ok (be32 header_encryption_version ++ c) =
        unfold encrypt_header in rw (e, encrypt_header) in
      (be32 header_encryption_version ++ c, h, rw (done, same, h) refl)

  -- Behind the header stands the stream, and gunzip gives the content back.
  body_back :
      (k : AesKey) (L : IsCbc a k.secret_key) (content front : Bytes)
      → All IsByte content
      → IsUsable k.header
      → IsIdle (fixed k) k
      → length front ≡ header_size rsa
      → let file = front ++ (encrypt_stream a k (g.compress content).0).1 in
        (k' : AesKey) × ((decrypt_stream a
              (reread m k)
              (header_size rsa)
              (length file)
              (drop (header_size rsa) file)
            >>= finish g)
          ≡ ok (k', content))
  unfolding finish
  body_back k L content front cbytes usable idle n =
      let stream : Bytes = (g.compress content).0 in
      let body : Bytes = (encrypt_stream a k stream).1 in
      let (k', d) =
        decrypt_stream-encrypt_stream a (fixed k) L usable k (reread m k) (header_size rsa) stream
          idle (reread-IsIdle m mem heap k) (z.bytes content cbytes) (z.writes content) in
      let size : length (front ++ body) ≡ header_size rsa + length body =
        length-append front body ∙ ap (λ (t : ℕ). t + length body) n in
      (
        k',
        rw
            (
              size,
              drop-append_exact front body (header_size rsa) n,
              d,
              z.reverts content (overrun k.header [] [] stream) (overrun_lt k.header stream [] []),
            )
            refl,
      )

  -- For a gzip and an RSA that behave as documented, a cipher that does under the secret of the
  -- key, a well made key at rest with a usable header, and a content of bytes: if RSA encrypts the
  -- exported key and is the private key, then encrypt_file writes a file, and decrypt_file gives
  -- the content back from it by the private key alone.
  pub decrypt_file-encrypt_file :
      (k : AesKey) (L : IsCbc a k.secret_key) (content c : Bytes)
      → All IsByte content
      → IsMade k
      → IsUsable k.header
      → IsIdle (fixed k) k
      → rsa.public_encrypt (export_key k) ≡ some c
      → rsa.has_factors ≡ true
      → (file : Bytes) × (k' : AesKey) × (encrypt_file a g k rsa content ≡ ok file)
        × (decrypt_file m heap a g none rsa file ≡ ok (k', content))
  unfolding decrypt_file
  decrypt_file-encrypt_file k L content c bytes made usable idle e priv =
      let (front, q, w) = encrypt_file-eq k content c e in
      let body : Bytes = (encrypt_stream a k (g.compress content).0).1 in
      let n = length-encrypt_header m mem heap rsa r k front q in
      let (k', b) = body_back k L content front bytes usable idle n in
      let (_, header) = decrypt_header-encrypt_header m mem heap rsa r k priv body front made q in
      (front ++ body, k', w, rw header b)

  -- For a cipher, a gzip and an RSA that behave as documented, a well made key at rest with a
  -- usable header, and a content of bytes: if RSA encrypts the exported key, then encrypt_file
  -- writes a file, and decrypt_file gives the content back from it by the key that read_key reads
  -- from the exported key, with anything behind it.
  pub decrypt_file-key_file :
      (k : AesKey) (L : IsCbc a k.secret_key) (content c rest : Bytes)
      → All IsByte content
      → IsMade k
      → IsUsable k.header
      → IsIdle (fixed k) k
      → rsa.public_encrypt (export_key k) ≡ some c
      → (file : Bytes) × (k' : AesKey) × (encrypt_file a g k rsa content ≡ ok file)
        × ((read_key m (export_key k ++ rest) >>= λ header.
              decrypt_file m heap a g (some header) rsa file)
            ≡ ok (k', content))
  unfolding decrypt_file
  decrypt_file-key_file k L content c rest bytes made usable idle e =
      let (front, q, w) = encrypt_file-eq k content c e in
      let body : Bytes = (encrypt_stream a k (g.compress content).0).1 in
      let n = length-encrypt_header m mem heap rsa r k front q in
      let (k', b) = body_back k L content front bytes usable idle n in
      (front ++ body, k', w, rw (read_key-export_key m k rest made) b)
