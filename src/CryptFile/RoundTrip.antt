-- ===== src/CryptFile/RoundTrip.antt =====
-- The header of a file in crypto.cpp, written and read, and what is assumed of RSA, of gzip and of
-- fresh memory.
use rsyncrypto.Prelude.{
  ℕ, ◌<◌, true, Bytes, IsByte, ◌++◌, ok, Option, none, some, length, drop, replicate, All, ◌≡◌,
  refl, ◌∙◌, ap, arith, length-append, take-append_exact,
}
use rsyncrypto.AesCrypt.{AesKey, block_size}
use rsyncrypto.KeyFile.{Memory, be32, export_key}
use rsyncrypto.KeyFile.RoundTrip.{IsMade, reread, read_key-export_key}
use rsyncrypto.Crypto.Position.{Fixed, IsIdle}
use rsyncrypto.CryptFile.{
  Rsa, Gzip, header_size, encrypt_header, decrypt_header, header_encryption_version,
}

-- The documented behaviour of RSA: the cypher has the size of the modulus, and the private key
-- gives the message back.
pub record IsRsa (rsa : Rsa) : Type 0 where
  pub size_is : (m c : Bytes) → rsa.public_encrypt m ≡ some c → length c ≡ rsa.size
  pub decrypts :
      (m c : Bytes)
      → rsa.has_factors ≡ true
      → rsa.public_encrypt m ≡ some c
      → rsa.private_decrypt c ≡ some m

-- That of gzip: it writes some bytes and succeeds, and gunzip succeeds in turning them back, also
-- when the output was filled up with zeros to a block.
pub record IsGzip (g : Gzip) : Type 0 where
  pub writes : (x : Bytes) → 0 < length (g.compress x).0
  pub bytes : (x : Bytes) → All IsByte x → All IsByte (g.compress x).0
  pub succeeds : (x : Bytes) → (g.compress x).1 ≡ 0
  pub reverts :
      (x : Bytes) (n : ℕ)
      → n < block_size
      → g.decompress ((g.compress x).0 ++ replicate n 0) ≡ (x, 0)

-- `new` gives as many bytes as it is asked for.
pub record IsMemory (m : Memory) : Type 0 where
  pub ring_size : (n : ℕ) → length (m.fresh n).plaintext_buffer ≡ n
  pub ring_bytes : (n : ℕ) → All IsByte (m.fresh n).plaintext_buffer

abbrev pub fixed : AesKey → Fixed
fixed k = record { header = k.header; secret = k.secret_key; iv = k.iv }

module _ (m : Memory) (mem : IsMemory m) (heap : ℕ → Bytes) where
  pub reread-IsIdle : (k : AesKey) → IsIdle (fixed k) (reread m k)
  reread-IsIdle k = record {
    header_is = refl;
    secret_is = refl;
    iv_is = refl;
    ring_size = mem.ring_size k.header.sum_span;
    ring_bytes = mem.ring_bytes k.header.sum_span;
  }

  module _ (rsa : Rsa) (r : IsRsa rsa) (k : AesKey) where
    encrypt_header_inv :
        (front : Bytes)
        → encrypt_header k rsa ≡ ok front
        → (c : Bytes) × (rsa.public_encrypt (export_key k) ≡ some c)
          × (front ≡ be32 header_encryption_version ++ c)
    unfolding encrypt_header
    encrypt_header_inv front e = go (rsa.public_encrypt (export_key k)) refl
      where
        go :
            (o : Option Bytes)
            → rsa.public_encrypt (export_key k) ≡ o
            → (c : Bytes) × (rsa.public_encrypt (export_key k) ≡ some c)
              × (front ≡ be32 header_encryption_version ++ c)
        go none q = absurd (cc (rw (q, encrypt_header) at e))
        go (some c) q = (c, q, cc (rw (q, encrypt_header) at e))

    pub length-encrypt_header :
        (front : Bytes) → encrypt_header k rsa ≡ ok front → length front ≡ header_size rsa
    unfolding be32 header_size
    length-encrypt_header front e =
        let (c, q, w) = encrypt_header_inv front e in
        let n = r.size_is (export_key k) c q in ap length w ∙ omega (arith, n)

    -- For an RSA as documented that is the private key, and a well made key: the header that
    -- encrypt_header writes has the announced size, and in front of anything decrypt_header reads
    -- the key from it again.
    pub decrypt_header-encrypt_header :
        rsa.has_factors ≡ true
        → (rest front : Bytes) → IsMade k
        → encrypt_header k rsa ≡ ok front
        → (length front ≡ header_size rsa)
          × (decrypt_header m heap (front ++ rest) rsa ≡ ok (reread m k))
    unfolding decrypt_header be32
    decrypt_header-encrypt_header priv rest front made e =
        let (c, q, w) = encrypt_header_inv front e in
        let n = r.size_is (export_key k) c q in
        let rest' : Bytes = drop (length (export_key k)) (heap (header_size rsa)) in
        rw w (
          omega (arith, n),
          ground (
            arith,
            length-append c rest,
            n,
            take-append_exact c rest rsa.size n,
            r.decrypts (export_key k) c priv q,
            read_key-export_key m k rest' made,
          ),
        )
