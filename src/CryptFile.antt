-- ===== src/CryptFile.antt =====
-- crypto.cpp, whole files: the header under RSA, and `encrypt_file` and `decrypt_file` around the
-- stream. OpenSSL's RSA and the gzip program are parameters.
pub mod RoundTrip
pub mod Whole
use rsyncrypto.Prelude.{
  ℕ, ◌+◌, Bool, false, Bytes, ◌++◌, Result, ok, err, Error, ◌>>=◌, Option, none, some, ◌==◌, ltb,
  bytes_eq, not, if◌then◌else◌, length, take, drop,
}
use rsyncrypto.AesCrypt.{Aes, AesKey}
use rsyncrypto.KeyFile.{Memory, be32, export_key, read_key}
use rsyncrypto.Crypto.{encrypt_stream, decrypt_stream}

-- An `RSA *`: `RSA_size`, whether `RSA_get0_factors` finds both factors, and the two operations
-- with OAEP padding, which can fail.
pub record Rsa : Type 0 where
  pub size : ℕ
  pub has_factors : Bool
  pub public_encrypt : Bytes → Option Bytes
  pub private_decrypt : Bytes → Option Bytes

-- gzip and gunzip: what they write, and their exit status.
pub record Gzip : Type 0 where
  pub compress : Bytes → Bytes × ℕ
  pub decompress : Bytes → Bytes × ℕ

abbrev pub header_encryption_version : ℕ
header_encryption_version = 0

abbrev pub version_length : ℕ
version_length = 4

unfoldable pub header_size : Rsa → ℕ
header_size rsa = rsa.size + version_length

-- What stands at the front of the file afterwards.
unfoldable pub encrypt_header : AesKey → Rsa → Result Bytes
encrypt_header k rsa = elim (rsa.public_encrypt (export_key k)) [
  | none ↦ err Error.rsa_failed
  | some c ↦ ok (be32 header_encryption_version ++ c)
]

module _ (a : Aes) (g : Gzip) where
  -- `encrypt_file`: the content of `tofd`, from the content of `fromfd`.
  unfoldable pub encrypt_file : AesKey → Rsa → Bytes → Result Bytes
  encrypt_file k rsa content =
      let (stream, childstatus) = g.compress content in
      let (k', written) = encrypt_stream a k stream in
      if childstatus == 0
      then (encrypt_header k' rsa >>= λ header. ok (header ++ written))
      else err Error.error_in_running_gzip

-- The end of `decrypt_file`: what gunzip makes of the stream, and its exit status.
unfoldable pub finish : Gzip → AesKey × Bytes → Result (AesKey × Bytes)
finish g (k, stream) =
    let (out, child_status) = g.decompress stream in
    if child_status == 0 then ok (k, out) else err Error.gunzip_failed

-- `new unsigned char [headsize]` holds the plaintext, and behind it what it held before.
module _ (m : Memory) (heap : ℕ → Bytes) where
  unfoldable pub decrypt_header : Bytes → Rsa → Result AesKey
  unfolding header_size
  decrypt_header file prv =
      if ltb (length file) (header_size prv)
      then err Error.out_of_bounds
      else if not (bytes_eq (take version_length file) (be32 header_encryption_version))
      then err Error.wrong_file_or_header
      else if not prv.has_factors
      then err Error.no_private_key
      else elim (prv.private_decrypt (take prv.size (drop version_length file))) [
        | none ↦ err Error.rsa_failed
        | some plain ↦ read_key m (plain ++ drop (length plain) (heap (header_size prv)))
      ]

  -- `decrypt_file`: the key and the content of `tofd`, from the content of `fromfd` and the key that
  -- the caller has read, if any.
  unfoldable pub decrypt_file : Aes → Gzip → Option AesKey → Rsa → Bytes → Result (AesKey × Bytes)
  unfolding decrypt_header finish
  decrypt_file a g header prv file =
      let found : Result AesKey = elim header [ none ↦ decrypt_header file prv | some k ↦ ok k ] in
      found >>= λ k.
      decrypt_stream a k (header_size prv) (length file) (drop (header_size prv) file) >>= finish g
