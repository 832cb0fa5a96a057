-- ===== src/KeyFile.antt =====
-- The exported form of a key: `key::export_key`, `aes_key::export_key`, `key::read_key` and
-- `key::new_key` of crypt_key.cpp and aes_crypt.cpp. A read behind the end of the bytes that the
-- code is given is `out_of_bounds`: the code does not look.
pub mod Word
pub mod RoundTrip
use rsyncrypto.Prelude.{
  ℕ, ◌+◌, ◌*◌, ◌/◌, ◌%◌, ◌-◌, Bool, Bytes, [], ◌∷◌, ◌++◌, map, Result, ok, err, Error, ◌>>=◌,
  Option, none, some, ◌==◌, ltb, if◌then◌else◌, length, take, drop, u16, not,
}
use rsyncrypto.CryptKey.{Header, PtBuf, version_magic_1, cypher_aes}
use rsyncrypto.AesCrypt.{AesKey, Aes, block_size, init_encrypt, encrypt_block}

-- `htonl` and `htons`, as the bytes in memory.
unfoldable pub be32 : ℕ → Bytes
be32 n = n / 0x1000000 % 256 ∷ n / 0x10000 % 256 ∷ n / 0x100 % 256 ∷ n % 256 ∷ []

unfoldable pub be16 : ℕ → Bytes
be16 n = n / 0x100 % 256 ∷ n % 256 ∷ []

-- `ntohl` and `ntohs` of what stands at the front.
unfoldable pub read_be32 : Bytes → Result ℕ
read_be32 (a ∷ b ∷ c ∷ d ∷ _) = ok (a * 0x1000000 + b * 0x10000 + c * 0x100 + d)
read_be32 _ = err Error.out_of_bounds

unfoldable pub read_be16 : Bytes → Result ℕ
read_be16 (a ∷ b ∷ _) = ok (a * 0x100 + b)
read_be16 _ = err Error.out_of_bounds

-- A field that is read as the little-endian machine holds it.
unfoldable pub read_host16 : Bytes → Result ℕ
read_host16 (a ∷ b ∷ _) = ok (a + b * 0x100)
read_host16 _ = err Error.out_of_bounds

-- `memcpy`
unfoldable pub read_bytes : ℕ → Bytes → Result Bytes
read_bytes n b = if ltb (length b) n then err Error.out_of_bounds else ok (take n b)

-- `sizeof(ext_key_header)`: there is no padding.
abbrev pub header_length : ℕ
header_length = 20

-- `key::export_key`
unfoldable pub export_header : Header → Bytes
unfolding be32 be16
export_header h =
    be32 h.version
    ++ (be16 h.cypher
        ++ (be16 h.key_size ++ (be32 h.sum_span ++ (be32 h.sum_mod ++ be32 h.sum_min_dist))))

-- `aes_key::export_key`: the secret is copied for `key_size` bytes.
unfoldable pub export_key : AesKey → Bytes
unfolding export_header
export_key k = export_header k.header ++ (k.iv ++ take k.header.key_size k.secret_key)

-- `aes_key::exported_length`
unfoldable pub exported_length : AesKey → ℕ
exported_length k = header_length + k.header.key_size + block_size

-- What the constructors find in the members that they leave alone: the ring of `n` bytes that
-- `new unsigned char [n]` gives, the counters, and `cbc_base`.
pub record Memory : Type 0 where
  pub fresh : ℕ → PtBuf
  pub cbc_base : Bytes

module _ (m : Memory) where
  -- The constructor that imports a key. The header gets the current version, and AES for its cypher.
  unfoldable pub import_key : ℕ → ℕ → ℕ → ℕ → Bytes → Result AesKey
  unfolding read_bytes
  import_key key_size sum_span sum_mod sum_min_dist buffer = read_bytes block_size buffer >>= λ iv.
      read_bytes key_size (drop block_size buffer) >>= λ secret. ok (record {
        header = record {
          version = version_magic_1;
          cypher = cypher_aes;
          key_size = key_size;
          sum_span = sum_span;
          sum_mod = sum_mod;
          sum_min_dist = sum_min_dist;
        };
        ptbuf = m.fresh sum_span;
        iv = iv;
        secret_key = secret;
        cbc_base = m.cbc_base;
      })

  -- `key::read_key`
  unfoldable pub read_key : Bytes → Result AesKey
  unfolding import_key read_be32 read_be16 read_host16
  read_key buffer = read_be32 buffer >>= λ version.
      if not (version == version_magic_1)
      then err Error.invalid_version_magic
      else (read_host16 (drop 4 buffer) >>= λ cypher.
          if cypher == cypher_aes
          then (read_be16 (drop 6 buffer) >>= λ key_size. read_be32 (drop 8 buffer) >>= λ sum_span.
              read_be32 (drop 12 buffer) >>= λ sum_mod.
              read_be32 (drop 16 buffer) >>= λ sum_min_dist.
              import_key key_size sum_span sum_mod sum_min_dist (drop header_length buffer))
          else err Error.invalid_block_cypher)

  -- The constructor that makes a key of random bytes. `RAND_bytes` fails, or gives the vector at its
  -- first call and the secret at the second one.
  unfoldable pub generate_key : (ℕ → ℕ → Option Bytes) → ℕ → ℕ → ℕ → ℕ → Result AesKey
  generate_key rand_bytes keybits sum_span sum_mod sum_min_dist =
      let key_size = u16 (if keybits == 0 then 32 else (keybits + 7) / 8) in
      elim (rand_bytes 0 block_size) [
        | none ↦ err Error.no_random_entropy
        | some iv ↦ elim (rand_bytes 1 key_size) [
          | none ↦ err Error.no_random_entropy
          | some secret ↦ ok (record {
            header = record {
              version = version_magic_1;
              cypher = cypher_aes;
              key_size = key_size;
              sum_span = sum_span;
              sum_mod = sum_mod;
              sum_min_dist = sum_min_dist;
            };
            ptbuf = m.fresh sum_span;
            iv = iv;
            secret_key = secret;
            cbc_base = m.cbc_base;
          })
        ]
      ]

  -- `key::new_key`
  unfoldable pub new_key : (ℕ → ℕ → Option Bytes) → ℕ → ℕ → ℕ → ℕ → ℕ → Result AesKey
  unfolding generate_key
  new_key rand_bytes cypher keybits sum_span sum_mod sum_min_dist =
      if cypher == cypher_aes
      then generate_key rand_bytes keybits sum_span sum_mod sum_min_dist
      else err Error.invalid_block_cypher

  -- `aes_key::gen_pad_key`: a copy with the vector inverted.
  unfoldable pub gen_pad_key : AesKey → AesKey
  gen_pad_key k = record k {
    ptbuf = m.fresh k.header.sum_span;
    iv = map (λ b. 255 - b) k.iv;
    cbc_base = m.cbc_base;
  }
