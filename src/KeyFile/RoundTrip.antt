-- ===== src/KeyFile/RoundTrip.antt =====
-- A key that is exported can be read back.
use rsyncrypto.Prelude.{
  ℕ, ◌⊎◌, ◌+◌, ◌*◌, ◌/◌, ◌%◌, ◌<◌, ◌≤◌, true, false, Bytes, ◌++◌, ok, Option, some, ◌==◌, ltb,
  if◌then◌else◌, length, take, ◌≡◌, ◌∙◌, ap, arith, length-append, take-append_exact,
  drop-append_exact, take_all, u16, append_assoc,
}
use rsyncrypto.CryptKey.{version_magic_1, cypher_aes}
use rsyncrypto.AesCrypt.{AesKey, block_size}
use rsyncrypto.KeyFile.{
  Memory, export_key, exported_length, read_bytes, import_key, read_key, generate_key, new_key,
}

-- What the constructors establish.
pub record IsMade (k : AesKey) : Type 0 where
  pub version_is : k.header.version ≡ version_magic_1
  pub cypher_is : k.header.cypher ≡ cypher_aes
  pub size_fits : k.header.key_size < 0x10000
  pub span_fits : k.header.sum_span < 0x100000000
  pub mod_fits : k.header.sum_mod < 0x100000000
  pub dist_fits : k.header.sum_min_dist < 0x100000000
  pub iv_size : length k.iv ≡ block_size
  pub secret_size : length k.secret_key ≡ k.header.key_size

-- For a well made key, export_key writes as many bytes as exported_length announces.
pub length-export_key : (k : AesKey) → IsMade k → length (export_key k) ≡ exported_length k
unfolding export_key exported_length
length-export_key k d = omega (
  arith,
  length-append k.iv (take k.header.key_size k.secret_key),
  ap length (take_all k.secret_key k.header.key_size (omega (arith, d.secret_size))),
  d.secret_size,
  d.iv_size,
)

-- The same key, but for what a constructor leaves to `init_encrypt`.
abbrev pub reread : Memory → AesKey → AesKey
reread m k = record k { ptbuf = m.fresh k.header.sum_span; cbc_base = m.cbc_base }

read_bytes_exact : (b rest : Bytes) (n : ℕ) → length b ≡ n → read_bytes n (b ++ rest) ≡ ok b
unfolding read_bytes
read_bytes_exact b rest n e =
    let enough : ltb (length (b ++ rest)) n ≡ false = ground (arith, length-append b rest) in
    rw enough (ap ok (take-append_exact b rest n e))

word32 :
    (n : ℕ)
    → n < 0x100000000
    → n / 0x1000000 % 256 * 0x1000000
        + n / 0x10000 % 256 * 0x10000
        + n / 0x100 % 256 * 0x100
        + n % 256
      ≡ n
word32 n h = omega arith

word16 : (n : ℕ) → n < 0x10000 → n / 0x100 % 256 * 0x100 + n % 256 ≡ n
word16 n h = omega arith

import-export :
    (m : Memory) (k : AesKey) (rest : Bytes)
    → IsMade k
    → import_key m k.header.key_size k.header.sum_span k.header.sum_mod k.header.sum_min_dist
        ((k.iv ++ take k.header.key_size k.secret_key) ++ rest)
      ≡ ok (reread m k)
unfolding import_key
import-export m k rest d =
    let whole = take_all k.secret_key k.header.key_size (omega (arith, d.secret_size)) in
    let secret : Bytes = take k.header.key_size k.secret_key in
    rw
      (
        append_assoc k.iv secret rest,
        read_bytes_exact k.iv (secret ++ rest) block_size d.iv_size,
        drop-append_exact k.iv (secret ++ rest) block_size d.iv_size,
        read_bytes_exact secret rest k.header.key_size (ap length whole ∙ d.secret_size),
        whole,
      )
      (ground (arith, d.version_is, d.cypher_is))

-- Reading an exported key that is well made, with anything behind it, gives the key again, but for
-- what a constructor leaves to init_encrypt.
pub read_key-export_key :
    (m : Memory) (k : AesKey) (rest : Bytes)
    → IsMade k
    → read_key m (export_key k ++ rest) ≡ ok (reread m k)
unfolding export_key read_key
read_key-export_key m k rest d =
    let magic : (k.header.version == version_magic_1) ≡ true = ground (arith, d.version_is) in
    let aes : ((k.header.cypher / 0x100 % 256 + k.header.cypher % 256 * 0x100) == cypher_aes)
        ≡ true =
      ground (arith, d.cypher_is) in
    let version = word32 k.header.version (omega (arith, d.version_is)) in
    rw
      (
        version,
        magic,
        aes,
        word16 k.header.key_size d.size_fits,
        word32 k.header.sum_span d.span_fits,
        word32 k.header.sum_mod d.mod_fits,
        word32 k.header.sum_min_dist d.dist_fits,
      )
      (import-export m k rest d)

-- With a random source that gives as many bytes as asked for, fields of 32 bits, and at most
-- 0x7FFF8 bits, a key that new_key gives is well made, and its size is that of the bits, rounded
-- up to bytes, or 32 bytes where none were asked for.
pub new_key-IsMade :
    (m : Memory) (rand_bytes : ℕ → ℕ → Option Bytes)
    → ((i n : ℕ) (b : Bytes) → rand_bytes i n ≡ some b → length b ≡ n)
    → (cypher keybits sum_span sum_mod sum_min_dist : ℕ) (k : AesKey) → sum_span < 0x100000000
    → sum_mod < 0x100000000
    → sum_min_dist < 0x100000000
    → keybits ≤ 0x7FFF8
    → new_key m rand_bytes cypher keybits sum_span sum_mod sum_min_dist ≡ ok k
    → IsMade k
      × (((keybits ≡ 0) × (k.header.key_size ≡ 32))
          ⊎ ((0 < keybits)
              × (keybits ≤ 8 * k.header.key_size)
              × (8 * k.header.key_size < keybits + 8)))
unfolding new_key generate_key
new_key-IsMade m rand_bytes honest cypher keybits sum_span sum_mod sum_min_dist k s mo d b e =
    ground (
      arith,
      honest 0 block_size k.iv,
      honest 1 (u16 (if keybits == 0 then 32 else (keybits + 7) / 8)) k.secret_key,
    )
