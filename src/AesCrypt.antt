-- ===== src/AesCrypt.antt =====
-- aes_crypt.h and aes_crypt.cpp: a key with its initial vector and its secret. OpenSSL's AES in CBC
-- mode is a parameter.
pub mod Toy
use rsyncrypto.Prelude.{
  ℕ, ◌+◌, ◌-◌, ◌*◌, ◌/◌, ◌<◌, ◌≤◌, Bool, Bytes, List, [], ◌∷◌, ◌++◌, map, ◌≡◌, length, replicate,
  take, zero, suc, arith, length-append, length-replicate,
}
use rsyncrypto.CryptKey.{Header, PtBuf}
use rsyncrypto.CryptKey

-- `AES_BLOCK_SIZE`
abbrev pub block_size : ℕ
block_size = 16

-- `AES_cbc_encrypt` under the schedules that `AES_set_encrypt_key` and `AES_set_decrypt_key` make
-- of a secret: the secret, the vector and the bytes give one block of output and the new vector. For a
-- secret of other than 16, 24 or 32 bytes they make none, which the code does not look at: the
-- functions are then whatever comes out of the schedules as they are.
pub record Aes : Type 0 where
  pub cbc_encrypt : Bytes → Bytes → Bytes → Bytes × Bytes
  pub cbc_decrypt : Bytes → Bytes → Bytes → Bytes × Bytes

abbrev pub padded : Bytes → Bytes
padded d = d ++ replicate (block_size - length d) 0

pub length-padded : (d : Bytes) → length d ≤ block_size → length (padded d) ≡ block_size
length-padded d h = omega (
  arith,
  length-append d (replicate (block_size - length d) 0),
  length-replicate {0} {A = ℕ} (block_size - length d) 0,
)

-- Its behaviour under a secret, which is documented for the three sizes, on at most one block: an incomplete block is filled up with zeros, a
-- whole block is written, and decryption from the same vector gives the block back and the same
-- new vector.
pub record IsCbc (a : Aes) (secret : Bytes) : Type 0 where
  pub length-encrypt :
      (ivec d : Bytes)
      → 0 < length d
      → length d ≤ block_size
      → length (a.cbc_encrypt secret ivec d).0 ≡ block_size
  pub decrypt-encrypt :
      (ivec d : Bytes)
      → 0 < length d
      → length d ≤ block_size
      → a.cbc_decrypt secret ivec (a.cbc_encrypt secret ivec d).0
        ≡ (padded d, (a.cbc_encrypt secret ivec d).1)

-- `aes_key` with the members of `key`. The schedules are functions of the secret, and not kept.
pub record AesKey : Type 0 where
  pub header : Header
  pub ptbuf : PtBuf
  pub iv : Bytes
  pub secret_key : Bytes
  pub cbc_base : Bytes

-- `aes_key::init_encrypt`
unfoldable pub init_encrypt : AesKey → AesKey
init_encrypt k = record k { ptbuf = CryptKey.init_encrypt k.ptbuf; cbc_base = k.iv }

-- `key::calc_boundry` on the whole object.
unfoldable pub calc_boundry : AesKey → ℕ → AesKey × Bool
calc_boundry k byte =
    let (p, border) = CryptKey.calc_boundry k.header k.ptbuf byte in
    (record k { ptbuf = p }, border)

module _ (a : Aes) where
  -- `aes_key::encrypt_block`: the block that replaces the bytes.
  unfoldable pub encrypt_block : AesKey → Bytes → AesKey × Bytes
  encrypt_block k bytes =
      let (out, ivec) = a.cbc_encrypt k.secret_key k.cbc_base bytes in
      (record k { cbc_base = ivec }, out)

  unfoldable pub decrypt_block : AesKey → Bytes → AesKey × Bytes
  decrypt_block k bytes =
      let (out, ivec) = a.cbc_decrypt k.secret_key k.cbc_base bytes in
      (record k { cbc_base = ivec }, out)
