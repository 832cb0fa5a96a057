-- ===== src/Files/Choice.antt =====
-- When `file_encrypt` makes a new key in place of the one in the key file.
use rsyncrypto.Prelude.{
  ℕ, Bytes, ok, Option, ◌==◌, if◌then◌else◌, u16, u32, ◌≡◌, ◌≢◌, ◌≤◌, ◌<◌, ◌+◌, ◌/◌, arith,
}
use rsyncrypto.CryptKey.{cypher_aes}
use rsyncrypto.AesCrypt.{AesKey}
use rsyncrypto.KeyFile.{Memory, new_key, generate_key}
use rsyncrypto.Files.System.{Options}
use rsyncrypto.Files.{forces_new}

-- For a key that new_key has made for a size of other than one bit and at most 0x7FFF8 bits, with
-- parameters of 32 bits, file_encrypt with the same options makes a new key exactly if --fk is
-- given: the size that is there is counted in bytes, the one asked for in bits.
pub forces_new-new_key :
    (m : Memory) (rand : ℕ → ℕ → Option Bytes) (o : Options) (k : AesKey)
    → new_key m rand cypher_aes o.keysize o.rollwin o.rollsens o.rollmin ≡ ok k
    → o.rollwin < 0x100000000
    → o.rollsens < 0x100000000
    → o.rollmin < 0x100000000
    → o.keysize ≤ 0x7FFF8
    → o.keysize ≢ 1
    → forces_new o k.header ≡ o.fk
unfolding forces_new new_key generate_key
forces_new-new_key m rand o k e h1 h2 h3 h4 h5 =
    let span : k.header.sum_span ≡ o.rollwin = ground arith in
    let sens : k.header.sum_mod ≡ o.rollsens = ground arith in
    let dist : k.header.sum_min_dist ≡ o.rollmin = ground arith in
    let size : k.header.key_size ≡ u16 (if o.keysize == 0 then 32 else (o.keysize + 7) / 8) =
      ground arith in
    let other : k.header.key_size ≢ u32 o.keysize = ground arith in ground arith
