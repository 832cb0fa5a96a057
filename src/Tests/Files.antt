-- ===== src/Tests/Files.antt =====
-- The theorems on keys and whole files at concrete data.
use rsyncrypto.Prelude.{
  ℕ, Bytes, [], ◌∷◌, ◌++◌, ok, Option, none, some, length, replicate, reverse, ◌≡◌, refl,
  length-replicate, ap, sym, ◌∙◌,
}
use rsyncrypto.AesCrypt.{AesKey}
use rsyncrypto.AesCrypt.Toy.{toy, toy-IsCbc}
use rsyncrypto.KeyFile.{export_header, be32, be16, export_key, read_key, generate_key, new_key}
use rsyncrypto.KeyFile.RoundTrip.{reread, read_key-export_key}
use rsyncrypto.CryptFile.{encrypt_header, encrypt_file, decrypt_file}
use rsyncrypto.CryptFile.Whole.{decrypt_file-encrypt_file}
use rsyncrypto.Tests.Data.{
  are_bytes-All, small, small-IsUsable, key, key-IsMade, key-IsIdle, zeros, zeros-IsMemory, heap,
  turning, turning-IsRsa, marking, marking-IsGzip, ring,
}

abbrev content : Bytes
content = 1 ∷ 200 ∷ []

read_key-export_key_example : read_key zeros (export_key key ++ (9 ∷ [])) ≡ ok (reread zeros key)
read_key-export_key_example = read_key-export_key zeros key (9 ∷ []) key-IsMade

abbrev entropy : ℕ → ℕ → Option Bytes
entropy i n = some (replicate n 77)

entropy-honest : (i n : ℕ) (b : Bytes) → entropy i n ≡ some b → length b ≡ n
entropy-honest i n b e =
    let same : replicate n 77 ≡ b = cc in ap length (sym same) ∙ length-replicate n 77

abbrev bits : ℕ
bits = 121

abbrev made : AesKey
made = record {
  header = record small { key_size = 16; sum_span = 256; sum_mod = 8192; sum_min_dist = 8192 };
  ptbuf = ring 256;
  iv = replicate 16 77;
  secret_key = replicate 16 77;
  cbc_base = [];
}

made_new : new_key zeros entropy 0 bits 256 8192 8192 ≡ ok made
unfolding new_key generate_key
made_new = refl

exported : turning.public_encrypt (export_key key) ≡ some (reverse (export_key key))
unfolding export_key export_header be32 be16
exported = refl

abbrev front : Bytes
front = 0 ∷ 0 ∷ 0 ∷ 0 ∷ reverse (export_key key)

front_is : encrypt_header key turning ≡ ok front
unfolding encrypt_header export_key export_header be32 be16
front_is = refl

decrypt_file-encrypt_file_example :
    (file : Bytes) × (k' : AesKey) × (encrypt_file toy marking key turning content ≡ ok file)
    × (decrypt_file zeros heap toy marking none turning file ≡ ok (k', content))
decrypt_file-encrypt_file_example =
    decrypt_file-encrypt_file toy marking marking-IsGzip zeros zeros-IsMemory heap turning
      turning-IsRsa key (toy-IsCbc key.secret_key) content (reverse (export_key key))
      (are_bytes-All content refl) key-IsMade small-IsUsable key-IsIdle exported refl
