-- ===== src/Tests/Data.antt =====
-- A key, and parameters that behave as the theorems assume.
use rsyncrypto.Prelude.{
  ℕ, zero, suc, ◌<◌, Bool, true, Bytes, IsByte, [], ◌∷◌, ◌++◌, reverse, none, some, ◌==◌, ◌&&◌, ltb,
  if◌then◌else◌, length, replicate, All, ◌≡◌, refl, ap, ◌∙◌, arith, length-replicate,
  length-reverse, All-replicate_zero, sym,
}
use mathlib.Core.List.{reverse-reverse}
use rsyncrypto.CryptKey.{Header, PtBuf, IsUsable, version_magic_1, cypher_aes}
use rsyncrypto.AesCrypt.{AesKey, block_size}
use rsyncrypto.KeyFile.{Memory}
use rsyncrypto.KeyFile.RoundTrip.{IsMade}
use rsyncrypto.Crypto.Position.{IsIdle}
use rsyncrypto.CryptFile.{Rsa, Gzip}
use rsyncrypto.CryptFile.RoundTrip.{IsRsa, IsGzip, IsMemory, fixed, reread-IsIdle}

abbrev pub are_bytes : Bytes → Bool
are_bytes [] = true
are_bytes (x ∷ xs) = ltb x 256 && are_bytes xs

pub are_bytes-All : (xs : Bytes) → are_bytes xs ≡ true → All IsByte xs
are_bytes-All [] e = tt
are_bytes-All (x ∷ xs) e = (ground arith, are_bytes-All xs (ground arith))

abbrev pub small : Header
small = record {
  version = version_magic_1;
  cypher = cypher_aes;
  key_size = 2;
  sum_span = 2;
  sum_mod = 3;
  sum_min_dist = 1;
}

pub small-IsUsable : IsUsable small
small-IsUsable = record {
  span_pos = omega arith;
  span_fits = omega arith;
  mod_pos = omega arith;
  dist_fits = omega arith;
}

-- The counters hold what is not 0.
abbrev pub ring : ℕ → PtBuf
ring n = record {
  plaintext_buffer = replicate n 0;
  ptbuf_loc = 7;
  ptbuf_count = 9;
  ptbuf_sum = 5;
  ptbuf_sub = true;
  ptbuf_may_rotate = true;
}

abbrev pub zeros : Memory
zeros = record { fresh = ring; cbc_base = [] }

pub zeros-IsMemory : IsMemory zeros
zeros-IsMemory = record { ring_size = λ n. length-replicate n 0; ring_bytes = All-replicate_zero }

abbrev pub key : AesKey
key = record {
  header = small;
  ptbuf = ring 2;
  iv = replicate block_size 7;
  secret_key = 1 ∷ 2 ∷ [];
  cbc_base = [];
}

pub key-IsMade : IsMade key
key-IsMade = record {
  version_is = refl;
  cypher_is = refl;
  size_fits = omega arith;
  span_fits = omega arith;
  mod_fits = omega arith;
  dist_fits = omega arith;
  iv_size = refl;
  secret_size = refl;
}

pub key-IsIdle : IsIdle (fixed key) key
key-IsIdle = reread-IsIdle zeros zeros-IsMemory (λ n. []) key

abbrev pub heap : ℕ → Bytes
heap n = replicate n 255

-- A padding that turns messages of 38 bytes around.
abbrev pub turning : Rsa
turning = record {
  size = 38;
  has_factors = true;
  public_encrypt = λ m. if length m == 38 then some (reverse m) else none;
  private_decrypt = λ c. some (reverse c);
}

turned :
    (m c : Bytes)
    → (if length m == 38 then some (reverse m) else none) ≡ some c
    → (length m ≡ 38) × (reverse m ≡ c)
turned m c e = ground arith

pub turning-IsRsa : IsRsa turning
turning-IsRsa = record {
  size_is = λ m c e. let (n, r) = turned m c e in ap length (sym r) ∙ length-reverse m ∙ n;
  decrypts =
      λ m c priv e. let (n, r) = turned m c e in ap some (ap reverse (sym r) ∙ reverse-reverse m);
}

-- A marker in front of each byte, and another one at the end.
abbrev marked : Bytes → Bytes
marked [] = 0 ∷ []
marked (x ∷ xs) = 1 ∷ x ∷ marked xs

abbrev unmarked : Bytes → Bytes
unmarked [] = []
unmarked (zero ∷ rest) = []
unmarked (suc n ∷ []) = []
unmarked (suc n ∷ x ∷ rest) = x ∷ unmarked rest

abbrev pub marking : Gzip
marking = record { compress = λ x. (marked x, 0); decompress = λ y. (unmarked y, 0) }

marked-bytes : (x : Bytes) → All IsByte x → All IsByte (marked x)
marked-bytes [] h = (omega arith, tt)
marked-bytes (x ∷ xs) h = (omega arith, (h.0, marked-bytes xs h.1))

marked-some : (x : Bytes) → 0 < length (marked x)
marked-some [] = omega arith
marked-some (x ∷ xs) = omega arith

unmarked-marked : (x : Bytes) (rest : Bytes) → unmarked (marked x ++ rest) ≡ x
unmarked-marked [] rest = refl
unmarked-marked (x ∷ xs) rest = ap (◌∷◌ x) (unmarked-marked xs rest)

pub marking-IsGzip : IsGzip marking
marking-IsGzip = record {
  writes = marked-some;
  bytes = marked-bytes;
  succeeds = λ x. refl;
  reverts = λ x n h. ap (λ (y : Bytes). (y, 0)) (unmarked-marked x (replicate n 0));
}
