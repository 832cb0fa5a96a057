-- ===== src/AesCrypt/Toy.antt =====
-- A concrete cipher that behaves as the parameter is assumed to: it reverses the filled block and
-- takes it for the next vector.
use rsyncrypto.Prelude.{Bytes, reverse, ◌∙◌, length-reverse}
use mathlib.Core.List.{reverse-reverse}
use rsyncrypto.AesCrypt.{Aes, IsCbc, padded, length-padded}

abbrev pub toy : Aes
toy = record {
  cbc_encrypt = λ secret ivec d. (reverse (padded d), reverse (padded d));
  cbc_decrypt = λ secret ivec d. (reverse d, d);
}

pub toy-IsCbc : (secret : Bytes) → IsCbc toy secret
toy-IsCbc secret = record {
  length-encrypt = λ ivec d h k. length-reverse (padded d) ∙ length-padded d k;
  decrypt-encrypt = λ ivec d h k i. (reverse-reverse (padded d) i, reverse (padded d));
}
