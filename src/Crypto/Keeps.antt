-- ===== src/Crypto/Keeps.antt =====
-- Encryption does not change what is exported of a key.
use rsyncrypto.Prelude.{ℕ, true, Bytes, [], ◌∷◌, ◌≡◌, refl, ◌∙◌, arith}
use rsyncrypto.AesCrypt.{Aes, AesKey, init_encrypt, calc_boundry, encrypt_block}
use rsyncrypto.Crypto.{EncryptState, encrypt_byte, encrypt_loop, encrypt_end, encrypt_stream}

abbrev pub SameKey : AesKey → AesKey → Type 0
SameKey k k' = (k'.header ≡ k.header) × (k'.secret_key ≡ k.secret_key) × (k'.iv ≡ k.iv)

module _ (a : Aes) where
  byte-SameKey : (s : EncryptState) (c : ℕ) → SameKey s.header (encrypt_byte a s c).header
  unfolding encrypt_byte init_encrypt calc_boundry encrypt_block
  byte-SameKey s c = ground arith

  loop-SameKey :
      (stream : Bytes) (s : EncryptState) → SameKey s.header (encrypt_loop a s stream).header
  unfolding encrypt_loop
  loop-SameKey [] s = (refl, refl, refl)
  loop-SameKey (c ∷ cs) s =
      let (h, x, i) = byte-SameKey s c in
      let (h', x', i') = loop-SameKey cs (encrypt_byte a s c) in (h' ∙ h, x' ∙ x, i' ∙ i)

  end-SameKey : (s : EncryptState) → SameKey s.header (encrypt_end a s).0
  unfolding encrypt_end init_encrypt encrypt_block
  end-SameKey s = ground arith

  -- Encrypting a stream leaves the header, the secret and the initial vector of the key as they
  -- were.
  pub encrypt_stream-SameKey :
      (k : AesKey) (stream : Bytes) → SameKey k (encrypt_stream a k stream).0
  unfolding encrypt_stream
  encrypt_stream-SameKey k stream =
      let s : EncryptState = record { header = k; buffer = []; new_block = true; written = [] } in
      let (h, x, i) = loop-SameKey stream s in
      let (h', x', i') = end-SameKey (encrypt_loop a s stream) in (h' ∙ h, x' ∙ x, i' ∙ i)
