-- ===== src/Crypto/Position.antt =====
-- Where a key object stands in the stream: the vector that the next block is chained to, and the
-- bytes since the last start. Both loops of crypto.cpp move such a position forward.
use rsyncrypto.Prelude.{
  ℕ, Bool, true, false, Bytes, IsByte, [], ◌∷◌, reverse, length, All, if◌then◌else◌, ◌≡◌, ◌∙◌, ap,
  arith, length-append, length-reverse, All-append, All-reverse,
}
use rsyncrypto.CryptKey.{Header, IsUsable}
use rsyncrypto.CryptKey.Tracks.{Tracks, init_encrypt-Tracks, calc_boundry-Tracks}
use rsyncrypto.CryptKey.Window.{ends_block, calc_boundry-ends_block}
use rsyncrypto.AesCrypt.{Aes, AesKey, init_encrypt, calc_boundry, encrypt_block, decrypt_block}

-- What never changes: the header, the secret and the initial vector.
pub record Fixed : Type 0 where
  pub header : Header
  pub secret : Bytes
  pub iv : Bytes

pub record IsIdle (f : Fixed) (k : AesKey) : Type 0 where
  pub header_is : k.header ≡ f.header
  pub secret_is : k.secret_key ≡ f.secret
  pub iv_is : k.iv ≡ f.iv
  pub ring_size : length k.ptbuf.plaintext_buffer ≡ f.header.sum_span
  pub ring_bytes : All IsByte k.ptbuf.plaintext_buffer

pub record IsOn (f : Fixed) (ivec hist : Bytes) (k : AesKey) : Type 0 where
  pub header_is : k.header ≡ f.header
  pub secret_is : k.secret_key ≡ f.secret
  pub iv_is : k.iv ≡ f.iv
  pub cbc_is : k.cbc_base ≡ ivec
  pub tracks : Tracks f.header hist k.ptbuf

-- With `new_block` set the next byte starts anew.
abbrev pub IsAt : Fixed → Bytes → Bytes → Bool → AesKey → Type 0
IsAt f ivec hist true k = IsIdle f k × (ivec ≡ f.iv) × (hist ≡ [])
IsAt f ivec hist false k = IsOn f ivec hist k

module _ (f : Fixed) (u : IsUsable f.header) where
  pub init_encrypt-IsOn : (k : AesKey) → IsIdle f k → IsOn f f.iv [] (init_encrypt k)
  unfolding init_encrypt
  init_encrypt-IsOn k i = record {
    header_is = i.header_is;
    secret_is = i.secret_is;
    iv_is = i.iv_is;
    cbc_is = i.iv_is;
    tracks = init_encrypt-Tracks f.header u k.ptbuf i.ring_size i.ring_bytes;
  }

  pub IsOn-IsIdle : (k : AesKey) (ivec hist : Bytes) → IsOn f ivec hist k → IsIdle f k
  IsOn-IsIdle k ivec hist o = record {
    header_is = o.header_is;
    secret_is = o.secret_is;
    iv_is = o.iv_is;
    ring_size =
        ap length t.ring
        ∙ length-append (reverse t.front) t.back
        ∙ omega (arith, length-reverse t.front, t.size_is);
    ring_bytes = rw (t.ring) (
        All-append IsByte (reverse t.front) t.back (All-reverse IsByte t.front t.front_bytes)
          t.back_bytes);
  }
    where
      open o use {tracks as t}

  pub IsAt-IsIdle :
      (k : AesKey) (ivec hist : Bytes) (new : Bool) → IsAt f ivec hist new k → IsIdle f k
  IsAt-IsIdle k ivec hist true p = p.0
  IsAt-IsIdle k ivec hist false p = IsOn-IsIdle k ivec hist p

  -- `if( new_block ) header->init_encrypt();`
  pub resume-IsOn :
      (k : AesKey) (ivec hist : Bytes) (new : Bool)
      → IsAt f ivec hist new k
      → IsOn f ivec hist (if new then init_encrypt k else k)
  resume-IsOn k ivec hist true p = rw (p.1, p.2) (init_encrypt-IsOn k p.0)
  resume-IsOn k ivec hist false p = p

  module _ (k : AesKey) (ivec hist : Bytes) (c : ℕ) (byte : IsByte c) (o : IsOn f ivec hist k) where
    pub calc_boundry-IsOn : IsOn f ivec (c ∷ hist) (calc_boundry k c).0
    unfolding calc_boundry
    calc_boundry-IsOn = record {
      header_is = o.header_is;
      secret_is = o.secret_is;
      iv_is = o.iv_is;
      cbc_is = o.cbc_is;
      tracks = rw (o.header_is) (calc_boundry-Tracks f.header u k.ptbuf hist c byte o.tracks);
    }

    pub calc_boundry-verdict : (calc_boundry k c).1 ≡ ends_block f.header (c ∷ hist)
    unfolding calc_boundry
    calc_boundry-verdict =
        rw (o.header_is) (calc_boundry-ends_block f.header u k.ptbuf hist c byte o.tracks)

  module _ (a : Aes) (k : AesKey) (ivec hist bytes : Bytes) (o : IsOn f ivec hist k) where
    pub encrypt_block-out : (encrypt_block a k bytes).1 ≡ (a.cbc_encrypt f.secret ivec bytes).0
    unfolding encrypt_block
    encrypt_block-out = rw (o.secret_is, o.cbc_is)

    pub encrypt_block-IsOn :
        IsOn f (a.cbc_encrypt f.secret ivec bytes).1 hist (encrypt_block a k bytes).0
    unfolding encrypt_block
    encrypt_block-IsOn = record {
      header_is = o.header_is;
      secret_is = o.secret_is;
      iv_is = o.iv_is;
      cbc_is = rw (o.secret_is, o.cbc_is);
      tracks = o.tracks;
    }

    pub decrypt_block-out : (decrypt_block a k bytes).1 ≡ (a.cbc_decrypt f.secret ivec bytes).0
    unfolding decrypt_block
    decrypt_block-out = rw (o.secret_is, o.cbc_is)

    pub decrypt_block-IsOn :
        IsOn f (a.cbc_decrypt f.secret ivec bytes).1 hist (decrypt_block a k bytes).0
    unfolding decrypt_block
    decrypt_block-IsOn = record {
      header_is = o.header_is;
      secret_is = o.secret_is;
      iv_is = o.iv_is;
      cbc_is = rw (o.secret_is, o.cbc_is);
      tracks = o.tracks;
    }
