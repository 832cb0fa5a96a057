-- ===== src/Crypto/Emit.antt =====
-- The stream described without the machinery of `encrypt_file`.
use rsyncrypto.Prelude.{
  ℕ, Bool, true, false, ◌||◌, Bytes, IsByte, [], ◌∷◌, ◌++◌, ltb, leb, if◌then◌else◌, length, All,
  ◌≡◌, refl, ◌∙◌, ap, ap₂, ltb-zero-suc, append_assoc, arith, Bool-cases, inl, inr,
}
use rsyncrypto.CryptKey.{IsUsable}
use rsyncrypto.CryptKey.Window.{ends_block}
use rsyncrypto.AesCrypt.{Aes, AesKey, block_size, init_encrypt, calc_boundry, encrypt_block}
use rsyncrypto.Crypto.{EncryptState, encrypt_byte, encrypt_loop, encrypt_end, encrypt_stream}
use rsyncrypto.Crypto.Position.{
  Fixed, IsIdle, IsOn, IsAt, IsAt-IsIdle, IsOn-IsIdle, init_encrypt-IsOn, resume-IsOn,
  calc_boundry-IsOn, calc_boundry-verdict, encrypt_block-out, encrypt_block-IsOn,
}
use rsyncrypto.Crypto.Stream.{
  leftover, emit, trailer_of, stream_of, emit_cut, emit_full, emit_more, leftover_cut,
  leftover_full, leftover_more,
}

module _ (a : Aes) (f : Fixed) (u : IsUsable f.header) where
  record Sim (s : EncryptState) (ivec hist : Bytes) : Type 0 where
    at : IsAt f ivec hist s.new_block s.header
    empty : s.new_block ≡ true → s.buffer ≡ []

  end-buffer :
      (k : AesKey) (buffer ivec hist : Bytes) (new : Bool)
      → IsAt f ivec hist new k
      → (new ≡ true → buffer ≡ [])
      → let r : AesKey × Bytes =
          if ltb 0 (length buffer) then encrypt_block a k buffer else (k, []) in
        IsIdle f r.0 × (r.1 ≡ emit a f ivec hist buffer [])
  unfolding emit
  end-buffer k [] ivec hist new p e = (IsAt-IsIdle f u k ivec hist new p, refl)
  end-buffer k (b ∷ bs) ivec hist true p e = absurd (omega (arith, ap length (e refl)))
  end-buffer k (b ∷ bs) ivec hist false p e = rw (ltb-zero-suc (length bs)) (
    IsOn-IsIdle f u _ _ hist (encrypt_block-IsOn f u a k ivec hist (b ∷ bs) p),
    encrypt_block-out f u a k ivec hist (b ∷ bs) p,
  )

  end-emit :
      (s : EncryptState) (ivec hist : Bytes)
      → Sim s ivec hist
      → (encrypt_end a s).1
        ≡ s.written ++ (emit a f ivec hist s.buffer [] ++ trailer_of a f (length s.buffer))
  unfolding encrypt_end
  end-emit s ivec hist m =
      let (idle, out) = end-buffer s.header s.buffer ivec hist s.new_block m.at m.empty in
      ap₂ (λ (x y : Bytes). s.written ++ (x ++ y)) out
        (encrypt_block-out f u a _ f.iv [] (length s.buffer ∷ []) (init_encrypt-IsOn f u _ idle))

  -- One round of the loop: a block is cut, a block is full, or it goes on.
  module _ (s : EncryptState) (c : ℕ) where
    abbrev resumed : AesKey
    resumed = if s.new_block then init_encrypt s.header else s.header

    abbrev block : Bytes
    block = s.buffer ++ (c ∷ [])

    flush-eq :
        (leb block_size (length block) || (calc_boundry resumed c).1) ≡ true
        → encrypt_byte a s c ≡ record {
          header = (encrypt_block a (calc_boundry resumed c).0 block).0;
          buffer = [];
          new_block = (calc_boundry resumed c).1;
          written = s.written ++ (encrypt_block a (calc_boundry resumed c).0 block).1;
        }
    unfolding encrypt_byte
    flush-eq e = rw e

    keep-eq :
        (leb block_size (length block) || (calc_boundry resumed c).1) ≡ false
        → encrypt_byte a s c ≡ record {
          header = (calc_boundry resumed c).0;
          buffer = block;
          new_block = (calc_boundry resumed c).1;
          written = s.written;
        }
    unfolding encrypt_byte
    keep-eq e = rw e

    module _ (ivec hist : Bytes) (byte : IsByte c) (m : Sim s ivec hist) where
      on : IsOn f ivec (c ∷ hist) (calc_boundry resumed c).0
      on =
          calc_boundry-IsOn f u _ ivec hist c byte
            (resume-IsOn f u s.header ivec hist s.new_block m.at)

      verdict : (calc_boundry resumed c).1 ≡ ends_block f.header (c ∷ hist)
      verdict =
          calc_boundry-verdict f u _ ivec hist c byte
            (resume-IsOn f u s.header ivec hist s.new_block m.at)

      abbrev out : Bytes × Bytes
      out = a.cbc_encrypt f.secret ivec block

      next-IsOn : IsOn f out.1 (c ∷ hist) (encrypt_block a (calc_boundry resumed c).0 block).0
      next-IsOn = encrypt_block-IsOn f u a _ ivec (c ∷ hist) block on

      cut-Sim :
          ends_block f.header (c ∷ hist) ≡ true
          → Sim (encrypt_byte a s c) f.iv []
            × ((encrypt_byte a s c).buffer ≡ [])
            × ((encrypt_byte a s c).written ≡ s.written ++ out.0)
      cut-Sim e =
          let v = verdict ∙ e in
          rw (flush-eq (ground arith)) (
            record { at = rw v (IsOn-IsIdle f u _ _ _ next-IsOn, refl, refl); empty = λ _. refl },
            refl,
            ap (λ (x : Bytes). s.written ++ x) (encrypt_block-out f u a _ ivec (c ∷ hist) block on),
          )

      full-Sim :
          ends_block f.header (c ∷ hist) ≡ false
          → leb block_size (length block) ≡ true
          → Sim (encrypt_byte a s c) out.1 (c ∷ hist)
            × ((encrypt_byte a s c).buffer ≡ [])
            × ((encrypt_byte a s c).written ≡ s.written ++ out.0)
      full-Sim e n =
          let v = verdict ∙ e in
          rw (flush-eq (ground arith)) (
            record { at = rw v next-IsOn; empty = λ _. refl },
            refl,
            ap (λ (x : Bytes). s.written ++ x) (encrypt_block-out f u a _ ivec (c ∷ hist) block on),
          )

      more-Sim :
          ends_block f.header (c ∷ hist) ≡ false
          → leb block_size (length block) ≡ false
          → Sim (encrypt_byte a s c) ivec (c ∷ hist)
            × ((encrypt_byte a s c).buffer ≡ block)
            × ((encrypt_byte a s c).written ≡ s.written)
      more-Sim e n =
          let v = verdict ∙ e in
          rw (keep-eq (ground arith)) (record { at = rw v on; empty = λ t. cc (t, v) }, refl, refl)

  loop-emit :
      (stream : Bytes) (s : EncryptState) (ivec hist : Bytes)
      → All IsByte stream
      → Sim s ivec hist
      → (encrypt_end a (encrypt_loop a s stream)).1
        ≡ s.written
          ++ (emit a f ivec hist s.buffer stream
              ++ trailer_of a f (leftover f.header hist s.buffer stream))
  unfolding encrypt_loop
  loop-emit [] s ivec hist bytes m = unfold leftover in end-emit s ivec hist m
  loop-emit (c ∷ cs) s ivec hist bytes m = elim (Bool-cases (ends_block f.header (c ∷ hist))) [
    | inl e ↦
        let (m', b, w) = cut-Sim s c ivec hist bytes.0 m e in
        loop-emit cs (encrypt_byte a s c) f.iv [] bytes.1 m'
        ∙ rw
            (
              b,
              w,
              emit_cut a f ivec hist s.buffer c cs e,
              leftover_cut f.header hist s.buffer cs c e,
            )
            (simp append_assoc)
    | inr e ↦ elim (Bool-cases (leb block_size (length (s.buffer ++ (c ∷ []))))) [
      | inl n ↦
          let (m', b, w) = full-Sim s c ivec hist bytes.0 m e n in
          loop-emit cs (encrypt_byte a s c) _ (c ∷ hist) bytes.1 m'
          ∙ rw
              (
                b,
                w,
                emit_full a f ivec hist s.buffer c cs e n,
                leftover_full f.header hist s.buffer cs c e n,
              )
              (simp append_assoc)
      | inr n ↦
          let (m', b, w) = more-Sim s c ivec hist bytes.0 m e n in
          loop-emit cs (encrypt_byte a s c) ivec (c ∷ hist) bytes.1 m'
          ∙ rw (
            b,
            w,
            emit_more a f ivec hist s.buffer c cs e n,
            leftover_more f.header hist s.buffer cs c e n,
          )
    ]
  ]

  -- With a usable header and a key at rest, on bytes, what encrypt_stream writes is what stream_of
  -- says: the blocks that the boundaries and the block size cut the stream into, each encrypted,
  -- and the trailer.
  pub encrypt_stream-stream_of :
      (k : AesKey) (stream : Bytes)
      → All IsByte stream
      → IsIdle f k
      → (encrypt_stream a k stream).1 ≡ stream_of a f stream
  unfolding encrypt_stream stream_of
  encrypt_stream-stream_of k stream bytes idle =
      loop-emit stream (record { header = k; buffer = []; new_block = true; written = [] }) f.iv []
        bytes (record { at = (idle, refl, refl); empty = λ _. refl })
