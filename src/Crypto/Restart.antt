-- ===== src/Crypto/Restart.antt =====
-- Why the encrypted file suits rsync: behind the end of a block nothing depends on what stood before.
use rsyncrypto.Prelude.{
  ℕ, Bool, true, false, Bytes, IsByte, [], ◌∷◌, ◌++◌, ◌==◌, leb, if◌then◌else◌, length, All, ◌≡◌,
  refl, sym, ◌∙◌, arith, append-nil, append_assoc, Bool-cases, inl, inr, All-append,
}
use rsyncrypto.CryptKey.{Header, IsUsable}
use rsyncrypto.CryptKey.Window.{ends_block}
use rsyncrypto.AesCrypt.{Aes, AesKey, block_size}
use rsyncrypto.Crypto.{encrypt_stream}
use rsyncrypto.Crypto.Position.{Fixed, IsIdle}
use rsyncrypto.Crypto.Stream.{
  emit, leftover, stream_of, trailer_of, emit_cut, emit_full, emit_more, leftover_cut,
  leftover_full, leftover_more,
}
use rsyncrypto.Crypto.Emit.{encrypt_stream-stream_of}

-- The last byte of the bytes ends a block, after that history.
unfoldable pub ends_at : Header → Bytes → Bytes → Bool
ends_at h hist [] = false
ends_at h hist (c ∷ cs) =
    let cut = if length cs == 0 then true else ends_at h [] cs in
    let more = ends_at h (c ∷ hist) cs in if ends_block h (c ∷ hist) then cut else more

ends_at_more :
    (h : Header) (c : ℕ) (cs hist : Bytes)
    → ends_block h (c ∷ hist) ≡ false
    → ends_at h hist (c ∷ cs) ≡ ends_at h (c ∷ hist) cs
unfolding ends_at
ends_at_more h c cs hist e = rw e

ends_at_cut :
    (h : Header) (c d : ℕ) (cs hist : Bytes)
    → ends_block h (c ∷ hist) ≡ true
    → ends_at h hist (c ∷ d ∷ cs) ≡ ends_at h [] (d ∷ cs)
unfolding ends_at
ends_at_cut h c d cs hist e =
    let more : (length (d ∷ cs) == 0) ≡ false = ground arith in rw (e, more)

ends_at-nil : (h : Header) (hist : Bytes) → ends_at h hist [] ≡ true → ⊥
unfolding ends_at
ends_at-nil h hist e = cc

leftover-append :
    (h : Header) (pre suf hist pend : Bytes)
    → ends_at h hist pre ≡ true
    → leftover h hist pend (pre ++ suf) ≡ leftover h [] [] suf
leftover-append h [] suf hist pend e = absurd (ends_at-nil h hist e)
leftover-append h (c ∷ []) suf hist pend e = elim (Bool-cases (ends_block h (c ∷ hist))) [
  | inl b ↦ leftover_cut h hist pend suf c b
  | inr b ↦ absurd (ends_at-nil h (c ∷ hist) (sym (ends_at_more h c [] hist b) ∙ e))
]
leftover-append h (c ∷ d ∷ cs) suf hist pend e = elim (Bool-cases (ends_block h (c ∷ hist))) [
  | inl b ↦
      leftover_cut h hist pend (d ∷ (cs ++ suf)) c b
      ∙ leftover-append h (d ∷ cs) suf [] [] (sym (ends_at_cut h c d cs hist b) ∙ e)
  | inr b ↦
      let e' = sym (ends_at_more h c (d ∷ cs) hist b) ∙ e in
      elim (Bool-cases (leb block_size (length (pend ++ (c ∷ []))))) [
        | inl n ↦
            leftover_full h hist pend (d ∷ (cs ++ suf)) c b n
            ∙ leftover-append h (d ∷ cs) suf (c ∷ hist) [] e'
        | inr n ↦
            leftover_more h hist pend (d ∷ (cs ++ suf)) c b n
            ∙ leftover-append h (d ∷ cs) suf (c ∷ hist) (pend ++ (c ∷ [])) e'
      ]
]

module _ (a : Aes) (f : Fixed) where
  emit-nil : (ivec hist : Bytes) → emit a f ivec hist [] [] ≡ []
  unfolding emit
  emit-nil ivec hist = refl

  emit-append :
      (pre suf ivec hist pend : Bytes)
      → ends_at f.header hist pre ≡ true
      → emit a f ivec hist pend (pre ++ suf)
        ≡ emit a f ivec hist pend pre ++ emit a f f.iv [] [] suf
  emit-append [] suf ivec hist pend e = absurd (ends_at-nil f.header hist e)
  emit-append (c ∷ []) suf ivec hist pend e = elim (Bool-cases (ends_block f.header (c ∷ hist))) [
    | inl b ↦
        rw
          (
            emit_cut a f ivec hist pend c suf b,
            emit_cut a f ivec hist pend c [] b,
            emit-nil f.iv [],
            append-nil,
          )
          refl
    | inr b ↦ absurd (ends_at-nil f.header (c ∷ hist) (sym (ends_at_more f.header c [] hist b) ∙ e))
  ]
  emit-append (c ∷ d ∷ cs) suf ivec hist pend e =
      elim (Bool-cases (ends_block f.header (c ∷ hist))) [
        | inl b ↦
            rw
              (
                emit_cut a f ivec hist pend c (d ∷ (cs ++ suf)) b,
                emit_cut a f ivec hist pend c (d ∷ cs) b,
                emit-append (d ∷ cs) suf f.iv [] [] (sym (ends_at_cut f.header c d cs hist b) ∙ e),
              )
              (simp append_assoc)
        | inr b ↦
            let e' = sym (ends_at_more f.header c (d ∷ cs) hist b) ∙ e in
            elim (Bool-cases (leb block_size (length (pend ++ (c ∷ []))))) [
              | inl n ↦
                  rw
                    (
                      emit_full a f ivec hist pend c (d ∷ (cs ++ suf)) b n,
                      emit_full a f ivec hist pend c (d ∷ cs) b n,
                      emit-append (d ∷ cs) suf _ (c ∷ hist) [] e',
                    )
                    (simp append_assoc)
              | inr n ↦
                  rw
                    (
                      emit_more a f ivec hist pend c (d ∷ (cs ++ suf)) b n,
                      emit_more a f ivec hist pend c (d ∷ cs) b n,
                    )
                    (emit-append (d ∷ cs) suf ivec (c ∷ hist) (pend ++ (c ∷ [])) e')
            ]
      ]

  -- With a usable header, for two keys at rest that share the header, the secret and the initial
  -- vector: after bytes whose last one ends a block, what follows in the output is what the
  -- following bytes give when they are encrypted alone; and what precedes it depends on the
  -- preceding bytes alone.
  pub encrypt_stream-append :
      (u : IsUsable f.header) (k k' : AesKey) (pre suf : Bytes)
      → IsIdle f k
      → IsIdle f k'
      → All IsByte pre
      → All IsByte suf
      → ends_at f.header [] pre ≡ true
      → (encrypt_stream a k (pre ++ suf)).1 ≡ emit a f f.iv [] [] pre ++ (encrypt_stream a k' suf).1
  unfolding stream_of
  encrypt_stream-append u k k' pre suf idle idle' bytes sbytes e =
      rw
        (
          encrypt_stream-stream_of a f u k (pre ++ suf) (All-append IsByte pre suf bytes sbytes)
              idle,
          encrypt_stream-stream_of a f u k' suf sbytes idle',
          emit-append pre suf f.iv [] [] e,
          leftover-append f.header pre suf [] [] e,
        )
        (append_assoc (emit a f f.iv [] [] pre) (emit a f f.iv [] [] suf)
          (trailer_of a f (leftover f.header [] [] suf)))
