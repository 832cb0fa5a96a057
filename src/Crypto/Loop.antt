-- ===== src/Crypto/Loop.antt =====
-- The rounds of the loop of `decrypt_file`, its end, and the sizes of what `encrypt_file` writes.
use rsyncrypto.Prelude.{
  ℕ, zero, suc, ◌+◌, ◌<◌, ◌≤◌, true, false, Bytes, [], ◌∷◌, ◌++◌, ok, ◌>>=◌, ◌==◌, leb,
  if◌then◌else◌, length, take, ◌≡◌, refl, ◌∙◌, ap, arith, take_all, length-append, Bool-cases,
  ltb-zero-suc, inl, inr,
}
use rsyncrypto.CryptKey.{IsUsable}
use rsyncrypto.CryptKey.Window.{ends_block}
use rsyncrypto.AesCrypt.{Aes, AesKey, IsCbc, block_size, init_encrypt, decrypt_block}
use rsyncrypto.Crypto.{DecryptState, decrypt_round, decrypt_loop, decrypt_end, trailer}
use rsyncrypto.Crypto.Position.{Fixed, IsIdle, init_encrypt-IsOn, decrypt_block-out}
use rsyncrypto.Crypto.Stream.{emit, trailer_of}
use rsyncrypto.Crypto.Scan.{all_zero-replicate}
use rsyncrypto.Crypto.Fuel.{loop-step, loop-stop}

module _ (a : Aes) (f : Fixed) (L : IsCbc a f.secret) (u : IsUsable f.header) where
  pub length-trailer_of : (n : ℕ) → length (trailer_of a f n) ≡ block_size
  length-trailer_of n = L.length-encrypt f.iv (n ∷ []) (omega arith) (omega arith)

  -- The end of `decrypt_file`, on the trailer that announces `n` bytes.
  pub end-trailer_of :
      (s : DecryptState) (n : ℕ)
      → IsIdle f s.header
      → n < block_size
      → s.unread ≡ trailer_of a f n
      → (k : AesKey) × (decrypt_end a s
          ≡ ok (k, s.written ++ take (if n == 0 then block_size else n) s.buffer))
  unfolding decrypt_end trailer
  end-trailer_of s n idle small e =
      let taken : take block_size s.unread ≡ trailer_of a f n =
        rw (e) (take_all (trailer_of a f n) block_size (omega (arith, length-trailer_of n))) in
      let plain =
        decrypt_block-out f u a _ f.iv [] (trailer_of a f n) (init_encrypt-IsOn f u s.header idle)
        ∙ ap (λ (p : Bytes × Bytes). p.0)
            (L.decrypt-encrypt f.iv (n ∷ []) (omega arith) (omega arith)) in
      let fits : leb block_size n ≡ false = ground arith in
      (
        (decrypt_block a (init_encrypt s.header) (trailer_of a f n)).0,
        rw (taken, length-trailer_of n, plain, all_zero-replicate 15, fits) refl,
      )

  abbrev pub Gives : ℕ → ℕ → DecryptState → Bytes → Type 0
  Gives fuel st_size s out =
      (k : AesKey) × ((decrypt_loop a fuel st_size s >>= decrypt_end a) ≡ ok (k, out))

  pub loop-round :
      (fuel st_size : ℕ) (s s' : DecryptState) (out : Bytes)
      → s.done ≡ false
      → 0 < length s.unread
      → decrypt_round a st_size s ≡ ok s'
      → Gives fuel st_size s' out
      → Gives (suc fuel) st_size s out
  loop-round fuel st_size s s' out d pos e (k, g) =
      (k, rw (loop-step a fuel st_size s (ground arith), e) g)

  pub loop-done :
      (fuel st_size n : ℕ) (s : DecryptState)
      → 0 < fuel
      → s.done ≡ true
      → IsIdle f s.header
      → n < block_size
      → s.unread ≡ trailer_of a f n
      → Gives fuel st_size s (s.written ++ take (if n == 0 then block_size else n) s.buffer)
  loop-done zero st_size n s more d idle small e = elim more [ ]
  loop-done (suc fuel) st_size n s more d idle small e =
      let (k, g) = end-trailer_of s n idle small e in
      (k, rw (loop-stop a fuel st_size s (ground arith)) g)

  -- A block that is written has sixteen bytes, and something is written for every byte.
  pub length-emit :
      (stream ivec hist pend : Bytes)
      → 0 < length pend + length stream
      → length pend < block_size
      → block_size ≤ length (emit a f ivec hist pend stream)
  unfolding emit
  length-emit [] ivec hist [] h small = absurd (omega arith)
  length-emit [] ivec hist (p ∷ ps) h small =
      rw (ltb-zero-suc (length ps))
        (omega (arith, L.length-encrypt ivec (p ∷ ps) (omega arith) (omega arith)))
  length-emit (c ∷ cs) ivec hist pend h small =
      let n = length-append pend (c ∷ []) in
      let out = L.length-encrypt ivec (pend ++ (c ∷ [])) (omega (arith, n)) (omega (arith, n)) in
      elim (Bool-cases (ends_block f.header (c ∷ hist))) [
        | inl e ↦ rw e (
            omega (
              arith,
              out,
              length-append (a.cbc_encrypt f.secret ivec (pend ++ (c ∷ []))).0
                  (emit a f f.iv [] [] cs),
            ))
        | inr e ↦ elim (Bool-cases (leb block_size (length (pend ++ (c ∷ []))))) [
          | inl full ↦
              rw (e, full)
                (omega (
                  arith,
                  out,
                  length-append (a.cbc_encrypt f.secret ivec (pend ++ (c ∷ []))).0 (
                      emit a f (a.cbc_encrypt f.secret ivec (pend ++ (c ∷ []))).1 (c ∷ hist) [] cs),
                ))
          | inr more ↦
              rw (e, more)
                (length-emit cs ivec (c ∷ hist) (pend ++ (c ∷ [])) (omega (arith, n))
                  (ground (arith, n)))
        ]
      ]
