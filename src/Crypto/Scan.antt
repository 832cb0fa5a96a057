-- ===== src/Crypto/Scan.antt =====
-- The loop of `decrypt_file` that looks for the end of a block inside the decrypted bytes.
use rsyncrypto.Prelude.{
  ℕ, zero, suc, ◌+◌, ◌≤◌, true, false, Bytes, IsByte, [], ◌∷◌, ◌++◌, reverse, length, drop,
  replicate, All, ◌≡◌, refl, sym, ◌∙◌, ap, append_assoc, append-nil, arith, Bool-cases, inl, inr,
}
use mathlib.Core.List.{reverse-append}
use rsyncrypto.CryptKey.{Header, IsUsable}
use rsyncrypto.CryptKey.Window.{ends_block}
use rsyncrypto.AesCrypt.{AesKey, calc_boundry}
use rsyncrypto.Crypto.{scan, all_zero}
use rsyncrypto.Crypto.Position.{
  Fixed, IsIdle, IsOn, IsOn-IsIdle, calc_boundry-IsOn, calc_boundry-verdict,
}

-- No block ends within these bytes, after that history.
abbrev pub IsQuiet : Header → Bytes → Bytes → Type 0
IsQuiet h hist [] = Unit
IsQuiet h hist (c ∷ cs) = (ends_block h (c ∷ hist) ≡ false) × IsQuiet h (c ∷ hist) cs

pub IsQuiet-concat :
    (h : Header) (hist xs : Bytes) (c : ℕ)
    → IsQuiet h hist xs
    → ends_block h (c ∷ (reverse xs ++ hist)) ≡ false
    → IsQuiet h hist (xs ++ (c ∷ []))
IsQuiet-concat h hist [] c q e = (e, tt)
IsQuiet-concat h hist (x ∷ xs) c q e =
    (q.0, IsQuiet-concat h (x ∷ hist) xs c q.1 (rw (reverse-append (x ∷ []) xs, append_assoc) at e))

pub all_zero-replicate : (n : ℕ) → all_zero (replicate n 0) ≡ true
unfolding all_zero
all_zero-replicate zero = refl
all_zero-replicate (suc n) = all_zero-replicate n

-- What is behind the bytes of a block that was filled up is zero.
pub all_zero-drop :
    (xs : Bytes) (n i : ℕ) → length xs ≤ i → all_zero (drop i (xs ++ replicate n 0)) ≡ true
unfolding all_zero
all_zero-drop [] n zero h = all_zero-replicate n
all_zero-drop [] zero (suc i) h = refl
all_zero-drop [] (suc n) (suc i) h = all_zero-drop [] n i (omega arith)
all_zero-drop (x ∷ xs) n zero h = absurd (omega arith)
all_zero-drop (x ∷ xs) n (suc i) h = all_zero-drop xs n i (omega arith)

module _ (f : Fixed) (u : IsUsable f.header) where
  -- Quiet bytes are passed over.
  pub scan-IsQuiet :
      (xs ys : Bytes) (k : AesKey) (ivec hist : Bytes)
      → IsOn f ivec hist k
      → All IsByte xs
      → IsQuiet f.header hist xs
      → (k' : AesKey) × IsOn f ivec (reverse xs ++ hist) k'
        × (scan k (xs ++ ys) ≡ ((scan k' ys).0, length xs + (scan k' ys).1, (scan k' ys).2))
  unfolding scan
  scan-IsQuiet [] ys k ivec hist o b q =
      (k, o, ap (λ (n : ℕ). ((scan k ys).0, n, (scan k ys).2)) (omega arith))
  scan-IsQuiet (x ∷ xs) ys k ivec hist o b q =
      let v = calc_boundry-verdict f u k ivec hist x b.0 o ∙ q.0 in
      let (k', o', e) =
        scan-IsQuiet xs ys (calc_boundry k x).0 ivec (x ∷ hist)
          (calc_boundry-IsOn f u k ivec hist x b.0 o) b.1 q.1 in
      (
        k',
        rw (reverse-append (x ∷ []) xs, append_assoc) o',
        rw (v, e) (ap (λ (n : ℕ). ((scan k' ys).0, n, (scan k' ys).2)) (omega arith)),
      )

  pub scan_whole :
      (xs : Bytes) (k : AesKey) (ivec hist : Bytes)
      → IsOn f ivec hist k
      → All IsByte xs
      → IsQuiet f.header hist xs
      → (k' : AesKey) × IsOn f ivec (reverse xs ++ hist) k' × (scan k xs ≡ (k', length xs, false))
  unfolding scan
  scan_whole xs k ivec hist o b q =
      let (k', o', e) = scan-IsQuiet xs [] k ivec hist o b q in
      (k', o', ap (scan k) (sym (append-nil xs)) ∙ e ∙ ap (λ (n : ℕ). (k', n, false)) (omega arith))

  -- The scan stops behind the byte that ends the block.
  pub scan_cut :
      (xs ys : Bytes) (c : ℕ) (k : AesKey) (ivec hist : Bytes)
      → IsOn f ivec hist k
      → All IsByte xs
      → IsByte c
      → IsQuiet f.header hist xs
      → ends_block f.header (c ∷ (reverse xs ++ hist)) ≡ true
      → (k' : AesKey) × IsOn f ivec (c ∷ (reverse xs ++ hist)) k'
        × (scan k (xs ++ (c ∷ ys)) ≡ (k', length xs + 1, true))
  unfolding scan
  scan_cut xs ys c k ivec hist o b byte q e =
      let (k', o', s) = scan-IsQuiet xs (c ∷ ys) k ivec hist o b q in
      let v = calc_boundry-verdict f u k' ivec _ c byte o' ∙ e in
      ((calc_boundry k' c).0, calc_boundry-IsOn f u k' ivec _ c byte o', rw (s, v))

  -- Wherever the scan stops, the key can start anew.
  pub scan-IsIdle :
      (xs : Bytes) (k : AesKey) (ivec hist : Bytes)
      → IsOn f ivec hist k
      → All IsByte xs
      → IsIdle f (scan k xs).0
  unfolding scan
  scan-IsIdle [] k ivec hist o b = IsOn-IsIdle f u k ivec hist o
  scan-IsIdle (x ∷ xs) k ivec hist o b =
      let o' = calc_boundry-IsOn f u k ivec hist x b.0 o in
      elim (Bool-cases (calc_boundry k x).1) [
        | inl e ↦ rw e (IsOn-IsIdle f u (calc_boundry k x).0 ivec (x ∷ hist) o')
        | inr e ↦ rw e (scan-IsIdle xs (calc_boundry k x).0 ivec (x ∷ hist) o' b.1)
      ]
