-- ===== src/Crypto/Zeros.antt =====
-- The zeros that come out behind a stream whose last block was cut.
use rsyncrypto.Prelude.{
  ℕ, ◌-◌, true, false, Bytes, [], ◌∷◌, ◌++◌, ◌==◌, leb, if◌then◌else◌, length, ◌≡◌, refl, arith,
}
use rsyncrypto.CryptKey.{Header}
use rsyncrypto.CryptKey.Window.{ends_block}
use rsyncrypto.AesCrypt.{block_size}

-- How many zeros come out behind the stream: those that fill up the last block, if that block was
-- cut, and none otherwise.
unfoldable pub overrun : Header → Bytes → Bytes → Bytes → ℕ
overrun h hist pend [] = 0
overrun h hist pend (c ∷ cs) =
    let cut =
      if length cs == 0 then block_size - length (pend ++ (c ∷ [])) else overrun h [] [] cs in
    let full = overrun h (c ∷ hist) [] cs in
    let more = overrun h (c ∷ hist) (pend ++ (c ∷ [])) cs in
    if ends_block h (c ∷ hist)
    then cut
    else if leb block_size (length (pend ++ (c ∷ [])))
    then full
    else more

module _ (h : Header) (hist pend cs : Bytes) (c : ℕ) where
  pub overrun_cut :
      ends_block h (c ∷ hist) ≡ true
      → overrun h hist pend (c ∷ cs)
        ≡ (if length cs == 0 then block_size - length (pend ++ (c ∷ [])) else overrun h [] [] cs)
  unfolding overrun
  overrun_cut e = rw e

  module _ (e : ends_block h (c ∷ hist) ≡ false) where
    pub overrun_full :
        leb block_size (length (pend ++ (c ∷ []))) ≡ true
        → overrun h hist pend (c ∷ cs) ≡ overrun h (c ∷ hist) [] cs
    unfolding overrun
    overrun_full n = rw (e, n)

    pub overrun_more :
        leb block_size (length (pend ++ (c ∷ []))) ≡ false
        → overrun h hist pend (c ∷ cs) ≡ overrun h (c ∷ hist) (pend ++ (c ∷ [])) cs
    unfolding overrun
    overrun_more n = rw (e, n)

-- Nothing is filled up behind a whole block.
pub overrun_whole :
    (h : Header) (hist cs : Bytes)
    → (if length cs == 0 then 0 else overrun h hist [] cs) ≡ overrun h hist [] cs
unfolding overrun
overrun_whole h hist [] = refl
overrun_whole h hist (c ∷ cs) =
    let more : (length (c ∷ cs) == 0) ≡ false = ground arith in rw more refl
