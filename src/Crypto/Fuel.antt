-- ===== src/Crypto/Fuel.antt =====
-- The loop of `decrypt_file` ends: the fuel of the model is enough for every input.
use rsyncrypto.Prelude.{
  ℕ, zero, suc, ◌<◌, true, false, ◌||◌, Bytes, Result, ok, err, Error, ◌>>=◌, ◌==◌, length, drop,
  ◌≡◌, ◌≢◌, arith, length-drop, Bool-cases, inl, inr,
}
use rsyncrypto.AesCrypt.{Aes, AesKey, block_size}
use rsyncrypto.Crypto.{
  DecryptState, decrypt_round, decrypt_loop, decrypt_end, decrypt_stream, trailer,
}

module _ (a : Aes) where
  pub loop-step :
      (fuel st_size : ℕ) (s : DecryptState)
      → (s.done || length s.unread == 0) ≡ false
      → decrypt_loop a (suc fuel) st_size s
        ≡ (decrypt_round a st_size s >>= λ s'. decrypt_loop a fuel st_size s')
  unfolding decrypt_loop
  loop-step fuel st_size s e = rw (e, decrypt_loop)

  pub loop-stop :
      (fuel st_size : ℕ) (s : DecryptState)
      → (s.done || length s.unread == 0) ≡ true
      → decrypt_loop a (suc fuel) st_size s ≡ ok s
  unfolding decrypt_loop
  loop-stop fuel st_size s e = rw (e, decrypt_loop)

  -- A round fails with an error of its own, or takes sixteen bytes.
  abbrev Progress : DecryptState → Result DecryptState → Type 0
  Progress s (ok s') = s'.unread ≡ drop block_size s.unread
  Progress s (err e) = e ≢ Error.out_of_fuel

  round-Progress : (st_size : ℕ) (s : DecryptState) → Progress s (decrypt_round a st_size s)
  unfolding decrypt_round
  round-Progress st_size s = ground arith

  loop-ne-out_of_fuel :
      (fuel st_size : ℕ) (s : DecryptState)
      → length s.unread < fuel
      → decrypt_loop a fuel st_size s ≢ err Error.out_of_fuel
  loop-ne-out_of_fuel zero st_size s h = absurd (omega arith)
  loop-ne-out_of_fuel (suc fuel) st_size s h = elim (Bool-cases (s.done || length s.unread == 0)) [
    | inl stop ↦ rw (loop-stop fuel st_size s stop) (λ e. cc e)
    | inr go ↦ rw (loop-step fuel st_size s go) (
        behind (decrypt_round a st_size s) (round-Progress st_size s) λ s' e.
          loop-ne-out_of_fuel fuel st_size s' (ground (arith, e, length-drop block_size s.unread)))
  ]
    where
      behind :
          (r : Result DecryptState)
          → Progress s r
          → ((s' : DecryptState)
              → s'.unread ≡ drop block_size s.unread
              → decrypt_loop a fuel st_size s' ≢ err Error.out_of_fuel)
          → (r >>= λ s'. decrypt_loop a fuel st_size s') ≢ err Error.out_of_fuel
      behind (ok s') p next = next s' p
      behind (err e) p next = λ q. p (ground arith)

  end-ne-out_of_fuel : (s : DecryptState) → decrypt_end a s ≢ err Error.out_of_fuel
  unfolding decrypt_end trailer
  end-ne-out_of_fuel s = ground arith

  then_end :
      (r : Result DecryptState)
      → r ≢ err Error.out_of_fuel
      → (r >>= decrypt_end a) ≢ err Error.out_of_fuel
  then_end (ok s) h = end-ne-out_of_fuel s
  then_end (err e) h = λ q. h (ground arith)

  -- For every cipher, key, place, size and content of the file, decrypt_stream gives a stream or
  -- an error that the code throws: the fuel never runs out.
  pub decrypt_stream-ne-out_of_fuel :
      (k : AesKey) (currpos st_size : ℕ) (bytes : Bytes)
      → decrypt_stream a k currpos st_size bytes ≢ err Error.out_of_fuel
  unfolding decrypt_stream
  decrypt_stream-ne-out_of_fuel k currpos st_size bytes =
      then_end _ (loop-ne-out_of_fuel (suc (length bytes)) st_size _ (omega arith))
