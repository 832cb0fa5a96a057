-- ===== src/Files/Safe.antt =====
-- What a failed `file_encrypt` or `file_decrypt` leaves of the file at the destination.
use rsyncrypto.Prelude.{
  ℕ, false, Bytes, Result, err, Error, Option, length, ◌≡◌, ◌≢◌, sym, ◌∙◌, ap, arith, length-append,
}
use rsyncrypto.AesCrypt.{Aes}
use rsyncrypto.KeyFile.{Memory}
use rsyncrypto.CryptFile.{Rsa, Gzip}
use rsyncrypto.Files.System.{Os, World, Options, Stat}
use rsyncrypto.Files.{create_suffix, tmp_name, file_encrypt, file_decrypt}
use rsyncrypto.Files.FileSystem.{IsFramed}
use rsyncrypto.Files.Spares.{file_encrypt-Spares, file_decrypt-Spares}

tmp_name-ne : (o : Options) (dst : Bytes) → o.risky_writes ≡ false → tmp_name o dst ≢ dst
unfolding tmp_name
tmp_name-ne o dst e q =
    let n = ap length (rw e at q) in omega (arith, length-append dst create_suffix, n)

module _ (F : Os) (contents : F.State → Bytes → Option Bytes) (L : IsFramed F contents) (a : Aes)
    (g : Gzip) (m : Memory) (heap : ℕ → Bytes) (partial_output : Bytes → Error → Bytes) where
  -- On a file system where two different names are two files, without --risky-writes, and if the
  -- key file is not the destination: when file_encrypt throws, at whatever call, the file at the
  -- destination is as it was before.
  pub file_encrypt_failed :
      (o : Options) (rsa : Rsa) (source dst key_file : Bytes) (st : Option Stat) (w w' : World F)
      (x : Error)
      → o.risky_writes ≡ false
      → key_file ≢ dst
      → file_encrypt F a g m heap partial_output o rsa source dst key_file st w ≡ (err x, w')
      → contents w'.os dst ≡ contents w.os dst
  file_encrypt_failed o rsa source dst key_file st w w' x safe h e =
      let run = file_encrypt F a g m heap partial_output o rsa source dst key_file st w in
      let s =
        (file_encrypt-Spares F contents L dst a g m heap partial_output o rsa source dst key_file st
            (tmp_name-ne o dst safe) h).spares
          w x (ap (λ (r : Result (Unit {0}) × World F). r.0) e) in
      ap (λ (r : Result (Unit {0}) × World F). contents r.1.os dst) (sym e) ∙ s

  -- On a file system where two different names are two files, without --risky-writes, and if the
  -- key file is not the destination: when file_decrypt throws, at whatever call, the file at the
  -- destination is as it was before.
  pub file_decrypt_failed :
      (o : Options) (rsa : Rsa) (src dst key_file : Bytes) (w w' : World F) (x : Error)
      → o.risky_writes ≡ false
      → key_file ≢ dst
      → file_decrypt F a g m heap partial_output o rsa src dst key_file w ≡ (err x, w')
      → contents w'.os dst ≡ contents w.os dst
  file_decrypt_failed o rsa src dst key_file w w' x safe h e =
      let s =
        (file_decrypt-Spares F contents L dst a g m heap partial_output o rsa src dst key_file
            (tmp_name-ne o dst safe) h).spares
          w x (ap (λ (r : Result (Unit {0}) × World F). r.0) e) in
      ap (λ (r : Result (Unit {0}) × World F). contents r.1.os dst) (sym e) ∙ s
