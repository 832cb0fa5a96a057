-- ===== src/Tests/Clock.antt =====
-- A second run with `--changed`, on a file system of which only the times change.
use rsyncrypto.Prelude.{
  ℕ, true, false, Bytes, bytes_eq, bytes_eq_iff, [], ◌∷◌, ◌++◌, Result, ok, Error, none, some,
  if◌then◌else◌, ◌≡◌, refl, ◌∙◌, ap,
}
use rsyncrypto.AesCrypt.Toy.{toy}
use rsyncrypto.KeyFile.{export_key}
use rsyncrypto.Action.{pure}
use rsyncrypto.Files.System.{
  Os, World, Options, exists_already, noted, open_read, open_file, read_file, euid, mkpath, create,
  poke, utimes, mv,
}
use rsyncrypto.Files.{file_encrypt, forces_new}
use rsyncrypto.Dirs.{EncryptFunc, regular_file}
use rsyncrypto.Dirs.Unchanged.{IsDating, regular_file_unchanged}
use rsyncrypto.KeyFile.RoundTrip.{read_key-export_key}
use rsyncrypto.Paths.{mkpath_dirs, dirpart}
use rsyncrypto.AesCrypt.{init_encrypt}
use rsyncrypto.Crypto.{encrypt_stream, encrypt_end, encrypt_loop}
use rsyncrypto.CryptFile.{Rsa, Gzip, encrypt_file, encrypt_header}
use rsyncrypto.Tests.Data.{key, key-IsMade, zeros, heap}
use rsyncrypto.Tests.Disk.{dated, entropy, plain_options, no_maps}

abbrev Clock : Type 0
Clock = Bytes → ℕ

abbrev set_at : Bytes → ℕ → Clock → Clock
set_at p n s q = if bytes_eq q p then n else s q

abbrev clock : Os
clock = record {
  State = Clock;
  open_read = λ n p s. (ok (if bytes_eq p (107 ∷ []) then export_key key ++ [] else 5 ∷ []), s);
  open_file = λ n p s. (0, s);
  read_file = λ p s. (ok (5 ∷ []), s);
  read_stdin = λ s. ([], s);
  create = λ t p s. (0, set_at p 1 s);
  poke = λ p b s. set_at p 1 s;
  extend = λ p n s. (0, set_at p 1 s);
  mkdir = λ p s. (exists_already, s);
  utimes = λ p at mt s. (0, set_at p mt s);
  rename = λ p p' s. (0, set_at p' (s p) s);
  lstat = λ p s. ok (dated (s p));
  stat = λ p s. ok (dated (s p));
  fstat = λ p s. ok (dated (s p));
  unlink = λ p s. (0, s);
  rmdir = λ p s. (0, s);
  readdir = λ d s. ok [];
  euid = λ s. 0;
  random = λ s. (entropy, s);
}

set_same : (p : Bytes) (n : ℕ) (s : Clock) → set_at p n s p ≡ n
set_same p n s = let e : bytes_eq p p ≡ true = (bytes_eq_iff p p).1 refl in rw e refl

clock-IsDating : IsDating clock
clock-IsDating = record {
  dates = λ p at mt s h. (dated (set_at p mt s p), refl, set_same p mt s);
  moves = λ p p' s st h e. ap (λ (n : ℕ). ok (dated n)) (set_same p' (s p) s) ∙ e;
}

abbrev start : World clock
start = record { os = λ p. 3; maps = no_maps; changes = [] }

-- A gzip that writes nothing, and an RSA that forgets the key.
abbrev silent : Gzip
silent = record { compress = λ x. ([], 0); decompress = λ y. ([], 0) }

abbrev blank_rsa : Rsa
blank_rsa = record {
  size = 1;
  has_factors = false;
  public_encrypt = λ m. some (1 ∷ []);
  private_decrypt = λ c. none;
}

abbrev only_changed : Options
only_changed = record plain_options { changed = true; export_changes = false }

abbrev partial : Bytes → Error → Bytes
partial b e = b

abbrev plain_name : Bytes
plain_name = 112 ∷ []

abbrev cipher_name : Bytes
cipher_name = 99 ∷ []

abbrev key_name : Bytes
key_name = 107 ∷ []

abbrev after : World clock
after =
    (file_encrypt clock toy silent zeros heap partial only_changed blank_rsa plain_name cipher_name
      key_name (some (dated 7)) start).1

encrypted_value :
    (file_encrypt clock toy silent zeros heap partial only_changed blank_rsa plain_name cipher_name
      key_name
      (some (dated 7))
      start).0
    ≡ ok tt
unfolding file_encrypt noted open_read open_file read_file forces_new euid mkpath mkpath_dirs
    dirpart create encrypt_file encrypt_header encrypt_stream encrypt_end init_encrypt encrypt_loop
    poke utimes mv
encrypted_value = rw (read_key-export_key zeros key [] key-IsMade) refl

encrypted_first :
    file_encrypt clock toy silent zeros heap partial only_changed blank_rsa plain_name cipher_name
      key_name
      (some (dated 7))
      start
    ≡ (ok tt, after)
encrypted_first = ap (λ (r : Result (Unit {0})). (r, after)) encrypted_value

abbrev idle_op : EncryptFunc clock
idle_op src dst key_file st = pure tt

regular_file_unchanged_example :
    regular_file clock only_changed idle_op plain_name cipher_name key_name (dated 7) after
    ≡ (ok tt, after)
regular_file_unchanged_example =
    regular_file_unchanged clock clock-IsDating toy silent zeros heap partial only_changed blank_rsa
      idle_op plain_name cipher_name key_name (dated 7) start after refl refl refl encrypted_first
