-- ===== src/Tests/Runs.antt =====
-- The theorem on two runs of the program on the file system of the tests.
use rsyncrypto.Prelude.{
  true, false, Bytes, [], ◌∷◌, reverse, ok, Option, none, some, ◌≡◌, ◌≢◌, inl, inr, refl,
  Bool-cases,
}
use rsyncrypto.AesCrypt.Toy.{toy, toy-IsCbc}
use rsyncrypto.KeyFile.{export_key}
use rsyncrypto.CryptFile.{Rsa}
use rsyncrypto.Filemap.Naming.{s_ifdir}
use rsyncrypto.Action.{Action}
use rsyncrypto.Files.{tmp_name}
use rsyncrypto.Files.System.{World, Stat}
use rsyncrypto.CommandLine.{Arguments, with_defaults}
use rsyncrypto.CommandLine.Run.{main}
use rsyncrypto.CommandLine.Whole.{single, main-main}
use rsyncrypto.Tests.Data.{
  are_bytes-All, small-IsUsable, zeros, zeros-IsMemory, heap, turning, turning-IsRsa, marking,
  marking-IsGzip,
}
use rsyncrypto.Tests.Disk.{
  Disk, disk, contents, disk-IsFramed, disk-IsWilling, erasing, at_disk, dated, is_dir,
}
use rsyncrypto.Tests.System.{
  content, plain_name, cipher_name, key_name, out_name, one_file, partial, made, made_new,
  made-IsMade, exported_new, differ,
}

-- The master key's file gives the key pair.
abbrev key_pair : Bytes → Action (World disk) (Option Rsa)
key_pair master w = (ok (some turning), w)

abbrev base : Arguments
base = record {
  help = false;
  version = false;
  fr = false;
  fk = false;
  noarch = false;
  risky_writes = false;
  recurse = false;
  decrypt = false;
  changed = false;
  del = false;
  delkey = false;
  filelist = none;
  nameenc = none;
  export_changes = none;
  keysize = some 16;
  rollwin = some 2;
  rollsens = some 3;
  rollmin = some 1;
  trim = none;
  nenest = none;
  mod_win = none;
  noatime = none;
  src = [];
  dst = [];
  key = key_name;
  master = 109 ∷ [];
}

disk_status :
    (p b : Bytes) (s : Disk) → contents s p ≡ some b → (st : Stat) × (disk.stat p s ≡ ok st)
disk_status p b s h = elim (Bool-cases (is_dir p)) [
  | inl e ↦ (record (dated 0) { st_mode = s_ifdir }, rw (e) refl)
  | inr e ↦ (dated 0, rw (e, h) refl)
]

tmp_cipher :
    tmp_name (with_defaults (single false base plain_name cipher_name)) cipher_name ≢ key_name
unfolding tmp_name with_defaults
tmp_cipher = differ _ _ refl

cipher_apart :
    tmp_name (with_defaults (single false base plain_name cipher_name)) cipher_name ≢ plain_name
unfolding tmp_name with_defaults
cipher_apart = differ _ _ refl

out_apart : tmp_name (with_defaults (single true base cipher_name out_name)) out_name ≢ cipher_name
unfolding tmp_name with_defaults
out_apart = differ _ _ refl

tmp_out : tmp_name (with_defaults (single true base cipher_name out_name)) out_name ≢ key_name
unfolding tmp_name with_defaults
tmp_out = differ _ _ refl

main-main_example :
    (w1 : World disk) × (w2 : World disk) × (main disk toy marking zeros heap partial erasing
        key_pair key_pair 0 0
        (single false base plain_name cipher_name)
        (at_disk one_file)
      ≡ (ok 0, w1))
    × (main disk toy marking zeros heap partial erasing key_pair key_pair 0 0
          (single true base cipher_name out_name)
          w1
        ≡ (ok 0, w2))
    × (contents w2.os out_name ≡ some content)
unfolding with_defaults
main-main_example =
    main-main disk contents disk-IsFramed disk-IsWilling toy marking marking-IsGzip zeros
      zeros-IsMemory heap turning turning-IsRsa partial erasing key_pair key_pair base base
      plain_name cipher_name out_name content (reverse (export_key made)) made 0 0
      (at_disk one_file) refl (λ v. refl) (λ v. refl) disk_status made_new
      (toy-IsCbc made.secret_key) made-IsMade small-IsUsable (are_bytes-All content refl)
      exported_new refl refl refl refl cipher_apart tmp_cipher (differ cipher_name key_name refl)
      out_apart tmp_out
