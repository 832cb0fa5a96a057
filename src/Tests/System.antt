-- ===== src/Tests/System.antt =====
-- The theorems on files and their deletion on the file system of the tests.
use rsyncrypto.Prelude.{
  true, false, Bytes, bytes_eq, bytes_eq_iff, [], ◌∷◌, ◌++◌, reverse, ok, err, Error, none, some,
  replicate, ◌≡◌, ◌≢◌, inl, refl, arith,
}
use rsyncrypto.CryptKey.{cypher_aes}
use rsyncrypto.AesCrypt.{AesKey, block_size}
use rsyncrypto.AesCrypt.Toy.{toy, toy-IsCbc}
use rsyncrypto.KeyFile.{export_header, be32, be16, export_key, read_key, generate_key, new_key}
use rsyncrypto.KeyFile.RoundTrip.{IsMade}
use rsyncrypto.Action.{◌>>◌}
use rsyncrypto.Filemap.{find, put, FileMap}
use rsyncrypto.Filemap.Naming.{IsPaired, extended-IsPaired}
use rsyncrypto.Files.System.{World, no_entry, noted, open_read, open_file, enoent, random, euid}
use rsyncrypto.Files.Ends.{Ends}
use rsyncrypto.Files.Safe.{file_encrypt_failed, file_decrypt_failed}
use rsyncrypto.Files.Whole.{file_decrypt-file_encrypt}
use rsyncrypto.Files.Choice.{forces_new-new_key}
use rsyncrypto.Files.{forces_new, tmp_name, file_encrypt, file_decrypt}
use rsyncrypto.Deletion.{unlink, file_delete, enc_file_delete}
use rsyncrypto.Deletion.Safe.{file_delete_kept}
use rsyncrypto.Deletion.Paired.{enc_file_delete-IsPaired}
use rsyncrypto.Deletion.Unlink.{file_delete-unlink}
use rsyncrypto.Tests.Data.{
  are_bytes-All, small, small-IsUsable, key, key-IsMade, zeros, zeros-IsMemory, heap, turning,
  turning-IsRsa, marking, marking-IsGzip, ring,
}
use rsyncrypto.Tests.Disk.{
  Disk, disk, contents, disk-IsFramed, disk-IsWilling, erasing, erasing-IsDeletion, plain_options,
  no_maps, at_disk, dated, entropy, changed_at,
}

abbrev pub content : Bytes
content = 1 ∷ 200 ∷ []

abbrev pub plain_name : Bytes
plain_name = 112 ∷ []

abbrev pub cipher_name : Bytes
cipher_name = 99 ∷ []

abbrev pub key_name : Bytes
key_name = 107 ∷ []

abbrev pub out_name : Bytes
out_name = 111 ∷ []

abbrev empty_disk : Disk
empty_disk q = none

abbrev pub one_file : Disk
one_file = changed_at plain_name (some content) empty_disk

abbrev with_key : Disk
with_key = changed_at key_name (some (export_key key ++ [])) one_file

abbrev pub partial : Bytes → Error → Bytes
partial b e = b

exported : turning.public_encrypt (export_key key) ≡ some (reverse (export_key key))
unfolding export_key export_header be32 be16
exported = refl

not_forced : forces_new plain_options key.header ≡ false
unfolding forces_new
not_forced = refl

pub differ : (p q : Bytes) → bytes_eq p q ≡ false → p ≢ q
differ p q e h = absurd (cc (e, (bytes_eq_iff p q).1 h))

tmp_cipher : tmp_name plain_options cipher_name ≢ key_name
unfolding tmp_name
tmp_cipher = differ _ _ refl

cipher_apart : tmp_name plain_options cipher_name ≢ plain_name
unfolding tmp_name
cipher_apart = differ _ _ refl

out_apart : tmp_name plain_options out_name ≢ cipher_name
unfolding tmp_name
out_apart = differ _ _ refl

tmp_out : tmp_name plain_options out_name ≢ key_name
unfolding tmp_name
tmp_out = differ _ _ refl

file_decrypt-file_encrypt_example :
    Ends
      (file_encrypt disk toy marking zeros heap partial plain_options turning plain_name cipher_name
          key_name none
        >> file_decrypt disk toy marking zeros heap partial plain_options turning cipher_name
            out_name key_name)
      (at_disk with_key)
      (λ t w'. contents w'.os out_name ≡ some content)
file_decrypt-file_encrypt_example =
    file_decrypt-file_encrypt disk contents disk-IsFramed disk-IsWilling toy marking marking-IsGzip
      zeros zeros-IsMemory heap turning turning-IsRsa partial plain_options plain_options plain_name
      cipher_name out_name key_name content [] (reverse (export_key key)) none key
      (at_disk with_key) (toy-IsCbc key.secret_key) key-IsMade small-IsUsable
      (are_bytes-All content refl) exported not_forced refl refl refl cipher_apart tmp_cipher
      (differ cipher_name key_name refl) out_apart tmp_out

abbrev pub made : AesKey
made = record {
  header = small;
  ptbuf = ring 2;
  iv = replicate block_size 77;
  secret_key = replicate 2 78;
  cbc_base = [];
}

pub made_new : new_key zeros entropy cypher_aes 16 2 3 1 ≡ ok made
unfolding new_key generate_key
made_new = refl

pub made-IsMade : IsMade made
made-IsMade = record {
  version_is = refl;
  cypher_is = refl;
  size_fits = omega arith;
  span_fits = omega arith;
  mod_fits = omega arith;
  dist_fits = omega arith;
  iv_size = refl;
  secret_size = refl;
}

pub exported_new : turning.public_encrypt (export_key made) ≡ some (reverse (export_key made))
unfolding export_key export_header be32 be16
exported_new = refl

forces_new-new_key_example : forces_new plain_options made.header ≡ plain_options.fk
forces_new-new_key_example =
    forces_new-new_key zeros entropy plain_options made made_new (omega arith) (omega arith)
      (omega arith) (omega arith) (λ e. omega (arith, e))

-- Without a file to encrypt.
abbrev encrypt_fails : World disk
encrypt_fails = record (at_disk empty_disk) { changes = cipher_name ∷ [] }

encrypt_run :
    file_encrypt disk toy marking zeros heap partial plain_options turning plain_name cipher_name
      key_name none
      (at_disk empty_disk)
    ≡ (err (Error.system no_entry), encrypt_fails)
unfolding file_encrypt noted open_read open_file enoent random new_key euid
encrypt_run = refl

file_encrypt_failed_example :
    contents encrypt_fails.os cipher_name ≡ contents empty_disk cipher_name
file_encrypt_failed_example =
    file_encrypt_failed disk contents disk-IsFramed toy marking zeros heap partial plain_options
      turning plain_name cipher_name key_name none (at_disk empty_disk) encrypt_fails
      (Error.system no_entry) refl (differ key_name cipher_name refl) encrypt_run

decrypt_run :
    file_decrypt disk toy marking zeros heap partial plain_options turning cipher_name out_name
      key_name
      (at_disk with_key)
    ≡ (err (Error.system no_entry), at_disk with_key)
unfolding file_decrypt open_read open_file read_key export_key export_header be32 be16
decrypt_run = refl

file_decrypt_failed_example : contents with_key out_name ≡ contents with_key out_name
file_decrypt_failed_example =
    file_decrypt_failed disk contents disk-IsFramed toy marking zeros heap partial plain_options
      turning cipher_name out_name key_name (at_disk with_key) (at_disk with_key)
      (Error.system no_entry) refl (differ key_name out_name refl) decrypt_run

file_delete_kept_example :
    contents
      (file_delete disk erasing plain_options cipher_name plain_name key_name
        (at_disk with_key)).1.os
      cipher_name
    ≡ contents with_key cipher_name
file_delete_kept_example =
    file_delete_kept disk contents erasing erasing-IsDeletion cipher_name plain_options cipher_name
      plain_name key_name (at_disk with_key) (inl (λ e. cc))

-- "p" and its encrypted name
abbrev item : FileMap
item = record { plainname = plain_name; ciphername = cipher_name; dirsep = 47 }

abbrev mapped : World disk
mapped = record (at_disk empty_disk) {
  maps = record { namemap = (plain_name, item) ∷ []; reversemap = (cipher_name, plain_name) ∷ [] };
}

mapped-IsPaired : IsPaired mapped.maps
unfolding find put
mapped-IsPaired =
    extended-IsPaired no_maps plain_name cipher_name 47
      (record { named = λ p e h. absurd cc; back = λ p e h. absurd cc }) refl

mapped_there : find plain_name mapped.maps.namemap ≡ some item
unfolding find
mapped_there = refl

enc_file_delete-IsPaired_example :
    IsPaired
      (enc_file_delete disk erasing
        (record plain_options { delkey = true })
        (100 ∷ [])
        (115 ∷ [])
        (107 ∷ [])
        (plain_name, item)
        mapped).1.maps
enc_file_delete-IsPaired_example =
    enc_file_delete-IsPaired disk erasing (record plain_options { delkey = true }) (100 ∷ [])
      (115 ∷ []) (107 ∷ []) plain_name item mapped (λ p w. refl) mapped_there mapped-IsPaired

file_delete-unlink_example :
    file_delete disk
      (unlink disk 5)
      plain_options
      plain_name
      cipher_name
      key_name
      (at_disk one_file)
    ≡ (err Error.out_of_fuel, (noted disk plain_options plain_name (at_disk one_file)).1)
file_delete-unlink_example =
    file_delete-unlink disk 5 plain_options plain_name cipher_name key_name (at_disk one_file)
      (dated 0) refl refl refl
