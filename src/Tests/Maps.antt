-- ===== src/Tests/Maps.antt =====
-- The theorems on file maps, and on their recovery, at concrete files.
use rsyncrypto.Prelude.{
  true, false, map, ok, Option, some, ℕ, Bytes, List, [], ◌∷◌, ◌++◌, All, replicate, ◌≡◌, refl,
  arith, zero, suc,
}
use rsyncrypto.Filemap.{
  FileMap, Maps, fill_map, fill_loop, read_entry, read_plain, read_name, add_entry, insert,
  replace_dir_sep, find, put,
}
use rsyncrypto.Filemap.Filling.{IsEntry, map_file, add_all, entry_of, fill_map-recover}
use rsyncrypto.Filemap.Names.{
  bin2hex, hex_digit, trim_leading, trim_trailing, combine_paths, nest_name, nest_loop,
}
use rsyncrypto.Filemap.Naming.{
  s_ifreg, new_encoding, encode, namecat_encrypt, IsPaired, encode-IsPaired,
}
use rsyncrypto.Recover.{printed, FileRecord, is_hex, is_dirsep, recover}
use rsyncrypto.Recover.Records.{IsHex, IsGood, file_of, recover-IsGood}
use rsyncrypto.Recover.Restoring.{recover_resync}

abbrev nothing : FileRecord
nothing = record { sep = 0; crypt = replicate 32 0; plain = [] }

-- "/AAAA…A ab"
abbrev first : FileRecord
first = record { sep = 47; crypt = replicate 32 65; plain = 97 ∷ 98 ∷ [] }

hexes : (n : ℕ) → All IsHex (replicate n 65)
unfolding is_hex
hexes zero = tt
hexes (suc n) = (refl, hexes n)

first-IsGood : IsGood first
unfolding is_dirsep
first-IsGood = record {
  sep_is = refl;
  crypt_is = hexes 32;
  crypt_size = refl;
  plain_is = (omega arith, (omega arith, tt));
  plain_size = omega arith;
}

abbrev damaged : Bytes
damaged = 32 ∷ 0 ∷ 47 ∷ 65 ∷ 66 ∷ []

recover_resync_example :
    recover nothing (damaged ++ (0 ∷ file_of (first ∷ [])))
    ≡ recover nothing (damaged ++ 0 ∷ []) ++ file_of (first ∷ [])
recover_resync_example = recover_resync nothing damaged (first ∷ []) refl (first-IsGood, tt)

recover-IsGood_example :
    (rs : List FileRecord) × All IsGood rs × (recover nothing (file_of (first ∷ [])) ≡ file_of rs)
recover-IsGood_example = recover-IsGood nothing (file_of (first ∷ [])) refl

abbrev listed : FileMap
listed = record { plainname = 97 ∷ []; ciphername = 65 ∷ 66 ∷ []; dirsep = 47 }

listed-IsEntry : IsEntry listed
listed-IsEntry = record {
  dirsep_is = (omega arith, omega arith);
  cipher_is = ((omega arith, omega arith), ((omega arith, omega arith), tt));
  plain_is = ((omega arith, omega arith), tt);
}

abbrev no_names : Maps
no_names = record { namemap = []; reversemap = [] }

fill_map-recover_example :
    (rs : List FileRecord) × All IsGood rs
    × (fill_map (some (recover nothing (damaged ++ (0 ∷ file_of (first ∷ []))))) false no_names
        ≡ add_all false (map entry_of rs) no_names)
fill_map-recover_example =
    fill_map-recover nothing (damaged ++ (0 ∷ file_of (first ∷ []))) false no_names refl

abbrev entropy_of : ℕ → Option Bytes
entropy_of i = some (i ∷ 175 ∷ [])

abbrev one_name : Maps
one_name = record {
  namemap =
      (97 ∷ [], record { plainname = 97 ∷ []; ciphername = 48 ∷ 48 ∷ 65 ∷ 70 ∷ []; dirsep = 47 })
      ∷ [];
  reversemap = (48 ∷ 48 ∷ 65 ∷ 70 ∷ [], 97 ∷ []) ∷ [];
}

encoded : encode entropy_of (97 ∷ []) no_names ≡ ok (48 ∷ 48 ∷ 65 ∷ 70 ∷ [], one_name)
unfolding encode new_encoding find put bin2hex hex_digit
encoded = refl

no_names-IsPaired : IsPaired no_names
unfolding find
no_names-IsPaired = record { named = λ p e q. absurd cc; back = λ p e q. absurd cc }

encode-IsPaired_example :
    IsPaired one_name × (find (48 ∷ 48 ∷ 65 ∷ 70 ∷ []) one_name.reversemap ≡ some (97 ∷ []))
encode-IsPaired_example =
    encode-IsPaired entropy_of (97 ∷ []) (48 ∷ 48 ∷ 65 ∷ 70 ∷ []) no_names one_name
      no_names-IsPaired encoded

-- "x/0/00AF" for "//a", with nesting 1.
abbrev nested : Bytes
nested = 120 ∷ 47 ∷ 48 ∷ 47 ∷ 48 ∷ 48 ∷ 65 ∷ 70 ∷ []

named :
    namecat_encrypt entropy_of 1 (120 ∷ []) (47 ∷ 47 ∷ 97 ∷ []) s_ifreg no_names
    ≡ ok (nested, one_name)
unfolding namecat_encrypt encode new_encoding find put bin2hex hex_digit trim_leading trim_trailing
    combine_paths nest_name nest_loop
named = refl

filled :
    fill_map (some (map_file (listed ∷ []))) true no_names
    ≡ ok (record { namemap = (97 ∷ [], listed) ∷ []; reversemap = (65 ∷ 66 ∷ [], 97 ∷ []) ∷ [] })
unfolding fill_map fill_loop read_entry read_plain read_name add_entry insert find put
    replace_dir_sep printed
filled = refl
