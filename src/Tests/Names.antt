-- ===== src/Tests/Names.antt =====
-- The theorems on names, the entries of the file map and the command line at concrete data.
use rsyncrypto.Prelude.{
  ℕ, ◌≤◌, ◌<◌, ◌+◌, length, err, Error, true, false, not, ◌&&◌, ◌||◌, Bytes, bytes_eq, [], ◌∷◌, ok,
  none, some, Option, ◌≡◌, ◌≢◌, refl, sym, ◌∙◌, arith, All,
}
use rsyncrypto.Filemap.{Maps, Dict, find, less, fill_map}
use rsyncrypto.Filemap.Naming.{s_ifreg}
use rsyncrypto.Filemap.Names.{nest_name, combine_paths}
use rsyncrypto.Filemap.Range.{
  group_name, group_entries, with_prefix, group_entries-with_prefix, IsSorted,
}
use rsyncrypto.Filemap.Writing.{entries, stored_entry, write_map, fill_map-write_map, IsWritable}
use rsyncrypto.Filemap.Filling.{add_all, IsPlain}
use rsyncrypto.Filemap.Decoding.{namecat_decrypt}
use rsyncrypto.Filemap.Names.{trim_leading}
use rsyncrypto.Filemap.Naming.{namecat_encrypt}
use rsyncrypto.Filemap.Nested.{nest_name-bounds}
use rsyncrypto.Filemap.Drawn.{IsDrawing}
use rsyncrypto.Filemap.Surviving.{IsKept, namecat_encrypt-survives}
use rsyncrypto.Paths.{calc_trim}
use rsyncrypto.Paths.Trim.{Step, calc_trim-steps}
use rsyncrypto.CommandLine.{Arguments, exists, check_decrypt, with_defaults, runs, parse_cmdline}
use rsyncrypto.CommandLine.Checks.{parse_cmdline-checks}
use rsyncrypto.Tests.Disk.{no_maps}

abbrev dir_name : Bytes
dir_name = 100 ∷ []

abbrev word : ℕ → Bytes
word c = c ∷ []

-- "a", "d/x", "d0"
abbrev three : Dict ℕ
three = (word 97, 1) ∷ (100 ∷ 47 ∷ 120 ∷ [], 2) ∷ (100 ∷ 48 ∷ [], 3) ∷ []

three-IsSorted : IsSorted three
unfolding less
three-IsSorted = ((refl, (refl, tt)), ((refl, tt), (tt, tt)))

group_ne : group_name (100 ∷ 47 ∷ []) ≢ 47 ∷ []
unfolding group_name
group_ne e = cc

group_entries-with_prefix_example :
    group_entries (100 ∷ 47 ∷ []) three ≡ with_prefix (group_name (100 ∷ 47 ∷ [])) three
group_entries-with_prefix_example =
    group_entries-with_prefix (100 ∷ 47 ∷ []) three three-IsSorted group_ne

abbrev two_maps : Maps
two_maps = record {
  namemap = (word 97, record { plainname = word 97; ciphername = word 66; dirsep = 47 }) ∷ [];
  reversemap = (word 66, word 97) ∷ [];
}

two_maps-IsWritable : All IsWritable (entries two_maps.namemap two_maps.reversemap)
unfolding stored_entry find
two_maps-IsWritable = (
  (
    record {
      dirsep_is = ((λ e. omega (arith, e)), (λ e. omega (arith, e)));
      cipher_is = (((λ e. omega (arith, e)), (λ e. omega (arith, e))), tt);
      plain_is = (((λ e. omega (arith, e)), (λ e. omega (arith, e))), tt);
    },
    (λ e. cc),
    (λ e. cc),
  ),
  tt,
)

fill_map-write_map_example :
    ((write_map two_maps).0 ≡ ok tt)
    × (fill_map (some (write_map two_maps).1) true no_maps
        ≡ add_all true (entries two_maps.namemap two_maps.reversemap) no_maps)
fill_map-write_map_example = fill_map-write_map true two_maps no_maps two_maps-IsWritable

-- "/a//b"
abbrev step : Step
step = record { name = word 97; seps = 1 }

calc_trim-steps_example : calc_trim (47 ∷ 97 ∷ 47 ∷ 47 ∷ 98 ∷ []) 1 ≡ ok 4
calc_trim-steps_example =
    calc_trim-steps 1 step [] (word 98)
      (record { some = omega arith; chars = ((λ e. omega (arith, e)), tt) }) tt
      (λ e. omega (arith, e))

abbrev given : Arguments
given = record {
  help = false;
  version = false;
  fr = false;
  fk = false;
  noarch = false;
  risky_writes = false;
  recurse = true;
  decrypt = true;
  changed = false;
  del = false;
  delkey = true;
  filelist = none;
  nameenc = some (word 110);
  export_changes = none;
  keysize = none;
  rollwin = none;
  rollsens = none;
  rollmin = some 4096;
  trim = none;
  nenest = none;
  mod_win = none;
  noatime = none;
  src = word 97;
  dst = word 98;
  key = word 107;
  master = word 109;
}

given_runs : parse_cmdline 0 given ≡ ok (runs (with_defaults given))
unfolding parse_cmdline check_decrypt
given_runs = refl

parse_cmdline-checks_example :
    (((with_defaults given).decrypt
        && ((with_defaults given).fr
            || ((with_defaults given).fk
                || (exists given.keysize || (with_defaults given).export_changes))))
      ≡ false)
    × ((exists (with_defaults given).nameenc
          && (not (with_defaults given).recurse && not (exists (with_defaults given).filelist)))
        ≡ false)
    × (((with_defaults given).decrypt
          && (bytes_eq (with_defaults given).src (45 ∷ [])
              && (not (exists (with_defaults given).filelist) && not (with_defaults given).noarch)))
        ≡ false)
    × (((with_defaults given).delkey && not (with_defaults given).del) ≡ false)
parse_cmdline-checks_example = parse_cmdline-checks 0 given (with_defaults given) given_runs

-- What is drawn each time: its name is "12AB".
abbrev draws : ℕ → Option Bytes
draws i = some (18 ∷ 171 ∷ [])

abbrev drawn_name : Bytes
drawn_name = 49 ∷ 50 ∷ 65 ∷ 66 ∷ []

draws-IsDrawing : IsDrawing draws
draws-IsDrawing i b e =
    let is : 18 ∷ 171 ∷ [] ≡ b = cc in rw (← is) ((omega arith, (omega arith, tt)), (λ z. cc))

found_nowhere : {V : Type 0} (k : Bytes) (v : V) → find k [] ≢ some v
unfolding find
found_nowhere k v e = cc

no_maps-IsKept : IsKept no_maps
no_maps-IsKept = record {
  paired = record {
    named = λ p e q. absurd (found_nowhere p e q);
    back = λ p e q. absurd (found_nowhere p e q);
  };
  sorted = tt;
  rows = tt;
}

abbrev one_name : Maps
one_name = record {
  namemap = (word 97, record { plainname = word 97; ciphername = drawn_name; dirsep = 47 }) ∷ [];
  reversemap = (drawn_name, word 97) ∷ [];
}

-- "/a" is "d/1/12AB".
one_encrypted :
    namecat_encrypt draws 1 dir_name (47 ∷ 97 ∷ []) s_ifreg no_maps
    ≡ ok (100 ∷ 47 ∷ 49 ∷ 47 ∷ drawn_name, one_name)
unfolding namecat_encrypt
one_encrypted = refl

trimmed : trim_leading (47 ∷ 97 ∷ []) ≡ word 97
unfolding trim_leading
trimmed = refl

trimmed-IsPlain : All (IsPlain 0) (trim_leading (47 ∷ 97 ∷ []))
trimmed-IsPlain = rw (trimmed) (((λ e. omega (arith, e)), (λ e. omega (arith, e))), tt)

trimmed_some : trim_leading (47 ∷ 97 ∷ []) ≢ []
trimmed_some e = cc (sym trimmed ∙ e)

namecat_encrypt-survives_example :
    IsKept one_name
    × ((write_map one_name).0 ≡ ok tt)
    × ((c : Bytes) × (nested : Bytes) × (m' : Maps) × (nest_name 1 c ≡ ok nested)
        × (100 ∷ 47 ∷ 49 ∷ 47 ∷ drawn_name ≡ combine_paths dir_name nested)
        × (fill_map (some (write_map one_name).1) false (record { namemap = []; reversemap = [] })
            ≡ ok m')
        × (namecat_decrypt (word 101) nested s_ifreg m'.namemap
            ≡ ok (combine_paths (word 101) (trim_leading (47 ∷ 97 ∷ [])))))
namecat_encrypt-survives_example =
    namecat_encrypt-survives draws 1 dir_name (word 101) (47 ∷ 97 ∷ [])
      (100 ∷ 47 ∷ 49 ∷ 47 ∷ drawn_name) no_maps one_name no_maps-IsKept draws-IsDrawing trimmed_some
      trimmed-IsPlain one_encrypted

nest_name-bounds_example :
    (3 ≤ length drawn_name + 1 → (nested : Bytes) × (nest_name 3 drawn_name ≡ ok nested))
    × (length drawn_name + 1 < 3 → nest_name 3 drawn_name ≡ err Error.out_of_bounds)
nest_name-bounds_example = nest_name-bounds 3 drawn_name
