-- ===== src/Filemap/Decoding.antt =====
-- `filemap::namecat_decrypt`, and the way back from an encrypted name.
use rsyncrypto.Prelude.{
  ℕ, false, ◌||◌, Bytes, bytes_eq, [], ◌∷◌, ◌++◌, Result, ok, err, Error, ◌>>=◌, none, some, ◌==◌,
  if◌then◌else◌, length, All, ◌≡◌, ◌≢◌, refl, arith,
}
use rsyncrypto.Filemap.{FileMap, Dict, find, dirsep_c}
use rsyncrypto.Filemap.Names.{trim_leading, combine_paths}
use rsyncrypto.Filemap.Naming.{Mode, s_ifreg, s_ifdir, s_iflnk, other}

-- `FILEMAPNAME`: "filemap"
abbrev pub filemapname : Bytes
filemapname = 102 ∷ 105 ∷ 108 ∷ 101 ∷ 109 ∷ 97 ∷ 112 ∷ []

-- The loop for the file part: `rest` is `right+skip`. Behind a separator the loop goes on at the
-- second character.
unfoldable pub file_part : Bytes → Bytes → Result Bytes
file_part right [] = ok right
file_part right (c ∷ []) = if c == dirsep_c then err Error.out_of_bounds else ok right
file_part right (c ∷ d ∷ rest) =
    let behind = file_part (d ∷ rest) rest in
    let same = file_part right (d ∷ rest) in if c == dirsep_c then behind else same

-- What stands behind the loop.
unfoldable pub decode : Bytes → Bytes → Dict FileMap → Result Bytes
unfolding find combine_paths
decode left right namemap =
    if length right == 0 || bytes_eq right filemapname then ok [] else elim (find right namemap) [
      | none ↦ err Error.translation_not_found
      | some e ↦ ok (combine_paths left e.plainname)
    ]

-- `filemap::namecat_decrypt`
unfoldable pub namecat_decrypt : Bytes → Bytes → Mode → Dict FileMap → Result Bytes
unfolding file_part decode trim_leading combine_paths
namecat_decrypt left right s_ifreg namemap =
    file_part (trim_leading right) (trim_leading right) >>= λ name. decode left name namemap
namecat_decrypt left right s_ifdir namemap = ok (combine_paths left right)
namecat_decrypt left right s_iflnk namemap = ok (combine_paths left right)
namecat_decrypt left right other namemap = ok (combine_paths left right)

abbrev pub IsNamed : Bytes → Type 0
IsNamed b = All (λ (c : ℕ). c ≢ dirsep_c) b

-- A name is not cut.
pub file_part_name : (right rest : Bytes) → IsNamed rest → file_part right rest ≡ ok right
unfolding file_part
file_part_name right [] v = refl
file_part_name right (c ∷ []) v = ground (arith, v.0)
file_part_name right (c ∷ d ∷ rest) v =
    let no : (c == dirsep_c) ≡ false = ground (arith, v.0) in
    rw no (file_part_name right (d ∷ rest) v.1)

-- A directory in front is left out; the character behind the separator is not looked at.
pub file_part_step :
    (right name : Bytes) (d : ℕ) (rest : Bytes)
    → IsNamed name
    → file_part right (name ++ (dirsep_c ∷ d ∷ rest)) ≡ file_part (d ∷ rest) rest
unfolding file_part
file_part_step right [] d rest v = refl
file_part_step right (c ∷ []) d rest v = ground (arith, v.0)
file_part_step right (c ∷ c' ∷ name) d rest v =
    let no : (c == dirsep_c) ≡ false = ground (arith, v.0) in
    rw no (file_part_step right (c' ∷ name) d rest v.1)

pub trim_leading_name : (c : ℕ) (rest : Bytes) → c ≢ dirsep_c → trim_leading (c ∷ rest) ≡ c ∷ rest
unfolding trim_leading
trim_leading_name c rest h = let no : (c == dirsep_c) ≡ false = ground arith in rw no refl
