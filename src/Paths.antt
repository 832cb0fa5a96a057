-- ===== src/Paths.antt =====
-- The functions on path names of autofd.h and file.cpp. A path is the string in front of its NUL, and
-- `DIRSEP_C` is the slash.
pub mod Trim
use rsyncrypto.Prelude.{
  ℕ, zero, suc, ◌+◌, ◌-◌, ◌≤◌, Bool, true, false, not, ◌&&◌, ◌||◌, Bytes, List, [], ◌∷◌, ◌++◌,
  Result, ok, err, Error, ◌>>=◌, ◌==◌, ltb, if◌then◌else◌, length, take, drop, get_or,
}
use rsyncrypto.Filemap.{dirsep_c}
use rsyncrypto.Filemap.Names.{combine_paths}

-- The `do` loop of `calc_trim` from the rest of the path: `trim_count` is above 0, `after` says that
-- `ret` is not 0 and that the character before it is no separator.
unfoldable pub trim_loop : ℕ → Bool → ℕ → Bytes → Result (ℕ × Bytes)
trim_loop trim_count after ret [] =
    if (if after then trim_count - 1 else trim_count) == 0
    then ok (ret, [])
    else err Error.not_enough_directories
trim_loop trim_count after ret (c ∷ rest) =
    let trim_count' = if after && c == dirsep_c then trim_count - 1 else trim_count in
    let more = trim_loop trim_count' (not (c == dirsep_c)) (ret + 1) rest in
    if trim_count' == 0 then ok (ret, c ∷ rest) else more

-- `while( path[ret]==DIRSEP_C ) ret++;`
unfoldable pub skip_seps : ℕ → Bytes → ℕ
skip_seps ret [] = ret
skip_seps ret (c ∷ rest) =
    let more = skip_seps (ret + 1) rest in if c == dirsep_c then more else ret

-- `calc_trim`, with a trim of at least 0.
unfoldable pub calc_trim : Bytes → ℕ → Result ℕ
unfolding trim_loop skip_seps
calc_trim path trim_count =
    if length path == 0
    then err Error.trim_empty_path
    else if trim_count == 0
    then ok 0
    else (trim_loop trim_count false 0 path >>= λ (ret, rest). ok (skip_seps ret rest))

-- `autofd::dirpart`, from the character at `i`.
unfoldable pub dirpart_loop : ℕ → ℕ → Bytes → ℕ
dirpart_loop i last [] = last
dirpart_loop i last (c ∷ path) = dirpart_loop (i + 1) (if c == dirsep_c then i else last) path

unfoldable pub dirpart : Bytes → ℕ
unfolding dirpart_loop
dirpart path = dirpart_loop 0 0 path

-- The loop of `autofd::mkpath`: the directories that are made, from the character at `sublen`.
unfoldable pub mkpath_loop : Bytes → ℕ → Bytes → List Bytes
mkpath_loop path sublen [] = []
mkpath_loop path sublen (c ∷ rest) =
    let more = mkpath_loop path (sublen + 1) rest in
    if ltb 0 sublen && (c == dirsep_c && not (get_or rest 0 0 == dirsep_c))
    then take sublen path ∷ more
    else more

-- All calls of `mkdir` in `autofd::mkpath`, in their order.
unfoldable pub mkpath_dirs : Bytes → List Bytes
unfolding mkpath_loop
mkpath_dirs [] = []
mkpath_dirs (c ∷ path) = mkpath_loop (c ∷ path) 0 (c ∷ path) ++ (c ∷ path) ∷ []

-- `autofd::is_absolute`
unfoldable pub is_absolute : Bytes → Bool
is_absolute path = get_or path 0 0 == dirsep_c

-- `name_concat`; no caller passes a null pointer.
unfoldable pub name_concat : Bytes → Bytes → Bytes
unfolding combine_paths
name_concat left right =
    if length right == 0 then left else if length left == 0 then right else combine_paths left right

-- `cond_name_concat`
unfoldable pub cond_name_concat : Bytes → Bytes → Bool → Bytes
unfolding name_concat
cond_name_concat left right abs = if abs then right else name_concat left right

-- `left_only_concat`
unfoldable pub left_only_concat : Bytes → Bytes → Bool → Bytes
left_only_concat left right abs = left
