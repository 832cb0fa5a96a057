-- ===== src/Windows/Paths.antt =====
-- The functions on path names of win32/autofd.cpp and win32/autofd.h; `DIRSEP_C` is the backslash.
pub mod Swapped
use rsyncrypto.Prelude.{
  ℕ, zero, suc, ◌+◌, ◌-◌, Bool, true, false, not, ◌&&◌, ◌||◌, Bytes, List, [], ◌∷◌, ◌++◌, reverse,
  Result, ok, err, Error, Option, none, some, ◌==◌, ltb, if◌then◌else◌, length, take, get_or, u64,
  ◌≡◌,
}
use rsyncrypto.Windows.Errors.{error_to_errno, already_exists, invalid_drive}

abbrev pub dirsep_c : ℕ
dirsep_c = 92

unfoldable pub trim_leading : Bytes → Bytes
trim_leading [] = []
trim_leading (c ∷ rest) = if c == dirsep_c then trim_leading rest else c ∷ rest

-- The loop from the end, which keeps the first character.
unfoldable pub trim_trailing : Bytes → Bytes
unfolding trim_leading
trim_trailing [] = []
trim_trailing (c ∷ rest) = c ∷ reverse (trim_leading (reverse rest))

-- `autofd::combine_paths`
unfoldable pub combine_paths : Bytes → Bytes → Bytes
unfolding trim_leading trim_trailing
combine_paths left right =
    let ret = trim_trailing left in
    (if ltb 0 (length ret) then ret ++ dirsep_c ∷ [] else ret) ++ trim_leading right

-- `autofd::dirpart`, from the character at `i`.
unfoldable pub dirpart_loop : ℕ → ℕ → Bytes → ℕ
dirpart_loop i last [] = last
dirpart_loop i last (c ∷ path) = dirpart_loop (i + 1) (if c == dirsep_c then i else last) path

unfoldable pub dirpart : Bytes → ℕ
unfolding dirpart_loop
dirpart path = dirpart_loop 0 0 path

-- `autofd::is_absolute`; behind the end of the path stands its NUL.
unfoldable pub is_absolute : Bytes → Bool
is_absolute path = get_or path 0 0 == 92 || (not (get_or path 0 0 == 0) && get_or path 1 0 == 58)

-- `mkpath_actual`, from what `CreateDirectory` reports if it fails.
unfoldable pub mkpath_actual : Bytes → Option ℕ → Result (Unit {0})
unfolding error_to_errno
mkpath_actual path none = ok tt
mkpath_actual path (some error) =
    if not (error == already_exists)
      && (not (length path == 2) || (not (get_or path 1 0 == 58) || error == invalid_drive))
    then err (Error.system (error_to_errno error))
    else ok tt

-- The system as `CreateDirectory` sees it.
module _ (S : Type 0) (create_directory : Bytes → S → Option ℕ × S) where
  -- The loop of `autofd::mkpath`, from the character at `sublen`, and the call behind it.
  unfoldable pub mkpath_loop : Bytes → ℕ → Bytes → S → Result (Unit {0}) × S
  unfolding mkpath_actual
  mkpath_loop path sublen [] s =
      let (res, s') = create_directory path s in (mkpath_actual path res, s')
  mkpath_loop path sublen (c ∷ rest) s =
      let subpath = take sublen path in
      let (res, s') = create_directory subpath s in
      let made = mkpath_loop path (sublen + 1) rest s' in
      let passed = mkpath_loop path (sublen + 1) rest s in
      if ltb 0 sublen && (c == dirsep_c && not (get_or rest 0 0 == dirsep_c))
      then elim (mkpath_actual subpath res) [ ok u ↦ made | err e ↦ (err e, s') ]
      else passed

  -- `autofd::mkpath`
  unfoldable pub mkpath : Bytes → S → Result (Unit {0}) × S
  unfolding mkpath_loop
  mkpath [] s = (ok tt, s)
  mkpath (c ∷ path) s = mkpath_loop (c ∷ path) 0 (c ∷ path) s
