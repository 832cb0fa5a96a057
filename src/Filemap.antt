-- ===== src/Filemap.antt =====
-- filemap.h and filemap.cpp: the file map, which gives each plain name its encrypted name.
-- `DIRSEP_C` is the slash; the maps are sorted association lists, as `std::map`.
pub mod Names
pub mod Filling
pub mod Finding
pub mod Naming
pub mod Paired
pub mod Fuel
pub mod Decoding
pub mod Nested
pub mod Range
pub mod Writing
pub mod Kept
pub mod Drawn
pub mod Surviving
use rsyncrypto.Prelude.{
  ℕ, zero, suc, ◌+◌, ◌-◌, ◌/◌, ◌%◌, Bool, true, false, ◌&&◌, ◌||◌, not, Bytes, bytes_eq, List, [],
  ◌∷◌, ◌++◌, Result, ok, err, Error, ◌>>=◌, Option, none, some, ◌==◌, ltb, if◌then◌else◌, length,
  take, drop, get_or,
}

abbrev pub dirsep_c : ℕ
dirsep_c = 47

-- `class filemap`
pub record FileMap : Type 0 where
  pub plainname : Bytes
  pub ciphername : Bytes
  pub dirsep : ℕ

-- `replace_dir_sep`
unfoldable pub replace_dir_sep : Bytes → ℕ → Result Bytes
replace_dir_sep [] dirsep = ok []
replace_dir_sep (c ∷ path) dirsep =
    let rest = replace_dir_sep path dirsep in
    if dirsep == dirsep_c
    then ok (c ∷ path)
    else if c == dirsep_c
    then err Error.untranslateable_name
    else rest >>= λ path'. ok ((if c == dirsep then dirsep_c else c) ∷ path')

-- `operator<` of two `std::string`s.
unfoldable pub less : Bytes → Bytes → Bool
less [] [] = false
less [] (y ∷ ys) = true
less (x ∷ xs) [] = false
less (x ∷ xs) (y ∷ ys) = ltb x y || (x == y && less xs ys)

-- A `std::map` from strings.
abbrev pub Dict : Type 0 → Type 0
Dict V = List (Bytes × V)

unfoldable pub find : {V : Type 0} → Bytes → Dict V → Option V
find k [] = none
find k ((k', v) ∷ m) = if bytes_eq k k' then some v else find k m

-- `m[k]=v`
unfoldable pub put : {V : Type 0} → Bytes → V → Dict V → Dict V
put k v [] = (k, v) ∷ []
put k v ((k', v') ∷ m) =
    if bytes_eq k k'
    then (k, v) ∷ m
    else if less k k'
    then (k, v) ∷ (k', v') ∷ m
    else (k', v') ∷ put k v m

-- `m.insert(…)`, with what is thrown if the key is there.
unfoldable pub insert : {V : Type 0} → Error → Bytes → V → Dict V → Result (Dict V)
unfolding find put
insert e k v m = elim (find k m) [ none ↦ ok (put k v m) | some _ ↦ err e ]

-- `namemap` and `reversemap`
pub record Maps : Type 0 where
  pub namemap : Dict FileMap
  pub reversemap : Dict Bytes

-- `for( i=0; … (ch=listfile.get_uc()[offset+i])!=stop && ch!='\0'; ++i )`: what stands before the stop,
-- and what is left from there on.
unfoldable pub read_name : ℕ → Bytes → Bytes × Bytes
read_name stop [] = ([], [])
read_name stop (c ∷ rest) =
    let (name, left) = read_name stop rest in
    if c == stop || c == 0 then ([], c ∷ rest) else (c ∷ name, left)

-- The plain name with its terminator.
unfoldable pub read_plain : ℕ → Bytes → Bytes → Result (FileMap × Bytes)
unfolding read_name
read_plain dirsep ciphername left =
    let (plainname, behind) = read_name 0 left in
    elim behind [
      | [] ↦ err Error.not_null_terminated
      | c ∷ rest ↦
          ok (record { plainname = plainname; ciphername = ciphername; dirsep = dirsep }, rest)
    ]

-- One record, without the translation of its separators.
unfoldable pub read_entry : ℕ → Bytes → Result (FileMap × Bytes)
unfolding read_name read_plain
read_entry dirsep rest =
    if dirsep == 32 || dirsep == 0
    then err Error.corrupt_filemap
    else (let (ciphername, behind) = read_name 32 rest in
        elim behind [
          | [] ↦ err Error.no_plaintext_file
          | c ∷ left ↦
              if c == 32 then read_plain dirsep ciphername left else err Error.no_plaintext_file
        ])

-- What is done with the record: the key depends on the direction.
unfoldable pub add_entry : Bool → FileMap → Maps → Result Maps
unfolding insert replace_dir_sep
add_entry encrypt e m = replace_dir_sep e.plainname e.dirsep >>= λ plainname.
    let entry : FileMap = record {
      plainname = plainname;
      ciphername = e.ciphername;
      dirsep = e.dirsep;
    } in
    insert Error.duplicate_key (if encrypt then plainname else e.ciphername) entry m.namemap
    >>= λ namemap.
        if encrypt
        then (insert Error.duplicate_encrypted_name e.ciphername plainname m.reversemap
            >>= λ reversemap. ok (record { namemap = namemap; reversemap = reversemap }))
        else ok (record { namemap = namemap; reversemap = m.reversemap })

-- `while( offset<listfile.getsize() )`, on fuel.
unfoldable pub fill_loop : ℕ → Bool → Bytes → Maps → Result Maps
unfolding read_entry add_entry
fill_loop fuel encrypt [] m = ok m
fill_loop zero encrypt (dirsep ∷ rest) m = err Error.out_of_fuel
fill_loop (suc fuel) encrypt (dirsep ∷ rest) m = read_entry dirsep rest >>= λ (e, left).
    add_entry encrypt e m >>= λ m'. fill_loop fuel encrypt left m'

-- `filemap::fill_map`: the content of the file, if there is one.
unfoldable pub fill_map : Option Bytes → Bool → Maps → Result Maps
unfolding fill_loop
fill_map none encrypt m = ok m
fill_map (some listfile) encrypt m = fill_loop (length listfile) encrypt listfile m
