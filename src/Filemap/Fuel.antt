-- ===== src/Filemap/Fuel.antt =====
-- The fuel of `fill_map` is enough.
use rsyncrypto.Prelude.{
  ℕ, zero, suc, ◌≤◌, Bool, Bytes, [], ◌∷◌, Result, ok, err, Error, ◌>>=◌, Option, none, some,
  length, ◌≡◌, ◌≢◌, refl, ap, arith,
}
use rsyncrypto.Filemap.{
  FileMap, Maps, insert, replace_dir_sep, read_name, read_plain, read_entry, add_entry, fill_loop,
  fill_map,
}

-- A result that is no lack of fuel.
abbrev Ends : {A : Type 0} → Result A → Type 0
Ends r = r ≢ err Error.out_of_fuel

>>=-Ends :
    {A B : Type 0} (r : Result A) (f : A → Result B)
    → Ends r
    → ((a : A) → r ≡ ok a → Ends (f a))
    → Ends (r >>= f)
>>=-Ends (err x) f h k = λ e. h cc
>>=-Ends (ok a) f h k = k a refl

read_name_le : (stop : ℕ) (b : Bytes) → length (read_name stop b).1 ≤ length b
unfolding read_name
read_name_le stop [] = omega arith
read_name_le stop (c ∷ rest) = ground (arith, read_name_le stop rest)

read_plain_le :
    (d : ℕ) (c left : Bytes) (e : FileMap) (behind : Bytes)
    → read_plain d c left ≡ ok (e, behind)
    → length behind ≤ length left
unfolding read_plain
read_plain_le d c left e behind q = ground (arith, read_name_le 0 left)

read_plain-Ends : (d : ℕ) (c left : Bytes) → Ends (read_plain d c left)
unfolding read_plain
read_plain-Ends d c left = ground arith

read_entry-Ends : (d : ℕ) (rest : Bytes) → Ends (read_entry d rest)
unfolding read_entry
read_entry-Ends d rest = ground (arith, read_plain-Ends d)

read_entry_le :
    (d : ℕ) (rest : Bytes) (e : FileMap) (left : Bytes)
    → read_entry d rest ≡ ok (e, left)
    → length left ≤ length rest
unfolding read_entry
read_entry_le d rest e left q = go (read_name 32 rest).1 refl
  where
    go : (b : Bytes) → (read_name 32 rest).1 ≡ b → length left ≤ length rest
    go [] p = ground arith
    go (x ∷ behind) p = ground (
      arith,
      ap length p,
      read_name_le 32 rest,
      read_plain_le d (read_name 32 rest).0 behind e left,
    )

replace_dir_sep-Ends : (path : Bytes) (d : ℕ) → Ends (replace_dir_sep path d)
unfolding replace_dir_sep
replace_dir_sep-Ends [] d = ground arith
replace_dir_sep-Ends (c ∷ path) d = ground (arith, replace_dir_sep-Ends path d)

add_entry-Ends : (encrypt : Bool) (e : FileMap) (m : Maps) → Ends (add_entry encrypt e m)
unfolding add_entry insert
add_entry-Ends encrypt e m =
    >>=-Ends (replace_dir_sep e.plainname e.dirsep) _ (replace_dir_sep-Ends e.plainname e.dirsep)
      (λ p q. ground arith)

fill_loop-Ends :
    (fuel : ℕ) (encrypt : Bool) (bytes : Bytes) (m : Maps)
    → length bytes ≤ fuel
    → Ends (fill_loop fuel encrypt bytes m)
unfolding fill_loop
fill_loop-Ends fuel encrypt [] m h = ground arith
fill_loop-Ends zero encrypt (c ∷ rest) m h = absurd (omega arith)
fill_loop-Ends (suc fuel) encrypt (c ∷ rest) m h =
    >>=-Ends (read_entry c rest) _ (read_entry-Ends c rest) (λ (e, left) q.
      >>=-Ends (add_entry encrypt e m) _ (add_entry-Ends encrypt e m) (λ m' w.
        fill_loop-Ends fuel encrypt left m' (omega (arith, h, read_entry_le c rest e left q))))

-- Whatever the file, the direction and the maps, fill_map gives maps or an error that the code
-- throws: the fuel never runs out.
pub fill_map-ne-out_of_fuel :
    (listfile : Option Bytes) (encrypt : Bool) (m : Maps)
    → fill_map listfile encrypt m ≢ err Error.out_of_fuel
unfolding fill_map
fill_map-ne-out_of_fuel none encrypt m = ground arith
fill_map-ne-out_of_fuel (some listfile) encrypt m =
    fill_loop-Ends (length listfile) encrypt listfile m (omega arith)
