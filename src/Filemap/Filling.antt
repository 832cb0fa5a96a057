-- ===== src/Filemap/Filling.antt =====
-- Reading a file map: a well formed file is read record by record.
use rsyncrypto.Prelude.{
  ℕ, zero, suc, ◌≤◌, Bool, true, false, ◌||◌, Bytes, List, [], ◌∷◌, ◌++◌, map, Result, ok, err,
  ◌>>=◌, some, ◌==◌, length, All, ◌≡◌, ◌≢◌, refl, ◌∙◌, ap, arith, length-append, append_assoc,
}
use rsyncrypto.Filemap.{
  FileMap, Maps, read_name, read_plain, read_entry, add_entry, fill_loop, fill_map,
}
use rsyncrypto.Recover.{FileRecord, is_hex, is_dirsep, printed, recover}
use rsyncrypto.Recover.Records.{IsGood, IsHex, IsNotNul, file_of, recover-IsGood}

-- No character of a name stops it.
abbrev pub IsPlain : ℕ → ℕ → Type 0
IsPlain stop c = (c ≢ stop) × (c ≢ 0)

pub record IsEntry (e : FileMap) : Type 0 where
  pub dirsep_is : (e.dirsep ≢ 32) × (e.dirsep ≢ 0)
  pub cipher_is : All (IsPlain 32) e.ciphername
  pub plain_is : All (IsPlain 0) e.plainname

-- The records, as `write_map` writes them.
abbrev pub map_file : List FileMap → Bytes
map_file [] = []
map_file (e ∷ es) = printed e.dirsep e.ciphername e.plainname ++ map_file es

-- The records one after the other.
abbrev pub add_all : Bool → List FileMap → Maps → Result Maps
add_all encrypt [] m = ok m
add_all encrypt (e ∷ es) m = add_entry encrypt e m >>= λ m'. add_all encrypt es m'

read_name-append :
    (stop : ℕ) (name : Bytes) (c : ℕ) (rest : Bytes)
    → All (IsPlain stop) name
    → (c == stop || c == 0) ≡ true
    → read_name stop (name ++ (c ∷ rest)) ≡ (name, c ∷ rest)
unfolding read_name
read_name-append stop [] c rest h e = rw e refl
read_name-append stop (x ∷ name) c rest h e =
    let go_on : (x == stop || x == 0) ≡ false = ground (arith, h.0) in
    rw (go_on, read_name-append stop name c rest h.1 e) refl

read_plain-printed :
    (e : FileMap) (rest : Bytes)
    → IsEntry e
    → read_plain e.dirsep e.ciphername (e.plainname ++ (0 ∷ rest)) ≡ ok (e, rest)
unfolding read_plain
read_plain-printed e rest v =
    let named = read_name-append 0 e.plainname 0 rest v.plain_is refl in
    rw (read_plain, named, ap (λ (x : Bytes × Bytes). x.0) named) refl

read_entry-printed :
    (e : FileMap) (rest : Bytes)
    → IsEntry e
    → read_entry e.dirsep (e.ciphername ++ (32 ∷ (e.plainname ++ (0 ∷ rest)))) ≡ ok (e, rest)
unfolding read_entry
read_entry-printed e rest v =
    let starts : (e.dirsep == 32 || e.dirsep == 0) ≡ false = ground (arith, v.dirsep_is) in
    let named = read_name-append 32 e.ciphername 32 (e.plainname ++ (0 ∷ rest)) v.cipher_is refl in
    rw (starts, named, ap (λ (x : Bytes × Bytes). x.0) named) (read_plain-printed e rest v)

map_file-cons :
    (e : FileMap) (es : List FileMap)
    → map_file (e ∷ es) ≡ e.dirsep ∷ (e.ciphername ++ (32 ∷ (e.plainname ++ (0 ∷ map_file es))))
unfolding printed
map_file-cons e es =
    rw
      (
        append_assoc e.ciphername (32 ∷ (e.plainname ++ 0 ∷ [])) (map_file es),
        append_assoc e.plainname (0 ∷ []) (map_file es),
      )
      refl

fill_loop-cons :
    (fuel : ℕ) (encrypt : Bool) (dirsep : ℕ) (rest : Bytes) (m : Maps)
    → fill_loop (suc fuel) encrypt (dirsep ∷ rest) m ≡ (
        read_entry dirsep rest >>= λ (e, left).
        add_entry encrypt e m >>= λ m'. fill_loop fuel encrypt left m')
unfolding fill_loop
fill_loop-cons fuel encrypt dirsep rest m = refl

fill_loop-nil : (fuel : ℕ) (encrypt : Bool) (m : Maps) → fill_loop fuel encrypt [] m ≡ ok m
unfolding fill_loop
fill_loop-nil fuel encrypt m = refl

>>=_cong :
    {A B : Type 0} (r : Result A) {f g : A → Result B}
    → ((a : A) → f a ≡ g a)
    → (r >>= f) ≡ (r >>= g)
>>=_cong (err x) h = refl
>>=_cong (ok a) h = h a

fill_loop-map_file :
    (es : List FileMap) (fuel : ℕ) (encrypt : Bool) (m : Maps)
    → All IsEntry es
    → length (map_file es) ≤ fuel
    → fill_loop fuel encrypt (map_file es) m ≡ add_all encrypt es m
fill_loop-map_file [] fuel encrypt m v n = fill_loop-nil fuel encrypt m
fill_loop-map_file (e ∷ es) zero encrypt m v n =
    let l = ap length (map_file-cons e es) in absurd (omega (arith, l, n))
fill_loop-map_file (e ∷ es) (suc fuel) encrypt m v n =
    let rest = map_file es in
    let behind = e.plainname ++ (0 ∷ rest) in
    let l = ap length (map_file-cons e es) in
    let shorter : length rest ≤ fuel = omega (
      arith,
      l,
      n,
      length-append e.ciphername (32 ∷ behind),
      length-append e.plainname (0 ∷ rest),
    ) in
    rw (map_file-cons e es) (
      fill_loop-cons fuel encrypt e.dirsep (e.ciphername ++ (32 ∷ behind)) m
      ∙ rw (read_entry-printed e rest v.0) (
          >>=_cong (add_entry encrypt e m)
            (λ m'. fill_loop-map_file es fuel encrypt m' v.1 shorter)))

-- From any maps, a file of records whose separator is neither a space nor NUL, whose encrypted
-- names have no space and no NUL, and whose plain names have no NUL, is read as adding these
-- records one after the other.
pub fill_map-map_file :
    (es : List FileMap) (encrypt : Bool) (m : Maps)
    → All IsEntry es
    → fill_map (some (map_file es)) encrypt m ≡ add_all encrypt es m
unfolding fill_map
fill_map-map_file es encrypt m v =
    fill_loop-map_file es (length (map_file es)) encrypt m v (omega arith)

-- A recovered record as one of the map.
abbrev pub entry_of : FileRecord → FileMap
entry_of r = record { plainname = r.plain; ciphername = r.crypt; dirsep = r.sep }

hex-IsPlain : (cs : Bytes) → All IsHex cs → All (IsPlain 32) cs
unfolding is_hex
hex-IsPlain [] h = tt
hex-IsPlain (c ∷ cs) h = (ground (arith, h.0), hex-IsPlain cs h.1)

name-IsPlain : (cs : Bytes) → All IsNotNul cs → All (IsPlain 0) cs
name-IsPlain [] h = tt
name-IsPlain (c ∷ cs) h = ((h.0, h.0), name-IsPlain cs h.1)

entry_of-IsEntry : (r : FileRecord) → IsGood r → IsEntry (entry_of r)
unfolding is_dirsep
entry_of-IsEntry r g = record {
  dirsep_is = ground (arith, g.sep_is);
  cipher_is = hex-IsPlain r.crypt g.crypt_is;
  plain_is = name-IsPlain r.plain g.plain_is;
}

entries-IsEntry : (rs : List FileRecord) → All IsGood rs → All IsEntry (map entry_of rs)
entries-IsEntry [] g = tt
entries-IsEntry (r ∷ rs) g = (entry_of-IsEntry r g.0, entries-IsEntry rs g.1)

file_of-map_file : (rs : List FileRecord) → file_of rs ≡ map_file (map entry_of rs)
file_of-map_file [] = refl
file_of-map_file (r ∷ rs) =
    ap (λ (x : Bytes). printed r.sep r.crypt r.plain ++ x) (file_of-map_file rs)

-- Whatever the damaged file, and whatever 32 characters the record starts with, fill_map reads
-- what rsyncrypto_recover makes of it as good records and no others: the result is that of adding
-- them one after the other, so that no complaint about the form of the file is left.
pub fill_map-recover :
    (uninitialised : FileRecord) (damaged : Bytes) (encrypt : Bool) (m : Maps)
    → length uninitialised.crypt ≡ 32
    → (rs : List FileRecord) × All IsGood rs
      × (fill_map (some (recover uninitialised damaged)) encrypt m
          ≡ add_all encrypt (map entry_of rs) m)
fill_map-recover uninitialised damaged encrypt m h =
    let (rs, g, e) = recover-IsGood uninitialised damaged h in
    (
      rs,
      g,
      ap (λ (x : Bytes). fill_map (some x) encrypt m) (e ∙ file_of-map_file rs)
          ∙ fill_map-map_file (map entry_of rs) encrypt m (entries-IsEntry rs g),
    )
