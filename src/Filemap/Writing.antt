-- ===== src/Filemap/Writing.antt =====
-- `filemap::write_map` of filemap.cpp.
use rsyncrypto.Prelude.{
  Bytes, [], ◌∷◌, ◌++◌, Result, ok, err, Error, none, some, ◌==◌, if◌then◌else◌, length, Bool,
  false, List, All, ◌≡◌, ◌≢◌, refl, sym, ◌∙◌, ap, append_assoc, append-nil, arith,
}
use rsyncrypto.Recover.{printed}
use rsyncrypto.Filemap.{fill_map}
use rsyncrypto.Filemap.Filling.{IsEntry, map_file, add_all, fill_map-map_file}
use rsyncrypto.Filemap.{FileMap, Maps, Dict, find}

-- A record, behind what was written before: a `write` of nothing is an error.
unfoldable pub write_entry : FileMap → Bytes → Result (Unit {0}) × Bytes
write_entry e file =
    if length e.ciphername == 0
    then (err Error.write_failed, file ++ e.dirsep ∷ [])
    else if length e.plainname == 0
    then (err Error.write_failed, file ++ (e.dirsep ∷ (e.ciphername ++ (32 ∷ []))))
    else (ok tt, file ++ (e.dirsep ∷ (e.ciphername ++ (32 ∷ (e.plainname ++ 0 ∷ [])))))

-- What `filemap()` makes, which `namemap[…]` inserts for a name that is not there.
abbrev pub blank : FileMap
blank = record { plainname = []; ciphername = []; dirsep = 0 }

-- `namemap[i->second]`
unfoldable pub stored_entry : Dict FileMap → Bytes → FileMap
unfolding find
stored_entry namemap name = elim (find name namemap) [ none ↦ blank | some e ↦ e ]

-- The loop over `reversemap`, with what was written before.
unfoldable pub write_loop : Dict FileMap → Dict Bytes → Bytes → Result (Unit {0}) × Bytes
unfolding stored_entry write_entry
write_loop namemap [] file = (ok tt, file)
write_loop namemap ((k, name) ∷ rest) file =
    let (result, written) = write_entry (stored_entry namemap name) file in
    let more = write_loop namemap rest written in
    elim result [ err x ↦ (err x, written) | ok done ↦ more ]

-- `filemap::write_map`: what is in the file afterwards, and the error.
unfoldable pub write_map : Maps → Result (Unit {0}) × Bytes
unfolding write_loop
write_map m = write_loop m.namemap m.reversemap []

abbrev pub entries : Dict FileMap → Dict Bytes → List FileMap
entries namemap [] = []
entries namemap ((k, name) ∷ rest) = stored_entry namemap name ∷ entries namemap rest

abbrev pub IsWritable : FileMap → Type 0
IsWritable e = IsEntry e × (e.ciphername ≢ []) × (e.plainname ≢ [])

length-ne : (b : Bytes) → b ≢ [] → (length b == 0) ≡ false
length-ne [] h = absurd (h refl)
length-ne (c ∷ b) h = ground arith

write_entry_whole :
    (e : FileMap) (file : Bytes)
    → IsWritable e
    → write_entry e file ≡ (ok tt, file ++ printed e.dirsep e.ciphername e.plainname)
unfolding write_entry printed
write_entry_whole e file h = rw (length-ne e.ciphername h.1, length-ne e.plainname h.2) refl

write_loop-map_file :
    (namemap : Dict FileMap) (reversemap : Dict Bytes) (file : Bytes)
    → All IsWritable (entries namemap reversemap)
    → write_loop namemap reversemap file ≡ (ok tt, file ++ map_file (entries namemap reversemap))
unfolding write_loop printed
write_loop-map_file namemap [] file h = ap (λ (b : Bytes). (ok tt, b)) (sym (append-nil file))
write_loop-map_file namemap ((k, name) ∷ rest) file h =
    let e = stored_entry namemap name in
    let go_on : Result (Unit {0}) × Bytes → Result (Unit {0}) × Bytes = λ (result, written).
      elim result [ err x ↦ (err x, written) | ok done ↦ write_loop namemap rest written ] in
    ap go_on (write_entry_whole e file h.0)
    ∙ write_loop-map_file namemap rest (file ++ printed e.dirsep e.ciphername e.plainname) h.1
    ∙ ap (λ (b : Bytes). (ok tt, b)) (append_assoc file _ (map_file (entries namemap rest)))

All-IsEntry : (es : List FileMap) → All IsWritable es → All IsEntry es
All-IsEntry [] h = tt
All-IsEntry (e ∷ es) h = (h.0.0, All-IsEntry es h.1)

-- If the entries that write_map finds for the encrypted names have names that are not empty and
-- have no NUL, no space in the encrypted names, and separators other than a space and NUL, then
-- write_map throws nothing, and fill_map reads its file as adding these entries one after the
-- other, to any maps and for either direction.
pub fill_map-write_map :
    (encrypt : Bool) (m m' : Maps)
    → All IsWritable (entries m.namemap m.reversemap)
    → ((write_map m).0 ≡ ok tt)
      × (fill_map (some (write_map m).1) encrypt m'
          ≡ add_all encrypt (entries m.namemap m.reversemap) m')
unfolding write_map
fill_map-write_map encrypt m m' h =
    let w = write_loop-map_file m.namemap m.reversemap [] h in
    (
      ap (λ (r : Result (Unit {0}) × Bytes). r.0) w,
      ap (λ (r : Result (Unit {0}) × Bytes). fill_map (some r.1) encrypt m') w
          ∙ fill_map-map_file (entries m.namemap m.reversemap) encrypt m' (All-IsEntry _ h),
    )
