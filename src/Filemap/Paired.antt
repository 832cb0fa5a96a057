-- ===== src/Filemap/Paired.antt =====
-- The two maps stay in step while a file map is read for encryption.
use rsyncrypto.Prelude.{
  ℕ, zero, suc, true, Bytes, [], ◌∷◌, ok, err, Error, returned_lem, Option, none, some, length, ◌≡◌,
  refl, sym, ◌∙◌, subst,
}
use rsyncrypto.Filemap.{
  FileMap, Maps, Dict, find, put, insert, replace_dir_sep, read_entry, add_entry, fill_loop,
  fill_map,
}
use rsyncrypto.Filemap.Naming.{IsPaired, extended, extended-IsPaired}

insert_lem :
    {V : Type 0} (x : Error) (k : Bytes) (v : V) (m m' : Dict V)
    → insert x k v m ≡ ok m'
    → (find k m ≡ none) × (put k v m ≡ m')
unfolding insert
insert_lem {V} x k v m m' e = go (find k m) refl
  where
    known : (v' : V) → find k m ≡ some v' → insert x k v m ≡ err x
    known v' q = rw (insert, q) refl

    new : find k m ≡ none → insert x k v m ≡ ok (put k v m)
    new q = rw (insert, q) refl

    go : (o : Option V) → find k m ≡ o → (find k m ≡ none) × (put k v m ≡ m')
    go (some v') q = absurd (cc (sym (known v' q) ∙ e))
    go none q = (q, cc (sym (new q) ∙ e))

add_entry-IsPaired :
    (e : FileMap) (m m' : Maps) → IsPaired m → add_entry true e m ≡ ok m' → IsPaired m'
unfolding add_entry
add_entry-IsPaired e m m' v q =
    let (plainname, w, q1) = returned_lem (replace_dir_sep e.plainname e.dirsep) _ m' q in
    let entry : FileMap = record {
      plainname = plainname;
      ciphername = e.ciphername;
      dirsep = e.dirsep;
    } in
    let (names, w1, q2) =
      returned_lem (insert Error.duplicate_key plainname entry m.namemap) _ m' q1 in
    let (back, w2, q3) =
      returned_lem (insert Error.duplicate_encrypted_name e.ciphername plainname m.reversemap) _ m'
        q2 in
    let (_, x) = insert_lem Error.duplicate_key plainname entry m.namemap names w1 in
    let (fresh, y) =
      insert_lem Error.duplicate_encrypted_name e.ciphername plainname m.reversemap back w2 in
    let same : extended m plainname e.ciphername e.dirsep ≡ m' = cc in
    subst IsPaired same (extended-IsPaired m plainname e.ciphername e.dirsep v fresh)

fill_loop-IsPaired :
    (fuel : ℕ) (bytes : Bytes) (m m' : Maps)
    → IsPaired m
    → fill_loop fuel true bytes m ≡ ok m'
    → IsPaired m'
unfolding fill_loop
fill_loop-IsPaired fuel [] m m' v q = let same : m ≡ m' = cc in subst IsPaired same v
fill_loop-IsPaired zero (c ∷ rest) m m' v q = absurd cc
fill_loop-IsPaired (suc fuel) (c ∷ rest) m m' v q =
    let ((e, left), w, q1) = returned_lem (read_entry c rest) _ m' q in
    let (m1, w1, q2) = returned_lem (add_entry true e m) _ m' q1 in
    fill_loop-IsPaired fuel left m1 m' (add_entry-IsPaired e m m1 v w1) q2

-- If in the maps each plain name has an encrypted name that leads back to it, and fill_map reads a
-- file for encryption without an error, or finds none, then that holds of the maps afterwards too.
pub fill_map-IsPaired :
    (listfile : Option Bytes) (m m' : Maps)
    → IsPaired m
    → fill_map listfile true m ≡ ok m'
    → IsPaired m'
unfolding fill_map
fill_map-IsPaired none m m' v q = let same : m ≡ m' = cc in subst IsPaired same v
fill_map-IsPaired (some listfile) m m' v q = fill_loop-IsPaired (length listfile) listfile m m' v q
