-- ===== src/Filemap/Kept.antt =====
-- What one run writes with `write_map`, another one reads with `fill_map` for decryption: the encrypted
-- names lead back to the plain ones.
use rsyncrypto.Prelude.{
  ℕ, true, false, Bytes, bytes_eq, bytes_eq_iff, [], ◌∷◌, ok, Error, ◌>>=◌, Option, none, some, All,
  ◌≡◌, ◌≢◌, refl, sym, subst, ◌∙◌, ap, arith, Bool-cases, inl, inr,
}
use rsyncrypto.Filemap.{
  FileMap, Maps, Dict, find, put, insert, replace_dir_sep, add_entry, fill_map, dirsep_c, less,
}
use rsyncrypto.Filemap.Finding.{find-put, find-put_other}
use rsyncrypto.Filemap.Range.{IsSorted}
use rsyncrypto.Filemap.Filling.{add_all}
use rsyncrypto.Filemap.Names.{combine_paths, nest_name}
use rsyncrypto.Filemap.Naming.{IsPaired, s_ifreg}
use rsyncrypto.Filemap.Decoding.{filemapname, IsNamed, namecat_decrypt}
use rsyncrypto.Filemap.Nested.{namecat_decrypt-nest_name}
use rsyncrypto.Filemap.Writing.{stored_entry, entries, IsWritable, write_map, fill_map-write_map}

-- No key stands in a map twice.
abbrev pub IsDistinct : {V : Type 0} → Dict V → Type 0
IsDistinct [] = Unit
IsDistinct ((k, v) ∷ rest) = (find k rest ≡ none) × IsDistinct rest

-- What an encrypted name leads to has this encrypted name, and the separators of this platform.
abbrev pub IsListed : Dict FileMap → Bytes × Bytes → Type 0
IsListed namemap (k, name) =
    ((stored_entry namemap name).ciphername ≡ k) × ((stored_entry namemap name).dirsep ≡ dirsep_c)

replace_none : (path : Bytes) → replace_dir_sep path dirsep_c ≡ ok path
unfolding replace_dir_sep
replace_none [] = refl
replace_none (c ∷ path) = refl

insert_new :
    {V : Type 0} (x : Error) (k : Bytes) (v : V) (m : Dict V)
    → find k m ≡ none
    → insert x k v m ≡ ok (put k v m)
unfolding insert
insert_new x k v m h = rw (insert, h) refl

add_entry_new :
    (e : FileMap) (m : Maps)
    → e.dirsep ≡ dirsep_c
    → find e.ciphername m.namemap ≡ none
    → add_entry false e m
      ≡ ok (record { namemap = put e.ciphername e m.namemap; reversemap = m.reversemap })
unfolding add_entry
add_entry_new e m sep fresh =
    let plain : replace_dir_sep e.plainname e.dirsep ≡ ok e.plainname =
      ap (replace_dir_sep e.plainname) sep ∙ replace_none e.plainname in
    rw (plain, insert_new Error.duplicate_key e.ciphername e m.namemap fresh) refl

pub bytes_eq_sym : (a b : Bytes) → bytes_eq a b ≡ false → bytes_eq b a ≡ false
bytes_eq_sym a b h = elim (Bool-cases (bytes_eq b a)) [
  | inl e ↦ absurd (cc (h, (bytes_eq_iff a b).1 (sym ((bytes_eq_iff b a).0 e))))
  | inr e ↦ e
]

pub found_first :
    {V : Type 0} (k k' : Bytes) (v : V) (m : Dict V)
    → bytes_eq k k' ≡ true
    → find k ((k', v) ∷ m) ≡ some v
unfolding find
found_first k k' v m e = rw (e) refl

pub found_behind :
    {V : Type 0} (k k' : Bytes) (v : V) (m : Dict V)
    → bytes_eq k k' ≡ false
    → find k ((k', v) ∷ m) ≡ find k m
unfolding find
found_behind k k' v m e = rw (e) refl

other_keys :
    {V : Type 0} (k : Bytes) (m : Dict V)
    → find k m ≡ none
    → All (λ (row : Bytes × V). bytes_eq row.0 k ≡ false) m
unfolding find
other_keys k [] h = tt
other_keys k ((k', v) ∷ m) h = elim (Bool-cases (bytes_eq k k')) [
  | inl e ↦ absurd (cc (sym (found_first k k' v m e) ∙ h))
  | inr e ↦ (bytes_eq_sym k k' e, other_keys k m (sym (found_behind k k' v m e) ∙ h))
]

-- Keys that are not in the map.
abbrev IsNew : Dict FileMap → Bytes × Bytes → Type 0
IsNew namemap (k, name) = find k namemap ≡ none

still-IsNew :
    (k : Bytes) (e : FileMap) (namemap : Dict FileMap) (rev : Dict Bytes)
    → All (IsNew namemap) rev
    → All (λ (row : Bytes × Bytes). bytes_eq row.0 k ≡ false) rev
    → All (IsNew (put k e namemap)) rev
still-IsNew k e namemap [] h d = tt
still-IsNew k e namemap ((k', name) ∷ rev) h d =
    (find-put_other k' k e namemap d.0 ∙ h.0, still-IsNew k e namemap rev h.1 d.1)

-- The maps behind all entries of a reverse map that were added to a map without their names.
record Added (namemap : Dict FileMap) (rev : Dict Bytes) (m0 : Maps) : Type 0 where
  left : Maps
  adds : add_all false (entries namemap rev) m0 ≡ ok left
  there :
      (k name : Bytes)
      → find k rev ≡ some name
      → find k left.namemap ≡ some (stored_entry namemap name)
  others : (k : Bytes) → find k rev ≡ none → find k left.namemap ≡ find k m0.namemap

nothing_found : (k name : Bytes) → find {V = Bytes} k [] ≢ some name
unfolding find
nothing_found k name e = cc

adds-Added :
    (namemap : Dict FileMap) (rev : Dict Bytes) (m0 : Maps)
    → IsDistinct rev
    → All (IsListed namemap) rev
    → All (IsNew m0.namemap) rev
    → Added namemap rev m0
adds-Added namemap [] m0 d l n = record {
  left = m0;
  adds = refl;
  there = λ k name e. absurd (nothing_found k name e);
  others = λ k e. refl;
}
adds-Added namemap ((k, name) ∷ rev) m0 d l n =
    let e = stored_entry namemap name in
    let m1 : Maps = record {
      namemap = put e.ciphername e m0.namemap;
      reversemap = m0.reversemap;
    } in
    let fresh : find e.ciphername m0.namemap ≡ none = ap (λ x. find x m0.namemap) l.0.0 ∙ n.0 in
    let one = add_entry_new e m0 l.0.1 fresh in
    let apart = other_keys k rev d.0 in
    let new : All (IsNew m1.namemap) rev = still-IsNew e.ciphername e m0.namemap rev n.1 (
      subst (λ x. All (λ (row : Bytes × Bytes). bytes_eq row.0 x ≡ false) rev) (sym l.0.0) apart) in
    let more = adds-Added namemap rev m1 d.1 l.1 new in
    let at_k : find k m1.namemap ≡ some e =
      ap (λ x. find k (put x e m0.namemap)) l.0.0 ∙ find-put k e m0.namemap in
    record {
      left = more.left;
      adds = ap (λ r. r >>= λ m'. add_all false (entries namemap rev) m') one ∙ more.adds;
      there = λ k' name' f. elim (Bool-cases (bytes_eq k' k)) [
        | inl x ↦
            let same : k' ≡ k = (bytes_eq_iff k' k).0 x in
            let found : ◌≡◌ {A = Option Bytes} (some name) (some name') =
              sym (found_first k' k name rev x) ∙ f in
            let named : name ≡ name' = cc in
            ap (λ q. find q more.left.namemap) same
            ∙ more.others k d.0
            ∙ at_k
            ∙ ap (λ q. some (stored_entry namemap q)) named
        | inr x ↦ more.there k' name' (sym (found_behind k' k name rev x) ∙ f)
      ];
      others = λ k' f. elim (Bool-cases (bytes_eq k' k)) [
        | inl x ↦ absurd (cc (sym (found_first k' k name rev x) ∙ f))
        | inr x ↦
            more.others k' (sym (found_behind k' k name rev x) ∙ f)
            ∙ find-put_other k' e.ciphername e m0.namemap (ap (bytes_eq k') l.0.0 ∙ x)
      ];
    }

less_irrefl : (k : Bytes) → less k k ≡ false
unfolding less
less_irrefl [] = refl
less_irrefl (c ∷ k) = ground (arith, less_irrefl k)

less_other : (k k' : Bytes) → less k k' ≡ true → bytes_eq k k' ≡ false
less_other k k' h = elim (Bool-cases (bytes_eq k k')) [
  | inl e ↦
      let same : k ≡ k' = (bytes_eq_iff k k').0 e in
      absurd (cc (sym h ∙ ap (less k) (sym same) ∙ less_irrefl k))
  | inr e ↦ e
]

above-find :
    (k : Bytes) (m : Dict Bytes)
    → All (λ (row : Bytes × Bytes). less k row.0 ≡ true) m
    → find k m ≡ none
unfolding find
above-find k [] h = refl
above-find k ((k', v) ∷ m) h = found_behind k k' v m (less_other k k' h.0) ∙ above-find k m h.1

sorted-IsDistinct : (m : Dict Bytes) → IsSorted m → IsDistinct m
sorted-IsDistinct [] h = tt
sorted-IsDistinct ((k, v) ∷ m) h = (above-find k m h.0, sorted-IsDistinct m h.1)

empty-IsNew : (rev : Dict Bytes) → All (IsNew []) rev
unfolding find
empty-IsNew [] = tt
empty-IsNew (row ∷ rev) = (refl, empty-IsNew rev)

pub stored-find :
    (p : Bytes) (e : FileMap) (namemap : Dict FileMap)
    → find p namemap ≡ some e
    → stored_entry namemap p ≡ e
unfolding stored_entry
stored-find p e namemap h = rw (stored_entry, h) refl

-- A name that stands in the map, in terms of what the map is.
pub namecat_decrypt-write_map :
    (m : Maps) (p left nested : Bytes) (nenest : ℕ) (e : FileMap)
    → IsPaired m
    → IsSorted m.reversemap
    → All (IsListed m.namemap) m.reversemap
    → All IsWritable (entries m.namemap m.reversemap)
    → find p m.namemap ≡ some e
    → nest_name nenest e.ciphername ≡ ok nested
    → e.ciphername ≢ []
    → IsNamed e.ciphername
    → e.ciphername ≢ filemapname
    → ((write_map m).0 ≡ ok tt)
      × ((m' : Maps) × (fill_map
              (some (write_map m).1)
              false
              (record { namemap = []; reversemap = [] })
            ≡ ok m')
          × (namecat_decrypt left nested s_ifreg m'.namemap ≡ ok (combine_paths left p)))
namecat_decrypt-write_map m p left nested nenest e paired sorted listed writable found made
      some_name named other_name =
    let empty : Maps = record { namemap = []; reversemap = [] } in
    let (written, filled) = fill_map-write_map false m empty writable in
    let added =
      adds-Added m.namemap m.reversemap empty (sorted-IsDistinct m.reversemap sorted) listed
        (empty-IsNew m.reversemap) in
    let there =
      added.there e.ciphername p (paired.back p e found)
      ∙ ap some (stored-find p e m.namemap found) in
    (
      written,
      (
        added.left,
        filled ∙ added.adds,
        namecat_decrypt-nest_name left e.ciphername nested nenest added.left.namemap e made
              some_name named other_name there
            ∙ ap (λ q. ok (combine_paths left q)) (paired.named p e found),
      ),
    )
