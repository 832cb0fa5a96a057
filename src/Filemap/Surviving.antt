-- ===== src/Filemap/Surviving.antt =====
-- The maps that `namecat_encrypt` makes survive a run: `write_map` writes them, and `fill_map` reads them
-- again for decryption.
use rsyncrypto.Prelude.{
  ℕ, false, Bytes, bytes_eq, bytes_eq_iff, [], ◌∷◌, Result, ok, returned_lem, Option, none, some,
  All, ◌≡◌, ◌≢◌, refl, sym, subst, ◌∙◌, ap, arith, Bool-cases, inl, inr,
}
use rsyncrypto.Recover.Records.{IsHex}
use rsyncrypto.Filemap.{FileMap, Maps, Dict, find, put, fill_map, dirsep_c, less}
use rsyncrypto.Filemap.Finding.{find-put, find-put_other}
use rsyncrypto.Filemap.Filling.{IsPlain}
use rsyncrypto.Filemap.Kept.{
  IsListed, found_first, found_behind, stored-find, namecat_decrypt-write_map,
}
use rsyncrypto.Filemap.Names.{trim_leading, combine_paths, bin2hex-IsHex, nest_name}
use rsyncrypto.Filemap.Naming.{
  IsPaired, s_ifreg, new_encoding, encode, namecat_encrypt, newdata, extended, encode_known,
  encode_new, encode-IsPaired,
}
use rsyncrypto.Filemap.Decoding.{namecat_decrypt}
use rsyncrypto.Filemap.Range.{IsSorted, put-IsSorted}
use rsyncrypto.Filemap.Writing.{blank, stored_entry, entries, IsWritable, write_map}
use rsyncrypto.Filemap.Drawn.{IsDrawing, new_encoding-bin2hex, hex_chars, hex_other, bin2hex_some}

-- A row of the reverse map that can be written and read again.
abbrev pub IsRow : Dict FileMap → Bytes × Bytes → Type 0
IsRow namemap (k, name) =
    IsListed namemap (k, name) × IsWritable (stored_entry namemap name) × All IsHex k

-- Maps that survive a run.
pub record IsKept (m : Maps) : Type 0 where
  pub paired : IsPaired m
  pub sorted : IsSorted m.reversemap
  pub rows : All (IsRow m.namemap) m.reversemap

rows-IsListed :
    (namemap : Dict FileMap) (rev : Dict Bytes)
    → All (IsRow namemap) rev
    → All (IsListed namemap) rev
rows-IsListed namemap [] h = tt
rows-IsListed namemap ((k, name) ∷ rev) h = (h.0.0, rows-IsListed namemap rev h.1)

rows-IsWritable :
    (namemap : Dict FileMap) (rev : Dict Bytes)
    → All (IsRow namemap) rev
    → All IsWritable (entries namemap rev)
rows-IsWritable namemap [] h = tt
rows-IsWritable namemap ((k, name) ∷ rev) h = (h.0.1, rows-IsWritable namemap rev h.1)

All-put :
    (P : Bytes × Bytes → Type 0) (k v : Bytes) (m : Dict Bytes)
    → P (k, v)
    → All P m
    → All P (put k v m)
unfolding put
All-put P k v [] p h = (p, tt)
All-put P k v ((k', v') ∷ m) p h = elim (Bool-cases (bytes_eq k k')) [
  | inl e ↦ rw (e) (p, h.1)
  | inr e ↦ elim (Bool-cases (less k k')) [
    | inl l ↦ rw (e, l) (p, h)
    | inr l ↦ rw (e, l) (h.0, All-put P k v m p h.1)
  ]
]

All-find :
    (P : Bytes × Bytes → Type 0) (k v : Bytes) (m : Dict Bytes)
    → All P m
    → find k m ≡ some v
    → P (k, v)
unfolding find
All-find P k v [] h f = absurd cc
All-find P k v ((k', v') ∷ m) h f = elim (Bool-cases (bytes_eq k k')) [
  | inl e ↦
      let same : k ≡ k' = (bytes_eq_iff k k').0 e in
      let found : ◌≡◌ {A = Option Bytes} (some v') (some v) = sym (found_first k k' v' m e) ∙ f in
      let named : v' ≡ v = cc in
      subst (λ (x : Bytes). P (x, v)) (sym same) (subst (λ (x : Bytes). P (k', x)) named h.0)
  | inr e ↦ All-find P k v m h.1 (sym (found_behind k k' v' m e) ∙ f)
]

stored_none :
    (name : Bytes) (namemap : Dict FileMap)
    → find name namemap ≡ none
    → stored_entry namemap name ≡ blank
unfolding stored_entry
stored_none name namemap h = rw (stored_entry, h) refl

stored_same :
    (name : Bytes) (a b : Dict FileMap)
    → find name a ≡ find name b
    → stored_entry a name ≡ stored_entry b name
unfolding stored_entry
stored_same name a b h =
    ap (λ (o : Option FileMap). elim o as (λ x. FileMap) [ none ↦ blank | some e ↦ e ]) h

-- An entry for a name that was not there leaves the rows alone.
rows-put :
    (right : Bytes) (e : FileMap) (namemap : Dict FileMap) (rev : Dict Bytes)
    → find right namemap ≡ none
    → All (IsRow namemap) rev
    → All (IsRow (put right e namemap)) rev
rows-put right e namemap [] new h = tt
rows-put right e namemap ((k, name) ∷ rev) new h = (
  subst (λ (x : FileMap). ((x.ciphername ≡ k) × (x.dirsep ≡ dirsep_c)) × IsWritable x × All IsHex k)
      (sym same) h.0,
  rows-put right e namemap rev new h.1,
)
  where
    blank_there : name ≡ right → (stored_entry namemap name).dirsep ≡ 0
    blank_there is =
        ap (λ (x : FileMap). x.dirsep)
          (stored_none name namemap (ap (λ (x : Bytes). find x namemap) is ∙ new))

    apart : bytes_eq name right ≡ false
    apart = elim (Bool-cases (bytes_eq name right)) [
      | inl x ↦ absurd (omega (arith, h.0.0.1, blank_there ((bytes_eq_iff name right).0 x)))
      | inr x ↦ x
    ]

    same : stored_entry (put right e namemap) name ≡ stored_entry namemap name
    same =
        stored_same name (put right e namemap) namemap (find-put_other name right e namemap apart)

-- If the random bytes are bytes, and some, and the plain name is one: encode leaves maps that survive a
-- run, and the name has its entry in them.
encode-IsKept :
    (rand : ℕ → Option Bytes) (right c : Bytes) (m m' : Maps)
    → IsKept m
    → IsDrawing rand
    → right ≢ []
    → All (IsPlain 0) right
    → encode rand right m ≡ ok (c, m')
    → IsKept m' × ((e : FileMap) × (find right m'.namemap ≡ some e) × (e.ciphername ≡ c))
encode-IsKept rand right c m m' v draws some_name plain e = go (find right m.namemap) refl
  where
    go :
        (o : Option FileMap)
        → find right m.namemap ≡ o
        → IsKept m' × ((e : FileMap) × (find right m'.namemap ≡ some e) × (e.ciphername ≡ c))
    go (some d) q =
        let p : ◌≡◌ {A = Result (Bytes × Maps)} (ok (d.ciphername, m)) (ok (c, m')) =
          sym (encode_known rand right m d q) ∙ e in
        let x : d.ciphername ≡ c = cc in let y : m ≡ m' = cc in rw (← x, ← y) (v, (d, q, refl))
    go none q =
        let (c', w, p) =
          returned_lem (new_encoding rand m.reversemap 0 5) _ (c, m')
            (sym (encode_new rand right m q) ∙ e) in
        let x : c' ≡ c = cc in
        let y : extended m right c' dirsep_c ≡ m' = cc in
        let (j, b, drawn, hex) = new_encoding-bin2hex rand m.reversemap 0 5 c' w in
        let (is_bytes, some_bytes) = draws j b drawn in
        let hexes : All IsHex c' = subst (All IsHex) hex (bin2hex-IsHex b is_bytes) in
        let there = find-put right (newdata m right c' dirsep_c) m.namemap in
        let row : IsRow (extended m right c' dirsep_c).namemap (c', right) =
          subst
            (λ (z : FileMap).
              ((z.ciphername ≡ c') × (z.dirsep ≡ dirsep_c)) × IsWritable z × All IsHex c')
            (sym (
              stored-find right (newdata m right c' dirsep_c) (extended m right c' dirsep_c).namemap
                there))
            (
              (refl, refl),
              (
                record {
                  dirsep_is = ((λ z. absurd (omega (arith, z))), (λ z. absurd (omega (arith, z))));
                  cipher_is = (hex_chars c' hexes).0;
                  plain_is = plain;
                },
                λ z. bin2hex_some b some_bytes (hex ∙ z),
                some_name,
              ),
              hexes,
            ) in
        let new_rows =
          All-put (IsRow (extended m right c' dirsep_c).namemap) c' right m.reversemap row
            (rows-put right (newdata m right c' dirsep_c) m.namemap m.reversemap q v.rows) in
        let paired = (encode-IsPaired rand right c m m' v.paired e).0 in
        let sorted = put-IsSorted c' right m.reversemap v.sorted in
        (
          record {
            paired = paired;
            sorted = subst (λ (z : Maps). IsSorted z.reversemap) y sorted;
            rows = subst (λ (z : Maps). All (IsRow z.namemap) z.reversemap) y new_rows;
          },
          (
            newdata m right c' dirsep_c,
            subst (λ (z : Maps). find right z.namemap ≡ some (newdata m right c' dirsep_c)) y there,
            x,
          ),
        )

-- If the random bytes are bytes, and some, the plain name of a regular file, less its leading
-- separators, is not empty and has no NUL, the maps survive a run, and namecat_encrypt gives the
-- file an encrypted name: the maps afterwards survive a run too, write_map writes them without an
-- error, fill_map reads what was written for decryption, and the encrypted name stands behind its
-- directory as nest_name nests it, and namecat_decrypt leads with that map from it to the plain
-- name under any directory. Maps survive a run if the two are paired, the reverse map is sorted,
-- and its rows are hexadecimal names whose entries can be written and have the separator of this
-- platform.
pub namecat_encrypt-survives :
    (rand : ℕ → Option Bytes) (nenest : ℕ) (left left' right name : Bytes) (m m1 : Maps)
    → IsKept m
    → IsDrawing rand
    → trim_leading right ≢ []
    → All (IsPlain 0) (trim_leading right)
    → namecat_encrypt rand nenest left right s_ifreg m ≡ ok (name, m1)
    → IsKept m1
      × ((write_map m1).0 ≡ ok tt)
      × ((c : Bytes) × (nested : Bytes) × (m' : Maps) × (nest_name nenest c ≡ ok nested)
          × (name ≡ combine_paths left nested)
          × (fill_map (some (write_map m1).1) false (record { namemap = []; reversemap = [] })
              ≡ ok m')
          × (namecat_decrypt left' nested s_ifreg m'.namemap
              ≡ ok (combine_paths left' (trim_leading right))))
unfolding namecat_encrypt
namecat_encrypt-survives rand nenest left left' right name m m1 v draws some_name plain e =
    let ((c, m2), w, p) = returned_lem (encode rand (trim_leading right) m) _ (name, m1) e in
    let (nested, made, p') = returned_lem (nest_name nenest c) _ (name, m1) p in
    let is : combine_paths left nested ≡ name = cc in
    let same : m2 ≡ m1 = cc in
    let (kept, (d, found, cipher)) =
      encode-IsKept rand (trim_leading right) c m m1 v draws some_name plain
        (w ∙ ap (λ (z : Maps). ok (c, z)) same) in
    let listed = rows-IsListed m1.namemap m1.reversemap kept.rows in
    let writable = rows-IsWritable m1.namemap m1.reversemap kept.rows in
    let back = kept.paired.back (trim_leading right) d found in
    let row =
      All-find (IsRow m1.namemap) d.ciphername (trim_leading right) m1.reversemap kept.rows back in
    let stored = stored-find (trim_leading right) d m1.namemap found in
    let some_cipher : d.ciphername ≢ [] =
      λ z. row.1.1 (ap (λ (x : FileMap). x.ciphername) stored ∙ z) in
    let (written, (m', filled, decoded)) =
      namecat_decrypt-write_map m1 (trim_leading right) left' nested nenest d kept.paired
        kept.sorted listed writable found (ap (nest_name nenest) cipher ∙ made) some_cipher
        (hex_chars d.ciphername row.2).1 (hex_other d.ciphername row.2) in
    (kept, written, (c, nested, m', made, sym is, filled, decoded))
