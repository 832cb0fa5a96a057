-- ===== src/Deletion/Paired.antt =====
-- The maps when the key of an encrypted file is deleted.
use rsyncrypto.Prelude.{
  Bool, false, Bytes, bytes_eq, bytes_eq_iff, [], ◌∷◌, Result, ok, err, Option, none, some,
  if◌then◌else◌, ◌≡◌, refl, sym, ◌∙◌, ap, Bool-cases, inl, inr, subst,
}
use rsyncrypto.Filemap.{Maps, Dict, FileMap, find}
use rsyncrypto.Filemap.Naming.{IsPaired}
use rsyncrypto.Action.{lift, Action, rescue, proceed, ◌>>=◌, ◌>>◌, pure, throw, modify, when}
use rsyncrypto.Filemap.Names.{combine_paths, nest_name}
use rsyncrypto.Files.System.{Os, World, Options, Stat, noted, lstat}
use rsyncrypto.Deletion.{erase, forget, is_gone, enc_file_delete, delete_nested}

find-erase : {V : Type 0} (k : Bytes) (m : Dict V) → find k (erase k m) ≡ none
unfolding find erase
find-erase k [] = refl
find-erase k ((k', v) ∷ m) = elim (Bool-cases (bytes_eq k k')) [
  | inl e ↦ rw e (find-erase k m)
  | inr e ↦ rw (e) (rw (e) (find-erase k m))
]

find-erase_other :
    {V : Type 0} (p k : Bytes) (m : Dict V) → bytes_eq p k ≡ false → find p (erase k m) ≡ find p m
unfolding find erase
find-erase_other p k [] ne = refl
find-erase_other p k ((k', v) ∷ m) ne = elim (Bool-cases (bytes_eq k k')) [
  | inl e ↦
      let same : k ≡ k' = (bytes_eq_iff k k').0 e in
      let ne' : bytes_eq p k' ≡ false = ap (λ (y : Bytes). bytes_eq p y) (sym same) ∙ ne in
      rw (e, ne') (find-erase_other p k m ne)
  | inr e ↦ elim (Bool-cases (bytes_eq p k')) [
    | inl x ↦ rw (e) (rw (x) refl)
    | inr x ↦ rw (e) (rw (x) (find-erase_other p k m ne))
  ]
]

module _ (F : Os) (remove : Bytes → Action (World F) Bool) where
  pub forget-IsPaired :
      (k : Bytes) (item : FileMap) (m : Maps)
      → find k m.namemap ≡ some item
      → IsPaired m
      → IsPaired (forget F remove k item.ciphername m)
  unfolding forget
  forget-IsPaired k item m is v = record {
    named = λ p e q. (entry p e q).0;
    back = λ p e q. (entry p e q).1;
  }
    where
      entry :
          (p : Bytes) (e : FileMap)
          → find p (erase k m.namemap) ≡ some e
          → (e.plainname ≡ p) × (find e.ciphername (erase item.ciphername m.reversemap) ≡ some p)
      entry p e q = elim (Bool-cases (bytes_eq p k)) [
        | inl x ↦
            let same : p ≡ k = (bytes_eq_iff p k).0 x in
            absurd (cc (rw same at q, find-erase k m.namemap))
        | inr x ↦
            let old : find p m.namemap ≡ some e = sym (find-erase_other p k m.namemap x) ∙ q in
            let known = v.back p e old in
            elim (Bool-cases (bytes_eq e.ciphername item.ciphername)) [
              | inl y ↦
                  let same : e.ciphername ≡ item.ciphername =
                    (bytes_eq_iff e.ciphername item.ciphername).0 y in
                  let both : ◌≡◌ {A = Option Bytes} (some p) (some k) =
                    sym known ∙ ap (λ (c : Bytes). find c m.reversemap) same ∙ v.back k item is in
                  let is_k : p ≡ k = cc in absurd (cc (x, (bytes_eq_iff p k).1 is_k))
              | inr y ↦ (
                v.named p e old,
                find-erase_other e.ciphername item.ciphername m.reversemap y ∙ known,
              )
            ]
      ]

  -- Behind a call that leaves the maps alone.
  after_lem :
      {A B : Type 0} (P : Maps → Type 0) (m : Action (World F) A) (next : A → Action (World F) B)
      (w : World F)
      → (m w).1.maps ≡ w.maps
      → P w.maps
      → ((a : A) (w' : World F) → w'.maps ≡ w.maps → P (next a w').1.maps)
      → P ((m >>= next) w).1.maps
  after_lem {A} {B} P m next w same h k = go (m w) same
    where
      go : (r : Result A × World F) → r.1.maps ≡ w.maps → P (proceed next r).1.maps
      go (ok a, w') e = k a w' e
      go (err x, w') e = rw e h

  delete_nested-IsPaired :
      (o : Options) (source_dir dst_dir key_dir k cipher : Bytes) (item : FileMap) (w : World F)
      → ((p : Bytes) (w' : World F) → (remove p w').1.maps ≡ w'.maps)
      → find k w.maps.namemap ≡ some item
      → IsPaired w.maps
      → IsPaired (delete_nested F remove o source_dir dst_dir key_dir (k, item) cipher w).1.maps
  unfolding delete_nested lstat noted
  delete_nested-IsPaired o source_dir dst_dir key_dir k cipher item w keeps is v =
      go (F.lstat (combine_paths dst_dir item.plainname) w.os)
    where
      src_file : Bytes
      src_file = combine_paths source_dir cipher

      last : Action (World F) (Unit {0})
      last = do
        remove (combine_paths key_dir cipher)
        modify (λ (w' : World F). record w' { maps = forget F remove k item.ciphername w'.maps })

      last_lem : (w' : World F) → w'.maps ≡ w.maps → IsPaired (last w').1.maps
      last_lem w' e =
          after_lem IsPaired (remove (combine_paths key_dir cipher)) _ w' (keeps _ w') (rw e v)
            (λ t w'' e'. rw (e', e) (forget-IsPaired k item w.maps is v))

      tail_lem : (w' : World F) → w'.maps ≡ w.maps → IsPaired (when o.delkey last w').1.maps
      tail_lem w' e = elim (Bool-cases o.delkey) [
        | inl d ↦ rw d (last_lem w' e)
        | inr d ↦ rw (d, e) v
      ]

      noted_maps : (w' : World F) (p : Bytes) → (noted F o p w').1.maps ≡ w'.maps
      noted_maps w' p = elim (Bool-cases o.export_changes) [ inl e ↦ rw e refl | inr e ↦ rw e refl ]

      go :
          (r : Result Stat)
          → IsPaired
              (rescue
                (λ e.
                  if is_gone e
                  then (noted F o src_file >> (remove src_file >> when o.delkey last))
                  else throw e)
                (proceed (λ (st : Stat). pure tt) (r, w))).1.maps
      go (ok st) = v
      go (err e) = elim (Bool-cases (is_gone e)) [
        | inl g ↦ rw g (
            after_lem {A = Unit {0}} IsPaired (noted F o src_file)
              (λ t. remove src_file >> when o.delkey last) w (noted_maps w src_file) v
              (λ t w' e1.
                after_lem {A = Bool} IsPaired (remove src_file) (λ b. when o.delkey last) w'
                  (keeps src_file w') (rw e1 v) (λ b w'' e2. tail_lem w'' (e2 ∙ e1))))
        | inr g ↦ rw g v
      ]

  -- If each plain name has an encrypted name that leads back to it, and unlink leaves the maps
  -- alone, then that holds too when enc_file_delete was called for an entry of the map, however it
  -- ends.
  pub enc_file_delete-IsPaired :
      (o : Options) (source_dir dst_dir key_dir k : Bytes) (item : FileMap) (w : World F)
      → ((p : Bytes) (w' : World F) → (remove p w').1.maps ≡ w'.maps)
      → find k w.maps.namemap ≡ some item
      → IsPaired w.maps
      → IsPaired (enc_file_delete F remove o source_dir dst_dir key_dir (k, item) w).1.maps
  unfolding enc_file_delete
  enc_file_delete-IsPaired o source_dir dst_dir key_dir k item w keeps is v =
      after_lem IsPaired (lift (nest_name o.nenest item.ciphername)) _ w refl v (λ cipher w' same.
        delete_nested-IsPaired o source_dir dst_dir key_dir k cipher item w' keeps
          (ap (λ (m : Maps). find k m.namemap) same ∙ is) (subst IsPaired (sym same) v))
