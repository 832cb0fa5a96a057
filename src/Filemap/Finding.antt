-- ===== src/Filemap/Finding.antt =====
-- What is found in a map of filemap.h behind an entry that was put there.
use rsyncrypto.Prelude.{
  true, false, Bytes, bytes_eq, bytes_eq_iff, [], ◌∷◌, some, ◌≡◌, refl, sym, ◌∙◌, ap, Bool-cases,
  inl, inr,
}
use rsyncrypto.Filemap.{Dict, find, put, less}

bytes_eq_refl : (k : Bytes) → bytes_eq k k ≡ true
bytes_eq_refl k = (bytes_eq_iff k k).1 refl

-- What was put is found.
pub find-put : {V : Type 0} (k : Bytes) (v : V) (m : Dict V) → find k (put k v m) ≡ some v
unfolding find put
find-put k v [] = rw (bytes_eq_refl k) refl
find-put k v ((k', v') ∷ m) = elim (Bool-cases (bytes_eq k k')) [
  | inl e ↦ rw (e, bytes_eq_refl k) refl
  | inr e ↦ elim (Bool-cases (less k k')) [
    | inl l ↦ rw (e, l, bytes_eq_refl k) refl
    | inr l ↦ rw (e, l) (rw (e) (find-put k v m))
  ]
]

-- Another key is left alone.
pub find-put_other :
    {V : Type 0} (k k' : Bytes) (v : V) (m : Dict V)
    → bytes_eq k k' ≡ false
    → find k (put k' v m) ≡ find k m
unfolding find put
find-put_other k k' v [] e = rw e refl
find-put_other k k' v ((k'', v'') ∷ m) e = elim (Bool-cases (bytes_eq k' k'')) [
  | inl x ↦
      let same : k' ≡ k'' = (bytes_eq_iff k' k'').0 x in
      let ne : bytes_eq k k'' ≡ false = ap (λ (y : Bytes). bytes_eq k y) (sym same) ∙ e in
      rw (x, e, ne) refl
  | inr x ↦ elim (Bool-cases (less k' k'')) [
    | inl l ↦ rw (x, l, e) refl
    | inr l ↦
        rw (x, l)
          (elim (Bool-cases (bytes_eq k k'')) [
            | inl y ↦ rw y refl
            | inr y ↦ rw y (find-put_other k k' v m e)
          ])
  ]
]
