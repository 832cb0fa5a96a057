-- ===== src/Filemap/Range.antt =====
-- `virt_recurse_dir_enc` of filemap.cpp: the entries of the sorted map that lie under a directory.
use rsyncrypto.Prelude.{
  ℕ, ◌+◌, Bool, true, false, not, ◌&&◌, Bytes, bytes_eq, bytes_eq_iff, [], ◌∷◌, ◌++◌, reverse,
  if◌then◌else◌, ◌==◌, length, length-append, All, ◌≡◌, ◌≢◌, refl, sym, ◌∙◌, ap, arith, Bool-cases,
  inl, inr,
}
use rsyncrypto.Filemap.{Dict, less, put, dirsep_c}
use rsyncrypto.Filemap.Names.{trim_leading}

-- `basedirname` with exactly one separator at its end.
unfoldable pub group_name : Bytes → Bytes
unfolding trim_leading
group_name dir_sig_part = reverse (trim_leading (reverse dir_sig_part)) ++ dirsep_c ∷ []

-- `m.lower_bound(…)`: the map from the first key on that is not below.
unfoldable pub lower_bound : {V : Type 0} → Bytes → Dict V → Dict V
unfolding less
lower_bound k [] = []
lower_bound k ((k', v) ∷ m) =
    let later = lower_bound k m in if less k' k then later else (k', v) ∷ m

-- The map up to the first key that is not below.
unfoldable pub up_to : {V : Type 0} → Bytes → Dict V → Dict V
unfolding less
up_to k [] = []
up_to k ((k', v) ∷ m) = let rest = up_to k m in if less k' k then (k', v) ∷ rest else []

-- `basedirname[basedirname.length()-1]=basedirname[basedirname.length()-1]+1`
unfoldable pub past_group : Bytes → Bytes
past_group [] = []
past_group (c ∷ []) = (c + 1) ∷ []
past_group (c ∷ d ∷ name) = c ∷ past_group (d ∷ name)

-- The entries that `virt_recurse_dir_enc` goes through.
unfoldable pub group_entries : {V : Type 0} → Bytes → Dict V → Dict V
unfolding group_name lower_bound up_to past_group
group_entries dir_sig_part m =
    let basedirname = group_name dir_sig_part in
    if length basedirname == 1
    then m
    else up_to (past_group basedirname) (lower_bound basedirname m)

-- The keys are in ascending order, each of them once.
abbrev pub IsSorted : {V : Type 0} → Dict V → Type 0
IsSorted [] = Unit {0}
IsSorted ((k, v) ∷ m) = All (λ (k', v'). less k k' ≡ true) m × IsSorted m

abbrev pub starts_with : Bytes → Bytes → Bool
starts_with [] k = true
starts_with (x ∷ p) [] = false
starts_with (x ∷ p) (y ∷ k) = x == y && starts_with p k

-- The entries whose key starts so.
abbrev pub with_prefix : {V : Type 0} → Bytes → Dict V → Dict V
with_prefix p [] = []
with_prefix p ((k, v) ∷ m) =
    let rest = with_prefix p m in if starts_with p k then (k, v) ∷ rest else rest

less_trans : (a b c : Bytes) → less a b ≡ true → less b c ≡ true → less a c ≡ true
unfolding less
less_trans [] [] c h k = absurd (cc)
less_trans [] (y ∷ b) [] h k = absurd (cc)
less_trans [] (y ∷ b) (z ∷ c) h k = refl
less_trans (x ∷ a) [] c h k = absurd (cc)
less_trans (x ∷ a) (y ∷ b) [] h k = absurd (cc)
less_trans (x ∷ a) (y ∷ b) (z ∷ c) h k = let ih = less_trans a b c in ground (arith, ih)

less_total : (a b : Bytes) → bytes_eq a b ≡ false → less a b ≡ false → less b a ≡ true
unfolding less
less_total [] [] h k = absurd (cc)
less_total [] (y ∷ b) h k = absurd (cc)
less_total (x ∷ a) [] h k = refl
less_total (x ∷ a) (y ∷ b) h k = let ih = less_total a b in ground (arith, ih)

All-less :
    {V : Type 0} (a b : Bytes) (m : Dict V)
    → less a b ≡ true
    → All (λ (k', v'). less b k' ≡ true) m
    → All (λ (k', v'). less a k' ≡ true) m
All-less a b [] h v = tt
All-less a b ((k, x) ∷ m) h v = (less_trans a b k h v.0, All-less a b m h v.1)

-- The interval of the keys between the two names is that of the keys with the prefix.
group_lem :
    (p k : Bytes)
    → (not (less k (p ++ dirsep_c ∷ [])) && less k (past_group (p ++ dirsep_c ∷ [])))
      ≡ starts_with (p ++ dirsep_c ∷ []) k
unfolding less past_group
group_lem [] [] = refl
group_lem [] (c ∷ []) = ground arith
group_lem [] (c ∷ d ∷ k) = ground arith
group_lem (x ∷ []) [] = refl
group_lem (x ∷ y ∷ p) [] = refl
group_lem (x ∷ []) (c ∷ k) = let ih = group_lem [] k in ground (arith, ih)
group_lem (x ∷ y ∷ p) (c ∷ k) = let ih = group_lem (y ∷ p) k in ground (arith, ih)

not_below : (a k k' : Bytes) → less k a ≡ false → less k k' ≡ true → less k' a ≡ false
not_below a k k' h l = elim (Bool-cases (less k' a)) [
  | inl e ↦ absurd (cc (less_trans k k' a l e, h))
  | inr e ↦ e
]

All-not_below :
    {V : Type 0} (a k : Bytes) (m : Dict V)
    → less k a ≡ false
    → All (λ (k', v'). less k k' ≡ true) m
    → All (λ (k', v'). less k' a ≡ false) m
All-not_below a k [] h s = tt
All-not_below a k ((k', v) ∷ m) h s = (not_below a k k' h s.0, All-not_below a k m h s.1)

module _ {V : Type 0} (p lo hi : Bytes)
    (between : (k : Bytes) → (not (less k lo) && less k hi) ≡ starts_with p k) where
  past_lem :
      (k : Bytes) (m : Dict V)
      → less k hi ≡ false
      → All (λ (k', v'). less k k' ≡ true) m
      → with_prefix p m ≡ []
  past_lem k [] h v = refl
  past_lem k ((k', x) ∷ m) h v =
      let above = not_below hi k k' h v.0 in
      let no : starts_with p k' ≡ false =
        sym (between k') ∙ rw above (and_false (not (less k' lo))) in
      rw no (past_lem k m h v.1)
    where
      and_false : (b : Bool) → (b && false) ≡ false
      and_false true = refl
      and_false false = refl

  inside_lem :
      (m : Dict V) → All (λ (k, v). less k lo ≡ false) m → IsSorted m → up_to hi m ≡ with_prefix p m
  unfolding up_to
  inside_lem [] h s = refl
  inside_lem ((k, v) ∷ m) h s = elim (Bool-cases (less k hi)) [
    | inl l ↦
        let yes : starts_with p k ≡ true = sym (between k) ∙ rw (h.0, l) refl in
        rw (l, yes) (ap (◌∷◌ (k, v)) (inside_lem m h.1 s.1))
    | inr l ↦
        let no : starts_with p k ≡ false = sym (between k) ∙ rw (h.0, l) refl in
        rw (l, no) (sym (past_lem k m l s.0))
  ]

  interval_lem : (m : Dict V) → IsSorted m → up_to hi (lower_bound lo m) ≡ with_prefix p m
  unfolding up_to lower_bound
  interval_lem [] s = refl
  interval_lem ((k, v) ∷ m) s = elim (Bool-cases (less k lo)) [
    | inl l ↦
        let no : starts_with p k ≡ false = sym (between k) ∙ rw l refl in
        rw (l, no) (interval_lem m s.1)
    | inr l ↦ rw l (inside_lem ((k, v) ∷ m) (l, All-not_below lo k m l s.0) s)
  ]

-- For a map in ascending order and a directory name that is not only separators, the range of
-- entries that virt_recurse_dir_enc goes through consists of exactly those entries, in their
-- order, whose name begins with the directory and one separator.
pub group_entries-with_prefix :
    {V : Type 0} (dir_sig_part : Bytes) (m : Dict V)
    → IsSorted m
    → group_name dir_sig_part ≢ dirsep_c ∷ []
    → group_entries dir_sig_part m ≡ with_prefix (group_name dir_sig_part) m
unfolding group_entries group_name
group_entries-with_prefix dir_sig_part m s h =
    elim (Bool-cases (length (group_name dir_sig_part) == 1)) [
      | inl e ↦ absurd (h (single_lem (reverse (trim_leading (reverse dir_sig_part))) e))
      | inr e ↦
          rw e (interval_lem _ _ _ (group_lem (reverse (trim_leading (reverse dir_sig_part)))) m s)
    ]
  where
    long_lem : (x : ℕ) (b : Bytes) → length ((x ∷ b) ++ dirsep_c ∷ []) ≡ length b + 2
    long_lem x b = omega (arith, length-append b (dirsep_c ∷ []))

    length_lem : (n : ℕ) → (n == 1) ≡ true → n ≡ 1
    length_lem n e = ground arith

    single_lem :
        (b : Bytes) → (length (b ++ dirsep_c ∷ []) == 1) ≡ true → b ++ dirsep_c ∷ [] ≡ dirsep_c ∷ []
    single_lem [] e = refl
    single_lem (x ∷ b) e = absurd (omega (arith, long_lem x b, length_lem _ e))

put-above :
    {V : Type 0} (a k : Bytes) (v : V) (m : Dict V)
    → less a k ≡ true
    → All (λ (k', v'). less a k' ≡ true) m
    → All (λ (k', v'). less a k' ≡ true) (put k v m)
unfolding put
put-above a k v [] h s = (h, tt)
put-above a k v ((k', v') ∷ m) h s = elim (Bool-cases (bytes_eq k k')) [
  | inl e ↦ rw e (h, s.1)
  | inr e ↦ elim (Bool-cases (less k k')) [
    | inl l ↦ rw (e, l) (h, s)
    | inr l ↦ rw (e, l) (s.0, put-above a k v m h s.1)
  ]
]

-- An entry that is put into a sorted map leaves it sorted.
pub put-IsSorted : {V : Type 0} (k : Bytes) (v : V) (m : Dict V) → IsSorted m → IsSorted (put k v m)
unfolding put
put-IsSorted k v [] s = (tt, tt)
put-IsSorted k v ((k', v') ∷ m) s = elim (Bool-cases (bytes_eq k k')) [
  | inl e ↦ let same : k ≡ k' = (bytes_eq_iff k k').0 e in rw e (rw (← same) at s)
  | inr e ↦ elim (Bool-cases (less k k')) [
    | inl l ↦ rw (e, l) ((l, All-less k k' m l s.0), s)
    | inr l ↦ rw (e, l) (put-above k' k v m (less_total k k' e l) s.0, put-IsSorted k v m s.1)
  ]
]
