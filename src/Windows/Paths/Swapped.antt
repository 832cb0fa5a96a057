-- ===== src/Windows/Paths/Swapped.antt =====
-- The functions of win32/autofd.cpp against those of autofd.h, with the two separators exchanged.
use rsyncrypto.Prelude.{
  ℕ, suc, ◌+◌, ◌-◌, ◌<◌, Bool, true, false, not, ◌&&◌, Bytes, [], ◌∷◌, ◌++◌, reverse, length-append,
  get_or-append_exact, All, All-reverse, ◌==◌, ==-distinct, ltb, if◌then◌else◌, length, get_or, ◌≡◌,
  ◌≢◌, refl, subst, sym, ◌∙◌, ap, arith,
}
use mathlib.Core.List.{reverse_aux, reverse-append, reverse-reverse}
use rsyncrypto.Filemap.Names
use rsyncrypto.Paths
use rsyncrypto.Windows.Paths.{dirsep_c, trim_leading, trim_trailing, combine_paths, dirpart_loop}

-- The slash is 47.
unfoldable pub swapped_char : ℕ → ℕ
swapped_char c = if c == 92 then 47 else (if c == 47 then 92 else c)

abbrev pub swapped : Bytes → Bytes
swapped [] = []
swapped (c ∷ path) = swapped_char c ∷ swapped path

swapped_char-swapped_char : (c : ℕ) → swapped_char (swapped_char c) ≡ c
unfolding swapped_char
swapped_char-swapped_char c = ground arith

same_test : (c : ℕ) → (swapped_char c == 47) ≡ (c == 92)
unfolding swapped_char
same_test c = ground arith

swapped-append : (xs ys : Bytes) → swapped (xs ++ ys) ≡ swapped xs ++ swapped ys
swapped-append [] ys = refl
swapped-append (c ∷ xs) ys = ap (λ zs. swapped_char c ∷ zs) (swapped-append xs ys)

length-swapped : (xs : Bytes) → length (swapped xs) ≡ length xs
length-swapped [] = refl
length-swapped (c ∷ xs) = omega (arith, length-swapped xs)

swapped_if :
    (b : Bool) (xs ys : Bytes)
    → (if b then swapped xs else swapped ys) ≡ swapped (if b then xs else ys)
swapped_if true xs ys = refl
swapped_if false xs ys = refl

trim_leading-swapped : (xs : Bytes) → Names.trim_leading (swapped xs) ≡ swapped (trim_leading xs)
unfolding trim_leading Names.trim_leading
trim_leading-swapped [] = refl
trim_leading-swapped (c ∷ xs) =
    let rest = trim_leading-swapped xs in
    rw (Names.trim_leading, same_test c, rest)
      (swapped_if (c == dirsep_c) (trim_leading xs) (c ∷ xs))

dirpart_loop-swapped :
    (i last : ℕ) (xs : Bytes) → Paths.dirpart_loop i last (swapped xs) ≡ dirpart_loop i last xs
unfolding dirpart_loop Paths.dirpart_loop
dirpart_loop-swapped i last [] = refl
dirpart_loop-swapped i last (c ∷ xs) =
    let rest = dirpart_loop-swapped (i + 1) (if c == dirsep_c then i else last) xs in
    rw (Paths.dirpart_loop, same_test c) rest

swapped-reverse_aux :
    (xs ys : Bytes) → swapped (reverse_aux xs ys) ≡ reverse_aux (swapped xs) (swapped ys)
swapped-reverse_aux [] ys = refl
swapped-reverse_aux (c ∷ xs) ys = swapped-reverse_aux xs (c ∷ ys)

swapped-reverse : (xs : Bytes) → swapped (reverse xs) ≡ reverse (swapped xs)
swapped-reverse xs = swapped-reverse_aux xs []

trim_trailing-swapped : (xs : Bytes) → Names.trim_trailing (swapped xs) ≡ swapped (trim_trailing xs)
unfolding trim_trailing Names.trim_trailing
trim_trailing-swapped [] = refl
trim_trailing-swapped (c ∷ xs) =
    ap (λ ys. swapped_char c ∷ reverse (Names.trim_leading ys)) (sym (swapped-reverse xs))
    ∙ ap (λ ys. swapped_char c ∷ reverse ys) (trim_leading-swapped (reverse xs))
    ∙ ap (λ ys. swapped_char c ∷ ys) (sym (swapped-reverse (trim_leading (reverse xs))))

-- The character that trim_trailing leaves at the end.
abbrev pub last : Bytes → ℕ
last xs = get_or xs (length xs - 1) 0

last-append : (xs : Bytes) (c : ℕ) → last (xs ++ c ∷ []) ≡ c
last-append xs c =
    let n : length (xs ++ c ∷ []) - 1 ≡ length xs = omega (arith, length-append xs (c ∷ [])) in
    get_or-append_exact xs c [] (length (xs ++ c ∷ []) - 1) 0 (sym n)

trim_leading_first : (xs : Bytes) (d : ℕ) (ds : Bytes) → trim_leading xs ≡ d ∷ ds → d ≢ dirsep_c
unfolding trim_leading
trim_leading_first [] d ds e = absurd cc
trim_leading_first (c ∷ xs) d ds e = ground (arith, trim_leading_first xs d ds)

only_seps : (xs : Bytes) → trim_leading xs ≡ [] → All (λ c. c ≡ dirsep_c) xs
unfolding trim_leading
only_seps [] e = tt
only_seps (c ∷ xs) e = ground (arith, only_seps xs)

seps-trim_leading : (xs : Bytes) → All (λ c. c ≡ dirsep_c) xs → trim_leading xs ≡ []
unfolding trim_leading
seps-trim_leading [] h = refl
seps-trim_leading (c ∷ xs) h = ground (arith, h.0, seps-trim_leading xs h.1)

seps-reverse : (xs : Bytes) → All (λ c. c ≡ dirsep_c) xs → All (λ c. c ≡ dirsep_c) (reverse xs)
seps-reverse xs h = All-reverse (λ c. c ≡ dirsep_c) xs h

last-trim_trailing :
    (c : ℕ) (rest : Bytes)
    → trim_leading (c ∷ rest) ≢ []
    → last (trim_trailing (c ∷ rest)) ≢ dirsep_c
unfolding trim_trailing
last-trim_trailing c rest h = go (trim_leading (reverse rest)) refl
  where
    go : (w : Bytes) → trim_leading (reverse rest) ≡ w → last (c ∷ reverse w) ≢ dirsep_c
    go [] e = λ sep. h (
        seps-trim_leading (c ∷ rest) (
          sep,
          subst (All (λ d. d ≡ dirsep_c)) (reverse-reverse rest)
              (seps-reverse (reverse rest) (only_seps (reverse rest) e)),
        ))
    go (d ∷ ds) e =
        let end =
          ap (λ ys. last (c ∷ ys)) (reverse-append (d ∷ []) ds) ∙ last-append (c ∷ reverse ds) d in
        λ sep. trim_leading_first (reverse rest) d ds e (sym end ∙ sep)

last-cons : (c d : ℕ) (xs : Bytes) → last (c ∷ d ∷ xs) ≡ last (d ∷ xs)
last-cons c d xs =
    ap (λ n. get_or (c ∷ d ∷ xs) n 0) {x = length (c ∷ d ∷ xs) - 1} {y = suc (length xs)}
      (omega arith)
    ∙ ap (λ n. get_or (d ∷ xs) n 0) {x = length xs} {y = length (d ∷ xs) - 1} (omega arith)

slash_only : (c : ℕ) → swapped_char c ≡ 47 → c ≡ dirsep_c
unfolding swapped_char
slash_only c e = ground arith

swapped-sep : swapped (dirsep_c ∷ []) ≡ 47 ∷ []
unfolding swapped_char
swapped-sep = refl

last-swapped : (c : ℕ) (xs : Bytes) → last (swapped (c ∷ xs)) ≡ swapped_char (last (c ∷ xs))
last-swapped c [] = refl
last-swapped c (d ∷ xs) =
    last-cons (swapped_char c) (swapped_char d) (swapped xs)
    ∙ last-swapped d xs
    ∙ ap swapped_char (sym (last-cons c d xs))

length-trim_trailing : (c : ℕ) (left : Bytes) → 0 < length (trim_trailing (c ∷ left))
unfolding trim_trailing
length-trim_trailing c left = omega arith

with_sep :
    (ret rest : Bytes)
    → 0 < length ret
    → (if ltb 0 (length ret) then ret ++ dirsep_c ∷ [] else ret) ++ rest
      ≡ (ret ++ dirsep_c ∷ []) ++ rest
with_sep ret rest h = let some : ltb 0 (length ret) ≡ true = ground arith in rw (some) refl

with_open_end :
    (ret rest : Bytes)
    → 0 < length ret
    → last ret ≢ 47
    → (if ltb 0 (length ret) && not (last ret == 47) then ret ++ 47 ∷ [] else ret) ++ rest
      ≡ (ret ++ 47 ∷ []) ++ rest
with_open_end ret rest h k =
    let some : ltb 0 (length ret) ≡ true = ground arith in
    let end : (last ret == 47) ≡ false = ==-distinct (last ret) 47 k in rw (some, end) refl

open_end :
    (c : ℕ) (left : Bytes)
    → trim_leading (c ∷ left) ≢ []
    → last (swapped (trim_trailing (c ∷ left))) ≢ 47
unfolding trim_trailing
open_end c left h e =
    let last_char = last-swapped c (reverse (trim_leading (reverse left))) in
    last-trim_trailing c left h (slash_only (last (trim_trailing (c ∷ left))) (sym last_char ∙ e))

-- For a left path that is not empty and not only separators, combine_paths of win32 gives what
-- that of autofd.h gives, with the slash and the backslash exchanged.
pub swapped-combine_paths :
    (left right : Bytes)
    → trim_leading left ≢ []
    → Names.combine_paths (swapped left) (swapped right) ≡ swapped (combine_paths left right)
unfolding combine_paths Names.combine_paths
swapped-combine_paths [] right h = absurd (h (seps-trim_leading [] tt))
swapped-combine_paths (c ∷ left) right h =
    let ret = trim_trailing (c ∷ left) in
    let same = trim_trailing-swapped (c ∷ left) in
    let size = length-trim_trailing c left in
    let end : last (swapped ret) ≢ 47 = open_end c left h in
    ap
      (λ r.
        (if ltb 0 (length r) && not (last r == 47) then r ++ 47 ∷ [] else r)
        ++ Names.trim_leading (swapped right))
      same
    ∙ with_open_end (swapped ret) (Names.trim_leading (swapped right))
        (omega (arith, length-swapped ret)) end
    ∙ ap (λ r. (swapped ret ++ 47 ∷ []) ++ r) (trim_leading-swapped right)
    ∙ ap (λ r. r ++ swapped (trim_leading right))
        (ap (λ e. swapped ret ++ e) (sym swapped-sep) ∙ sym (swapped-append ret (dirsep_c ∷ [])))
    ∙ sym (swapped-append (ret ++ dirsep_c ∷ []) (trim_leading right))
    ∙ ap swapped (sym (with_sep ret (trim_leading right) size))
