-- ===== src/Recover/Records.antt =====
-- The records that `rsyncrypto_recover` prints.
use rsyncrypto.Prelude.{
  ℕ, ◌+◌, ◌<◌, true, false, Bytes, List, [], ◌∷◌, ◌++◌, ◌==◌, inl, inr, if◌then◌else◌, All, length,
  ◌≡◌, ◌≢◌, refl, arith, Bool-cases, sym, ◌∙◌, ap, append_assoc, append-nil, length-append,
  All-append,
}
use rsyncrypto.Recover.{FileRecord, is_hex, is_dirsep, printed, recover}
use rsyncrypto.Recover.Line.{
  Line, start, bad, discarded, in_cipher, in_space, in_plain, advance, lines, lines-cons, lines-nil,
}
use rsyncrypto.Recover.Refinement.{recover-lines}

abbrev pub IsHex : ℕ → Type 0
IsHex ch = is_hex ch ≡ true

abbrev pub IsNotNul : ℕ → Type 0
IsNotNul ch = ch ≢ 0

-- A separator, 32 hexadecimal digits and a name.
pub record IsGood (r : FileRecord) : Type 0 where
  pub sep_is : is_dirsep r.sep ≡ true
  pub crypt_is : All IsHex r.crypt
  pub crypt_size : length r.crypt ≡ 32
  pub plain_is : All IsNotNul r.plain
  pub plain_size : 0 < length r.plain

abbrev pub file_of : List FileRecord → Bytes
file_of [] = []
file_of (r ∷ rs) = printed r.sep r.crypt r.plain ++ file_of rs

-- What a line must be for the record at its end to be good.
abbrev IsLine : Line → Type 0
IsLine start = Unit
IsLine bad = Unit
IsLine discarded = Unit
IsLine (in_cipher d c) = (is_dirsep d ≡ true) × All IsHex c × (length c < 32)
IsLine (in_space d c) = (is_dirsep d ≡ true) × All IsHex c × (length c ≡ 32)
IsLine (in_plain d c p) = (is_dirsep d ≡ true) × All IsHex c × (length c ≡ 32) × All IsNotNul p

abbrev Gives : Line × Bytes → Type 0
Gives (l, out) = IsLine l × (rs : List FileRecord) × All IsGood rs × (out ≡ file_of rs)

advance-IsLine : (l : Line) (ch : ℕ) → IsLine l → Gives (advance l ch)
unfolding advance
advance-IsLine l ch v = go l v
  where
    nothing : (l : Line) → IsLine l → Gives (l, [])
    nothing l h = (h, [], tt, refl)

    full : (c : Bytes) → length c + 1 ≡ 32 → length (c ++ ch ∷ []) ≡ 32
    full c h = length-append c (ch ∷ []) ∙ h

    grown : (c : Bytes) → length c < 32 → length c + 1 ≢ 32 → length (c ++ ch ∷ []) < 32
    grown c h k = omega (arith, h, k, length-append c (ch ∷ []))

    ended :
        (d : ℕ) (c p : Bytes)
        → IsLine (in_plain d c p)
        → Gives (start, if length p == 0 then [] else printed d c p)
    ended d c p v = elim (Bool-cases (length p == 0)) [
      | inl z ↦ rw (z) (nothing start tt)
      | inr z ↦ rw (z) (
        tt,
        record { sep = d; crypt = c; plain = p } ∷ [],
        (
          record {
            sep_is = v.0;
            crypt_is = v.1;
            crypt_size = v.2;
            plain_is = v.3;
            plain_size = ground arith;
          },
          tt,
        ),
        sym (append-nil (printed d c p)),
      )
    ]

    given_up : Gives (if ch == 0 then (start, []) else (bad, []))
    given_up = elim (Bool-cases (ch == 0)) [
      | inl x ↦ rw (x) (nothing start tt)
      | inr x ↦ rw (x) (nothing bad tt)
    ]

    go : (l : Line) → IsLine l → Gives (advance l ch)
    go start v = elim (Bool-cases (is_dirsep ch)) [
      | inl x ↦ rw (x) (nothing (in_cipher ch []) (x, tt, omega arith))
      | inr x ↦ elim (Bool-cases (ch == 0)) [
        | inl y ↦ rw (x, y) (nothing start tt)
        | inr y ↦ elim (Bool-cases (ch == 32)) [
          | inl z ↦ rw (x, y, z) (nothing discarded tt)
          | inr z ↦ rw (x, y, z) (nothing bad tt)
        ]
      ]
    ]
    go bad v = given_up
    go discarded v = given_up
    go (in_cipher d c) v = elim (Bool-cases (is_hex ch)) [
      | inl x ↦ elim (Bool-cases (length c + 1 == 32)) [
        | inl y ↦
            rw (x, y)
              (nothing (in_space d (c ++ ch ∷ []))
                (v.0, All-append IsHex c (ch ∷ []) v.1 (x, tt), full c (ground arith)))
        | inr y ↦
            rw (x, y)
              (nothing (in_cipher d (c ++ ch ∷ []))
                (v.0, All-append IsHex c (ch ∷ []) v.1 (x, tt), grown c v.2 (ground arith)))
      ]
      | inr x ↦ rw (x) given_up
    ]
    go (in_space d c) v = elim (Bool-cases (ch == 32)) [
      | inl x ↦ rw (x) (nothing (in_plain d c []) (v.0, v.1, v.2, tt))
      | inr x ↦ rw (x) given_up
    ]
    go (in_plain d c p) v = elim (Bool-cases (ch == 0)) [
      | inl x ↦ rw (x) (ended d c p v)
      | inr x ↦ rw (x) (
          nothing (in_plain d c (p ++ ch ∷ []))
            (v.0, v.1, v.2, All-append IsNotNul p (ch ∷ []) v.3 ((ground arith), tt)))
    ]

file_of-append : (rs ss : List FileRecord) → file_of (rs ++ ss) ≡ file_of rs ++ file_of ss
file_of-append [] ss = refl
file_of-append (r ∷ rs) ss =
    rw
      (file_of-append rs ss, append_assoc (printed r.sep r.crypt r.plain) (file_of rs) (file_of ss))
      refl

lines-IsGood :
    (l : Line) (bytes : Bytes)
    → IsLine l
    → (rs : List FileRecord) × All IsGood rs × (lines l bytes ≡ file_of rs)
lines-IsGood l [] v = ([], tt, lines-nil l)
lines-IsGood l (ch ∷ rest) v =
    let (v', rs, g, e) = advance-IsLine l ch v in
    let (ss, g', e') = lines-IsGood (advance l ch).0 rest v' in
    (
      rs ++ ss,
      All-append IsGood rs ss g g',
      lines-cons l ch rest ∙ rw (e, e') (sym (file_of-append rs ss)),
    )

-- Whatever the file, and whatever 32 characters the record starts with, the program prints a file
-- of good records: a separator, 32 hexadecimal digits and a name that is not empty and has no NUL.
pub recover-IsGood :
    (uninitialised : FileRecord) (bytes : Bytes)
    → length uninitialised.crypt ≡ 32
    → (rs : List FileRecord) × All IsGood rs × (recover uninitialised bytes ≡ file_of rs)
recover-IsGood uninitialised bytes h =
    let (rs, g, e) = lines-IsGood start bytes tt in (rs, g, recover-lines uninitialised bytes h ∙ e)

-- Reading a good record.
lines-plain :
    (d : ℕ) (c p q rest : Bytes)
    → All IsNotNul q
    → 0 < length p + length q
    → lines (in_plain d c p) (q ++ (0 ∷ rest)) ≡ printed d c (p ++ q) ++ lines start rest
unfolding advance
lines-plain d c p [] rest h n =
    let z : length p == 0 ≡ false = ground arith in
    lines-cons (in_plain d c p) 0 rest ∙ rw (z, append-nil p) refl
lines-plain d c p (x ∷ q) rest h n =
    let z : x == 0 ≡ false = ground arith in
    lines-cons (in_plain d c p) x (q ++ (0 ∷ rest))
    ∙ rw (z) (
        lines-plain d c (p ++ x ∷ []) q rest h.1 (omega (arith, length-append p (x ∷ [])))
        ∙ rw (append_assoc p (x ∷ []) q) refl)

lines-cipher :
    (d : ℕ) (c q rest : Bytes)
    → All IsHex q
    → 0 < length q
    → length c + length q ≡ 32
    → lines (in_cipher d c) (q ++ rest) ≡ lines (in_space d (c ++ q)) rest
unfolding advance
lines-cipher d c [] rest h n s = absurd (omega arith)
lines-cipher d c (x ∷ []) rest h n s =
    let z : length c + 1 == 32 ≡ true = ground arith in
    lines-cons (in_cipher d c) x rest ∙ rw (h.0, z) refl
lines-cipher d c (x ∷ y ∷ q) rest h n s =
    let z : length c + 1 == 32 ≡ false = ground arith in
    lines-cons (in_cipher d c) x (y ∷ (q ++ rest))
    ∙ rw (h.0, z)
        (lines-cipher d (c ++ x ∷ []) (y ∷ q) rest h.1 (omega arith)
            (omega (arith, length-append c (x ∷ [])))
          ∙ rw (append_assoc c (x ∷ []) (y ∷ q)) refl)

lines-printed :
    (r : FileRecord) (rest : Bytes)
    → IsGood r
    → lines start (printed r.sep r.crypt r.plain ++ rest)
      ≡ printed r.sep r.crypt r.plain ++ lines start rest
unfolding advance printed
lines-printed r rest g =
    let d = r.sep in
    let c = r.crypt in
    let p = r.plain in
    rw (append_assoc c (32 ∷ (p ++ 0 ∷ [])) rest, append_assoc p (0 ∷ []) rest)
      (lines-cons start d (c ++ (32 ∷ (p ++ (0 ∷ rest))))
        ∙ rw (g.sep_is) (
            lines-cipher d [] c (32 ∷ (p ++ (0 ∷ rest))) g.crypt_is (omega (arith, g.crypt_size))
              (omega (arith, g.crypt_size))
            ∙ lines-cons (in_space d c) 32 (p ++ (0 ∷ rest))
            ∙ lines-plain d c [] p rest g.plain_is (omega (arith, g.plain_size))))

pub lines-file_of : (rs : List FileRecord) → All IsGood rs → lines start (file_of rs) ≡ file_of rs
lines-file_of [] g = lines-nil start
lines-file_of (r ∷ rs) g =
    lines-printed r (file_of rs) g.0
    ∙ ap (λ (x : Bytes). printed r.sep r.crypt r.plain ++ x) (lines-file_of rs g.1)
