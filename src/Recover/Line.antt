-- ===== src/Recover/Line.antt =====
-- What `rsyncrypto_recover` does to a line, without its array and its counters.
use rsyncrypto.Prelude.{
  ℕ, ◌+◌, Bytes, [], ◌∷◌, ◌++◌, ◌==◌, if◌then◌else◌, length, ◌≡◌, refl, append_assoc,
}
use rsyncrypto.Recover.{is_hex, is_dirsep, printed}

-- How much of a line was read: the names so far.
pub data Line : Type 0 where
  start bad discarded : Line
  in_cipher : ℕ → Bytes → Line
  in_space : ℕ → Bytes → Line
  in_plain : ℕ → Bytes → Bytes → Line

abbrev pub give_up : ℕ → Line × Bytes
give_up ch = if ch == 0 then (start, []) else (bad, [])

unfoldable pub advance : Line → ℕ → Line × Bytes
unfolding is_hex is_dirsep printed
advance start ch =
    if is_dirsep ch
    then (in_cipher ch [], [])
    else if ch == 0
    then (start, [])
    else if ch == 32
    then (discarded, [])
    else (bad, [])
advance bad ch = give_up ch
advance discarded ch = give_up ch
advance (in_cipher d c) ch =
    if is_hex ch
    then (if length c + 1 == 32 then in_space d (c ++ ch ∷ []) else in_cipher d (c ++ ch ∷ []), [])
    else give_up ch
advance (in_space d c) ch = if ch == 32 then (in_plain d c [], []) else give_up ch
advance (in_plain d c p) ch =
    if ch == 0
    then (start, (if length p == 0 then [] else printed d c p))
    else (in_plain d c (p ++ ch ∷ []), [])

unfoldable pub lines : Line → Bytes → Bytes
unfolding advance
lines l [] = []
lines l (ch ∷ rest) = let (l', out) = advance l ch in out ++ lines l' rest

-- Whatever the line, a NUL ends it.
advance-nul : (l : Line) → (advance l 0).0 ≡ start
unfolding advance is_hex is_dirsep
advance-nul start = refl
advance-nul bad = refl
advance-nul discarded = refl
advance-nul (in_cipher d c) = refl
advance-nul (in_space d c) = refl
advance-nul (in_plain d c p) = refl

pub lines-cons :
    (l : Line) (ch : ℕ) (rest : Bytes)
    → lines l (ch ∷ rest) ≡ (advance l ch).1 ++ lines (advance l ch).0 rest
unfolding lines
lines-cons l ch rest = refl

pub lines-nil : (l : Line) → lines l [] ≡ []
unfolding lines
lines-nil l = refl

-- What stands behind a NUL is read as it is from the start.
pub lines-append_nul :
    (l : Line) (a b : Bytes) → lines l (a ++ (0 ∷ b)) ≡ lines l (a ++ 0 ∷ []) ++ lines start b
lines-append_nul l [] b =
    rw
      (
        lines-cons l 0 b,
        lines-cons l 0 [],
        lines-nil (advance l 0).0,
        advance-nul l,
        append_assoc (advance l 0).1 [] (lines start b),
      )
      refl
lines-append_nul l (ch ∷ a) b =
    rw
      (
        lines-cons l ch (a ++ (0 ∷ b)),
        lines-cons l ch (a ++ 0 ∷ []),
        lines-append_nul (advance l ch).0 a b,
        append_assoc (advance l ch).1 (lines (advance l ch).0 (a ++ 0 ∷ [])) (lines start b),
      )
      refl
