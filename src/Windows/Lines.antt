-- ===== src/Windows/Lines.antt =====
-- `autofd::readline` of win32/autofd.cpp.
use rsyncrypto.Prelude.{
  ℕ, ◌-◌, true, false, ◌&&◌, Bytes, [], ◌∷◌, ◌++◌, ◌==◌, ==-distinct, ltb, if◌then◌else◌, length,
  length-append, take, take-append_exact, get_or, get_or-append_exact, All, append_assoc,
  append-nil, ◌≡◌, ◌≢◌, refl, sym, ◌∙◌, ap, arith,
}

-- The loop, from what `ret` and `ch` are and the rest of the file: both behind it, and what is left.
unfoldable pub readline_loop : Bytes → ℕ → Bytes → ℕ × Bytes × Bytes
readline_loop ret ch [] = (ch, ret, [])
readline_loop ret ch (c ∷ rest) =
    let more = readline_loop (ret ++ c ∷ []) c rest in if c == 10 then (c, ret, rest) else more

-- What stands behind the loop.
unfoldable pub drop_cr : ℕ → Bytes → Bytes
drop_cr ch ret =
    if ch == 10 && (ltb 0 (length ret) && get_or ret (length ret - 1) 0 == 13)
    then take (length ret - 1) ret
    else ret

-- `readline`: the line, and the rest of the file. `ch` is not initialised.
unfoldable pub readline : ℕ → Bytes → Bytes × Bytes
unfolding readline_loop drop_cr
readline ch file = let (ch', ret, rest) = readline_loop [] ch file in (drop_cr ch' ret, rest)

line-readline_loop :
    (ret line rest : Bytes) (ch : ℕ)
    → All (λ c. c ≢ 10) line
    → readline_loop ret ch (line ++ (10 ∷ rest)) ≡ (10, ret ++ line, rest)
unfolding readline_loop
line-readline_loop ret [] rest ch h = ap (λ r. (10, r, rest)) (sym (append-nil ret))
line-readline_loop ret (c ∷ line) rest ch h =
    let other : (c == 10) ≡ false = ==-distinct c 10 h.0 in
    let more = line-readline_loop (ret ++ c ∷ []) line rest c h.1 in
    rw (other) (more ∙ ap (λ r. (10, r, rest)) (append_assoc ret (c ∷ []) line))

cr-drop_cr : (line : Bytes) → drop_cr 10 (line ++ (13 ∷ [])) ≡ line
unfolding drop_cr
cr-drop_cr line =
    let n : length (line ++ (13 ∷ [])) - 1 ≡ length line =
      omega (arith, length-append line (13 ∷ [])) in
    let some : ltb 0 (length (line ++ (13 ∷ []))) ≡ true =
      ground (arith, length-append line (13 ∷ [])) in
    let cr : (get_or (line ++ (13 ∷ [])) (length line) 0) ≡ 13 =
      get_or-append_exact line 13 [] (length line) 0 refl in
    rw (some, n, cr) (take-append_exact line (13 ∷ []) (length line) refl)

-- The character before the line's end, if there is one.
abbrev pub EndsNotInCr : Bytes → Type 0
EndsNotInCr line = get_or line (length line - 1) 0 ≢ 13

kept-drop_cr : (line : Bytes) → EndsNotInCr line → drop_cr 10 line ≡ line
unfolding drop_cr
kept-drop_cr line h =
    let other : (get_or line (length line - 1) 0 == 13) ≡ false =
      ==-distinct (get_or line (length line - 1) 0) 13 h in
    let never : (ltb 0 (length line) && false) ≡ false = ground arith in rw (other, never) refl

-- A line without an end of line in it and without a carriage return at its end is read up to
-- either form of the end of line, whatever ch was.
pub readline-line :
    (ch : ℕ) (line rest : Bytes)
    → All (λ c. c ≢ 10) line
    → EndsNotInCr line
    → (readline ch (line ++ (13 ∷ 10 ∷ rest)) ≡ (line, rest))
      × (readline ch (line ++ (10 ∷ rest)) ≡ (line, rest))
unfolding readline
readline-line ch line rest h k = (
  ap (λ r. (drop_cr r.0 r.1, r.2))
        (ap (readline_loop [] ch) (sym (append_assoc line (13 ∷ []) (10 ∷ rest)))
          ∙ line-readline_loop [] (line ++ (13 ∷ [])) rest ch (with_cr line h))
      ∙ ap (λ r. (r, rest)) (cr-drop_cr line),
  ap (λ r. (drop_cr r.0 r.1, r.2)) (line-readline_loop [] line rest ch h)
      ∙ ap (λ r. (r, rest)) (kept-drop_cr line k),
)
  where
    with_cr : (line : Bytes) → All (λ c. c ≢ 10) line → All (λ c. c ≢ 10) (line ++ (13 ∷ []))
    with_cr [] v = (λ e. absurd (omega arith), tt)
    with_cr (c ∷ line) v = (v.0, with_cr line v.1)
