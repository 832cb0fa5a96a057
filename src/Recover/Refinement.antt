-- ===== src/Recover/Refinement.antt =====
-- The state machine of recover.cpp implements the reading of lines of `Recover.Line`.
use rsyncrypto.Prelude.{
  ℕ, zero, suc, ◌+◌, ◌<◌, Bytes, [], ◌∷◌, ◌++◌, ◌==◌, length, take, set, ◌≡◌, refl, arith,
  Bool-cases, inl, inr, sym, ◌∙◌, ap, length-take,
}
use rsyncrypto.Recover.{
  State, dirsep, ciphername, space, plainname, invalid, rsync107_invalid, FileRecord, Machine,
  is_hex, is_dirsep, printed, dispatch, restart, step, run, recover,
}
use rsyncrypto.Recover.Line.{
  Line, start, bad, discarded, in_cipher, in_space, in_plain, advance, lines,
}

abbrev view : State → ℕ → FileRecord → Line
view dirsep i e = start
view ciphername i e = in_cipher e.sep (take i e.crypt)
view space i e = in_space e.sep (take 32 e.crypt)
view plainname i e = in_plain e.sep (take 32 e.crypt) e.plain
view invalid i e = bad
view rsync107_invalid i e = discarded

abbrev IsAtState : State → ℕ → FileRecord → Type 0
IsAtState dirsep i e = Unit
IsAtState ciphername i e = (i < 32) × (e.plain ≡ [])
IsAtState space i e = e.plain ≡ []
IsAtState plainname i e = Unit
IsAtState invalid i e = Unit
IsAtState rsync107_invalid i e = Unit

abbrev IsInStep : Machine → Type 0
IsInStep m = (length m.entry.crypt ≡ 32) × IsAtState m.state m.line_state m.entry

abbrev line_of : Machine → Line
line_of m = view m.state m.line_state m.entry

length-set : (xs : Bytes) (i v : ℕ) → length (set xs i v) ≡ length xs
length-set [] i v = refl
length-set (x ∷ xs) zero v = refl
length-set (x ∷ xs) (suc i) v = ap suc (length-set xs i v)

take-set : (xs : Bytes) (i v : ℕ) → i < length xs → take (suc i) (set xs i v) ≡ take i xs ++ v ∷ []
take-set [] i v h = absurd (omega arith)
take-set (x ∷ xs) zero v h = refl
take-set (x ∷ xs) (suc i) v h = ap (◌∷◌ x) (take-set xs i v (omega arith))

abbrev Agree : Machine × Bytes → Line × Bytes → Type 0
Agree r l = IsInStep r.0 × (line_of r.0 ≡ l.0) × (r.1 ≡ l.1)

step_lem : (m : Machine) (ch : ℕ) → IsInStep m → Agree (step m ch) (advance (line_of m) ch)
unfolding step dispatch restart advance is_hex is_dirsep printed
step_lem m ch v = go m.state m.line_state m.entry.sep m.entry.crypt m.entry.plain v.0 v.1
  where
    go :
        (s : State) (i d : ℕ) (c p : Bytes)
        → length c ≡ 32
        → IsAtState s i (record { sep = d; crypt = c; plain = p })
        → Agree
            (step
              (record {
                state = s;
                line_state = i;
                entry = record { sep = d; crypt = c; plain = p };
              })
              ch)
            (advance (view s i (record { sep = d; crypt = c; plain = p })) ch)
    go dirsep i d c p n h = ground arith
    go ciphername i d c p n h =
        let len : length (take i c) ≡ i = omega (arith, length-take i c, n, h.0) in
        let t = take-set c i ch (omega (arith, n, h.0)) in
        let t' : take (i + 1) (set c i ch) ≡ take i c ++ ch ∷ [] =
          ap (λ (k : ℕ). take k (set c i ch)) {x = i + 1} {y = suc i} (omega arith) ∙ t in
        let n' = length-set c i ch ∙ n in
        let lt = h.0 in
        let nil = h.1 in
        elim (Bool-cases (is_hex ch)) [
          | inl x ↦ elim (Bool-cases (i + 1 == 32)) [
            | inl y ↦
                let k : i + 1 ≡ 32 = ground arith in
                rw (x, len, y)
                  (
                    (n', nil),
                    ap (in_space d) (ap (λ (k : ℕ). take k (set c i ch)) {x = 32} (sym k) ∙ t'),
                    refl,
                  )
            | inr y ↦ rw (x, len, y) ((n', (ground arith, nil)), ap (in_cipher d) t', refl)
          ]
          | inr x ↦ rw (x) (ground arith)
        ]
    go space i d c p n h = ground arith
    go plainname i d c p n h = ground arith
    go invalid i d c p n h = ground arith
    go rsync107_invalid i d c p n h = ground arith

-- In step, the machine prints what the lines give.
run_lem : (m : Machine) (bytes : Bytes) → IsInStep m → run m bytes ≡ lines (line_of m) bytes
unfolding run lines
run_lem m [] v = refl
run_lem m (ch ∷ rest) v =
    let (v', l, o) = step_lem m ch v in rw (o, run_lem (step m ch).0 rest v', l) refl

-- Whatever 32 characters the record starts with, the program prints what the reading of lines
-- gives.
pub recover-lines :
    (uninitialised : FileRecord) (bytes : Bytes)
    → length uninitialised.crypt ≡ 32
    → recover uninitialised bytes ≡ lines start bytes
unfolding recover
recover-lines uninitialised bytes h =
    run_lem (record { state = dirsep; line_state = 0; entry = uninitialised }) bytes (h, tt)
