-- ===== src/Filemap/Drawn.antt =====
-- The encrypted names that the loop of `namecat_encrypt` draws: hexadecimal, and not the name of the map.
use rsyncrypto.Prelude.{
  ℕ, zero, suc, ◌+◌, Bytes, IsByte, [], ◌∷◌, Result, ok, err, Error, Option, none, some, All, ◌≡◌,
  ◌≢◌, refl, sym, subst, ◌∙◌, arith,
}
use rsyncrypto.Recover.{is_hex}
use rsyncrypto.Recover.Records.{IsHex}
use rsyncrypto.Filemap.{Dict, find}
use rsyncrypto.Filemap.Filling.{IsPlain}
use rsyncrypto.Filemap.Names.{bin2hex}
use rsyncrypto.Filemap.Naming.{new_encoding}
use rsyncrypto.Filemap.Decoding.{filemapname, IsNamed}

-- What the source of random bytes gives.
abbrev pub IsDrawing : (ℕ → Option Bytes) → Type 0
IsDrawing rand = (i : ℕ) (b : Bytes) → rand i ≡ some b → All IsByte b × (b ≢ [])

drawn_none :
    (rand : ℕ → Option Bytes) (rev : Dict Bytes) (i tries : ℕ)
    → rand i ≡ none
    → new_encoding rand rev i (suc tries) ≡ err Error.no_random_entropy
unfolding new_encoding
drawn_none rand rev i tries q = rw (new_encoding, q) refl

drawn_new :
    (rand : ℕ → Option Bytes) (rev : Dict Bytes) (i tries : ℕ) (b : Bytes)
    → rand i ≡ some b
    → find (bin2hex b) rev ≡ none
    → new_encoding rand rev i (suc tries) ≡ ok (bin2hex b)
unfolding new_encoding
drawn_new rand rev i tries b q f = rw (new_encoding, q) (rw (f) refl)

drawn_again :
    (rand : ℕ → Option Bytes) (rev : Dict Bytes) (i tries : ℕ) (b name : Bytes)
    → rand i ≡ some b
    → find (bin2hex b) rev ≡ some name
    → new_encoding rand rev i (suc tries) ≡ new_encoding rand rev (i + 1) tries
unfolding new_encoding
drawn_again rand rev i tries b name q f = rw (new_encoding, q) (rw (f) refl)

-- A name whose bytes were drawn.
abbrev pub Drawn : (ℕ → Option Bytes) → Bytes → Type 0
Drawn rand c = (j : ℕ) × (b : Bytes) × (rand j ≡ some b) × (bin2hex b ≡ c)

pub new_encoding-bin2hex :
    (rand : ℕ → Option Bytes) (rev : Dict Bytes) (i tries : ℕ) (c : Bytes)
    → new_encoding rand rev i tries ≡ ok c
    → Drawn rand c
unfolding new_encoding
new_encoding-bin2hex rand rev i zero c e = absurd cc
new_encoding-bin2hex rand rev i (suc tries) c e =
    drawn (λ q. new_encoding-bin2hex rand rev (i + 1) tries c q) (rand i) refl
  where
    tried :
        (new_encoding rand rev (i + 1) tries ≡ ok c → Drawn rand c)
        → (b : Bytes) → rand i ≡ some b
        → (o : Option Bytes) → find (bin2hex b) rev ≡ o
        → Drawn rand c
    tried again b q none f =
        let is : ◌≡◌ {A = Result Bytes} (ok (bin2hex b)) (ok c) =
          sym (drawn_new rand rev i tries b q f) ∙ e in
        let same : bin2hex b ≡ c = cc in (i, b, q, same)
    tried again b q (some name) f = again (sym (drawn_again rand rev i tries b name q f) ∙ e)

    drawn :
        (new_encoding rand rev (i + 1) tries ≡ ok c → Drawn rand c)
        → (o : Option Bytes) → rand i ≡ o
        → Drawn rand c
    drawn again none q = absurd (cc (sym (drawn_none rand rev i tries q) ∙ e))
    drawn again (some b) q = tried again b q (find (bin2hex b) rev) refl

pub hex_chars : (k : Bytes) → All IsHex k → All (IsPlain 32) k × IsNamed k
unfolding is_hex
hex_chars [] h = (tt, tt)
hex_chars (c ∷ k) h =
    let more = hex_chars k h.1 in
    let first = h.0 in
    (((λ e. ground arith, λ e. ground arith), more.0), (λ e. ground arith, more.1))

pub hex_other : (k : Bytes) → All IsHex k → k ≢ filemapname
unfolding is_hex
hex_other k h e = let bad : All IsHex filemapname = subst (All IsHex) e h in absurd cc (bad.0)

pub bin2hex_some : (b : Bytes) → b ≢ [] → bin2hex b ≢ []
unfolding bin2hex
bin2hex_some [] h e = h refl
bin2hex_some (c ∷ b) h e = cc
