-- ===== src/Filemap/Naming.antt =====
-- `filemap::namecat_encrypt`, of filemap.cpp. `RAND_bytes` is a parameter: what it gives at each call,
-- if it succeeds.
use rsyncrypto.Prelude.{
  ℕ, zero, suc, ◌+◌, Bytes, bytes_eq, bytes_eq_iff, Result, ok, err, Error, ◌>>=◌, returned_lem,
  Option, none, some, ◌≡◌, refl, sym, ◌∙◌, ap, arith, Bool-cases, inl, inr,
}
use rsyncrypto.Filemap.{FileMap, Maps, Dict, find, put, dirsep_c}
use rsyncrypto.Filemap.Finding.{find-put, find-put_other}
use rsyncrypto.Filemap.Names.{trim_leading, combine_paths, bin2hex, nest_name}

-- `mode&S_IFMT`: a regular file, a directory, a symbolic link, or anything else.
pub data Mode : Type 0 where
  s_ifreg s_ifdir s_iflnk other : Mode

-- The `do` loop: at most five encodings are tried, `tries` of them are left.
unfoldable pub new_encoding : (ℕ → Option Bytes) → Dict Bytes → ℕ → ℕ → Result Bytes
unfolding find bin2hex
new_encoding rand reversemap i zero = err Error.no_unique_encoding
new_encoding rand reversemap i (suc tries) =
    let again = new_encoding rand reversemap (i + 1) tries in
    elim (rand i) [
      | none ↦ err Error.no_random_entropy
      | some buffer ↦ elim (find (bin2hex buffer) reversemap) [
        | none ↦ ok (bin2hex buffer)
        | some _ ↦ again
      ]
    ]

-- The encrypted name of the file, and the maps with it.
unfoldable pub encode : (ℕ → Option Bytes) → Bytes → Maps → Result (Bytes × Maps)
unfolding new_encoding put
encode rand right m = elim (find right m.namemap) [
  | some e ↦ ok (e.ciphername, m)
  | none ↦ new_encoding rand m.reversemap 0 5 >>= λ encodedfile.
      let newdata : FileMap = record {
        plainname = right;
        ciphername = encodedfile;
        dirsep = dirsep_c;
      } in
      ok (
        encodedfile,
        record {
          namemap = put right newdata m.namemap;
          reversemap = put encodedfile right m.reversemap;
        },
      )
]

-- `filemap::namecat_encrypt`, under the nesting of the names.
unfoldable pub namecat_encrypt :
    (ℕ → Option Bytes) → ℕ → Bytes → Bytes → Mode → Maps → Result (Bytes × Maps)
unfolding encode nest_name combine_paths
namecat_encrypt rand nenest left right s_ifreg m =
    encode rand (trim_leading right) m >>= λ (c_name, m').
    nest_name nenest c_name >>= λ nested. ok (combine_paths left nested, m')
namecat_encrypt rand nenest left right s_ifdir m = ok (left, m)
namecat_encrypt rand nenest left right s_iflnk m = ok (combine_paths left right, m)
namecat_encrypt rand nenest left right other m = ok (combine_paths left right, m)

pub new_encoding-find :
    (rand : ℕ → Option Bytes) (rev : Dict Bytes) (i tries : ℕ) (c : Bytes)
    → new_encoding rand rev i tries ≡ ok c
    → find c rev ≡ none
unfolding new_encoding
new_encoding-find rand rev i zero c e = absurd cc
new_encoding-find rand rev i (suc tries) c e =
    ground (arith, new_encoding-find rand rev (i + 1) tries c)

-- Each encrypted name leads back to its plain name.
pub record IsPaired (m : Maps) : Type 0 where
  pub named : (p : Bytes) (e : FileMap) → find p m.namemap ≡ some e → e.plainname ≡ p
  pub back :
      (p : Bytes) (e : FileMap)
      → find p m.namemap ≡ some e
      → find e.ciphername m.reversemap ≡ some p

module _ (m : Maps) (right c : Bytes) (sep : ℕ) where
  abbrev pub newdata : FileMap
  newdata = record { plainname = right; ciphername = c; dirsep = sep }

  abbrev pub extended : Maps
  extended = record { namemap = put right newdata m.namemap; reversemap = put c right m.reversemap }

  module _ (v : IsPaired m) (fresh : find c m.reversemap ≡ none) where
    extended-entry :
        (p : Bytes) (e : FileMap)
        → find p extended.namemap ≡ some e
        → (e.plainname ≡ p) × (find e.ciphername extended.reversemap ≡ some p)
    extended-entry p e q = elim (Bool-cases (bytes_eq p right)) [
      | inl x ↦
          let same : p ≡ right = (bytes_eq_iff p right).0 x in
          let found : some newdata ≡ some e =
            sym (find-put right newdata m.namemap) ∙ rw same at q in
          let is : newdata ≡ e = cc in rw (← is, same) (refl, find-put c right m.reversemap)
      | inr x ↦
          let old : find p m.namemap ≡ some e =
            sym (find-put_other p right newdata m.namemap x) ∙ q in
          let known = v.back p e old in
          elim (Bool-cases (bytes_eq e.ciphername c)) [
            | inl y ↦
                let same : e.ciphername ≡ c = (bytes_eq_iff e.ciphername c).0 y in
                absurd (cc (rw same at known, fresh))
            | inr y ↦ (v.named p e old, find-put_other e.ciphername c right m.reversemap y ∙ known)
          ]
    ]

    pub extended-IsPaired : IsPaired extended
    extended-IsPaired = record {
      named = λ p e q. (extended-entry p e q).0;
      back = λ p e q. (extended-entry p e q).1;
    }

pub encode_known :
    (rand : ℕ → Option Bytes) (right : Bytes) (m : Maps) (e : FileMap)
    → find right m.namemap ≡ some e
    → encode rand right m ≡ ok (e.ciphername, m)
unfolding encode
encode_known rand right m e q = rw (encode, q) refl

pub encode_new :
    (rand : ℕ → Option Bytes) (right : Bytes) (m : Maps)
    → find right m.namemap ≡ none
    → encode rand right m ≡ (
        new_encoding rand m.reversemap 0 5 >>= λ c. ok (
          c,
          record {
            namemap =
                put right
                  (record { plainname = right; ciphername = c; dirsep = dirsep_c })
                  m.namemap;
            reversemap = put c right m.reversemap;
          },
        ))
unfolding encode
encode_new rand right m q = rw (encode, q) refl

-- If in the maps each plain name has an encrypted name that leads back to it, and an encrypted
-- name is given for a plain name, then that holds of the maps afterwards too, and the encrypted
-- name leads back to the plain name.
pub encode-IsPaired :
    (rand : ℕ → Option Bytes) (right c : Bytes) (m m' : Maps)
    → IsPaired m
    → encode rand right m ≡ ok (c, m')
    → IsPaired m' × (find c m'.reversemap ≡ some right)
encode-IsPaired rand right c m m' v e = go (find right m.namemap) refl
  where
    go :
        (o : Option FileMap)
        → find right m.namemap ≡ o
        → IsPaired m' × (find c m'.reversemap ≡ some right)
    go (some d) q =
        let p : ◌≡◌ {A = Result (Bytes × Maps)} (ok (d.ciphername, m)) (ok (c, m')) =
          sym (encode_known rand right m d q) ∙ e in
        let x : d.ciphername ≡ c = cc in let y : m ≡ m' = cc in rw (← x, ← y) (v, v.back right d q)
    go none q =
        let (c', w, p) =
          returned_lem (new_encoding rand m.reversemap 0 5) _ (c, m')
            (sym (encode_new rand right m q) ∙ e) in
        let x : c' ≡ c = cc in
        let fresh = new_encoding-find rand m.reversemap 0 5 c' w in
        let y : extended m right c' dirsep_c ≡ m' = cc in
        rw (← x, ← y)
          (extended-IsPaired m right c' dirsep_c v fresh, find-put c' right m.reversemap)

encode_again :
    (rand rand' : ℕ → Option Bytes) (right c : Bytes) (m m' : Maps)
    → encode rand right m ≡ ok (c, m')
    → encode rand' right m' ≡ ok (c, m')
encode_again rand rand' right c m m' e = go (find right m.namemap) refl
  where
    go : (o : Option FileMap) → find right m.namemap ≡ o → encode rand' right m' ≡ ok (c, m')
    go (some d) q =
        let p : ◌≡◌ {A = Result (Bytes × Maps)} (ok (d.ciphername, m)) (ok (c, m')) =
          sym (encode_known rand right m d q) ∙ e in
        let x : d.ciphername ≡ c = cc in
        let y : m ≡ m' = cc in rw (← x, ← y) (encode_known rand' right m d q)
    go none q =
        let (c', w, p) =
          returned_lem (new_encoding rand m.reversemap 0 5) _ (c, m')
            (sym (encode_new rand right m q) ∙ e) in
        let x : c' ≡ c = cc in
        let y : extended m right c' dirsep_c ≡ m' = cc in
        rw (← x, ← y)
          (encode_known rand' right (extended m right c' dirsep_c) (newdata m right c' dirsep_c)
            (find-put right (newdata m right c' dirsep_c) m.namemap))

-- If namecat_encrypt gives a name, then with the maps it leaves it gives the same name again for
-- the same arguments, and leaves the maps alone, whatever the random bytes are by then.
pub namecat_encrypt_again :
    (rand rand' : ℕ → Option Bytes) (nenest : ℕ) (left right name : Bytes) (mode : Mode)
    (m m' : Maps)
    → namecat_encrypt rand nenest left right mode m ≡ ok (name, m')
    → namecat_encrypt rand' nenest left right mode m' ≡ ok (name, m')
unfolding namecat_encrypt
namecat_encrypt_again rand rand' nenest left right name s_ifreg m m' e =
    let ((c, m1), w, p) =
      returned_lem (encode rand (trim_leading right) m)
        (λ (c_name, m''). nest_name nenest c_name >>= λ nested. ok (combine_paths left nested, m''))
        (name, m') e in
    let (nested, w', p') =
      returned_lem (nest_name nenest c) (λ nested. ok (combine_paths left nested, m1)) (name, m')
        p in
    let x : combine_paths left nested ≡ name = cc in
    let y : m1 ≡ m' = cc in
    let again = encode_again rand rand' (trim_leading right) c m m1 w in
    rw (← x, ← y) (rw again (rw w' refl))
namecat_encrypt_again rand rand' nenest left right name s_ifdir m m' e =
    let x : left ≡ name = cc in ap (λ (n : Bytes). ok (n, m')) x
namecat_encrypt_again rand rand' nenest left right name s_iflnk m m' e =
    let x : combine_paths left right ≡ name = cc in ap (λ (n : Bytes). ok (n, m')) x
namecat_encrypt_again rand rand' nenest left right name other m m' e =
    let x : combine_paths left right ≡ name = cc in ap (λ (n : Bytes). ok (n, m')) x
