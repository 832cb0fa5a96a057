-- ===== src/Filemap/Nested.antt =====
-- `namecat_decrypt` finds the way back from the nested names of `nest_name`.
use rsyncrypto.Prelude.{
  ℕ, zero, suc, ◌-◌, true, false, not, ◌&&◌, Bytes, bytes_eq, [], ◌∷◌, ◌++◌, reverse, Result, ok,
  ◌>>=◌, append_assoc, bytes_eq_iff, Bool-cases, inl, inr, some, ◌==◌, ltb, if◌then◌else◌, length,
  take, get_or, All-reverse, ◌≡◌, ◌≢◌, refl, ◌∙◌, ap, arith, subst, ◌≤◌, ◌<◌, ◌+◌, err, Error,
}
use mathlib.Core.List.{reverse-reverse}
use rsyncrypto.Filemap.{FileMap, Dict, find, dirsep_c}
use rsyncrypto.Filemap.Names.{trim_leading, trim_trailing, combine_paths, nest_loop, nest_name}
use rsyncrypto.Filemap.Naming.{s_ifreg}
use rsyncrypto.Filemap.Decoding.{
  filemapname, file_part, decode, namecat_decrypt, IsNamed, file_part_name, file_part_step,
  trim_leading_name,
}

trim_leading_all : (b : Bytes) → IsNamed b → trim_leading b ≡ b
unfolding trim_leading
trim_leading_all [] v = refl
trim_leading_all (c ∷ b) v = trim_leading_name c b v.0

trim_trailing_name : (b : Bytes) → IsNamed b → trim_trailing b ≡ b
unfolding trim_trailing
trim_trailing_name [] v = refl
trim_trailing_name (c ∷ b) v =
    ap (λ (x : Bytes). c ∷ reverse x)
      (trim_leading_all (reverse b) (All-reverse (λ (x : ℕ). x ≢ dirsep_c) b v.1))
    ∙ ap (◌∷◌ c) (reverse-reverse b)

last_at : (c : ℕ) (b : Bytes) → IsNamed (c ∷ b) → (get_or (c ∷ b) (length b) 0 == dirsep_c) ≡ false
last_at c [] v = ground (arith, v.0)
last_at c (d ∷ b) v = last_at d b v.1

combine_name :
    (c : ℕ) (b : Bytes) (d : ℕ) (rest : Bytes)
    → IsNamed (c ∷ b)
    → d ≢ dirsep_c
    → combine_paths (c ∷ b) (d ∷ rest) ≡ c ∷ (b ++ (dirsep_c ∷ (d ∷ rest)))
unfolding combine_paths
combine_name c b d rest v h =
    let index : length (c ∷ b) - 1 ≡ length b = omega arith in
    let last : (get_or (c ∷ b) (length (c ∷ b) - 1) 0 == dirsep_c) ≡ false =
      ap (λ (n : ℕ). get_or (c ∷ b) n 0 == dirsep_c) index ∙ last_at c b v in
    let some : ltb 0 (length (c ∷ b)) ≡ true = ground arith in
    let joined : Bytes → Bytes = λ ret.
      (if ltb 0 (length ret) && not (get_or ret (length ret - 1) 0 == dirsep_c)
        then ret ++ dirsep_c ∷ []
        else ret)
      ++ trim_leading (d ∷ rest) in
    ap joined (trim_trailing_name (c ∷ b) v)
    ∙ rw (some) (
        rw (last)
          (rw (trim_leading_name d rest h) (append_assoc (c ∷ b) (dirsep_c ∷ []) (d ∷ rest))))

All-take : (n : ℕ) (b : Bytes) → IsNamed b → IsNamed (take n b)
All-take zero b v = tt
All-take (suc n) [] v = tt
All-take (suc n) (c ∷ b) v = (v.0, All-take n b v.1)

file_part_first :
    (d : ℕ) (rest : Bytes)
    → d ≢ dirsep_c
    → file_part (d ∷ rest) (d ∷ rest) ≡ file_part (d ∷ rest) rest
unfolding file_part
file_part_first d [] h = let plain : (d == dirsep_c) ≡ false = ground arith in rw plain refl
file_part_first d (x ∷ rest) h = let plain : (d == dirsep_c) ≡ false = ground arith in rw plain refl

decode_found :
    (left name : Bytes) (namemap : Dict FileMap) (e : FileMap)
    → name ≢ []
    → name ≢ filemapname
    → find name namemap ≡ some e
    → decode left name namemap ≡ ok (combine_paths left e.plainname)
unfolding decode
decode_found left [] namemap e h k is = absurd (h refl)
decode_found left (c ∷ b) namemap e h k is =
    let some_char : (length (c ∷ b) == 0) ≡ false = ground arith in
    let other_name : bytes_eq (c ∷ b) filemapname ≡ false =
      elim (Bool-cases (bytes_eq (c ∷ b) filemapname)) [
        | inl x ↦ absurd (k ((bytes_eq_iff (c ∷ b) filemapname).0 x))
        | inr x ↦ x
      ] in
    rw (some_char) (rw (other_name) (rw (is) refl))

-- A name that does not begin with a separator, and whose file part this is.
record LeadsTo (target : Bytes) (b : Bytes) : Type 0 where
  first : ℕ
  rest : Bytes
  split : b ≡ first ∷ rest
  named : first ≢ dirsep_c
  part : file_part (first ∷ rest) rest ≡ ok target

nested_further :
    (name : Bytes) (n : ℕ) (retval out : Bytes)
    → nest_loop name (suc n) retval ≡ ok out
    → nest_loop name n (combine_paths (take (suc n) name) retval) ≡ ok out
unfolding nest_loop
nested_further name n retval out e = elim (Bool-cases (ltb (length name) n)) [
  | inl x ↦ absurd (cc (rw x at e))
  | inr x ↦ rw x at e
]

nested_last : (name retval out : Bytes) → nest_loop name 0 retval ≡ ok out → retval ≡ out
unfolding nest_loop
nested_last name retval out e = cc

nest_loop-LeadsTo :
    (c : ℕ) (b : Bytes) (n : ℕ) (retval out : Bytes)
    → IsNamed (c ∷ b)
    → LeadsTo (c ∷ b) retval
    → nest_loop (c ∷ b) n retval ≡ ok out
    → LeadsTo (c ∷ b) out
nest_loop-LeadsTo c b zero retval out v l e =
    subst (LeadsTo (c ∷ b)) (nested_last (c ∷ b) retval out e) l
nest_loop-LeadsTo c b (suc n) retval out v l e =
    nest_loop-LeadsTo c b n (combine_paths (c ∷ take n b) retval) out v
      (record {
        first = c;
        rest = take n b ++ (dirsep_c ∷ (l.first ∷ l.rest));
        split =
            ap (combine_paths (c ∷ take n b)) l.split
            ∙ combine_name c (take n b) l.first l.rest (v.0, All-take n b v.1) l.named;
        named = v.0;
        part = file_part_step _ (take n b) l.first l.rest (All-take n b v.1) ∙ l.part;
      })
      (nested_further (c ∷ b) n retval out e)

loop_within :
    (name : Bytes) (n : ℕ) (retval : Bytes)
    → n ≤ length name + 1
    → (out : Bytes) × (nest_loop name n retval ≡ ok out)
unfolding nest_loop
loop_within name zero retval h = (retval, refl)
loop_within name (suc n) retval h =
    let (out, e) =
      loop_within name n (combine_paths (take (suc n) name) retval) (omega (arith, h)) in
    let fits : ltb (length name) n ≡ false = ground arith in (out, rw fits e)

loop_behind :
    (name : Bytes) (n : ℕ) (retval : Bytes)
    → length name + 1 < n
    → nest_loop name n retval ≡ err Error.out_of_bounds
unfolding nest_loop
loop_behind name zero retval h = absurd (omega (arith, h))
loop_behind name (suc n) retval h =
    let deep : ltb (length name) n ≡ true = ground arith in rw deep refl

-- nest_name gives a nested name if the nesting is at most one deeper than the name is long, and
-- reads behind the end of the name if it is deeper than that.
pub nest_name-bounds :
    (nenest : ℕ) (name : Bytes)
    → (nenest ≤ length name + 1 → (nested : Bytes) × (nest_name nenest name ≡ ok nested))
      × (length name + 1 < nenest → nest_name nenest name ≡ err Error.out_of_bounds)
unfolding nest_name
nest_name-bounds nenest name = (loop_within name nenest name, loop_behind name nenest name)

-- For an encrypted name that is not empty, has no separator and is not that of the file map, and
-- that stands in the map: namecat_decrypt leads from the nested name, if nest_name makes one, to the plain name of its entry under the directory.
pub namecat_decrypt-nest_name :
    (left name nested : Bytes) (nenest : ℕ) (namemap : Dict FileMap) (e : FileMap)
    → nest_name nenest name ≡ ok nested
    → name ≢ []
    → IsNamed name
    → name ≢ filemapname
    → find name namemap ≡ some e
    → namecat_decrypt left nested s_ifreg namemap ≡ ok (combine_paths left e.plainname)
unfolding namecat_decrypt nest_name
namecat_decrypt-nest_name left [] nested nenest namemap e made h v k is = absurd (h refl)
namecat_decrypt-nest_name left (c ∷ b) nested nenest namemap e made h v k is =
    let l =
      nest_loop-LeadsTo c b nenest (c ∷ b) nested v
        (record {
          first = c;
          rest = b;
          split = refl;
          named = v.0;
          part = file_part_name (c ∷ b) b v.1;
        })
        made in
    let cut : trim_leading nested ≡ l.first ∷ l.rest =
      ap trim_leading l.split ∙ trim_leading_name l.first l.rest l.named in
    let part : file_part (trim_leading nested) (trim_leading nested) ≡ ok (c ∷ b) =
      ap (λ (x : Bytes). file_part x x) cut ∙ file_part_first l.first l.rest l.named ∙ l.part in
    ap (λ (r : Result Bytes). r >>= λ x. decode left x namemap) part
    ∙ decode_found left (c ∷ b) namemap e h k is
