-- ===== src/CommandLine/Whole.antt =====
-- Two runs of the program on one file: `main` that encrypts it, and `main` that decrypts it.
use rsyncrypto.Prelude.{
  ℕ, Bool, true, false, ◌&&◌, Bytes, bytes_eq, IsByte, [], ◌∷◌, ok, Error, Option, none, some, All,
  ◌==◌, if◌then◌else◌, ◌≡◌, ◌≢◌, refl, ◌∙◌, ap, Bool-cases, inl, inr,
}
use rsyncrypto.CryptKey.{IsUsable, cypher_aes}
use rsyncrypto.AesCrypt.{Aes, AesKey, IsCbc}
use rsyncrypto.KeyFile.{Memory, export_key, new_key}
use rsyncrypto.KeyFile.RoundTrip.{IsMade}
use rsyncrypto.CryptFile.{Rsa, Gzip}
use rsyncrypto.CryptFile.RoundTrip.{IsRsa, IsGzip, IsMemory}
use rsyncrypto.Action.{Action}
use rsyncrypto.Files.System
use rsyncrypto.Files.System.{Os, World, Options, Stat}
use rsyncrypto.Files.FileSystem.{IsFramed, IsWilling}
use rsyncrypto.Files.Whole.{encrypts_new, decrypt_after}
use rsyncrypto.Files.{tmp_name, file_encrypt, file_decrypt}
use rsyncrypto.CommandLine.{Arguments, runs, parse_cmdline, check_decrypt, with_defaults}
use rsyncrypto.CommandLine.Run.{raise_noatime, chosen_op, master_key, open_maps, process, run, main}

-- Arguments that name one file: no recursion, no list, no encrypted names.
abbrev pub single : Bool → Arguments → Bytes → Bytes → Arguments
single decrypt base src dst = record base {
  help = false;
  version = false;
  fr = if decrypt then false else base.fr;
  fk = if decrypt then false else base.fk;
  recurse = false;
  decrypt = decrypt;
  filelist = none;
  nameenc = none;
  export_changes = none;
  keysize = if decrypt then none else base.keysize;
  trim = none;
  src = src;
  dst = dst;
}

parse-single_encrypt :
    (base : Arguments) (src dst : Bytes)
    → parse_cmdline 0 (single false base src dst)
      ≡ ok (runs (with_defaults (single false base src dst)))
unfolding parse_cmdline
parse-single_encrypt base src dst = refl

parse-single_decrypt :
    (base : Arguments) (src dst : Bytes)
    → bytes_eq src (45 ∷ []) ≡ false
    → parse_cmdline 0 (single true base src dst)
      ≡ ok (runs (with_defaults (single true base src dst)))
unfolding parse_cmdline check_decrypt
parse-single_decrypt base src dst h = rw (h) refl

-- Only the number of the option --noatime may change.
abbrev at_level : ℕ → Options → Options
at_level n o = record o { noatime = n }

raised : (uid : ℕ) (o : Options) → (n : ℕ) × (raise_noatime uid o ≡ record o { noatime = n })
unfolding raise_noatime
raised uid o = elim (Bool-cases (o.noatime == 1 && uid == 0)) [
  | inl e ↦ (2, ap (λ b. if b then record o { noatime = 2 } else o) e)
  | inr e ↦ (o.noatime, ap (λ b. if b then record o { noatime = 2 } else o) e)
]

module _ (F : Os) (a : Aes) (g : Gzip) (m : Memory) (heap : ℕ → Bytes)
    (partial_output : Bytes → Error → Bytes) (remove : Bytes → Action (World F) Bool)
    (extract_private_key extract_public_key : Bytes → Action (World F) (Option Rsa))
    (rsa : Rsa) where
  run-single :
      (decrypt : Bool) (base : Arguments) (src dst : Bytes) (fuel : ℕ) (st : Stat) (w w' : World F)
      → ((v : World F) → extract_private_key base.master v ≡ (ok (some rsa), v))
      → bytes_eq src (45 ∷ []) ≡ false
      → F.stat src w.os ≡ ok st
      → chosen_op F a g m heap partial_output remove extract_private_key extract_public_key
          (at_level
            (raised (F.euid w.os) (with_defaults (single decrypt base src dst))).0
            (with_defaults (single decrypt base src dst)))
          rsa
          src
          dst
          base.key
          (some st)
          w
        ≡ (ok tt, w')
      → run F a g m heap partial_output remove extract_private_key extract_public_key fuel
          (with_defaults (single decrypt base src dst))
          w
        ≡ (ok tt, w')
  unfolding run System.euid master_key open_maps process with_defaults System.stat
  run-single decrypt base src dst fuel st w w' reads name status op =
      let (n, same) = raised (F.euid w.os) (with_defaults (single decrypt base src dst)) in
      rw (same, reads w, name, status) op

  ended-main :
      (fuel : ℕ) (arguments : Arguments) (o : Options) (w w' : World F)
      → parse_cmdline 0 arguments ≡ ok (runs o)
      → run F a g m heap partial_output remove extract_private_key extract_public_key fuel o w
        ≡ (ok tt, w')
      → main F a g m heap partial_output remove extract_private_key extract_public_key fuel 0
          arguments w
        ≡ (ok 0, w')
  unfolding main
  ended-main fuel arguments o w w' parsed e = rw (parsed, e) refl

  encrypts-chosen_op :
      (o : Options) (src dst key_file : Bytes) (st : Option Stat) (w : World F)
      → o.decrypt ≡ false
      → chosen_op F a g m heap partial_output remove extract_private_key extract_public_key o rsa
          src dst key_file st w
        ≡ file_encrypt F a g m heap partial_output o rsa src dst key_file st w
  unfolding chosen_op
  encrypts-chosen_op o src dst key_file st w e =
      ap
        (λ (b : Bool).
          (if b
              then file_decrypt F a g m heap partial_output o rsa src dst key_file
              else file_encrypt F a g m heap partial_output o rsa src dst key_file st)
            w)
        e

  decrypts-chosen_op :
      (o : Options) (src dst key_file : Bytes) (st : Option Stat) (w : World F)
      → o.decrypt ≡ true
      → chosen_op F a g m heap partial_output remove extract_private_key extract_public_key o rsa
          src dst key_file st w
        ≡ file_decrypt F a g m heap partial_output o rsa src dst key_file w
  unfolding chosen_op
  decrypts-chosen_op o src dst key_file st w e =
      ap
        (λ (b : Bool).
          (if b
              then file_decrypt F a g m heap partial_output o rsa src dst key_file
              else file_encrypt F a g m heap partial_output o rsa src dst key_file st)
            w)
        e

module _ (F : Os) (contents : F.State → Bytes → Option Bytes) (L : IsFramed F contents)
    (V : IsWilling F contents) (a : Aes) (g : Gzip) (z : IsGzip g) (m : Memory) (mem : IsMemory m)
    (heap : ℕ → Bytes) (rsa : Rsa) (r : IsRsa rsa) (partial_output : Bytes → Error → Bytes)
    (remove : Bytes → Action (World F) Bool)
    (extract_private_key extract_public_key : Bytes → Action (World F) (Option Rsa)) where
  -- On a file system that allows the calls and gives a status of each file, with a gzip and an RSA
  -- as documented, and with the master keys of both command lines giving the same private key: if
  -- no key file is there, the key that is then made of random bytes is well made with a usable
  -- header, the cipher behaves under its secret as documented, RSA encrypts that key, and the
  -- source consists of bytes, then main with arguments that name one file, without encrypted names
  -- or a log of changes, ends with status 0; and so does main with -d for the file it has made and
  -- the same key file, and its output holds the content of the source. Neither file is "-". The
  -- encrypted file and the two files that are written to have other names than the key file, and
  -- each of those two another name than the file that is read; they are the temporary files, or
  -- with --risky-writes the destinations.
  pub main-main :
      (base base' : Arguments) (src dst out content c : Bytes) (k : AesKey) (fuel fuel' : ℕ)
      (w : World F)
      → base'.key ≡ base.key
      → ((v : World F) → extract_private_key base.master v ≡ (ok (some rsa), v))
      → ((v : World F) → extract_private_key base'.master v ≡ (ok (some rsa), v))
      → ((p b : Bytes) (s : F.State) → contents s p ≡ some b → (st : Stat) × (F.stat p s ≡ ok st))
      → new_key m
          (F.random (F.open_read false base.key w.os).1).0
          cypher_aes
          (with_defaults (single false base src dst)).keysize
          (with_defaults (single false base src dst)).rollwin
          (with_defaults (single false base src dst)).rollsens
          (with_defaults (single false base src dst)).rollmin
        ≡ ok k
      → IsCbc a k.secret_key
      → IsMade k
      → IsUsable k.header
      → All IsByte content
      → rsa.public_encrypt (export_key k) ≡ some c
      → contents w.os src ≡ some content
      → contents w.os base.key ≡ none
      → bytes_eq src (45 ∷ []) ≡ false
      → bytes_eq dst (45 ∷ []) ≡ false
      → tmp_name (with_defaults (single false base src dst)) dst ≢ src
      → tmp_name (with_defaults (single false base src dst)) dst ≢ base.key
      → dst ≢ base.key
      → tmp_name (with_defaults (single true base' dst out)) out ≢ dst
      → tmp_name (with_defaults (single true base' dst out)) out ≢ base.key
      → (w1 : World F) × (w2 : World F) × (main F a g m heap partial_output remove
            extract_private_key extract_public_key fuel 0
            (single false base src dst)
            w
          ≡ (ok 0, w1))
        × (main F a g m heap partial_output remove extract_private_key extract_public_key fuel' 0
              (single true base' dst out)
              w1
            ≡ (ok 0, w2))
        × (contents w2.os out ≡ some content)
  unfolding with_defaults tmp_name
  main-main base base' src dst out content c k fuel fuel' w same_key reads reads' status draws C
        made usable bytes enc h hk name name' ap1 ne1 ne2 ap2 ne3 =
      let (st, at) = status src content w.os h in
      let n = (raised (F.euid w.os) (with_defaults (single false base src dst))).0 in
      let o = at_level n (with_defaults (single false base src dst)) in
      let (file, k', dec, ends) =
        encrypts_new F contents L V a g z m mem heap rsa r partial_output o src dst base.key content
          c (some st) k w draws C made usable bytes enc h hk name ap1 ne1 ne2 in
      let w1 = ends.after in
      let (st', at') = status dst file w1.os ends.holds.0 in
      let n' = (raised (F.euid w1.os) (with_defaults (single true base' dst out))).0 in
      let o' = at_level n' (with_defaults (single true base' dst out)) in
      let ends' =
        decrypt_after F contents L V a g z m mem heap rsa r partial_output o o' src dst out
          base'.key content file (some st') k k' ends.holds.1.0 w1 made ap2
          (λ e. ne3 (e ∙ same_key)) ends.holds.0 (ap (contents w1.os) same_key ∙ ends.holds.1.1)
          dec in
      (
        w1,
        ends'.after,
        ended-main F a g m heap partial_output remove extract_private_key extract_public_key rsa
            fuel (single false base src dst) (with_defaults (single false base src dst)) w w1
            (parse-single_encrypt base src dst)
            (run-single F a g m heap partial_output remove extract_private_key extract_public_key
              rsa false base src dst fuel st w w1 reads name at
              (encrypts-chosen_op F a g m heap partial_output remove extract_private_key
                  extract_public_key rsa o src dst base.key (some st) w refl
                ∙ ends.run)),
        ended-main F a g m heap partial_output remove extract_private_key extract_public_key rsa
            fuel' (single true base' dst out) (with_defaults (single true base' dst out)) w1
            ends'.after (parse-single_decrypt base' dst out name')
            (run-single F a g m heap partial_output remove extract_private_key extract_public_key
              rsa true base' dst out fuel' st' w1 ends'.after reads' name' at'
              (decrypts-chosen_op F a g m heap partial_output remove extract_private_key
                  extract_public_key rsa o' dst out base'.key (some st') w1 refl
                ∙ ends'.run)),
        ends'.holds,
      )
