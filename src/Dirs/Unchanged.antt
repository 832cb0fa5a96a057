-- ===== src/Dirs/Unchanged.antt =====
-- With `--changed`, a second run passes over a file that has been encrypted.
use rsyncrypto.Prelude.{
  ℕ, ◌+◌, ◌-◌, Bool, true, false, Bytes, bytes_eq, [], ◌∷◌, ◌++◌, Result, ok, err, Error, some,
  ◌==◌, ltb, ◌≡◌, refl, sym, ◌∙◌, ap, arith,
}
use rsyncrypto.AesCrypt.{Aes}
use rsyncrypto.KeyFile.{Memory}
use rsyncrypto.CryptFile.{Rsa, Gzip}
use rsyncrypto.Action.{Action, proceed, ◌>>=◌, when}
use rsyncrypto.Files.System.{Os, World, Options, Stat, checked, lstat, utimes, mv, noted}
use rsyncrypto.Files.{
  create_suffix, tmp_name, copy_metadata, read_key_file, choose_key, open_source, open_output,
  read_source, processed, encrypted, write_header, archive, replace, file_encrypt,
}
use rsyncrypto.Dirs.{EncryptFunc, is_due, existing, regular_file}

-- The time that is set is there, and a file that is renamed keeps it.
pub record IsDating (F : Os) : Type 0 where
  pub dates :
      (p : Bytes) (at mt : ℕ) (s : F.State)
      → (F.utimes p at mt s).0 ≡ 0
      → (st : Stat) × (F.lstat p (F.utimes p at mt s).1 ≡ ok st) × (st.st_mtime ≡ mt)
  pub moves :
      (p p' : Bytes) (s : F.State) (st : Stat)
      → (F.rename p p' s).0 ≡ 0
      → F.lstat p s ≡ ok st
      → F.lstat p' (F.rename p p' s).1 ≡ ok st

module _ {W : Type 0} where
  -- Where the call ends without an error, from a state with `P`, the state has `Q`.
  record Reaches (P Q : W → Type 0) {A : Type 0} (m : Action W A) : Type 0 where
    reaches : (w w' : W) (a : A) → P w → m w ≡ (ok a, w') → Q w'

  abbrev Any : W → Type 0
  Any w = Unit {0}

  >>=-Reaches :
      (P Q R : W → Type 0) {A B : Type 0} (m : Action W A) (next : A → Action W B)
      → Reaches P Q m
      → ((a : A) → Reaches Q R (next a))
      → Reaches P R (m >>= next)
  >>=-Reaches P Q R {A} {B} m next h k = record { reaches = λ w w' b p e. go w w' b p (m w) refl e }
    where
      go :
          (w w' : W) (b : B)
          → P w
          → (r : Result A × W) → m w ≡ r
          → proceed next r ≡ (ok b, w')
          → R w'
      go w w' b p (ok a, w1) q e = (k a).reaches w1 w' b (h.reaches w w1 a p q) e
      go w w' b p (err x, w1) q e =
          let no_value : ◌≡◌ {A = Result B} (err x) (ok b) = ap (λ (r : Result B × W). r.0) e in
          absurd cc

  behind_Reaches :
      (Q : W → Type 0) {A B : Type 0} (m : Action W A) (next : A → Action W B)
      → ((a : A) → Reaches Any Q (next a))
      → Reaches Any Q (m >>= next)
  behind_Reaches Q m next k = >>=-Reaches Any Any Q m next (record { reaches = λ w w' a p e. tt }) k

module _ (F : Os) (D : IsDating F) where
  -- The file is there with this time.
  abbrev pub DatedAt : ℕ → Bytes → World F → Type 0
  DatedAt mt p w = (st : Stat) × (F.lstat p w.os ≡ ok st) × (st.st_mtime ≡ mt)

  checked_lem :
      (r : ℕ × F.State) (w w' : World F) → checked F r w ≡ (ok tt, w') → (r.0 ≡ 0) × (r.1 ≡ w'.os)
  checked_lem (n, s) w w' e =
      (zero_lem (n == 0) refl, ap (λ (r : Result (Unit {0}) × World F). r.1.os) e)
    where
      first_of : (checked F (n, s) w).0 ≡ ok tt
      first_of = ap (λ (r : Result (Unit {0}) × World F). r.0) e

      zero_lem : (b : Bool) → (n == 0) ≡ b → n ≡ 0
      zero_lem true z = ground arith
      zero_lem false z = absurd (cc (rw z at first_of))

  copy_metadata-DatedAt :
      (p : Bytes) (st : Stat) (w w' : World F)
      → copy_metadata F p st w ≡ (ok tt, w')
      → DatedAt st.st_mtime p w'
  unfolding copy_metadata utimes
  copy_metadata-DatedAt p st w w' e =
      let (z, s) = checked_lem (F.utimes p st.st_atime st.st_mtime w.os) w w' e in
      let (st', there, at) = D.dates p st.st_atime st.st_mtime w.os z in
      (st', ap (F.lstat p) (sym s) ∙ there, at)

  replace-DatedAt :
      (o : Options) (dst : Bytes) (mt : ℕ) (w w' : World F)
      → DatedAt mt (tmp_name o dst) w
      → replace F o dst w ≡ (ok tt, w')
      → DatedAt mt dst w'
  unfolding replace mv tmp_name
  replace-DatedAt o dst mt w w' (st, there, at) e = go o.risky_writes refl
    where
      go : (r : Bool) → o.risky_writes ≡ r → DatedAt mt dst w'
      go true r =
          let same : w ≡ w' = ap (λ (x : Result (Unit {0}) × World F). x.1) (rw r at e) in
          (st, ap (λ (x : World F). F.lstat dst x.os) (sym same) ∙ rw r at there, at)
      go false r =
          let (z, s) = checked_lem (F.rename (dst ++ create_suffix) dst w.os) w w' (rw r at e) in
          (
            st,
            ap (F.lstat dst) (sym s) ∙ D.moves (dst ++ create_suffix) dst w.os st z (rw r at there),
            at,
          )

  module _ (a : Aes) (g : Gzip) (m : Memory) (heap : ℕ → Bytes)
      (partial_output : Bytes → Error → Bytes) where
    archive-DatedAt :
        (o : Options) (source : Bytes) (st : Stat) (tmp : Bytes) (w w' : World F)
        → o.noarch ≡ false
        → bytes_eq source (45 ∷ []) ≡ false
        → archive F a g m heap partial_output o source (some st) tmp w ≡ (ok tt, w')
        → DatedAt st.st_mtime tmp w'
    unfolding archive
    archive-DatedAt o source st tmp w w' h k e = copy_metadata-DatedAt tmp st w w' (rw (h, k) at e)

    file_encrypt-Reaches :
        (o : Options) (rsa : Rsa) (source dst key_file : Bytes) (st : Stat)
        → o.noarch ≡ false
        → bytes_eq source (45 ∷ []) ≡ false
        → Reaches Any
            (DatedAt st.st_mtime dst)
            (file_encrypt F a g m heap partial_output o rsa source dst key_file (some st))
    unfolding file_encrypt
    file_encrypt-Reaches o rsa source dst key_file st h k =
        let goal = DatedAt st.st_mtime dst in
        behind_Reaches goal (noted F o dst) _ (λ t.
          behind_Reaches goal (read_key_file F key_file) _ (λ found.
            behind_Reaches goal (choose_key F a g m heap partial_output o found) _ (λ (head, new).
              behind_Reaches goal (open_source F a g m heap partial_output o source (some st)) _
                (λ t. behind_Reaches goal (open_output F o dst) _ (λ t.
                  behind_Reaches goal (read_source F a g m heap partial_output source) _ (λ content.
                    behind_Reaches goal
                      (processed F a g m heap partial_output (tmp_name o dst) content
                        (encrypted F a g m heap partial_output head rsa))
                      _
                      (λ head'.
                        behind_Reaches goal (when new (write_header F key_file head')) _ (λ t.
                          >>=-Reaches Any (DatedAt st.st_mtime (tmp_name o dst)) goal
                            (archive F a g m heap partial_output o source (some st)
                              (tmp_name o dst))
                            _
                            (record {
                              reaches = λ w w' t p e.
                                  archive-DatedAt o source st (tmp_name o dst) w w' h k e;
                            })
                            (λ t. record {
                              reaches = λ w w' t p e. replace-DatedAt o dst st.st_mtime w w' p e;
                            })))))))))

    -- On a file system where a time that was set is there and a file that is renamed keeps it,
    -- without --no-archive-mode and for a file other than "-": after file_encrypt has ended
    -- without an error, a pass with --changed over the same source file, with the same status,
    -- does nothing with it, whatever the operation is.
    pub regular_file_unchanged :
        (o : Options) (rsa : Rsa) (op : EncryptFunc F) (source dst key_file : Bytes) (st : Stat)
        (w w' : World F)
        → o.noarch ≡ false
        → o.changed ≡ true
        → bytes_eq source (45 ∷ []) ≡ false
        → file_encrypt F a g m heap partial_output o rsa source dst key_file (some st) w
          ≡ (ok tt, w')
        → regular_file F o op source dst key_file st w' ≡ (ok tt, w')
    unfolding regular_file existing lstat is_due
    regular_file_unchanged o rsa op source dst key_file st w w' h c k e =
        let (st', there, at) =
          (file_encrypt-Reaches o rsa source dst key_file st h k).reaches w w' tt tt e in
        let same : ltb o.mod_win ((st'.st_mtime - st.st_mtime) + (st.st_mtime - st'.st_mtime))
            ≡ false =
          ground (arith, at) in
        rw (there) (rw (c) (rw (same) refl))
