-- ===== src/Files/RoundTrip.antt =====
-- `file_decrypt` after `file_encrypt`, on a file system where the calls succeed.
use rsyncrypto.Prelude.{
  ℕ, Bool, true, false, not, ◌&&◌, Bytes, bytes_eq, [], ◌∷◌, ◌++◌, Result, ok, Error, Option, none,
  some, length, ◌≡◌, ◌≢◌, refl, sym, ◌∙◌, ap, append-nil, drop-nil, Bool-cases, inl, inr,
}
use rsyncrypto.AesCrypt.{Aes, AesKey}
use rsyncrypto.KeyFile.{Memory, export_key}
use rsyncrypto.Crypto.{encrypt_stream}
use rsyncrypto.CryptFile.{Rsa, Gzip, encrypt_file, decrypt_file}
use rsyncrypto.Action.{◌>>=◌, when}
use rsyncrypto.Files.System
use rsyncrypto.Files.System.{Os, World, Options, Stat}
use rsyncrypto.Files.FileSystem.{IsFramed, IsWilling}
use rsyncrypto.Files.Ends.{Ends, Ends->>=, Ends->>=_at, Ends-pure}
use rsyncrypto.Files.Steps.{
  Same, SameBut, open_file-Ends, read_file-Ends, Read, fstat-Ends, noted-Ends, mkpath-Ends,
  utimes-Ends, truncate-Ends, poke-Ends, mv-Ends, write_header-Ends,
}
use rsyncrypto.Files.{
  tmp_name, wants_noatime, write_header, read_key_file, open_output, replace, written, encrypted,
  choose_key, open_source, read_source, processed, archive, file_encrypt, known_key, keep_key,
  copy_metadata, file_decrypt,
}

module _ (F : Os) (contents : F.State → Bytes → Option Bytes) (L : IsFramed F contents)
    (V : IsWilling F contents) where
  abbrev pub Alike : World F → World F → Type 0
  Alike = Same F contents L V

  abbrev pub AlikeBut : Bytes → World F → World F → Type 0
  AlikeBut = SameBut F contents L V

  open_output-Ends :
      (o : Options) (dst : Bytes) (w : World F)
      → Ends
          (open_output F o dst)
          w
          (λ t w'. (contents w'.os (tmp_name o dst) ≡ some []) × AlikeBut (tmp_name o dst) w w')
  unfolding open_output
  open_output-Ends o dst w =
      let Q = λ (t : Unit {0}) (w' : World F).
        (contents w'.os (tmp_name o dst) ≡ some []) × AlikeBut (tmp_name o dst) w w' in
      Ends->>= _ _ w (λ t w'. Alike w w') Q (mkpath-Ends F contents L V _ w)
        (λ t1 w1 s1.
          let e = truncate-Ends F contents L V (tmp_name o dst) w1 in
          record {
            value = e.value;
            after = e.after;
            run = e.run;
            holds = (e.holds.0, λ q ne. e.holds.1 q ne ∙ s1 q);
          })

  replace-Ends :
      (o : Options) (dst b : Bytes) (w : World F)
      → contents w.os (tmp_name o dst) ≡ some b
      → Ends (replace F o dst) w (λ t w'.
        (contents w'.os dst ≡ some b)
        × ((q : Bytes) → tmp_name o dst ≢ q → dst ≢ q → contents w'.os q ≡ contents w.os q))
  unfolding replace tmp_name
  replace-Ends o dst b w h = elim (Bool-cases o.risky_writes) [
    | inl e ↦ rw e (Ends-pure tt w _ ((rw e at h), λ q ne ne'. refl))
    | inr e ↦ rw e (mv-Ends F contents L V _ dst b w (rw e at h))
  ]

  module _ (a : Aes) (g : Gzip) (m : Memory) (heap : ℕ → Bytes)
      (partial_output : Bytes → Error → Bytes) where
    written-Ends :
        {A : Type 0} (p content : Bytes) (x : A) (out : Bytes) (r : Result (A × Bytes))
        (w : World F)
        → r ≡ ok (x, out)
        → contents w.os p ≡ some []
        → Ends
            (written F a g m heap partial_output p content r)
            w
            (λ y w'. (y ≡ x) × ((contents w'.os p ≡ some out) × AlikeBut p w w'))
    unfolding written System.poke
    written-Ends p content x out r w e h =
        let n = poke-Ends F contents L V p out [] w h in
        rw e (record {
          value = x;
          after = n.after;
          run = ap (λ (t : Result (Unit {0}) × World F). (ok x, t.1)) n.run;
          holds = (
            refl,
            (
              n.holds.0
                  ∙ ap some (ap (λ (t : Bytes). out ++ t) (drop-nil (length out)) ∙ append-nil out),
              n.holds.1,
            ),
          );
        })

    processed-Ends :
        {A : Type 0} (p content : Bytes) (x : A) (out : Bytes) (op : Bytes → Result (A × Bytes))
        (w : World F)
        → op content ≡ ok (x, out)
        → contents w.os p ≡ some []
        → Ends
            (processed F a g m heap partial_output p (ok content) op)
            w
            (λ y w'. (y ≡ x) × ((contents w'.os p ≡ some out) × AlikeBut p w w'))
    unfolding processed
    processed-Ends p content x out op w e h = written-Ends p content x out (op content) w e h

    archive-Ends :
        (o : Options) (source : Bytes) (st : Option Stat) (tmp : Bytes) (w : World F)
        → Ends (archive F a g m heap partial_output o source st tmp) w (λ t w'. Alike w w')
    unfolding archive copy_metadata
    archive-Ends o source none tmp w = Ends-pure tt w (λ t w'. Alike w w') (λ q. refl)
    archive-Ends o source (some st) tmp w =
        elim (Bool-cases (not o.noarch && not (bytes_eq source (45 ∷ [])))) [
          | inl e ↦ rw e (utimes-Ends F contents L V tmp st.st_atime st.st_mtime w)
          | inr e ↦ rw e (Ends-pure tt w (λ t w'. Alike w w') (λ q. refl))
        ]

    -- What `encrypt_file` gives, with the key behind it.
    encrypted-eq :
        (k : AesKey) (rsa : Rsa) (content file : Bytes)
        → encrypt_file a g k rsa content ≡ ok file
        → encrypted F a g m heap partial_output k rsa content
          ≡ ok ((encrypt_stream a k (g.compress content).0).0, file)
    unfolding encrypted
    encrypted-eq k rsa content file e = rw (encrypted, e) refl

    -- The key file behind `file_encrypt`, and what it was before.
    abbrev pub Keyed : Bool → Bytes → AesKey → World F → World F → Type 0
    Keyed true p k w w' = (rest : Bytes) × (contents w'.os p ≡ some (export_key k ++ rest))
    Keyed false p k w w' = contents w'.os p ≡ contents w.os p

    new_key_file-Ends :
        (new : Bool) (p : Bytes) (k : AesKey) (w : World F)
        → Ends (when new (write_header F p k)) w (λ t w'. Keyed new p k w w' × AlikeBut p w w')
    new_key_file-Ends true p k w = write_header-Ends F contents L V p k w
    new_key_file-Ends false p k w =
        Ends-pure tt w (λ t w'. Keyed false p k w w' × AlikeBut p w w') (refl, λ q ne. refl)

    Keyed-Alike :
        (new : Bool) (p : Bytes) (k : AesKey) (w0 w w' w'' : World F)
        → Keyed new p k w w'
        → contents w.os p ≡ contents w0.os p
        → contents w''.os p ≡ contents w'.os p
        → Keyed new p k w0 w''
    Keyed-Alike true p k w0 w w' w'' (rest, h) e e' = (rest, e' ∙ h)
    Keyed-Alike false p k w0 w w' w'' h e e' = e' ∙ h ∙ e

    open_source-Ends :
        (o : Options) (source content : Bytes) (st : Option Stat) (w : World F)
        → bytes_eq source (45 ∷ []) ≡ false
        → contents w.os source ≡ some content
        → Ends (open_source F a g m heap partial_output o source st) w (λ t w'. Alike w w')
    unfolding open_source System.euid
    open_source-Ends o source content st w e h = rw e (
        Ends->>=_at (System.euid F) (λ uid. System.open_file F (wants_noatime o uid st) source) w
          (F.euid w.os) (λ w'. w' ≡ w) (λ t w'. Alike w w')
          (record { value = F.euid w.os; after = w; run = refl; holds = (refl, refl) })
          (λ w' same.
            let h' : contents w'.os source ≡ some content =
              ap (λ (v : World F). contents v.os source) same ∙ h in
            let r =
              open_file-Ends F contents L V (wants_noatime o (F.euid w.os) st) source content w'
                h' in
            record {
              value = r.value;
              after = r.after;
              run = r.run;
              holds = λ q. r.holds q ∙ ap (λ (v : World F). contents v.os q) same;
            }))

    read_source-Ends :
        (source content : Bytes) (w : World F)
        → bytes_eq source (45 ∷ []) ≡ false
        → contents w.os source ≡ some content
        → Ends
            (read_source F a g m heap partial_output source)
            w
            (λ r w'. (r ≡ ok content) × Alike w w')
    unfolding read_source
    read_source-Ends source content w e h = rw e (read_file-Ends F contents L V source content w h)

    module _ (o : Options) (rsa : Rsa) (source dst key_file content file : Bytes) (st : Option Stat)
        (found : Option Bytes) (k : AesKey) (new : Bool) where
      -- What stands at the end.
      abbrev pub Encrypts : World F → World F → Type 0
      Encrypts w w' =
          (contents w'.os dst ≡ some file)
          × Keyed new key_file (encrypt_stream a k (g.compress content).0).0 w w'

      -- What is left to do when the file has been written.
      ends_encrypted :
          (w w6 : World F)
          → contents w6.os key_file ≡ contents w.os key_file
          → contents w6.os (tmp_name o dst) ≡ some file
          → tmp_name o dst ≢ key_file
          → dst ≢ key_file
          → let k' = (encrypt_stream a k (g.compress content).0).0 in
            Ends
              (when new (write_header F key_file k') >>= λ t.
                archive F a g m heap partial_output o source st (tmp_name o dst) >>= λ t.
                replace F o dst)
              w6
              (λ t w'. Encrypts w w')
      ends_encrypted w w6 old h6 ne ne' =
          let tmp = tmp_name o dst in
          let k' : AesKey = (encrypt_stream a k (g.compress content).0).0 in
          let Q = λ (t : Unit {0}) (w' : World F). Encrypts w w' in
          Ends->>= _ _ w6 (λ t w7. Keyed new key_file k' w6 w7 × AlikeBut key_file w6 w7) Q
            (new_key_file-Ends new key_file k' w6)
            (λ t7 w7 (h7, s7).
              Ends->>= _ _ w7 (λ t w8. Alike w7 w8) Q (archive-Ends o source st tmp w7)
                (λ t8 w8 s8.
                  let there = s8 tmp ∙ s7 tmp (λ z. ne (sym z)) ∙ h6 in
                  let e = replace-Ends o dst file w8 there in
                  record {
                    value = e.value;
                    after = e.after;
                    run = e.run;
                    holds = (
                      e.holds.0,
                      Keyed-Alike new key_file k' w w6 w7 e.after h7 old
                          (e.holds.1 key_file ne ne' ∙ s8 key_file),
                    );
                  }))

      pub file_encrypt-Ends :
          (w : World F)
          → bytes_eq source (45 ∷ []) ≡ false
          → tmp_name o dst ≢ source
          → tmp_name o dst ≢ key_file
          → dst ≢ key_file
          → contents w.os source ≡ some content
          → encrypt_file a g k rsa content ≡ ok file
          → ((w' : World F)
              → w'.os ≡ w.os
              → Ends
                  (read_key_file F key_file)
                  w'
                  (λ f w''. (f ≡ found) × Read F contents L V key_file w' w''))
          → ((w' : World F)
              → w'.os ≡ (F.open_read false key_file w.os).1
              → Ends
                  (choose_key F a g m heap partial_output o found)
                  w'
                  (λ p w''. (p ≡ (k, new)) × Alike w' w''))
          → Ends
              (file_encrypt F a g m heap partial_output o rsa source dst key_file st)
              w
              (λ t w'. Encrypts w w')
      unfolding file_encrypt
      file_encrypt-Ends w file_name apart ne ne' h enc reads chooses =
          let tmp = tmp_name o dst in
          let k' : AesKey = (encrypt_stream a k (g.compress content).0).0 in
          let Q = λ (t : Unit {0}) (w' : World F). Encrypts w w' in
          Ends->>= _ _ w (λ t w1. w1.os ≡ w.os) Q (noted-Ends F contents L V o dst w)
            (λ t1 w1 s1.
              Ends->>=_at _ _ w1 found (λ w2. Read F contents L V key_file w1 w2) Q (reads w1 s1)
                (λ w2 s2.
                  Ends->>=_at _ _ w2 (k, new) (λ w3. Alike w2 w3) Q
                    (chooses w2 (s2.1 ∙ ap (λ (x : F.State). (F.open_read false key_file x).1) s1))
                    (λ w3 s3.
                      let same3 =
                        λ (q : Bytes). s3 q ∙ s2.0 q ∙ ap (λ (x : F.State). contents x q) s1 in
                      let there3 = same3 source ∙ h in
                      Ends->>= _ _ w3 (λ t w4. Alike w3 w4) Q
                        (open_source-Ends o source content st w3 file_name there3)
                        (λ t4 w4 s4.
                          Ends->>= _ _ w4
                            (λ t w5. (contents w5.os tmp ≡ some []) × AlikeBut tmp w4 w5) Q
                            (open_output-Ends o dst w4)
                            (λ t5 w5 (h5, s5).
                              Ends->>=_at _ _ w5 (ok content) (λ w5'. Alike w5 w5') Q
                                (read_source-Ends source content w5 file_name
                                  (s5 source apart ∙ s4 source ∙ there3))
                                (λ w5' r5.
                                  Ends->>=_at _
                                    (λ head. when new (write_header F key_file head) >>= λ t.
                                      archive F a g m heap partial_output o source st tmp >>= λ t.
                                      replace F o dst)
                                    w5' k'
                                    (λ w6. (contents w6.os tmp ≡ some file) × AlikeBut tmp w5' w6) Q
                                    (processed-Ends tmp content k' file
                                      (encrypted F a g m heap partial_output k rsa) w5'
                                      (encrypted-eq k rsa content file enc) (r5 tmp ∙ h5))
                                    (λ w6 (h6, s6).
                                      ends_encrypted w w6
                                        (s6 key_file ne
                                          ∙ r5 key_file
                                          ∙ s5 key_file ne
                                          ∙ s4 key_file
                                          ∙ same3 key_file)
                                        h6 ne ne')))))))

    known_key-Ends :
        (found : Option Bytes) (known : Option AesKey) (w : World F)
        → known_key F a g m heap partial_output found w ≡ (ok known, w)
        → Ends (known_key F a g m heap partial_output found) w (λ x w'. (x ≡ known) × Alike w w')
    known_key-Ends found known w e = record {
      value = known;
      after = w;
      run = e;
      holds = (refl, λ q. refl);
    }

    keep_key-Ends :
        (known : Option AesKey) (p : Bytes) (k : AesKey) (w : World F)
        → Ends (keep_key F a g m heap partial_output known p k) w (λ t w'. AlikeBut p w w')
    unfolding keep_key
    keep_key-Ends none p k w =
        let e = write_header-Ends F contents L V p k w in
        record { value = e.value; after = e.after; run = e.run; holds = e.holds.1 }
    keep_key-Ends (some k') p k w = Ends-pure tt w (λ t w'. AlikeBut p w w') (λ q ne. refl)

    module _ (o : Options) (rsa : Rsa) (src dst key_file file content : Bytes)
        (found : Option Bytes) (known : Option AesKey) (k : AesKey) where
      pub file_decrypt-Ends :
          (w : World F)
          → tmp_name o dst ≢ src
          → tmp_name o dst ≢ key_file
          → contents w.os src ≡ some file
          → decrypt_file m heap a g known rsa file ≡ ok (k, content)
          → Ends
              (read_key_file F key_file)
              w
              (λ f w'. (f ≡ found) × Read F contents L V key_file w w')
          → ((w' : World F) → known_key F a g m heap partial_output found w' ≡ (ok known, w'))
          → Ends
              (file_decrypt F a g m heap partial_output o rsa src dst key_file)
              w
              (λ t w'. contents w'.os dst ≡ some content)
      unfolding file_decrypt copy_metadata
      file_decrypt-Ends w apart ne h dec reads knows =
          let tmp = tmp_name o dst in
          let Q = λ (t : Unit {0}) (w' : World F). contents w'.os dst ≡ some content in
          Ends->>=_at _ _ w found (λ w1. Read F contents L V key_file w w1) Q reads
            (λ w1 s1.
              Ends->>=_at _ _ w1 known (λ w2. Alike w1 w2) Q
                (known_key-Ends found known w1 (knows w1))
                (λ w2 s2.
                  let h2 = s2 src ∙ s1.0 src ∙ h in
                  Ends->>= _ _ w2 (λ t w3. Alike w2 w3) Q
                    (open_file-Ends F contents L V false src file w2 h2)
                    (λ t3 w3 s3.
                      Ends->>= _ _ w3 (λ st w4. Alike w3 w4) Q
                        (fstat-Ends F contents L V src file w3 (s3 src ∙ h2))
                        (λ status w4 s4.
                          Ends->>= _ _ w4
                            (λ t w5. (contents w5.os tmp ≡ some []) × AlikeBut tmp w4 w5) Q
                            (open_output-Ends o dst w4)
                            (λ t5 w5 (h5, s5).
                              Ends->>=_at _ _ w5 (ok file) (λ w5'. Alike w5 w5') Q
                                (read_file-Ends F contents L V src file w5
                                  (s5 src apart ∙ s4 src ∙ s3 src ∙ h2))
                                (λ w5' r5.
                                  Ends->>=_at _
                                    (λ head.
                                      keep_key F a g m heap partial_output known key_file head
                                      >>= λ t. copy_metadata F tmp status >>= λ t. replace F o dst)
                                    w5' k
                                    (λ w6.
                                      (contents w6.os tmp ≡ some content) × AlikeBut tmp w5' w6)
                                    Q
                                    (processed-Ends tmp file k content
                                      (decrypt_file m heap a g known rsa) w5' dec (r5 tmp ∙ h5))
                                    (λ w6 (h6, s6).
                                      Ends->>= _ _ w6 (λ t w7. AlikeBut key_file w6 w7) Q
                                        (keep_key-Ends known key_file k w6)
                                        (λ t7 w7 s7.
                                          Ends->>= _ _ w7 (λ t w8. Alike w7 w8) Q
                                            (utimes-Ends F contents L V tmp status.st_atime
                                              status.st_mtime w7)
                                            (λ t8 w8 s8.
                                              let there = s8 tmp ∙ s7 tmp (λ z. ne (sym z)) ∙ h6 in
                                              let e = replace-Ends o dst content w8 there in
                                              record {
                                                value = e.value;
                                                after = e.after;
                                                run = e.run;
                                                holds = e.holds.0;
                                              })))))))))
