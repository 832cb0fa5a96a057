-- ===== src/Files/Whole.antt =====
-- A file that is encrypted can be decrypted: `file_encrypt`, then `file_decrypt`.
use rsyncrypto.Prelude.{
  ℕ, true, false, Bytes, bytes_eq, IsByte, [], ◌∷◌, ◌++◌, ok, Error, Option, none, some, All, ◌≡◌,
  ◌≢◌, refl, ◌∙◌, ap, arith,
}
use rsyncrypto.CryptKey.{IsUsable, cypher_aes}
use rsyncrypto.AesCrypt.{Aes, AesKey, IsCbc}
use rsyncrypto.KeyFile.{Memory, export_key, new_key, generate_key}
use rsyncrypto.KeyFile.RoundTrip.{IsMade, reread, read_key-export_key}
use rsyncrypto.Crypto.Position.{IsIdle}
use rsyncrypto.Crypto.Keeps.{SameKey, encrypt_stream-SameKey}
use rsyncrypto.Crypto.{encrypt_stream}
use rsyncrypto.CryptFile.{Rsa, Gzip, decrypt_file}
use rsyncrypto.CryptFile.RoundTrip.{IsRsa, IsGzip, IsMemory, fixed, reread-IsIdle}
use rsyncrypto.CryptFile.Whole.{decrypt_file-key_file}
use rsyncrypto.Action.{◌>>◌}
use rsyncrypto.Files.System
use rsyncrypto.Files.System.{Os, World, Options, Stat}
use rsyncrypto.Files.FileSystem.{IsFramed, IsWilling}
use rsyncrypto.Files.Ends.{Ends, Ends->>=}
use rsyncrypto.Files.Steps.{Same, read_key_file-Ends, read_key_file-Ends_none}
use rsyncrypto.Files.RoundTrip.{Encrypts, file_encrypt-Ends, file_decrypt-Ends}
use rsyncrypto.Files.{
  tmp_name, forces_new, fresh_key, choose_key, known_key, file_encrypt, file_decrypt,
}

export_key-SameKey : (k k' : AesKey) → SameKey k k' → export_key k' ≡ export_key k
unfolding export_key
export_key-SameKey k k' (h, x, i) = rw (h, x, i) refl

module _ (F : Os) (contents : F.State → Bytes → Option Bytes) (L : IsFramed F contents)
    (V : IsWilling F contents) (a : Aes) (g : Gzip) (z : IsGzip g) (m : Memory) (mem : IsMemory m)
    (heap : ℕ → Bytes) (rsa : Rsa) (r : IsRsa rsa) (partial_output : Bytes → Error → Bytes) where
  known_key-eq :
      (k : AesKey) (rest : Bytes) (w : World F)
      → IsMade k
      → known_key F a g m heap partial_output (some (export_key k ++ rest)) w
        ≡ (ok (some (reread m k)), w)
  unfolding known_key
  known_key-eq k rest w made = rw (known_key, read_key-export_key m k rest made) refl

  choose_key-Ends :
      (o : Options) (k : AesKey) (rest : Bytes) (w : World F)
      → IsMade k
      → forces_new o k.header ≡ false
      → Ends
          (choose_key F a g m heap partial_output o (some (export_key k ++ rest)))
          w
          (λ p w'. (p ≡ (reread m k, false)) × Same F contents L V w w')
  unfolding choose_key
  choose_key-Ends o k rest w made kept = record {
    value = (reread m k, false);
    after = w;
    run = rw (choose_key, read_key-export_key m k rest made, kept) refl;
    holds = (refl, λ q. refl);
  }

  choose_key-Ends_none :
      (o : Options) (k : AesKey) (w : World F)
      → new_key m (F.random w.os).0 cypher_aes o.keysize o.rollwin o.rollsens o.rollmin ≡ ok k
      → Ends
          (choose_key F a g m heap partial_output o none)
          w
          (λ p w'. (p ≡ (k, true)) × Same F contents L V w w')
  unfolding choose_key fresh_key System.random
  choose_key-Ends_none o k w made = record {
    value = (k, true);
    after = record w { os = (F.random w.os).1 };
    run = rw (choose_key, fresh_key, made) refl;
    holds = (refl, λ q. L.random_same q w.os);
  }

  -- The common part: the key file holds the key afterwards.
  module _ (o o' : Options) (source dst out key_file content file : Bytes) (st : Option Stat)
      (k k' : AesKey) where
    pub decrypt_after :
        (rest : Bytes) (w : World F)
        → IsMade k
        → tmp_name o' out ≢ dst
        → tmp_name o' out ≢ key_file
        → contents w.os dst ≡ some file
        → contents w.os key_file ≡ some (export_key k ++ rest)
        → decrypt_file m heap a g (some (reread m k)) rsa file ≡ ok (k', content)
        → Ends
            (file_decrypt F a g m heap partial_output o' rsa dst out key_file)
            w
            (λ t w'. contents w'.os out ≡ some content)
    decrypt_after rest w made apart ne h hk dec =
        file_decrypt-Ends F contents L V a g m heap partial_output o' rsa dst out key_file file
          content (some (export_key k ++ rest)) (some (reread m k)) k' w apart ne h dec
          (read_key_file-Ends F contents L V key_file (export_key k ++ rest) w hk)
          (λ w'. known_key-eq k rest w' made)

  -- On a file system that allows the calls, with a gzip and an RSA as documented: if the key file
  -- holds a well made key with a usable header, with anything behind it, the cipher behaves under
  -- its secret as documented, the options do not force a new key, RSA encrypts the key, and the
  -- file to encrypt consists of bytes and is not "-", then file_encrypt and after it file_decrypt
  -- with the same key file both end without an error, and the output file holds the content; the
  -- encrypted file and the two files that are written to, the temporary ones or with
  -- --risky-writes the destinations, have other names than the key file, and each of those two
  -- another name than the file that is read.
  pub file_decrypt-file_encrypt :
      (o o' : Options) (source dst out key_file content rest c : Bytes) (st : Option Stat)
      (k : AesKey) (w : World F)
      → IsCbc a k.secret_key
      → IsMade k
      → IsUsable k.header
      → All IsByte content
      → rsa.public_encrypt (export_key k) ≡ some c
      → forces_new o k.header ≡ false
      → contents w.os source ≡ some content
      → contents w.os key_file ≡ some (export_key k ++ rest)
      → bytes_eq source (45 ∷ []) ≡ false
      → tmp_name o dst ≢ source
      → tmp_name o dst ≢ key_file
      → dst ≢ key_file
      → tmp_name o' out ≢ dst
      → tmp_name o' out ≢ key_file
      → Ends
          (file_encrypt F a g m heap partial_output o rsa source dst key_file st
            >> file_decrypt F a g m heap partial_output o' rsa dst out key_file)
          w
          (λ t w'. contents w'.os out ≡ some content)
  file_decrypt-file_encrypt o o' source dst out key_file content rest c st k w C made usable bytes
        enc kept h hk name ap1 ne1 ne2 ap2 ne3 =
      let head = reread m k in
      let made' : IsMade head = record {
        version_is = made.version_is;
        cypher_is = made.cypher_is;
        size_fits = made.size_fits;
        span_fits = made.span_fits;
        mod_fits = made.mod_fits;
        dist_fits = made.dist_fits;
        iv_size = made.iv_size;
        secret_size = made.secret_size;
      } in
      let exported : export_key head ≡ export_key k =
        export_key-SameKey k head (refl, refl, refl) in
      let (file, k', e, d) =
        decrypt_file-key_file a g z m mem heap rsa r head C content c [] bytes made' usable
          (reread-IsIdle m mem heap k) (ap rsa.public_encrypt exported ∙ enc) in
      let dec = rw (read_key-export_key m head [] made') at d in
      Ends->>= _ _ w
        (λ t w'.
          Encrypts F contents L V a g m heap partial_output o rsa source dst key_file content file
            st (some (export_key k ++ rest)) head false w w')
        (λ t w'. contents w'.os out ≡ some content)
        (file_encrypt-Ends F contents L V a g m heap partial_output o rsa source dst key_file
          content file st (some (export_key k ++ rest)) head false w name ap1 ne1 ne2 h e
          (λ w' s.
            read_key_file-Ends F contents L V key_file (export_key k ++ rest) w'
              (ap (λ (x : F.State). contents x key_file) s ∙ hk))
          (λ w' s. choose_key-Ends o k rest w' made kept))
        (λ t w' (there, same).
          decrypt_after o o' source dst out key_file content file st k k' rest w' made ap2 ne3 there
            (same ∙ hk) dec)

  new_key-IsIdle :
      (rand : ℕ → ℕ → Option Bytes) (keybits span sens min_dist : ℕ) (k : AesKey)
      → new_key m rand cypher_aes keybits span sens min_dist ≡ ok k
      → IsIdle (fixed k) k
  unfolding new_key generate_key
  new_key-IsIdle rand keybits span sens min_dist k e =
      let ring : k.ptbuf ≡ m.fresh k.header.sum_span = ground arith in
      record {
        header_is = refl;
        secret_is = refl;
        iv_is = refl;
        ring_size = rw ring (mem.ring_size k.header.sum_span);
        ring_bytes = rw ring (mem.ring_bytes k.header.sum_span);
      }

  -- The first half of what follows, with what the second one needs.
  pub encrypts_new :
      (o : Options) (source dst key_file content c : Bytes) (st : Option Stat) (k : AesKey)
      (w : World F)
      → new_key m
          (F.random (F.open_read false key_file w.os).1).0
          cypher_aes
          o.keysize
          o.rollwin
          o.rollsens
          o.rollmin
        ≡ ok k
      → IsCbc a k.secret_key
      → IsMade k
      → IsUsable k.header
      → All IsByte content
      → rsa.public_encrypt (export_key k) ≡ some c
      → contents w.os source ≡ some content
      → contents w.os key_file ≡ none
      → bytes_eq source (45 ∷ []) ≡ false
      → tmp_name o dst ≢ source
      → tmp_name o dst ≢ key_file
      → dst ≢ key_file
      → (file : Bytes) × (k' : AesKey) × (decrypt_file m heap a g (some (reread m k)) rsa file
          ≡ ok (k', content))
        × Ends (file_encrypt F a g m heap partial_output o rsa source dst key_file st) w (λ t w'.
          (contents w'.os dst ≡ some file)
          × ((rest : Bytes) × (contents w'.os key_file ≡ some (export_key k ++ rest))))
  encrypts_new o source dst key_file content c st k w draws C made usable bytes enc h hk name ap1
        ne1 ne2 =
      let idle =
        new_key-IsIdle (F.random (F.open_read false key_file w.os).1).0 o.keysize o.rollwin
          o.rollsens o.rollmin k draws in
      let (file, k', e, d) =
        decrypt_file-key_file a g z m mem heap rsa r k C content c [] bytes made usable idle enc in
      let dec = rw (read_key-export_key m k [] made) at d in
      let behind : AesKey = (encrypt_stream a k (g.compress content).0).0 in
      let exported : export_key behind ≡ export_key k =
        export_key-SameKey k behind (encrypt_stream-SameKey a k (g.compress content).0) in
      let ends =
        file_encrypt-Ends F contents L V a g m heap partial_output o rsa source dst key_file content
          file st none k true w name ap1 ne1 ne2 h e
          (λ w' s.
            read_key_file-Ends_none F contents L V key_file w'
              (ap (λ (x : F.State). contents x key_file) s ∙ hk))
          (λ w' s. choose_key-Ends_none o k w' (
            ap
              (λ (x : F.State).
                new_key m (F.random x).0 cypher_aes o.keysize o.rollwin o.rollsens o.rollmin)
              s
            ∙ draws)) in
      (
        file,
        k',
        dec,
        record {
          value = ends.value;
          after = ends.after;
          run = ends.run;
          holds = (
            ends.holds.0,
            (
              ends.holds.1.0,
              ends.holds.1.1 ∙ ap (λ (x : Bytes). some (x ++ ends.holds.1.0)) exported,
            ),
          );
        },
      )

  -- On a file system that allows the calls, with a cipher, a gzip and an RSA as documented: if
  -- there is no key file, the random source gives a key that is well made and whose header is
  -- usable, RSA encrypts that key, and the file to encrypt consists of bytes and is not "-", then
  -- file_encrypt and after it file_decrypt with the key file that the first has made both end
  -- without an error, and the output file holds the content; the encrypted file and the two
  -- temporary ones have other names than the key file.
  pub file_decrypt-file_encrypt_new :
      (o o' : Options) (source dst out key_file content c : Bytes) (st : Option Stat) (k : AesKey)
      (w : World F)
      → new_key m
          (F.random (F.open_read false key_file w.os).1).0
          cypher_aes
          o.keysize
          o.rollwin
          o.rollsens
          o.rollmin
        ≡ ok k
      → IsCbc a k.secret_key
      → IsMade k
      → IsUsable k.header
      → All IsByte content
      → rsa.public_encrypt (export_key k) ≡ some c
      → contents w.os source ≡ some content
      → contents w.os key_file ≡ none
      → bytes_eq source (45 ∷ []) ≡ false
      → tmp_name o dst ≢ source
      → tmp_name o dst ≢ key_file
      → dst ≢ key_file
      → tmp_name o' out ≢ dst
      → tmp_name o' out ≢ key_file
      → Ends
          (file_encrypt F a g m heap partial_output o rsa source dst key_file st
            >> file_decrypt F a g m heap partial_output o' rsa dst out key_file)
          w
          (λ t w'. contents w'.os out ≡ some content)
  file_decrypt-file_encrypt_new o o' source dst out key_file content c st k w draws C made usable
        bytes enc h hk name ap1 ne1 ne2 ap2 ne3 =
      let (file, k', dec, ends) =
        encrypts_new o source dst key_file content c st k w draws C made usable bytes enc h hk name
          ap1 ne1 ne2 in
      Ends->>= _ _ w
        (λ t w'.
          (contents w'.os dst ≡ some file)
          × ((rest : Bytes) × (contents w'.os key_file ≡ some (export_key k ++ rest))))
        (λ t w'. contents w'.os out ≡ some content) ends
        (λ t w' (there, (rest, holds)).
          decrypt_after o o' source dst out key_file content file st k k' rest w' made ap2 ne3 there
            holds dec)
