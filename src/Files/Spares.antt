-- ===== src/Files/Spares.antt =====
-- What each call of `file_encrypt` and `file_decrypt` leaves of a file that it does not write.
use rsyncrypto.Prelude.{
  ℕ, Bool, true, false, Bytes, List, [], ◌∷◌, Result, ok, err, Error, Option, none, some, ◌≡◌, ◌≢◌,
  refl, ◌∙◌, Bool-cases, inl, inr,
}
use rsyncrypto.AesCrypt.{Aes, AesKey}
use rsyncrypto.KeyFile.{Memory}
use rsyncrypto.CryptFile.{Rsa, Gzip}
use rsyncrypto.Paths.{mkpath_dirs}
use rsyncrypto.Action.{Action, ◌>>=◌, lift}
use rsyncrypto.Action.Rules.{
  IsPreorder, Stays, Spares, pure-Stays, throw-Stays, >>=-Stays, >>=-Spares, Stays-Spares,
  catch-Stays, if-Stays,
}
use rsyncrypto.Files.System
use rsyncrypto.Files.System.{Os, World, Options, Stat, enoent}
use rsyncrypto.Files.{
  tmp_name, write_header, read_key_file, open_output, replace, written, fresh_key, forces_new,
  choose_key, open_source, read_source, processed, archive, file_encrypt, known_key, keep_key,
  copy_metadata, file_decrypt,
}
use rsyncrypto.Files.FileSystem.{IsFramed}

module _ (F : Os) (contents : F.State → Bytes → Option Bytes) (L : IsFramed F contents)
    (q : Bytes) where
  -- The file at `q` is as it was.
  abbrev pub SameAt : World F → World F → Type 0
  SameAt w w' = contents w'.os q ≡ contents w.os q

  SameAt-IsPreorder : IsPreorder SameAt
  SameAt-IsPreorder = record { same = λ w. refl; trans = λ u v w h k. k ∙ h }

  abbrev Kept : {A : Type 0} → Action (World F) A → Type 0
  Kept m = Stays SameAt m

  then_Kept :
      {A B : Type 0} (m : Action (World F) A) (next : A → Action (World F) B)
      → Kept m
      → ((a : A) → Kept (next a))
      → Kept (m >>= next)
  then_Kept m next = >>=-Stays SameAt SameAt-IsPreorder m next

  open_read-Kept : (b : Bool) (p : Bytes) → Kept (System.open_read F b p)
  unfolding System.open_read
  open_read-Kept b p = record { stays = λ w. L.open_read_same b p q w.os }

  open_file-Kept : (b : Bool) (p : Bytes) → Kept (System.open_file F b p)
  unfolding System.open_file
  open_file-Kept b p = record { stays = λ w. L.open_file_same b p q w.os }

  read_file-Kept : (p : Bytes) → Kept (System.read_file F p)
  unfolding System.read_file
  read_file-Kept p = record { stays = λ w. L.read_file_same p q w.os }

  open_stdin-Kept : Kept (System.open_stdin F)
  unfolding System.open_stdin
  open_stdin-Kept = record { stays = λ w. L.read_stdin_same q w.os }

  random-Kept : Kept (System.random F)
  unfolding System.random
  random-Kept = record { stays = λ w. L.random_same q w.os }

  euid-Kept : Kept (System.euid F)
  unfolding System.euid
  euid-Kept = record { stays = λ w. refl }

  fstat-Kept : (p : Bytes) → Kept (System.fstat F p)
  unfolding System.fstat
  fstat-Kept p = record { stays = λ w. refl }

  noted-Kept : (o : Options) (p : Bytes) → Kept (System.noted F o p)
  unfolding System.noted
  noted-Kept o p = record {
    stays = λ w. elim (Bool-cases o.export_changes) [ inl e ↦ rw e refl | inr e ↦ rw e refl ];
  }

  mkdir-Kept : (p : Bytes) → Kept (System.mkdir F p)
  unfolding System.mkdir
  mkdir-Kept p = record { stays = λ w. L.mkdir_same p q w.os }

  mkdirs-Kept : (ps : List Bytes) → Kept (System.mkdirs F ps)
  unfolding System.mkdirs
  mkdirs-Kept [] = pure-Stays SameAt SameAt-IsPreorder tt
  mkdirs-Kept (p ∷ ps) =
      then_Kept (System.mkdir F p) (λ (t : Unit {0}). System.mkdirs F ps) (mkdir-Kept p)
        (λ t. mkdirs-Kept ps)

  mkpath-Kept : (p : Bytes) → Kept (System.mkpath F p)
  unfolding System.mkpath
  mkpath-Kept p = mkdirs-Kept (mkpath_dirs p)

  utimes-Kept : (p : Bytes) (at mt : ℕ) → Kept (System.utimes F p at mt)
  unfolding System.utimes
  utimes-Kept p at mt = record { stays = λ w. L.utimes_same p at mt q w.os }

  create-Kept : (b : Bool) (p : Bytes) → p ≢ q → Kept (System.create F b p)
  unfolding System.create
  create-Kept b p h = record { stays = λ w. L.create_other b p q w.os h }

  poke-Kept : (p b : Bytes) → p ≢ q → Kept (System.poke F p b)
  unfolding System.poke
  poke-Kept p b h = record { stays = λ w. L.poke_other p b q w.os h }

  extend-Kept : (p : Bytes) (n : ℕ) → p ≢ q → Kept (System.extend F p n)
  unfolding System.extend
  extend-Kept p n h = record { stays = λ w. L.extend_other p n q w.os h }

  mv-Spares : (p p' : Bytes) → Spares SameAt (System.mv F p p')
  unfolding System.mv
  mv-Spares p p' = record { spares = λ w x e. L.rename_failed p p' q w.os (λ z. cc (rw z at e)) }

  write_header-Kept : (p : Bytes) (k : AesKey) → p ≢ q → Kept (write_header F p k)
  unfolding write_header
  write_header-Kept p k h = then_Kept _ _ (mkpath-Kept _) (λ t.
      then_Kept _ _ (create-Kept false p h)
        (λ t. then_Kept _ _ (extend-Kept p _ h) (λ t. poke-Kept p _ h)))

  read_key_file-Kept : (p : Bytes) → Kept (read_key_file F p)
  unfolding read_key_file
  read_key_file-Kept p =
      catch-Stays SameAt SameAt-IsPreorder _ _
        (then_Kept _ _ (open_read-Kept false p) (λ b. pure-Stays SameAt SameAt-IsPreorder (some b)))
        (λ x.
          if-Stays SameAt SameAt-IsPreorder (enoent x) _ _
            (pure-Stays SameAt SameAt-IsPreorder none)
            (throw-Stays SameAt SameAt-IsPreorder (Option Bytes) x))

  open_output-Kept : (o : Options) (dst : Bytes) → tmp_name o dst ≢ q → Kept (open_output F o dst)
  unfolding open_output
  open_output-Kept o dst h = then_Kept _ _ (mkpath-Kept _) (λ t. create-Kept true _ h)

  copy_metadata-Kept : (p : Bytes) (st : Stat) → Kept (copy_metadata F p st)
  unfolding copy_metadata
  copy_metadata-Kept p st = utimes-Kept p st.st_atime st.st_mtime

  replace-Spares : (o : Options) (dst : Bytes) → Spares SameAt (replace F o dst)
  unfolding replace
  replace-Spares o dst = elim (Bool-cases o.risky_writes) [
    | inl e ↦
        rw e (Stays-Spares SameAt SameAt-IsPreorder _ (pure-Stays SameAt SameAt-IsPreorder tt))
    | inr e ↦ rw e (mv-Spares _ dst)
  ]

  module _ (a : Aes) (g : Gzip) (m : Memory) (heap : ℕ → Bytes)
      (partial_output : Bytes → Error → Bytes) where
    written-Kept :
        {A : Type 0} (p content : Bytes) (r : Result (A × Bytes))
        → p ≢ q
        → Kept (written F a g m heap partial_output p content r)
    unfolding written
    written-Kept {A} p content (err e) h =
        then_Kept _ _ (poke-Kept p _ h) (λ t. throw-Stays SameAt SameAt-IsPreorder A e)
    written-Kept p content (ok (x, out)) h =
        then_Kept _ _ (poke-Kept p out h) (λ t. pure-Stays SameAt SameAt-IsPreorder x)

    processed-Kept :
        {A : Type 0} (p : Bytes) (content : Result Bytes) (op : Bytes → Result (A × Bytes))
        → p ≢ q
        → Kept (processed F a g m heap partial_output p content op)
    unfolding processed
    processed-Kept {A} p (err e) op h =
        then_Kept _ _ (poke-Kept p _ h) (λ t. throw-Stays SameAt SameAt-IsPreorder A e)
    processed-Kept p (ok content) op h = written-Kept p content (op content) h

    lift-Kept : {A : Type 0} (r : Result A) → Kept (lift r)
    lift-Kept r = record { stays = λ w. refl }

    fresh_key-Kept : (o : Options) → Kept (fresh_key F a g m heap partial_output o)
    unfolding fresh_key
    fresh_key-Kept o = then_Kept _ _ random-Kept (λ r. lift-Kept _)

    choose_key-Kept :
        (o : Options) (found : Option Bytes) → Kept (choose_key F a g m heap partial_output o found)
    unfolding choose_key
    choose_key-Kept o none =
        then_Kept _ _ (fresh_key-Kept o) (λ k. pure-Stays SameAt SameAt-IsPreorder (k, true))
    choose_key-Kept o (some b) = then_Kept _ _ (lift-Kept _) (λ k.
        if-Stays SameAt SameAt-IsPreorder (forces_new o k.header) _ _
          (then_Kept _ _ (fresh_key-Kept o) (λ k'. pure-Stays SameAt SameAt-IsPreorder (k', true)))
          (pure-Stays SameAt SameAt-IsPreorder (k, false)))

    open_source-Kept :
        (o : Options) (source : Bytes) (st : Option Stat)
        → Kept (open_source F a g m heap partial_output o source st)
    unfolding open_source
    open_source-Kept o source st =
        if-Stays SameAt SameAt-IsPreorder _ _ _ (pure-Stays SameAt SameAt-IsPreorder tt)
          (then_Kept _ _ euid-Kept (λ uid. open_file-Kept _ source))

    read_source-Kept : (source : Bytes) → Kept (read_source F a g m heap partial_output source)
    unfolding read_source
    read_source-Kept source =
        if-Stays SameAt SameAt-IsPreorder _ _ _
          (then_Kept _ _ open_stdin-Kept (λ b. pure-Stays SameAt SameAt-IsPreorder (ok b)))
          (read_file-Kept source)

    archive-Kept :
        (o : Options) (source : Bytes) (st : Option Stat) (tmp : Bytes)
        → Kept (archive F a g m heap partial_output o source st tmp)
    unfolding archive
    archive-Kept o source none tmp = pure-Stays SameAt SameAt-IsPreorder tt
    archive-Kept o source (some st) tmp =
        if-Stays SameAt SameAt-IsPreorder _ _ _ (copy_metadata-Kept tmp st)
          (pure-Stays SameAt SameAt-IsPreorder tt)

    known_key-Kept : (found : Option Bytes) → Kept (known_key F a g m heap partial_output found)
    unfolding known_key
    known_key-Kept none = pure-Stays SameAt SameAt-IsPreorder none
    known_key-Kept (some b) =
        then_Kept _ _ (lift-Kept _) (λ k. pure-Stays SameAt SameAt-IsPreorder (some k))

    keep_key-Kept :
        (known : Option AesKey) (p : Bytes) (k : AesKey)
        → p ≢ q
        → Kept (keep_key F a g m heap partial_output known p k)
    unfolding keep_key
    keep_key-Kept none p k h = write_header-Kept p k h
    keep_key-Kept (some k') p k h = pure-Stays SameAt SameAt-IsPreorder tt

    then_Spares :
        {A B : Type 0} (n : Action (World F) A) (next : A → Action (World F) B)
        → Kept n
        → ((x : A) → Spares SameAt (next x))
        → Spares SameAt (n >>= next)
    then_Spares n next = >>=-Spares SameAt SameAt-IsPreorder n next

    pub file_encrypt-Spares :
        (o : Options) (rsa : Rsa) (source dst key_file : Bytes) (st : Option Stat)
        → tmp_name o dst ≢ q
        → key_file ≢ q
        → Spares SameAt (file_encrypt F a g m heap partial_output o rsa source dst key_file st)
    unfolding file_encrypt
    file_encrypt-Spares o rsa source dst key_file st h k = then_Spares _ _ (noted-Kept o dst) (λ t1.
        then_Spares _ _ (read_key_file-Kept key_file) (λ found.
          then_Spares _ _ (choose_key-Kept o found) (λ (head, new).
            then_Spares _ _ (open_source-Kept o source st) (λ t5.
              then_Spares _ _ (open_output-Kept o dst h) (λ t2.
                then_Spares _ _ (read_source-Kept source) (λ content.
                  then_Spares _ _ (processed-Kept (tmp_name o dst) content _ h) (λ head'.
                    then_Spares _ _
                      (if-Stays SameAt SameAt-IsPreorder new _ _
                        (write_header-Kept key_file head' k)
                        (pure-Stays SameAt SameAt-IsPreorder tt))
                      (λ t3.
                        then_Spares _ _ (archive-Kept o source st (tmp_name o dst))
                          (λ t4. replace-Spares o dst)))))))))

    pub file_decrypt-Spares :
        (o : Options) (rsa : Rsa) (src dst key_file : Bytes)
        → tmp_name o dst ≢ q
        → key_file ≢ q
        → Spares SameAt (file_decrypt F a g m heap partial_output o rsa src dst key_file)
    unfolding file_decrypt
    file_decrypt-Spares o rsa src dst key_file h k =
        then_Spares _ _ (read_key_file-Kept key_file) (λ found.
          then_Spares _ _ (known_key-Kept found) (λ known.
            then_Spares _ _ (open_file-Kept false src) (λ t5.
              then_Spares _ _ (fstat-Kept src) (λ status.
                then_Spares _ _ (open_output-Kept o dst h) (λ t2.
                  then_Spares _ _ (read_file-Kept src) (λ content.
                    then_Spares _ _ (processed-Kept (tmp_name o dst) content _ h) (λ head.
                      then_Spares _ _ (keep_key-Kept known key_file head k) (λ t3.
                        then_Spares _ _ (copy_metadata-Kept (tmp_name o dst) status)
                          (λ t4. replace-Spares o dst)))))))))
