-- ===== src/Files/Steps.antt =====
-- What the calls do on a file system on which they succeed.
use rsyncrypto.Prelude.{
  ℕ, Bool, true, false, Bytes, List, [], ◌∷◌, ◌++◌, Result, ok, Option, none, some, ◌==◌,
  if◌then◌else◌, length, drop, ◌≡◌, ◌≢◌, refl, ◌∙◌, ap, arith, Bool-cases, inl, inr,
}
use rsyncrypto.AesCrypt.{AesKey}
use rsyncrypto.KeyFile.{export_key, exported_length}
use rsyncrypto.Paths.{mkpath_dirs}
use rsyncrypto.Files.System
use rsyncrypto.Files.System.{Os, World, Options, Stat, enoent, no_entry, exists_already, checked}
use rsyncrypto.Files.{write_header, read_key_file}
use rsyncrypto.Files.FileSystem.{IsFramed, IsWilling}
use rsyncrypto.Files.Ends.{Ends, Ends->>=, Ends-pure}

module _ (F : Os) (contents : F.State → Bytes → Option Bytes) (L : IsFramed F contents)
    (V : IsWilling F contents) where
  -- All files are as they were, or all but one.
  abbrev pub Same : World F → World F → Type 0
  Same w w' = (q : Bytes) → contents w'.os q ≡ contents w.os q

  abbrev pub SameBut : Bytes → World F → World F → Type 0
  SameBut p w w' = (q : Bytes) → p ≢ q → contents w'.os q ≡ contents w.os q

  checked_ok :
      (r : ℕ × F.State) (w : World F) → r.0 ≡ 0 → checked F r w ≡ (ok tt, record w { os = r.1 })
  checked_ok r w h = let z : (r.0 == 0) ≡ true = ground arith in rw z refl

  pub open_file-Ends :
      (n : Bool) (p b : Bytes) (w : World F)
      → contents w.os p ≡ some b
      → Ends (System.open_file F n p) w (λ t w'. Same w w')
  unfolding System.open_file
  open_file-Ends n p b w h = record {
    value = tt;
    after = record w { os = (F.open_file n p w.os).1 };
    run = checked_ok _ w (V.opens n p b w.os h);
    holds = λ q. L.open_file_same n p q w.os;
  }

  pub read_file-Ends :
      (p b : Bytes) (w : World F)
      → contents w.os p ≡ some b
      → Ends (System.read_file F p) w (λ r w'. (r ≡ ok b) × Same w w')
  unfolding System.read_file
  read_file-Ends p b w h = record {
    value = (F.read_file p w.os).0;
    after = record w { os = (F.read_file p w.os).1 };
    run = refl;
    holds = (V.gives p b w.os h, λ q. L.read_file_same p q w.os);
  }

  -- The state of the file system behind the reading of the key file is the one that `open_read` leaves.
  abbrev pub Read : Bytes → World F → World F → Type 0
  Read p w w' = Same w w' × (w'.os ≡ (F.open_read false p w.os).1)

  pub read_key_file-Ends :
      (p b : Bytes) (w : World F)
      → contents w.os p ≡ some b
      → Ends (read_key_file F p) w (λ found w'. (found ≡ some b) × Read p w w')
  unfolding read_key_file System.open_read
  read_key_file-Ends p b w h = record {
    value = some b;
    after = record w { os = (F.open_read false p w.os).1 };
    run = rw (read_key_file, V.reads false p b w.os h) refl;
    holds = (refl, ((λ q. L.open_read_same false p q w.os), refl));
  }

  pub read_key_file-Ends_none :
      (p : Bytes) (w : World F)
      → contents w.os p ≡ none
      → Ends (read_key_file F p) w (λ found w'. (found ≡ none) × Read p w w')
  unfolding read_key_file System.open_read enoent
  read_key_file-Ends_none p w h = record {
    value = none;
    after = record w { os = (F.open_read false p w.os).1 };
    run = rw (read_key_file, V.missing false p w.os h) refl;
    holds = (refl, ((λ q. L.open_read_same false p q w.os), refl));
  }

  pub fstat-Ends :
      (p b : Bytes) (w : World F)
      → contents w.os p ≡ some b
      → Ends (System.fstat F p) w (λ st w'. Same w w')
  unfolding System.fstat
  fstat-Ends p b w h =
      let (st, e) = V.stats p b w.os h in
      record { value = st; after = w; run = ap (λ (r : Result Stat). (r, w)) e; holds = λ q. refl }

  pub noted-Ends :
      (o : Options) (p : Bytes) (w : World F) → Ends (System.noted F o p) w (λ t w'. w'.os ≡ w.os)
  unfolding System.noted
  noted-Ends o p w = record {
    value = tt;
    after = (System.noted F o p w).1;
    run = refl;
    holds = elim (Bool-cases o.export_changes) [ inl e ↦ rw e refl | inr e ↦ rw e refl ];
  }

  mkdir-Ends : (p : Bytes) (w : World F) → Ends (System.mkdir F p) w (λ t w'. Same w w')
  unfolding System.mkdir
  mkdir-Ends p w = record {
    value = tt;
    after = record w { os = (F.mkdir p w.os).1 };
    run =
        checked_ok
          (
            if (F.mkdir p w.os).0 == exists_already then 0 else (F.mkdir p w.os).0,
            (F.mkdir p w.os).1,
          )
          w (elim (V.makes p w.os) [ inl e ↦ rw e refl | inr e ↦ rw e refl ]);
    holds = λ q. L.mkdir_same p q w.os;
  }

  mkdirs-Ends : (ps : List Bytes) (w : World F) → Ends (System.mkdirs F ps) w (λ t w'. Same w w')
  unfolding System.mkdirs
  mkdirs-Ends [] w = Ends-pure tt w (λ t w'. Same w w') (λ q. refl)
  mkdirs-Ends (p ∷ ps) w =
      Ends->>= (System.mkdir F p) (λ (t : Unit {0}). System.mkdirs F ps) w (λ t w'. Same w w')
        (λ t w'. Same w w') (mkdir-Ends p w)
        (λ t w' h.
          let e = mkdirs-Ends ps w' in
          record { value = e.value; after = e.after; run = e.run; holds = λ q. e.holds q ∙ h q })

  pub mkpath-Ends : (p : Bytes) (w : World F) → Ends (System.mkpath F p) w (λ t w'. Same w w')
  unfolding System.mkpath
  mkpath-Ends p w = mkdirs-Ends (mkpath_dirs p) w

  pub utimes-Ends :
      (p : Bytes) (at mt : ℕ) (w : World F) → Ends (System.utimes F p at mt) w (λ t w'. Same w w')
  unfolding System.utimes
  utimes-Ends p at mt w = record {
    value = tt;
    after = record w { os = (F.utimes p at mt w.os).1 };
    run = checked_ok (F.utimes p at mt w.os) w (V.dates p at mt w.os);
    holds = λ q. L.utimes_same p at mt q w.os;
  }

  pub truncate-Ends :
      (p : Bytes) (w : World F)
      → Ends (System.create F true p) w (λ t w'. (contents w'.os p ≡ some []) × SameBut p w w')
  unfolding System.create
  truncate-Ends p w = record {
    value = tt;
    after = record w { os = (F.create true p w.os).1 };
    run = checked_ok (F.create true p w.os) w (V.creates true p w.os);
    holds = (V.truncates p w.os, λ q h. L.create_other true p q w.os h);
  }

  pub poke-Ends :
      (p b old : Bytes) (w : World F)
      → contents w.os p ≡ some old
      → Ends
          (System.poke F p b)
          w
          (λ t w'. (contents w'.os p ≡ some (b ++ drop (length b) old)) × SameBut p w w')
  unfolding System.poke
  poke-Ends p b old w h = record {
    value = tt;
    after = record w { os = F.poke p b w.os };
    run = refl;
    holds = (V.pokes p b old w.os h, λ q k. L.poke_other p b q w.os k);
  }

  create-Ends :
      (p : Bytes) (w : World F)
      → Ends
          (System.create F false p)
          w
          (λ t w'. ((b : Bytes) × (contents w'.os p ≡ some b)) × SameBut p w w')
  unfolding System.create
  create-Ends p w = record {
    value = tt;
    after = record w { os = (F.create false p w.os).1 };
    run = checked_ok (F.create false p w.os) w (V.creates false p w.os);
    holds = (V.created p w.os, λ q h. L.create_other false p q w.os h);
  }

  extend-Ends :
      (p old : Bytes) (n : ℕ) (w : World F)
      → contents w.os p ≡ some old
      → Ends
          (System.extend F p n)
          w
          (λ t w'. ((b : Bytes) × (contents w'.os p ≡ some b)) × SameBut p w w')
  unfolding System.extend
  extend-Ends p old n w h = record {
    value = tt;
    after = record w { os = (F.extend p n w.os).1 };
    run = checked_ok (F.extend p n w.os) w (V.extends p n w.os);
    holds = (V.extended p old n w.os h, λ q k. L.extend_other p n q w.os k);
  }

  pub mv-Ends :
      (p p' b : Bytes) (w : World F)
      → contents w.os p ≡ some b
      → Ends (System.mv F p p') w (λ t w'.
        (contents w'.os p' ≡ some b)
        × ((q : Bytes) → p ≢ q → p' ≢ q → contents w'.os q ≡ contents w.os q))
  unfolding System.mv
  mv-Ends p p' b w h = record {
    value = tt;
    after = record w { os = (F.rename p p' w.os).1 };
    run = checked_ok (F.rename p p' w.os) w (V.renames p p' b w.os h);
    holds = (V.renamed p p' b w.os h, λ q k k'. V.rename_other p p' q w.os k k');
  }

  -- `write_header` leaves a file that begins with the exported key.
  pub write_header-Ends :
      (p : Bytes) (k : AesKey) (w : World F)
      → Ends (write_header F p k) w (λ t w'.
        ((rest : Bytes) × (contents w'.os p ≡ some (export_key k ++ rest))) × SameBut p w w')
  unfolding write_header
  write_header-Ends p k w =
      let Q = λ (t : Unit {0}) (w' : World F).
        ((rest : Bytes) × (contents w'.os p ≡ some (export_key k ++ rest))) × SameBut p w w' in
      Ends->>= _ _ w (λ t w'. Same w w') Q (mkpath-Ends _ w)
        (λ t1 w1 s1.
          Ends->>= _ _ w1 (λ t w'. ((b : Bytes) × (contents w'.os p ≡ some b)) × SameBut p w1 w') Q
            (create-Ends p w1)
            (λ t2 w2 ((b, h), s2).
              Ends->>= _ _ w2
                (λ t w'. ((b : Bytes) × (contents w'.os p ≡ some b)) × SameBut p w2 w') Q
                (extend-Ends p b (exported_length k) w2 h)
                (λ t3 w3 ((b', h'), s3).
                  let e = poke-Ends p (export_key k) b' w3 h' in
                  record {
                    value = e.value;
                    after = e.after;
                    run = e.run;
                    holds = (
                      (drop (length (export_key k)) b', e.holds.0),
                      λ q ne. e.holds.1 q ne ∙ s3 q ne ∙ s2 q ne ∙ s1 q,
                    );
                  })))
