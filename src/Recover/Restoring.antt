-- ===== src/Recover/Restoring.antt =====
-- What rsyncrypto_recover does to a whole file: nothing good is lost, and nothing more is to do.
use rsyncrypto.Prelude.{List, Bytes, [], ◌∷◌, ◌++◌, All, length, ◌≡◌, sym, ◌∙◌, ap, subst}
use rsyncrypto.Recover.{FileRecord, recover}
use rsyncrypto.Recover.Line.{start, lines, lines-append_nul}
use rsyncrypto.Recover.Refinement.{recover-lines}
use rsyncrypto.Recover.Records.{IsGood, file_of, recover-IsGood, lines-file_of}

-- Whatever stands before a NUL, damaged or not, the good records behind it are all printed, behind
-- what that part gives by itself; the record at the start may hold any 32 characters.
pub recover_resync :
    (uninitialised : FileRecord) (damaged : Bytes) (rs : List FileRecord)
    → length uninitialised.crypt ≡ 32
    → All IsGood rs
    → recover uninitialised (damaged ++ (0 ∷ file_of rs))
      ≡ recover uninitialised (damaged ++ 0 ∷ []) ++ file_of rs
recover_resync uninitialised damaged rs h g =
    recover-lines uninitialised (damaged ++ (0 ∷ file_of rs)) h
    ∙ lines-append_nul start damaged (file_of rs)
    ∙ ap (λ (x : Bytes). lines start (damaged ++ 0 ∷ []) ++ x) (lines-file_of rs g)
    ∙ ap (λ (x : Bytes). x ++ file_of rs) (sym (recover-lines uninitialised (damaged ++ 0 ∷ []) h))

-- Recovering what was recovered, with any 32 characters in the record at the start of either run,
-- changes nothing.
pub recover-recover :
    (uninitialised again : FileRecord) (bytes : Bytes)
    → length uninitialised.crypt ≡ 32
    → length again.crypt ≡ 32
    → recover again (recover uninitialised bytes) ≡ recover uninitialised bytes
recover-recover uninitialised again bytes h k =
    let (rs, g, e) = recover-IsGood uninitialised bytes h in
    subst (λ (x : Bytes). recover again x ≡ x) (sym e)
      (recover-lines again (file_of rs) k ∙ lines-file_of rs g)
