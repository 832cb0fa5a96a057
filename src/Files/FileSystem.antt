-- ===== src/Files/FileSystem.antt =====
-- What is supposed of the system calls on files, for the theorems on `file_encrypt` and `file_decrypt`.
use rsyncrypto.Prelude.{
  ℕ, Bool, true, false, Bytes, [], ◌++◌, ok, err, Error, Option, none, some, length, drop, ◌≡◌, ◌≢◌,
  ◌⊎◌,
}
use rsyncrypto.Files.System.{Os, Stat, no_entry, exists_already}

-- What the calls leave alone, also when they fail; two different names are two files.
pub record IsFramed (F : Os) (contents : F.State → Bytes → Option Bytes) : Type 0 where
  pub open_read_same :
      (b : Bool) (p q : Bytes) (s : F.State) → contents (F.open_read b p s).1 q ≡ contents s q
  pub open_file_same :
      (b : Bool) (p q : Bytes) (s : F.State) → contents (F.open_file b p s).1 q ≡ contents s q
  pub read_file_same : (p q : Bytes) (s : F.State) → contents (F.read_file p s).1 q ≡ contents s q
  pub read_stdin_same : (q : Bytes) (s : F.State) → contents (F.read_stdin s).1 q ≡ contents s q
  pub random_same : (q : Bytes) (s : F.State) → contents (F.random s).1 q ≡ contents s q
  pub create_other :
      (b : Bool) (p q : Bytes) (s : F.State) → p ≢ q → contents (F.create b p s).1 q ≡ contents s q
  pub poke_other : (p b q : Bytes) (s : F.State) → p ≢ q → contents (F.poke p b s) q ≡ contents s q
  pub extend_other :
      (p : Bytes) (n : ℕ) (q : Bytes) (s : F.State)
      → p ≢ q
      → contents (F.extend p n s).1 q ≡ contents s q
  pub mkdir_same : (p q : Bytes) (s : F.State) → contents (F.mkdir p s).1 q ≡ contents s q
  pub utimes_same :
      (p : Bytes) (at mt : ℕ) (q : Bytes) (s : F.State)
      → contents (F.utimes p at mt s).1 q ≡ contents s q
  pub rename_failed :
      (p p' q : Bytes) (s : F.State)
      → (F.rename p p' s).0 ≢ 0
      → contents (F.rename p p' s).1 q ≡ contents s q

-- Files that exist can be read and renamed, any can be written, a directory is made or is there.
pub record IsWilling (F : Os) (contents : F.State → Bytes → Option Bytes) : Type 0 where
  pub reads :
      (n : Bool) (p b : Bytes) (s : F.State) → contents s p ≡ some b → (F.open_read n p s).0 ≡ ok b
  pub opens :
      (n : Bool) (p b : Bytes) (s : F.State) → contents s p ≡ some b → (F.open_file n p s).0 ≡ 0
  pub gives : (p b : Bytes) (s : F.State) → contents s p ≡ some b → (F.read_file p s).0 ≡ ok b
  pub missing :
      (n : Bool) (p : Bytes) (s : F.State)
      → contents s p ≡ none
      → (F.open_read n p s).0 ≡ err (Error.system no_entry)
  pub creates : (t : Bool) (p : Bytes) (s : F.State) → (F.create t p s).0 ≡ 0
  pub truncates : (p : Bytes) (s : F.State) → contents (F.create true p s).1 p ≡ some []
  pub created :
      (p : Bytes) (s : F.State) → (b : Bytes) × (contents (F.create false p s).1 p ≡ some b)
  pub pokes :
      (p b old : Bytes) (s : F.State)
      → contents s p ≡ some old
      → contents (F.poke p b s) p ≡ some (b ++ drop (length b) old)
  pub extends : (p : Bytes) (n : ℕ) (s : F.State) → (F.extend p n s).0 ≡ 0
  pub extended :
      (p old : Bytes) (n : ℕ) (s : F.State)
      → contents s p ≡ some old
      → (b : Bytes) × (contents (F.extend p n s).1 p ≡ some b)
  pub makes : (p : Bytes) (s : F.State) → ((F.mkdir p s).0 ≡ 0) ⊎ ((F.mkdir p s).0 ≡ exists_already)
  pub dates : (p : Bytes) (at mt : ℕ) (s : F.State) → (F.utimes p at mt s).0 ≡ 0
  pub renames : (p p' b : Bytes) (s : F.State) → contents s p ≡ some b → (F.rename p p' s).0 ≡ 0
  pub renamed :
      (p p' b : Bytes) (s : F.State)
      → contents s p ≡ some b
      → contents (F.rename p p' s).1 p' ≡ some b
  pub rename_other :
      (p p' q : Bytes) (s : F.State)
      → p ≢ q
      → p' ≢ q
      → contents (F.rename p p' s).1 q ≡ contents s q
  pub stats :
      (p b : Bytes) (s : F.State) → contents s p ≡ some b → (st : Stat) × (F.fstat p s ≡ ok st)
