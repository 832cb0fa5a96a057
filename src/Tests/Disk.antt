-- ===== src/Tests/Disk.antt =====
-- A file system for the tests: what stands in the files, and two directories.
use rsyncrypto.Prelude.{
  ℕ, ◌+◌, ◌-◌, Bool, true, false, ◌||◌, Bytes, bytes_eq, bytes_eq_iff, List, [], ◌∷◌, ◌++◌, Result,
  ok, err, Error, Option, none, some, if◌then◌else◌, length, drop, replicate, ◌≡◌, ◌≢◌, inl, inr,
  refl, sym, ◌∙◌, ap, Bool-cases,
}
use rsyncrypto.Filemap.{Maps}
use rsyncrypto.Filemap.Naming.{s_ifreg, s_ifdir}
use rsyncrypto.Action.{Action}
use rsyncrypto.Files.System.{Os, World, Options, Stat, no_entry, exists_already}
use rsyncrypto.Files.FileSystem.{IsFramed, IsWilling}
use rsyncrypto.Deletion.Safe.{IsDeletion}

abbrev pub Disk : Type 0
Disk = Bytes → Option Bytes

abbrev pub changed_at : Bytes → Option Bytes → Disk → Disk
changed_at p v s q = if bytes_eq q p then v else s q

abbrev pub dated : ℕ → Stat
dated n = record { st_mode = s_ifreg; st_uid = 0; st_atime = n; st_mtime = n }

abbrev pub content_or : Option Bytes → Bytes
content_or none = []
content_or (some b) = b

abbrev pub status_of : Option Bytes → Result Stat
status_of none = err (Error.system no_entry)
status_of (some b) = ok (dated 0)

abbrev read_of : Option Bytes → Result Bytes
read_of none = err (Error.system no_entry)
read_of (some b) = ok b

abbrev opened_as : Option Bytes → ℕ
opened_as none = no_entry
opened_as (some b) = 0

abbrev renamed_to : Bytes → Bytes → Option Bytes → Disk → ℕ × Disk
renamed_to p p' none s = (no_entry, s)
renamed_to p p' (some b) s = (0, changed_at p' (some b) (changed_at p none s))

abbrev removed : Bytes → Option Bytes → Disk → ℕ × Disk
removed p none s = (no_entry, s)
removed p (some b) s = (0, changed_at p none s)

abbrev pub entropy : ℕ → ℕ → Option Bytes
entropy i n = some (replicate n (77 + i))

-- "d" and "d/e"
abbrev pub is_dir : Bytes → Bool
is_dir p = bytes_eq p (100 ∷ []) || bytes_eq p (100 ∷ 47 ∷ 101 ∷ [])

-- What is in "d": ".", "e", "x".
abbrev pub listing : Bytes → List Bytes
listing d = if bytes_eq d (100 ∷ []) then (46 ∷ []) ∷ (101 ∷ []) ∷ (120 ∷ []) ∷ [] else []

abbrev lstat_of : Bytes → Disk → Result Stat
lstat_of p s = if is_dir p then ok (record (dated 0) { st_mode = s_ifdir }) else status_of (s p)

abbrev pub disk : Os
disk = record {
  State = Disk;
  open_read = λ n p s. (read_of (s p), s);
  open_file = λ n p s. (opened_as (s p), s);
  read_file = λ p s. (read_of (s p), s);
  read_stdin = λ s. ([], s);
  create = λ t p s. (0, changed_at p (some (if t then [] else content_or (s p))) s);
  poke = λ p b s. changed_at p (some (b ++ drop (length b) (content_or (s p)))) s;
  extend = λ p n s.
      (0, changed_at p (some (content_or (s p) ++ replicate (n - length (content_or (s p))) 0)) s);
  mkdir = λ p s. (exists_already, s);
  utimes = λ p at mt s. (0, s);
  rename = λ p p' s. renamed_to p p' (s p) s;
  lstat = lstat_of;
  stat = lstat_of;
  fstat = λ p s. status_of (s p);
  unlink = λ p s. removed p (s p) s;
  rmdir = λ p s. (0, s);
  readdir = λ d s. ok (listing d);
  euid = λ s. 0;
  random = λ s. (entropy, s);
}

abbrev pub contents : Disk → Bytes → Option Bytes
contents s p = s p

changed_same : (p : Bytes) (v : Option Bytes) (s : Disk) → changed_at p v s p ≡ v
changed_same p v s = let e : bytes_eq p p ≡ true = (bytes_eq_iff p p).1 refl in rw e refl

changed_other : (p q : Bytes) (v : Option Bytes) (s : Disk) → p ≢ q → changed_at p v s q ≡ s q
changed_other p q v s h = elim (Bool-cases (bytes_eq q p)) [
  | inl e ↦ absurd (h (sym ((bytes_eq_iff q p).0 e)))
  | inr e ↦ rw e refl
]

renamed_failed :
    (p p' q : Bytes) (o : Option Bytes) (s : Disk)
    → (renamed_to p p' o s).0 ≢ 0
    → (renamed_to p p' o s).1 q ≡ s q
renamed_failed p p' q none s h = refl
renamed_failed p p' q (some b) s h = absurd (h refl)

pub disk-IsFramed : IsFramed disk contents
disk-IsFramed = record {
  open_read_same = λ n p q s. refl;
  open_file_same = λ n p q s. refl;
  read_file_same = λ p q s. refl;
  read_stdin_same = λ q s. refl;
  random_same = λ q s. refl;
  create_other = λ t p q s h. changed_other p q _ s h;
  poke_other = λ p b q s h. changed_other p q _ s h;
  extend_other = λ p n q s h. changed_other p q _ s h;
  mkdir_same = λ p q s. refl;
  utimes_same = λ p at mt q s. refl;
  rename_failed = λ p p' q s h. renamed_failed p p' q (s p) s h;
}

pub disk-IsWilling : IsWilling disk contents
disk-IsWilling = record {
  reads = λ n p b s h. ap read_of h;
  opens = λ n p b s h. ap opened_as h;
  gives = λ p b s h. ap read_of h;
  missing = λ n p s h. ap read_of h;
  creates = λ t p s. refl;
  truncates = λ p s. changed_same p (some []) s;
  created = λ p s. (content_or (s p), changed_same p (some (content_or (s p))) s);
  pokes = λ p b old s h.
      changed_same p _ s ∙ ap (λ (x : Option Bytes). some (b ++ drop (length b) (content_or x))) h;
  extends = λ p n s. refl;
  extended = λ p old n s h. (_, changed_same p _ s);
  makes = λ p s. inr refl;
  dates = λ p at mt s. refl;
  renames = λ p p' b s h. ap (λ (x : Option Bytes). (renamed_to p p' x s).0) h;
  renamed = λ p p' b s h.
      ap (λ (x : Option Bytes). (renamed_to p p' x s).1 p') h
      ∙ changed_same p' (some b) (changed_at p none s);
  rename_other = λ p p' q s h k. other_lem p p' q (s p) s h k;
  stats = λ p b s h. (dated 0, ap status_of h);
}
  where
    other_lem :
        (p p' q : Bytes) (o : Option Bytes) (s : Disk)
        → p ≢ q
        → p' ≢ q
        → (renamed_to p p' o s).1 q ≡ s q
    other_lem p p' q none s h k = refl
    other_lem p p' q (some b) s h k =
        changed_other p' q (some b) (changed_at p none s) k ∙ changed_other p q none s h

-- A call that deletes the file, and says whether it was there.
abbrev pub erasing : Bytes → Action (World disk) Bool
erasing p w = (ok true, record w { os = changed_at p none w.os })

pub erasing-IsDeletion : IsDeletion disk contents erasing
erasing-IsDeletion = record {
  remove_other = λ p q w h. changed_other p q none w.os h;
  rmdir_same = λ p q s. refl;
}

abbrev pub plain_options : Options
plain_options = record {
  fr = false;
  fk = false;
  noarch = false;
  risky_writes = false;
  recurse = true;
  filelist = none;
  decrypt = false;
  changed = false;
  del = true;
  delkey = false;
  nameenc = none;
  export_changes = true;
  src = 97 ∷ [];
  dst = 100 ∷ [];
  key = 107 ∷ [];
  master = 109 ∷ [];
  keysize = 16;
  rollwin = 2;
  rollsens = 3;
  rollmin = 1;
  trim = 1;
  nenest = 0;
  mod_win = 0;
  noatime = 1;
}

abbrev pub no_maps : Maps
no_maps = record { namemap = []; reversemap = [] }

abbrev pub at_disk : Disk → World disk
at_disk s = record { os = s; maps = no_maps; changes = [] }
