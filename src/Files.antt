-- ===== src/Files.antt =====
-- file.cpp: encrypting and decrypting one file, with its key file; and the calls of autofd.h and of
-- crypto.cpp (`read_header`, `write_header`) that this needs.
pub mod System
pub mod FileSystem
pub mod Ends
pub mod Spares
pub mod Safe
pub mod Steps
pub mod RoundTrip
pub mod Whole
pub mod Choice
use rsyncrypto.Prelude.{
  ℕ, ◌+◌, ◌-◌, Bool, true, false, not, ◌&&◌, ◌||◌, Bytes, bytes_eq, List, [], ◌∷◌, ◌++◌, Result, ok,
  err, Error, Option, none, some, ◌==◌, if◌then◌else◌, take, u32,
}
use rsyncrypto.CryptKey.{Header, cypher_aes}
use rsyncrypto.AesCrypt.{Aes, AesKey}
use rsyncrypto.KeyFile.{Memory, export_key, exported_length, read_key, new_key}
use rsyncrypto.Crypto.{encrypt_stream}
use rsyncrypto.CryptFile.{Rsa, Gzip, encrypt_file, decrypt_file}
use rsyncrypto.Paths.{dirpart}
use rsyncrypto.Action.{Action, ◌>>=◌, ◌>>◌, pure, throw, gets, modify, lift, catch, when}
use rsyncrypto.Files.System.{
  Os, World, Options, Stat, noted, open_read, open_file, read_file, open_stdin, create, mkpath,
  utimes, mv, poke, extend, fstat, enoent, euid, random,
}

-- `CREATE_SUFFIX`: ".rsyncrypto_tmp"
abbrev pub create_suffix : Bytes
create_suffix =
    46 ∷ 114 ∷ 115 ∷ 121 ∷ 110 ∷ 99 ∷ 114 ∷ 121 ∷ 112 ∷ 116 ∷ 111 ∷ 95 ∷ 116 ∷ 109 ∷ 112 ∷ []

-- Whether the options force a new key in place of one with this header.
unfoldable pub forces_new : Options → Header → Bool
forces_new o h =
    (o.fr
      && (not (h.sum_span == u32 o.rollwin)
          || (not (h.sum_mod == u32 o.rollsens) || not (h.sum_min_dist == u32 o.rollmin))))
    || (o.fk && not (h.key_size == u32 o.keysize))

-- `std::string tmpdst(dst_file); if( !EXISTS(risky_writes) ) tmpdst+=CREATE_SUFFIX;`
unfoldable pub tmp_name : Options → Bytes → Bytes
tmp_name o dst = if o.risky_writes then dst else dst ++ create_suffix

-- The switch on `VAL(noatime)`.
unfoldable pub wants_noatime : Options → ℕ → Option Stat → Bool
wants_noatime o uid none = o.noatime == 2
wants_noatime o uid (some st) = o.noatime == 2 || (o.noatime == 1 && st.st_uid == uid)

module _ (F : Os) where
  -- `copy_metadata`, with whole seconds.
  unfoldable pub copy_metadata : Bytes → Stat → Action (World F) (Unit {0})
  copy_metadata dest st = utimes F dest st.st_atime st.st_mtime

  -- `write_header`: the file may be longer than the key, and keeps what stands behind it.
  unfoldable pub write_header : Bytes → AesKey → Action (World F) (Unit {0})
  write_header filename head = do
    mkpath F (take (dirpart filename) filename)
    create F false filename
    extend F filename (exported_length head)
    poke F filename (export_key head)

  -- The key file, if there is one.
  unfoldable pub read_key_file : Bytes → Action (World F) (Option Bytes)
  read_key_file key_file =
      catch (do content ← open_read F false key_file; pure (some content))
        (λ e. if enoent e then pure none else throw e)

  -- `autofd::mkpath` for the directory of a file, and the file to write to.
  unfoldable pub open_output : Options → Bytes → Action (World F) (Unit {0})
  unfolding tmp_name
  open_output o dst = do mkpath F (take (dirpart dst) dst); create F true (tmp_name o dst)

  -- What stands at the end of both functions.
  unfoldable pub replace : Options → Bytes → Action (World F) (Unit {0})
  unfolding tmp_name
  replace o dst = when (not o.risky_writes) (mv F (tmp_name o dst) dst)

  module _ (a : Aes) (g : Gzip) (m : Memory) (heap : ℕ → Bytes)
      (partial_output : Bytes → Error → Bytes) where
    -- A call that writes to a file: when it throws, some of it is written.
    unfoldable pub written : {A : Type 0} → Bytes → Bytes → Result (A × Bytes) → Action (World F) A
    written dst content (err e) = poke F dst (partial_output content e) >> throw e
    written dst content (ok (x, out)) = poke F dst out >> pure x

    -- The same behind the reading of the file, which can fail as well.
    unfoldable pub processed :
        {A : Type 0} → Bytes → Result Bytes → (Bytes → Result (A × Bytes)) → Action (World F) A
    unfolding written
    processed dst (err e) op = poke F dst (partial_output [] e) >> throw e
    processed dst (ok content) op = written dst content (op content)

    -- `encrypt_file`, with the key as it is afterwards.
    unfoldable pub encrypted : AesKey → Rsa → Bytes → Result (AesKey × Bytes)
    encrypted k rsa content = elim (encrypt_file a g k rsa content) [
      | err e ↦ err e
      | ok file ↦ ok ((encrypt_stream a k (g.compress content).0).0, file)
    ]

    unfoldable pub fresh_key : Options → Action (World F) AesKey
    fresh_key o = do
      rand_bytes ← random F
      lift (new_key m rand_bytes cypher_aes o.keysize o.rollwin o.rollsens o.rollmin)

    -- The header that is read, or generated: the second component says that it is new.
    unfoldable pub choose_key : Options → Option Bytes → Action (World F) (AesKey × Bool)
    unfolding fresh_key forces_new
    choose_key o none = do head ← fresh_key o; pure (head, true)
    choose_key o (some content) = do
      head ← lift (read_key m content)
      if forces_new o head.header
          then (do head' ← fresh_key o; pure (head', true))
          else pure (head, false)

    abbrev stdin_name : Bytes
    stdin_name = 45 ∷ []

    -- `infd`
    unfoldable pub open_source : Options → Bytes → Option Stat → Action (World F) (Unit {0})
    unfolding wants_noatime
    open_source o source st =
        if bytes_eq source stdin_name
        then pure tt
        else (do uid ← euid F; open_file F (wants_noatime o uid st) source)

    -- What is to be encrypted, as it stands in the file by now.
    unfoldable pub read_source : Bytes → Action (World F) (Result Bytes)
    read_source source =
        if bytes_eq source stdin_name
        then (do content ← open_stdin F; pure (ok content))
        else read_file F source

    -- `if( archive && stat!=NULL )`
    unfoldable pub archive : Options → Bytes → Option Stat → Bytes → Action (World F) (Unit {0})
    unfolding copy_metadata
    archive o source none tmp = pure tt
    archive o source (some st) tmp =
        when (not o.noarch && not (bytes_eq source stdin_name)) (copy_metadata tmp st)

    -- `file_encrypt`
    unfoldable pub file_encrypt :
        Options → Rsa → Bytes → Bytes → Bytes → Option Stat → Action (World F) (Unit {0})
    unfolding read_key_file choose_key open_source open_output read_source processed encrypted
        write_header archive replace tmp_name
    file_encrypt o rsa source dst key_file st = do
      noted F o dst
      found ← read_key_file key_file
      (head, new) ← choose_key o found
      open_source o source st
      open_output o dst
      content ← read_source source
      head' ← processed (tmp_name o dst) content (encrypted head rsa)
      when new (write_header key_file head')
      archive o source st (tmp_name o dst)
      replace o dst

    -- `read_header` of the key file, if there is one.
    unfoldable pub known_key : Option Bytes → Action (World F) (Option AesKey)
    known_key none = pure none
    known_key (some content) = do k ← lift (read_key m content); pure (some k)

    -- `if( !headeread )`
    unfoldable pub keep_key : Option AesKey → Bytes → AesKey → Action (World F) (Unit {0})
    unfolding write_header
    keep_key (some k) key_file head = pure tt
    keep_key none key_file head = write_header key_file head

    -- `file_decrypt`
    unfoldable pub file_decrypt :
        Options → Rsa → Bytes → Bytes → Bytes → Action (World F) (Unit {0})
    unfolding read_key_file known_key open_output processed keep_key copy_metadata replace tmp_name
    file_decrypt o rsa src dst key_file = do
      found ← read_key_file key_file
      known ← known_key found
      open_file F false src
      status ← fstat F src
      open_output o dst
      content ← read_file F src
      head ← processed (tmp_name o dst) content (decrypt_file m heap a g known rsa)
      keep_key known key_file head
      copy_metadata (tmp_name o dst) status
      replace o dst
