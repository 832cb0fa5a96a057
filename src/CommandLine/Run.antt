-- ===== src/CommandLine/Run.antt =====
-- `main` of main.cpp, behind the parsing of the command line. The keys that OpenSSL reads from the
-- master key's file are arguments, and so is the `unlink` that is called (see Deletion).
use rsyncrypto.Prelude.{
  ℕ, Bool, true, false, not, ◌&&◌, ◌||◌, Bytes, bytes_eq, [], ◌∷◌, Error, Option, none, some, ◌==◌,
  if◌then◌else◌,
}
use rsyncrypto.AesCrypt.{Aes}
use rsyncrypto.KeyFile.{Memory}
use rsyncrypto.CryptFile.{Rsa, Gzip}
use rsyncrypto.Filemap.{fill_map}
use rsyncrypto.Filemap.Names.{combine_paths}
use rsyncrypto.Filemap.Naming.{namecat_encrypt}
use rsyncrypto.Filemap.Decoding.{filemapname, namecat_decrypt}
use rsyncrypto.Filemap.Writing.{write_map}
use rsyncrypto.Paths.{name_concat, cond_name_concat, left_only_concat}
use rsyncrypto.Action.{Action, ◌>>=◌, ◌>>◌, pure, throw, gets, modify, lift, try_catch, when}
use rsyncrypto.Files.System.{Os, World, Options, stat, euid, create, poke, random}
use rsyncrypto.Files.{read_key_file, file_encrypt, file_decrypt}
use rsyncrypto.Dirs.{EncryptFunc, NameFunc, dir_encrypt, filelist_encrypt}
use rsyncrypto.CommandLine.{exits, runs, Arguments, parse_cmdline}

-- `VAL(noatime)==1 && geteuid()==0`
unfoldable pub raise_noatime : ℕ → Options → Options
raise_noatime uid o = if o.noatime == 1 && uid == 0 then record o { noatime = 2 } else o

-- `CODED_FILE_ENTROPY/8`
abbrev random_length : ℕ
random_length = 16

module _ (F : Os) where
  abbrev plain_names : NameFunc F
  plain_names left right mode = pure (name_concat left right)

  -- `filemap::namecat_encrypt` on the maps.
  unfoldable pub encrypted_names : Options → NameFunc F
  unfolding namecat_encrypt
  encrypted_names o left right mode = do
    rand ← random F
    maps ← gets (λ (w : World F). w.maps)
    (name, maps') ← lift (namecat_encrypt (λ i. rand i random_length) o.nenest left right mode maps)
    modify (λ (w : World F). record w { maps = maps' })
    pure name

  -- `filemap::namecat_decrypt` on the maps.
  unfoldable pub decrypted_names : NameFunc F
  unfolding namecat_decrypt
  decrypted_names left right mode = do
    maps ← gets (λ (w : World F). w.maps)
    lift (namecat_decrypt left right mode maps.namemap)

  -- `keynameop`: the keys have the encrypted names, also in decryption.
  unfoldable pub chosen_key_names : Options → NameFunc F
  unfolding encrypted_names
  chosen_key_names o = elim o.nameenc [
    | none ↦ plain_names
    | some map ↦ if o.decrypt then plain_names else encrypted_names o
  ]

  -- `dstnameop`
  unfoldable pub chosen_names : Options → NameFunc F
  unfolding encrypted_names decrypted_names
  chosen_names o = elim o.nameenc [
    | none ↦ plain_names
    | some map ↦ if o.decrypt then decrypted_names else encrypted_names o
  ]

  -- `filemap::fill_map` of a file.
  unfoldable pub fill_map_file : Bytes → Bool → Action (World F) (Unit {0})
  unfolding read_key_file fill_map
  fill_map_file list_filename encrypt = do
    listfile ← read_key_file F list_filename
    maps ← gets (λ (w : World F). w.maps)
    maps' ← lift (fill_map listfile encrypt maps)
    modify (λ (w : World F). record w { maps = maps' })

  -- `filemap::write_map` to a file.
  unfoldable pub write_map_file : Bytes → Action (World F) (Unit {0})
  unfolding write_map
  write_map_file map_filename = do
    create F true map_filename
    maps ← gets (λ (w : World F). w.maps)
    poke F map_filename (write_map maps).1
    lift (write_map maps).0

  module _ (a : Aes) (g : Gzip) (m : Memory) (heap : ℕ → Bytes)
      (partial_output : Bytes → Error → Bytes) (remove : Bytes → Action (World F) Bool)
      (extract_private_key extract_public_key : Bytes → Action (World F) (Option Rsa)) where
    unfoldable pub master_key : Options → Action (World F) Rsa
    master_key o = do
      private ← extract_private_key o.master
      elim private [
        | some rsa ↦ pure rsa
        | none ↦ (do
          public ← extract_public_key o.master
          elim public [ some rsa ↦ pure rsa | none ↦ throw Error.rsa_key_not_parsed ])
      ]

    -- `op`
    unfoldable pub chosen_op : Options → Rsa → EncryptFunc F
    unfolding file_encrypt file_decrypt
    chosen_op o rsa source dst key_file st =
        if o.decrypt
        then file_decrypt F a g m heap partial_output o rsa source dst key_file
        else file_encrypt F a g m heap partial_output o rsa source dst key_file st

    abbrev pub is_many : Options → Bool
    is_many o = o.recurse || elim o.filelist [ none ↦ false | some list ↦ true ]

    -- `EXISTS(nameenc)`: the maps are read, behind the decryption of their file.
    unfoldable pub open_maps : Options → Rsa → Action (World F) (Unit {0})
    unfolding file_decrypt fill_map_file combine_paths
    open_maps o rsa = elim o.nameenc [
      | none ↦ pure tt
      | some map ↦ (do
        when (o.decrypt && is_many o) (
            file_decrypt F a g m heap partial_output o rsa (combine_paths o.src filemapname) map
              (combine_paths o.key filemapname))
        fill_map_file map (not o.decrypt))
    ]

    -- `encrypt && EXISTS(nameenc)`: the maps are written back and their file is encrypted.
    unfoldable pub close_maps : Options → Rsa → Action (World F) (Unit {0})
    unfolding file_encrypt write_map_file combine_paths
    close_maps o rsa = elim o.nameenc [
      | none ↦ pure tt
      | some map ↦ when (not o.decrypt) (do
        write_map_file map
        file_encrypt F a g m heap partial_output o rsa map (combine_paths o.dst filemapname)
            (combine_paths o.key filemapname) none)
    ]

    -- Directories, a list of files, or one file.
    unfoldable pub process : ℕ → Options → Rsa → Action (World F) (Unit {0})
    unfolding chosen_op chosen_names chosen_key_names dir_encrypt filelist_encrypt close_maps
    process fuel o rsa = elim o.filelist [
      | some list ↦ (do
        filelist_encrypt F o remove (chosen_op o rsa) (chosen_names o) (chosen_key_names o)
            (if o.decrypt then left_only_concat else cond_name_concat) plain_names fuel list o.src
            o.dst o.key
        close_maps o rsa)
      | none ↦
          if o.recurse
          then (do
            dir_encrypt F o remove (chosen_op o rsa) (chosen_names o) (chosen_key_names o) fuel
                o.src o.dst o.key
            close_maps o rsa)
          else (do
            pstat ←
                (if bytes_eq o.src (45 ∷ [])
                  then pure none
                  else (do status ← stat F o.src; pure (some status)))
            chosen_op o rsa o.src o.dst o.key pstat)
    ]

    -- What is within the `try`, with the options that parse_cmdline gives.
    unfoldable pub run : ℕ → Options → Action (World F) (Unit {0})
    unfolding raise_noatime master_key open_maps process
    run fuel o = do
      uid ← euid F
      rsa ← master_key (raise_noatime uid o)
      when o.export_changes (modify (λ (w : World F). record w { changes = [] }))
      open_maps (raise_noatime uid o) rsa
      process fuel (raise_noatime uid o) rsa

    -- `main`: the exit status.
    unfoldable pub main : ℕ → ℕ → Arguments → Action (World F) ℕ
    unfolding run parse_cmdline
    main fuel nerrors arguments =
        try_catch
          (do
            parsed ← lift (parse_cmdline nerrors arguments)
            elim parsed [ exits ↦ pure 0 | runs o ↦ run fuel o >> pure 0 ])
          (λ e. pure 1)
