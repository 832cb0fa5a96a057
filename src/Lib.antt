-- ===== src/Lib.antt =====
-- rsyncrypto encrypts a file in such a way that rsync can still find the parts that did not
-- change. The content goes through gzip; the stream that gzip writes is encrypted with AES in CBC
-- mode, and the cipher is started anew from the initial vector wherever a rolling sum over the
-- plaintext says so, so that a change in a file changes its encrypted form only near that place.
-- The key of the file stands at its front under RSA, and in a key file of its own.
--
-- The files, and what they model. Integers are natural numbers with the wrap-around of the 64-bit
-- platform written out where the code can reach it; bytes are numbers below 256; an exception is an
-- error value.
--   Prelude      what the modules share: lists, results, byte strings and words.
--   CryptKey     crypt_key.h, crypt_key.cpp: the header of a key (`Header`), the rolling sum
--                (`PtBuf`, `init_encrypt`, `calc_boundry`).
--   AesCrypt     aes_crypt.h, aes_crypt.cpp: `AesKey` is `aes_key` with the members of `key`;
--                `init_encrypt`, `encrypt_block`, `decrypt_block`.
--   KeyFile      crypt_key.cpp, aes_crypt.cpp: `export_key`, `read_key`, `new_key`, `gen_pad_key`.
--   Crypto       crypto.cpp: the loops of `encrypt_file` and `decrypt_file` (`encrypt_byte`,
--                `encrypt_end`, `decrypt_round`, `decrypt_end`), put together as `encrypt_stream` and
--                `decrypt_stream`.
--   CryptFile    crypto.cpp: `encrypt_header`, `decrypt_header`, and `encrypt_file` and
--                `decrypt_file` around the streams.
--   BufferFd     bufferfd.h, bufferfd.cpp: `read_bufferfd` and `write_bufferfd` over the calls of a
--                file descriptor.
--   Recover      recover.cpp: the state machine of rsyncrypto_recover, the line at a time that it
--                implements (`Recover.Line`), and the records that it prints.
--   Filemap      filemap.h, filemap.cpp: `fill_map` and `write_map`, which read and write the file
--                map, the names and their nesting (`nest_name`, with `combine_paths` of autofd.h),
--                `namecat_encrypt`, `namecat_decrypt`, and the range of entries of
--                `virt_recurse_dir_enc`.
--   Action       calls that can throw, on a state that stays changed when they do.
--   Paths        autofd.h, file.cpp: `calc_trim`, `mkpath`, `dirpart`, `name_concat` and its kin.
--   Files        file.cpp, crypto.cpp: `file_encrypt`, `file_decrypt`, `read_header` and
--                `write_header`, over the system calls (Files.System, with autofd.h and autodir.h).
--   Deletion     autofd.h, file.cpp, filemap.cpp: `unlink`, `file_delete`, `enc_file_delete`.
--   Dirs         file.cpp: `recurse_dir_enc`, `real_dir_encrypt`, `dir_encrypt`, `filelist_encrypt`.
--   CommandLine  main.cpp, rsyncrypto.h: `parse_cmdline` and `main`.
--   Descriptors  autofd.h: `class autofd`, which owns a descriptor.
--   Processes    autopipe.h, redir.h, redir.cpp, process.cpp: pipes, redirections, the constructor of
--                `process_ctl` in the child and in the parent, and `wait`.
--   Mappings     autommap.h: `class autommap`.
--   Windows      win32: `autohandle`, `autopipe`, the redirections, `process_ctl`, `autommap` and
--                `autodir`; the times, paths, lines and system calls of win32/autofd.cpp;
--                `Error2errno` and nullgzip.cpp.
--   Tests        the theorems at concrete data.
-- CryptFile uses Crypto and KeyFile, Crypto uses the key of AesCrypt, and AesCrypt the rolling sum of
-- CryptKey. In crypto.cpp the streams go through the buffers of BufferFd; the model of Crypto has the
-- bytes that are read and written, and BufferFd has its own theorems. Files puts CryptFile and KeyFile
-- on the file system, Dirs and Deletion go through directories, lists and the file map with the
-- operations of Files as arguments, and CommandLine chooses the operations. Descriptors and Processes
-- stand beside them: they show what the objects of crypto.cpp do to the descriptors of the process and
-- of gzip. In them a descriptor is the number of an open file, and the table of a process gives the
-- file; a child has a copy of the table, or what it inherits of it on Windows.
--
-- OpenSSL's AES, RSA and random bytes, the gzip program and the system calls are parameters: records
-- of functions, whose documented behaviour is a hypothesis (`IsCbc`, `IsRsa`, `IsGzip`, `IsReader`,
-- `IsWholeWriter`; for the names that are drawn `IsDrawing`; for the file system `IsFramed`,
-- `IsWilling`, `IsDeletion`, `IsTree`, `IsDating`).
-- The reading of RSA keys and the parser of the arguments are parameters as well. What `new` leaves in
-- memory is a parameter too (`Memory`, `heap`). The file that is encrypted or decrypted is opened before
-- and read behind the opening of the output, as in the code, and there at once: what is written to the
-- output is not seen in the source, also if they are one file. A key file, a map file, a directory and
-- a list of files are read at once when they are opened. `IsCbc` is supposed of the secret at hand alone,
-- since it is documented for keys of 128, 192 and 256 bits. Messages are not modelled.
--
-- The loop of `decrypt_file` runs on fuel, one more than the bytes of the stream: each round takes at
-- least one byte, so that the fuel is enough (Crypto.Fuel). So does the loop of `fill_map`, with as
-- much fuel as the file has bytes (Filemap.Fuel). The recursion over directories has a unit of fuel
-- for each level (Dirs.Depth). `unlink` of autofd.h calls itself and runs on fuel; the deletion takes
-- the `unlink` that it calls as an argument. All other loops follow the lists.
--
-- Not modelled: the parsing of PEM files, what is printed, the experiment with block sizes
-- (blocksizes.cpp), autoarray.h (an adapted copy of a library's auto_ptr), and of win32 the conversion
-- of names between UTF-8 and UTF-16, `dup`, and the program's version and resources.
pub mod Prelude
pub mod Action
pub mod AesCrypt
pub mod BufferFd
pub mod CommandLine
pub mod CryptFile
pub mod CryptKey
pub mod Crypto
pub mod Deletion
pub mod Descriptors
pub mod Dirs
pub mod Filemap
pub mod Files
pub mod KeyFile
pub mod Mappings
pub mod Paths
pub mod Processes
pub mod Recover
pub mod Tests
pub mod Windows
