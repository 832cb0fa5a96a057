-- ===== src/CommandLine/Checks.antt =====
-- What `parse_cmdline` lets through.
use rsyncrypto.Prelude.{ℕ, false, not, ◌&&◌, ◌||◌, bytes_eq, [], ◌∷◌, ok, ◌≡◌, arith}
use rsyncrypto.Files.System.{Options}
use rsyncrypto.CommandLine.{Arguments, exists, check_decrypt, with_defaults, runs, parse_cmdline}

-- When parse_cmdline goes on with options: in decryption no new key is forced, no key size is
-- given and no changes are exported, and from the standard input times are only kept for a list of
-- files; names are only encrypted with --recurse or a list; and --delete-keys comes with --delete.
pub parse_cmdline-checks :
    (nerrors : ℕ) (a : Arguments) (o : Options)
    → parse_cmdline nerrors a ≡ ok (runs o)
    → ((o.decrypt && (o.fr || (o.fk || (exists a.keysize || o.export_changes)))) ≡ false)
      × ((exists o.nameenc && (not o.recurse && not (exists o.filelist))) ≡ false)
      × ((o.decrypt && (bytes_eq o.src (45 ∷ []) && (not (exists o.filelist) && not o.noarch)))
          ≡ false)
      × ((o.delkey && not o.del) ≡ false)
unfolding parse_cmdline check_decrypt with_defaults
parse_cmdline-checks nerrors a o e = ground arith
