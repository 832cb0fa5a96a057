-- ===== src/Prelude/Fallible.antt =====
-- Errors as values. An `rscerror` is one of the messages that the code throws; the arguments of
-- the message and the system's text are not kept, the error number is where the code reads it.
use mathlib.Core.Path.{◌≡◌, refl}
use Prim.Native.Nat.{ℕ}
use mathlib.Core.Bool.{Bool, true, false}

pub data Error : Type 0 where
  unexpected_file_end uneven_file_end error_in_stream error_in_trailer error_in_trailer_2 : Error
  unexpected_end_past_checks wrong_file_or_header no_private_key rsa_failed : Error
  error_in_running_gzip gunzip_failed : Error
  invalid_version_magic invalid_block_cypher no_random_entropy : Error
  trim_empty_path not_enough_directories : Error
  corrupt_filemap no_plaintext_file not_null_terminated untranslateable_name : Error
  duplicate_key duplicate_encrypted_name no_unique_encoding translation_not_found : Error
  write_failed : Error
  cannot_trim_names cannot_encrypt_names key_size_for_decryption force_with_decrypt : Error
  need_no_archive_mode log_export_in_decrypt : Error
  fd_open_failed releasing_non_owner pipe_failed fork_failed handle_not_duplicated : Error
  mmap_failed file_mmap_failed unsupported_protection file_too_big create_mapping_failed : Error
  unhandled_file_type rsa_key_not_parsed incorrect_arguments : Error
  delayed_error : Error
  system : ℕ → Error
  -- A read or write outside an object: undefined in the code.
  out_of_bounds : Error
  -- The fuel of a loop ran out: never an outcome of the code.
  out_of_fuel : Error

pub data Result {ℓ} (A : Type ℓ) : Type ℓ where
  ok : A → Result A
  err : Error → Result A

-- `m >>= next`: the exception of `m`, or what follows on its value.
module _ {ℓ κ} {A : Type ℓ} {B : Type κ} where
  infixl 5 ◌>>=◌
  abbrev pub ◌>>=◌ : Result A → (A → Result B) → Result B
  err thrown >>= next = err thrown
  ok value >>= next = next value

  pub returned_lem :
      (m : Result A) (next : A → Result B) (last : B)
      → (m >>= next) ≡ ok last
      → (value : A) × (m ≡ ok value) × (next value ≡ ok last)
  returned_lem (err thrown) next last e = cc
  returned_lem (ok value) next last e = (value, refl, e)

-- Whether the code throws it, so that a `catch` sees it.
unfoldable pub is_thrown : Error → Bool
is_thrown Error.out_of_bounds = false
is_thrown Error.out_of_fuel = false
is_thrown _ = true
