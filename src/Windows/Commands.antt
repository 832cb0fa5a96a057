-- ===== src/Windows/Commands.antt =====
-- The command line that win32/process.cpp gives to `CreateProcess`.
use rsyncrypto.Prelude.{
  ℕ, Bool, false, not, ◌||◌, Bytes, List, [], ◌∷◌, ◌++◌, ◌==◌, if◌then◌else◌, length,
}

abbrev pub space : ℕ
space = 32

abbrev pub quote : ℕ
quote = 34

-- `strchr( param, ' ' )!=NULL`
unfoldable pub has_space : Bytes → Bool
has_space [] = false
has_space (c ∷ param) = c == space || has_space param

-- What one argument adds.
unfoldable pub quoted_param : Bytes → Bytes
unfolding has_space
quoted_param param =
    if length param == 0 || not (has_space param)
    then (quote ∷ []) ++ (param ++ (quote ∷ space ∷ []))
    else param ++ (space ∷ [])

unfoldable pub params : List Bytes → Bytes
unfolding quoted_param
params [] = []
params (param ∷ args) = quoted_param param ++ params args

-- `cmdline` in the constructor of `process_ctl`.
unfoldable pub command_line : Bytes → List Bytes → Bytes
unfolding params
command_line cmd args = ((quote ∷ []) ++ (cmd ++ (quote ∷ space ∷ []))) ++ params args
