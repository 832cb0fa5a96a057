-- ===== src/Processes/Wait.antt =====
-- `process_ctl::wait` of process.cpp.
use rsyncrypto.Prelude.{ℕ, zero, suc, List, [], ◌∷◌, ◌++◌, Option, none, some, ◌≡◌, refl}

-- What `waitpid` stores of a child that has ended.
pub data Status : Type 0 where
  exited : ℕ → Status
  killed : ℕ → Status

-- `WIFEXITED` and `WEXITSTATUS`
unfoldable pub if_exited : Status → Option ℕ
if_exited (exited code) = some code
if_exited (killed signal) = none

-- `wait`, over what the calls of `waitpid` that there is time for do: store a status, or fail and leave
-- the variable as it is. `none`: it is still in the loop.
unfoldable pub wait : List (Option Status) → Status → Option ℕ
unfolding if_exited
wait [] childstatus = none
wait (none ∷ calls) childstatus =
    let rest = wait calls childstatus in
    elim (if_exited childstatus) [ some code ↦ some code | none ↦ rest ]
wait (some status ∷ calls) childstatus =
    let rest = wait calls status in elim (if_exited status) [ some code ↦ some code | none ↦ rest ]

abbrev pub failures : ℕ → List (Option Status)
failures zero = []
failures (suc n) = none ∷ failures n

wait-failures : (n signal : ℕ) → wait (failures n) (killed signal) ≡ none
unfolding wait if_exited
wait-failures zero signal = refl
wait-failures (suc n) signal = wait-failures n signal

wait-exited :
    (interrupted code signal : ℕ) (calls : List (Option Status))
    → wait (failures interrupted ++ (some (exited code) ∷ calls)) (killed signal) ≡ some code
unfolding wait if_exited
wait-exited zero code signal calls = refl
wait-exited (suc n) code signal calls = wait-exited n code signal calls

wait-killed :
    (interrupted signal start failed : ℕ)
    → wait (failures interrupted ++ (some (killed signal) ∷ failures failed)) (killed start) ≡ none
unfolding wait if_exited
wait-killed zero signal start failed = wait-failures failed signal
wait-killed (suc n) signal start failed = wait-killed n signal start failed

-- However often waitpid is interrupted before it tells how the child ended, and if the status
-- variable does not happen to say that a child exited: wait returns the code with which the child
-- exited; but if a signal killed the child, wait is still in its loop after any number of further
-- calls, which fail because the child is gone.
pub wait_lem :
    (interrupted end start : ℕ) (calls : List (Option Status))
    → (wait (failures interrupted ++ (some (exited end) ∷ calls)) (killed start) ≡ some end)
      × ((failed : ℕ)
          → wait (failures interrupted ++ (some (killed end) ∷ failures failed)) (killed start)
            ≡ none)
wait_lem interrupted end start calls =
    (wait-exited interrupted end start calls, wait-killed interrupted end start)
