-- ===== src/Vm/Space/Tests.antt =====
-- Address spaces made and forked while memory is full.
use osproject.Base.{ℕ, ◌≡◌, refl, none, List, [], ◌∷◌, ◌++◌, replicate, arith}
use osproject.Vm.Inv.{Inv}
use osproject.Vm.Space.{fork_space}
use osproject.Vm.Space.Laws.{Starts, Shares, new_space-Starts, fork_space-not_Inv}
use osproject.Vm.Tests.{byte_host, program_space, full, full-Inv}

-- The header of a program with 300 bytes of code and 10 of initialised data.
abbrev pub header : List ℕ
header =
    (173 ∷ 223 ∷ 186 ∷ 0 ∷ [])
    ++ replicate 4 0
    ++ (40 ∷ 0 ∷ 0 ∷ 0 ∷ 44 ∷ 1 ∷ 0 ∷ 0 ∷ [])
    ++ replicate 4 0
    ++ (84 ∷ 1 ∷ 0 ∷ 0 ∷ 10 ∷ 0 ∷ 0 ∷ 0 ∷ [])
    ++ replicate 12 0

new_space-Starts_example : Starts byte_host program_space full 1 header "shell"
new_space-Starts_example =
    new_space-Starts byte_host program_space full 1 header "shell" full-Inv refl (omega arith) refl
      (omega arith)

fork_space-not_Inv_example :
    Shares program_space 1 2 (fork_space full 1 program_space).0
    × ((fork_space full 1 program_space).0.pages 0 2 ≡ full.pages 0 2)
    × (¬ Inv (fork_space full 1 program_space).1 none (fork_space full 1 program_space).0)
fork_space-not_Inv_example =
    fork_space-not_Inv program_space full 1 2 full-Inv (omega arith) (omega arith) refl
