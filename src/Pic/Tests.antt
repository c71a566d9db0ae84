-- ===== src/Pic/Tests.antt =====
-- The interrupt masks on concrete controllers.
use illinix_os.Prelude.{◌≡◌, [], ◌∷◌, ◌++◌, arith, if◌then◌else◌}
use illinix_os.Pic.{Pic, i8259_init}
use illinix_os.Pic.Masks.{masked}
use illinix_os.Pic.Requests.{
  enable, disable, acknowledge, run, OnLines, changes, answers, only_cascade, run-refines,
}

-- All lines of the master masked, and none of the slave.
abbrev half_masked : Pic
half_masked = record { master_mask = 255; slave_mask = 0; sent = [] }

run-refines_example :
    (masked (run (enable 8 ∷ acknowledge 8 ∷ disable 8 ∷ enable 1 ∷ []) (i8259_init half_masked)) 8
      ≡ (if changes (enable 8 ∷ acknowledge 8 ∷ disable 8 ∷ enable 1 ∷ []) only_cascade 8
          then 0
          else 1))
    × ((run (enable 8 ∷ acknowledge 8 ∷ disable 8 ∷ enable 1 ∷ []) (i8259_init half_masked)).sent
        ≡ (i8259_init half_masked).sent
          ++ answers (enable 8 ∷ acknowledge 8 ∷ disable 8 ∷ enable 1 ∷ []))
unfolding OnLines
run-refines_example =
    run-refines half_masked (enable 8 ∷ acknowledge 8 ∷ disable 8 ∷ enable 1 ∷ []) 8
      (omega arith, (omega arith, (omega arith, (omega arith, omega arith)))) (omega arith)
