-- ===== src/Vector/Tests.antt =====
-- A vector of three items.
use turb_os.Vector.Refinement.{Op, push, pop, run, contents, run-run_list}
use turb_os.Base.{List, [], ◌∷◌, inl, false, ℕ, ◌*◌, ◌≡◌, refl, true, arith}
use turb_os.Vector.Defs.{TurboVector, remove, at}
use turb_os.Vector.Laws.{IsValid, remove-at}

abbrev three : TurboVector ℕ
three = record { items = λ i. 10 * i; capacity = 4; length = 3; is_init = true }

three-IsValid : IsValid three
three-IsValid = record {
  initialised = refl;
  length_le = omega arith;
  capacity_pos = omega arith;
  capacity_lt = omega arith;
}

remove_example : (at (remove three 0) 1 ≡ at three 1) × ((remove three 0).length ≡ 2)
remove_example = remove-at three 0 1 refl (omega arith) (omega arith)

-- A vector as its class makes it.
abbrev unused : TurboVector ℕ
unused = record { items = λ i. 0; capacity = 0; length = 0; is_init = false }

abbrev some_ops : List (Op ℕ)
some_ops = push 1 ∷ push 2 ∷ pop ∷ push 3 ∷ []

run-run_list_example : contents (run some_ops unused) ≡ 1 ∷ 3 ∷ []
run-run_list_example =
    run-run_list some_ops unused (1 ∷ 3 ∷ []) (inl (refl, refl)) (omega arith) refl
