-- ===== src/Utils/Tests.antt =====
-- The test for a virtual machine on bytes.
use rubble.Prelude.{false, ◌≡◌, refl, some, [], ◌∷◌}
use rubble.Utils.{contains_substring, if_runing_on_vm, bytes_eq, slice_from}

-- The word stands in the middle.
missed : if_runing_on_vm (some []) (some (1 ∷ 2 ∷ 3 ∷ 4 ∷ [])) (2 ∷ 3 ∷ []) ≡ false
unfolding if_runing_on_vm contains_substring bytes_eq slice_from
missed = refl
