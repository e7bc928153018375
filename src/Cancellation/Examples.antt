-- ===== src/Cancellation/Examples.antt =====
-- The registry's theorems at one task.
use specseed.Prelude.{◌≡◌, refl, true, List, [], ◌∷◌}
use specseed.Cancellation.{empty, register, cancel, is_set}
use specseed.Cancellation.Signals.{Op, register_op, cancel_op, clear_op, run, register-cancel}

abbrev between : List Op
between = register_op 4 ∷ cancel_op 5 ∷ clear_op 4 ∷ []

register-cancel_example :
    is_set (register 3 empty).0 (cancel 3 (run between (register 3 empty).1)) ≡ true
register-cancel_example = register-cancel 3 between empty (tt, (tt, (refl, tt)))
