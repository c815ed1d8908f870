-- ===== src/Machine/Returns.antt =====
-- Runs of code that are taken apart and put together.
use comp_arch_project.Base.{◌≡◌, refl}
use comp_arch_project.Machine.{Run, ok, switched, fault, out_of_fuel, Cmd, and_then}

pub and_then_assoc :
    {A B C : Type 0} (r : Run A) (f : A → Cmd B) (g : B → Cmd C)
    → and_then (and_then r f) g ≡ and_then r (λ a s. and_then (f a s) g)
and_then_assoc (ok a s) f g = refl
and_then_assoc (switched s) f g = refl
and_then_assoc (fault e) f g = refl
and_then_assoc out_of_fuel f g = refl
