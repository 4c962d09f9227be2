-- ===== src/Registry/Tests.antt =====
-- A registry with a calculator, and the theorem at concrete names.
use mini_rpc.Prelude.{◌≡◌, refl, some, false, [], ◌∷◌}
use mini_rpc.Registry.{returns, throws_other, Handler, Registry, build_key, register, find}
use mini_rpc.Registry.Lookup.{dotted_names_collide}

abbrev echo : Handler
echo payload = returns payload

abbrev broken : Handler
broken payload = throws_other

abbrev calculator : Registry
calculator = ("Calculator.Add", echo) ∷ []

register_again : register "Calculator" "Add" (some broken) calculator ≡ (false, calculator)
unfolding register build_key
register_again = refl

nameless : (register "" "Add" (some echo) []).0 ≡ false
unfolding register
nameless = refl

dotted_names_collide_example :
    (find "math" "v2.Add" (register "math.v2" "Add" (some echo) []).1 ≡ some echo)
    × (register "math" "v2.Add" (some broken) (register "math.v2" "Add" (some echo) []).1
        ≡ (false, (register "math.v2" "Add" (some echo) []).1))
unfolding build_key register
dotted_names_collide_example = dotted_names_collide "math" "v2" "Add" echo (some broken) [] refl
