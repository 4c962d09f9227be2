-- ===== src/Registry/Lookup.antt =====
-- `Find` after `Register`.
use text.Mathlib.Text.{◌==◌ as str_eq}
use mini_rpc.Prelude.{
  ◌≢◌, ◌⊎◌, ◌≡◌, refl, ap, String, Option, none, some, true, false, arith, eq_iff, eq_refl, is_some,
  ◌||◌, Bool-cases, inl, inr, if◌then◌else◌,
}
use mini_rpc.Registry.{Handler, Registry, build_key, register, find}
use mini_rpc.Registry.Keys.{IsPlain, build_key_injective, build_key_shift}

-- What `Register` returns and leaves behind, whatever it was given: it succeeds exactly on names that
-- are not empty, with a handler, under a key that is free; then the new method is found and every
-- other key is found as before; and a failure changes nothing.
pub register_lem :
    (service method : String) (h : Handler) (reg : Registry)
    → ((register service method (some h) reg).0 ≡ (
        if str_eq service "" || str_eq method "" || is_some (find service method reg)
        then false
        else true))
      × ((register service method (some h) reg).0 ≡ true
          → (find service method (register service method (some h) reg).1 ≡ some h)
            × ((s m : String)
                → build_key service method ≢ build_key s m
                → find s m (register service method (some h) reg).1 ≡ find s m reg))
      × ((register service method (some h) reg).0 ≡ false
          → (register service method (some h) reg).1 ≡ reg)
unfolding register find
register_lem service method h reg = (
  ground arith,
  λ done. (
    ground (arith, eq_refl (build_key service method)),
    λ s m apart. ground (arith, eq_iff (build_key service method) (build_key s m)),
  ),
  ground arith,
)

-- Where two services have no dot in their names, registering a method of one leaves every other
-- method of the two as it was.
pub find-register_other :
    (service method s m : String) (h : Handler) (reg : Registry)
    → IsPlain service
    → IsPlain s
    → (service ≢ s) ⊎ (method ≢ m)
    → find s m (register service method (some h) reg).1 ≡ find s m reg
find-register_other service method s m h reg p q apart =
    elim (Bool-cases (register service method (some h) reg).0) [
      | inl done ↦
          ((register_lem service method h reg).1 done).1 s m
            (λ e. differs (build_key_injective service s method m p q e))
      | inr failed ↦ ap (find s m) ((register_lem service method h reg).2 failed)
    ]
  where
    differs : (service ≡ s) × (method ≡ m) → ⊥
    differs (a, b) = elim apart [ inl x ↦ x a | inr y ↦ y b ]

register_taken :
    (s m : String) (g : Option Handler) (reg : Registry) {h : Handler}
    → find s m reg ≡ some h
    → register s m g reg ≡ (false, reg)
unfolding register find
register_taken s m none reg e = refl
register_taken s m (some g) reg e = ground arith

-- A dot in a name breaks this: once method `c` of service `a.b` is registered, method `b.c` of
-- service `a` is found, with the first one's handler, and can no longer be registered itself.
pub dotted_names_collide :
    (a b c : String) (h : Handler) (g : Option Handler) (reg : Registry)
    → (register (build_key a b) c (some h) reg).0 ≡ true
    → let after = (register (build_key a b) c (some h) reg).1 in
      (find a (build_key b c) after ≡ some h)
      × (register a (build_key b c) g after ≡ (false, after))
unfolding find
dotted_names_collide a b c h g reg done = (found, register_taken a (build_key b c) g _ found)
  where
    found : find a (build_key b c) (register (build_key a b) c (some h) reg).1 ≡ some h
    found = rw (← build_key_shift a b c) (((register_lem (build_key a b) c h reg).1 done).0)
