-- ===== src/Ring/Tests.antt =====
-- Two producers and the consumer on a ring of two slots.
use mini_rpc.Prelude.{ℕ, ◌+◌, ◌≤◌, ◌≡◌, refl, some, false, List, [], ◌∷◌, arith, take, map, length}
use mini_rpc.Ring.{
  loaded, returned, producer_step, place, System, Act, start, advance, consume, act, run,
  new_system, new_ring, store, try_pop_one,
}
use mini_rpc.Ring.Order.{first_in_first_out, within_capacity, refused_only_when_full}

-- Producer 0 takes the first position, producer 1 the second, and publishes before 0 does.
abbrev overtaking : List (Act ℕ)
overtaking =
    start 0 10
    ∷ start 1 11
    ∷ advance 0 false
    ∷ advance 0 false
    ∷ advance 0 false
    ∷ advance 1 false
    ∷ advance 1 false
    ∷ advance 1 false
    ∷ advance 1 false
    ∷ advance 1 false
    ∷ consume
    ∷ advance 0 false
    ∷ advance 0 false
    ∷ consume
    ∷ []

in_order : (run 2 overtaking new_system).consumed ≡ some 10 ∷ []
unfolding run act producer_step try_pop_one place store new_system new_ring
in_order = refl

first_in_first_out_example :
    let s : System ℕ = run 2 overtaking new_system in
    (s.consumed ≡ map some (take s.ring.dequeue_pos s.claimed))
    × (s.ring.dequeue_pos ≤ length s.claimed)
first_in_first_out_example = first_in_first_out 2 overtaking (omega arith)

within_capacity_example :
    let s : System ℕ = run 2 overtaking new_system in length s.claimed ≤ s.ring.dequeue_pos + 2
within_capacity_example = within_capacity 2 overtaking (omega arith)

-- A third push while both slots are taken.
abbrev crowded : List (Act ℕ)
crowded =
    start 0 10
    ∷ start 1 11
    ∷ advance 0 false
    ∷ advance 0 false
    ∷ advance 0 false
    ∷ advance 1 false
    ∷ advance 1 false
    ∷ advance 1 false
    ∷ start 2 12
    ∷ advance 2 false
    ∷ []

third_waits : (run 2 crowded new_system).producers 2 ≡ loaded 2 12
unfolding run act producer_step try_pop_one place store new_system new_ring
third_waits = refl

third_refused :
    (producer_step 2 false (loaded 2 12) (run 2 crowded new_system).ring).0 ≡ returned false
unfolding run act producer_step try_pop_one place store new_system new_ring
third_refused = refl

refused_only_when_full_example :
    length (run 2 crowded new_system).claimed ≡ (run 2 crowded new_system).ring.dequeue_pos + 2
refused_only_when_full_example =
    refused_only_when_full 2 crowded 2 2 12 (omega arith) third_waits third_refused
