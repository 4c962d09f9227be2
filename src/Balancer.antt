-- ===== src/Balancer.antt =====
-- `RoundRobinBalancer` and `LeastInflightBalancer` of client/load_balancer.cpp: which of the
-- candidates a call goes to. The counters are 64-bit atomics, and `fetch_add` wraps.
pub mod Laws
mod Tests
use mini_rpc.Prelude.{
  ℕ, zero, suc, ◌+◌, ◌%◌, ◌^◌, ◌==◌, ltb, Option, none, some, Bool, true, false, List, [], ◌∷◌,
  ◌++◌, length, get_elem?, if◌then◌else◌,
}

abbrev pub size_max : ℕ
size_max = 18446744073709551615

-- `fetch_add(1)`: the counter afterwards.
abbrev pub fetch_add_one : ℕ → ℕ
fetch_add_one n = (n + 1) % 18446744073709551616

-- `RoundRobinBalancer::Select` among `size` candidates: the index, and the counter.
unfoldable pub select_round_robin : ℕ → ℕ → ℕ × ℕ
select_round_robin size next_index = (next_index % size, fetch_add_one next_index)

-- The smallest count of the first pass.
pub min_inflight : List ℕ → ℕ → ℕ
min_inflight [] m = m
min_inflight (n ∷ ns) m = min_inflight ns (if ltb n m then n else m)

-- The indices, from `i` on, at which the second pass reads `m`.
pub ties : List ℕ → ℕ → ℕ → List ℕ
ties [] m i = []
ties (n ∷ ns) m i = let rest = ties ns m (suc i) in if n == m then i ∷ rest else rest

-- The third pass, after a race left no tie: the minimum and its indices together.
pub ties_again : List ℕ → ℕ → ℕ → List ℕ → List ℕ
ties_again [] m i found = found
ties_again (n ∷ ns) m i found =
    if ltb n m
    then ties_again ns n (suc i) (i ∷ [])
    else if n == m
    then ties_again ns m (suc i) (found ++ (i ∷ []))
    else ties_again ns m (suc i) found

-- `if (tie_indices.empty())`
abbrev pub or_else : List ℕ → List ℕ → List ℕ
or_else [] ys = ys
or_else (x ∷ xs) ys = x ∷ xs

-- The last resort: the first candidate, if there is one.
abbrev pub first_of : List ℕ → List ℕ
first_of [] = []
first_of (n ∷ ns) = 0 ∷ []

-- The indices among which the tie breaker chooses. Each pass reads every candidate's count anew.
pub tie_indices : List ℕ → List ℕ → List ℕ → List ℕ
unfolding min_inflight ties ties_again
tie_indices first second third =
    or_else (ties second (min_inflight first size_max) 0)
      (or_else (ties_again third size_max 0 []) (first_of third))

-- `list[i]`, with 0 out of range.
abbrev pub at : List ℕ → ℕ → ℕ
at xs i = elim (get_elem? xs i) [ none ↦ 0 | some x ↦ x ]

-- `LeastInflightBalancer::Select`
pub select_least_inflight : List ℕ → List ℕ → List ℕ → ℕ → ℕ × ℕ
unfolding tie_indices
select_least_inflight first second third tie_breaker =
    let tied = tie_indices first second third in
    (at tied (tie_breaker % length tied), fetch_add_one tie_breaker)
