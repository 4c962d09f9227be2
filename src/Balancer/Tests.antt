-- ===== src/Balancer/Tests.antt =====
-- Four candidates with 2, 1, 5 and 1 calls in flight.
use mini_rpc.Prelude.{ℕ, ◌≤◌, ◌≡◌, refl, List, [], ◌∷◌, arith}
use mini_rpc.Balancer.{
  at, size_max, select_round_robin, select_least_inflight, tie_indices, ties, ties_again,
  min_inflight,
}
use mini_rpc.Balancer.Laws.{All, select_least_inflight-least}

abbrev loads : List ℕ
loads = 2 ∷ 1 ∷ 5 ∷ 1 ∷ []

second_tie : select_least_inflight loads loads loads 7 ≡ (3, 8)
unfolding select_least_inflight tie_indices ties min_inflight
second_tie = refl

-- The minimum of the first pass is gone in the second.
raced : tie_indices loads (2 ∷ 3 ∷ 5 ∷ 4 ∷ []) (2 ∷ 3 ∷ 2 ∷ 4 ∷ []) ≡ 0 ∷ 2 ∷ []
unfolding tie_indices ties min_inflight ties_again
raced = refl

counter_wraps : (select_round_robin 4 size_max).1 ≡ 0
unfolding select_round_robin
counter_wraps = refl

select_least_inflight-least_example :
    All (λ n. at loads (select_least_inflight loads loads loads 7).0 ≤ n) loads
select_least_inflight-least_example =
    select_least_inflight-least loads 7
      (omega arith, (omega arith, (omega arith, (omega arith, tt)))) (omega arith)
