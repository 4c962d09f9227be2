-- ===== src/Pool/Selection.antt =====
-- `SelectChannel` of client/rpc_client_pool.cpp: whom it chooses.
use mini_rpc.Prelude.{
  ℕ, zero, suc, ◌+◌, ◌-◌, ◌≤◌, ◌<◌, ◌≡◌, refl, sym, ap, ◌∙◌, some, Bool, true, false, List, [], ◌∷◌,
  map, length, arith, Bool-cases, inl, inr,
}
use mini_rpc.Balancer.{at}
use mini_rpc.Balancer.Laws.{All, All-map, All-at, select-fits, mod_lt}
use mini_rpc.Balancer.{select_round_robin}
use mini_rpc.Pool.{
  Channel, Pool, LoadBalanceStrategy, round_robin, least_inflight, Readings, elem, candidates,
  balance, choose, select_channel,
}

abbrev pub healthy_at : List Channel → ℕ → Bool
healthy_at [] i = false
healthy_at (c ∷ cs) zero = c.healthy
healthy_at (c ∷ cs) (suc i) = healthy_at cs i

-- Healthy and not excluded.
pub record IsCandidate (cs : List Channel) (excluded : List ℕ) (i : ℕ) : Type 0 where
  pub healthy : healthy_at cs i ≡ true
  pub allowed : elem i excluded ≡ false

abbrev Fits : List Channel → List ℕ → ℕ → ℕ → Type 0
Fits cs excluded i x = (i ≤ x) × ((healthy_at cs (x - i) ≡ true) × (elem x excluded ≡ false))

Fits-later :
    (c : Channel) (cs : List Channel) (ex : List ℕ) (i x : ℕ)
    → Fits cs ex (suc i) x
    → Fits (c ∷ cs) ex i x
Fits-later c cs ex i x f =
    let e : x - i ≡ suc (x - suc i) = omega (arith, f.0) in
    (omega (arith, f.0), (ap (healthy_at (c ∷ cs)) e ∙ f.1.0, f.1.1))

candidates-Fits :
    (cs : List Channel) (ex : List ℕ) (i : ℕ) → All (Fits cs ex i) (candidates cs ex i)
unfolding candidates
candidates-Fits [] ex i = tt
candidates-Fits (c ∷ cs) ex i =
    let rest =
      All-map (candidates cs ex (suc i)) (Fits-later c cs ex i) (candidates-Fits cs ex (suc i)) in
    elim (Bool-cases c.healthy) [
      | inr e ↦ simp e rest
      | inl e ↦ elim (Bool-cases (elem i ex)) [
        | inl e' ↦ simp (e, e') rest
        | inr e' ↦
            let z : i - i ≡ 0 = omega arith in
            simp (e, e') ((omega arith, (ap (healthy_at (c ∷ cs)) z ∙ e, refl)), rest)
      ]
    ]

candidates-some :
    (cs : List Channel) (ex : List ℕ) (i j : ℕ)
    → healthy_at cs j ≡ true
    → elem (i + j) ex ≡ false
    → 0 < length (candidates cs ex i)
unfolding candidates
candidates-some [] ex i j h a = absurd (cc)
candidates-some (c ∷ cs) ex i zero h a =
    let here : elem i ex ≡ false = ap (λ k. elem k ex) {x = i} {y = i + 0} (omega arith) ∙ a in
    simp (h, here) (omega arith)
candidates-some (c ∷ cs) ex i (suc j) h a =
    let there = ap (λ k. elem k ex) {x = suc i + j} {y = i + suc j} (omega arith) ∙ a in
    ground (arith, candidates-some cs ex (suc i) j h there)

length-map : {A B : Type 0} (f : A → B) (xs : List A) → length (map f xs) ≡ length xs
length-map f [] = refl
length-map f (x ∷ xs) = ap suc (length-map f xs)

balance-fits :
    (s : LoadBalanceStrategy) (r : Readings) (cs : List ℕ) (counter : ℕ)
    → 0 < length cs
    → (balance s r cs counter).0 < length cs
unfolding balance select_round_robin
balance-fits round_robin r cs counter h = mod_lt counter (length cs) h
balance-fits least_inflight r cs counter h =
    let size = length-map r.third cs in
    let found =
      (select-fits (map r.first cs) (map r.second cs) (map r.third cs) counter
        (length-map r.second cs ∙ sym size) (omega (arith, h, size))).0 in
    omega (arith, found, size)

-- Of a choice among candidates, one is taken.
choose-All :
    (P : ℕ → Type 0) (r : Readings) (cs : List ℕ) (p : Pool)
    → All P cs
    → 0 < length cs
    → (i : ℕ) × (((choose r cs p).0 ≡ some i) × P i)
unfolding choose
choose-All P r [] p a h = absurd (omega (arith, h))
choose-All P r (x ∷ xs) p a h =
    let k : ℕ = (balance p.options.strategy r (x ∷ xs) p.counter).0 in
    (
      at (x ∷ xs) k,
      (
        refl,
        All-at P (x ∷ xs) k a (balance-fits p.options.strategy r (x ∷ xs) p.counter (omega arith)),
      ),
    )

-- Where some channel is healthy and not excluded, `SelectChannel` chooses such a channel, whatever the
-- strategy and whatever the balancer reads of the calls in flight.
pub select_channel-IsCandidate :
    (r : Readings) (excluded : List ℕ) (p : Pool) (j : ℕ)
    → IsCandidate p.channels excluded j
    → (i : ℕ) × (((select_channel r excluded p).0 ≡ some i) × IsCandidate p.channels excluded i)
unfolding select_channel
select_channel-IsCandidate r excluded p j c =
    let (i, found) =
      choose-All (Fits p.channels excluded 0) r (candidates p.channels excluded 0) p
        (candidates-Fits p.channels excluded 0)
        (candidates-some p.channels excluded 0 j c.healthy
          (ap (λ k. elem k excluded) {x = 0 + j} {y = j} (omega arith) ∙ c.allowed)) in
    (
      i,
      (
        found.0,
        record {
          healthy = ap (healthy_at p.channels) {x = i} {y = i - 0} (omega arith) ∙ found.1.1.0;
          allowed = found.1.1.1;
        },
      ),
    )
