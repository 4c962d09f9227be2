-- ===== src/Pool/Retries.antt =====
-- The retries of `RpcClientPool::Call` of client/rpc_client_pool.cpp.
use mini_rpc.Prelude.{
  ℕ, zero, suc, ◌+◌, ◌≤◌, ◌<◌, ◌≡◌, ◌≢◌, refl, ap, ◌∙◌, not, Bool, true, false, List, [], ◌∷◌, ◌++◌,
  length, if◌then◌else◌, arith, Bool-cases, inl, inr, ◌⊎◌, length-append,
}
use mini_rpc.RpcError.{RpcCallResult}
use mini_rpc.Pool.{
  Channel, Pool, Readings, elem, candidates, modify, count_selection, choose, select_channel,
  is_connection_error, count_result, reach, record_reachability, record_call_result, after_answer,
  call_loop, call_among, call, Called,
}
use mini_rpc.Pool.Tried.{
  count, free, count-append_new, elem-append_new, count-elem, free-nil, free-append, free-some,
  free-none,
}
use mini_rpc.Pool.Selection.{healthy_at, select_channel-IsCandidate}

length-modify :
    (i : ℕ) (f : Channel → Channel) (cs : List Channel) → length (modify i f cs) ≡ length cs
unfolding modify
length-modify i f [] = refl
length-modify zero f (c ∷ cs) = refl
length-modify (suc i) f (c ∷ cs) = ap suc (length-modify i f cs)

healthy_at-modify :
    (i j : ℕ) (f : Channel → Channel) (cs : List Channel)
    → i ≢ j
    → healthy_at (modify i f cs) j ≡ healthy_at cs j
unfolding modify
healthy_at-modify i j f [] h = refl
healthy_at-modify zero zero f (c ∷ cs) h = absurd (h refl)
healthy_at-modify zero (suc j) f (c ∷ cs) h = refl
healthy_at-modify (suc i) zero f (c ∷ cs) h = refl
healthy_at-modify (suc i) (suc j) f (c ∷ cs) h = healthy_at-modify i j f cs (λ e. h (ap suc e))

healthy_at-in : (cs : List Channel) (j : ℕ) → healthy_at cs j ≡ true → j < length cs
healthy_at-in [] j h = absurd cc
healthy_at-in (c ∷ cs) zero h = omega arith
healthy_at-in (c ∷ cs) (suc j) h = let k = healthy_at-in cs j h in omega (arith, k)

healthy_at-count :
    (i j : ℕ) (cs : List Channel) → healthy_at (modify i count_selection cs) j ≡ healthy_at cs j
unfolding modify
healthy_at-count i j [] = refl
healthy_at-count zero zero (c ∷ cs) = refl
healthy_at-count zero (suc j) (c ∷ cs) = refl
healthy_at-count (suc i) zero (c ∷ cs) = refl
healthy_at-count (suc i) (suc j) (c ∷ cs) = healthy_at-count i j cs

if_true : (P : Called → Type 0) (b : Bool) (x y : Called) → b ≡ true → P x → P (if b then x else y)
if_true P true x y e h = h
if_true P false x y e h = absurd cc

if_false :
    (P : Called → Type 0) (b : Bool) (x y : Called) → b ≡ false → P y → P (if b then x else y)
if_false P true x y e h = absurd cc
if_false P false x y e h = h

Same : Pool → Pool → ℕ → Type 0
Same p p' j =
    (length p'.channels ≡ length p.channels) × (healthy_at p'.channels j ≡ healthy_at p.channels j)

choose-Same : (r : Readings) (cs : List ℕ) (p : Pool) (j : ℕ) → Same p (choose r cs p).1 j
unfolding choose Same
choose-Same r [] p j = (refl, refl)
choose-Same r (x ∷ xs) p j =
    (length-modify _ count_selection p.channels, healthy_at-count _ j p.channels)

module _ (readings : ℕ → Readings) (answers : ℕ → ℕ → RpcCallResult) where
  after_answer-Same :
      (i j : ℕ) (result : RpcCallResult) (p : Pool)
      → i ≢ j
      → Same p (after_answer readings answers i result p).1 j
  unfolding after_answer record_call_result record_reachability Same
  after_answer-Same i j result p h =
      let f : Channel → Channel = count_result result in
      let g : Channel → Channel =
        reach p.options.max_consecutive_failures (not (is_connection_error result)) in
      (
        length-modify i g (modify i f p.channels) ∙ length-modify i f p.channels,
        healthy_at-modify i j g (modify i f p.channels) h ∙ healthy_at-modify i j f p.channels h,
      )

  -- Every attempt, from the `k`-th on, met a connection error.
  abbrev pub AllFail : ℕ → List ℕ → Type 0
  AllFail k [] = Unit {0}
  AllFail k (x ∷ xs) = (is_connection_error (answers k x) ≡ true) × AllFail (suc k) xs

  AllFail-append :
      (k x : ℕ) (xs : List ℕ)
      → AllFail k xs
      → is_connection_error (answers (k + length xs) x) ≡ true
      → AllFail k (xs ++ (x ∷ []))
  AllFail-append k x [] a h =
      (ap (λ n. is_connection_error (answers n x)) {x = k} {y = k + 0} (omega arith) ∙ h, tt)
  AllFail-append k x (y ∷ xs) a h = (
    a.0,
    AllFail-append (suc k) x xs a.1 (
        ap (λ n. is_connection_error (answers n x)) {x = suc k + length xs}
          {y = k + suc (length xs)} (omega arith)
        ∙ h),
  )

  -- The last attempt got an answer that is not a connection error; those before it did.
  abbrev pub IsAnswered : Called → Type 0
  IsAnswered c =
      (before : List ℕ) × ((i : ℕ) × ((c.attempted ≡ before ++ (i ∷ []))
          × (AllFail 0 before
              × ((c.result ≡ answers (length before) i) × (is_connection_error c.result ≡ false)))))

  -- Each of the `n` channels was tried once, and each attempt met a connection error.
  abbrev pub IsExhausted : ℕ → Called → Type 0
  IsExhausted n c = AllFail 0 c.attempted × ((i : ℕ) → i < n → count i c.attempted ≡ 1)

  abbrev pub Ends : ℕ → Called → Type 0
  Ends n c = ((i : ℕ) → count i c.attempted ≤ 1) × (IsAnswered c ⊎ IsExhausted n c)

  record Going (n : ℕ) (attempted : List ℕ) (p : Pool) : Type 0 where
    size : length p.channels ≡ n
    split : free n attempted + length attempted ≡ n
    once : (i : ℕ) → count i attempted ≤ 1
    fresh : (j : ℕ) → elem j attempted ≡ false → j < n → healthy_at p.channels j ≡ true
    failed : AllFail 0 attempted

  Going-next :
      (n i : ℕ) (attempted : List ℕ) (p p' : Pool)
      → Going n attempted p
      → i < n
      → elem i attempted ≡ false
      → ((j : ℕ) → i ≢ j → Same p p' j)
      → length p'.channels ≡ n
      → is_connection_error (answers (length attempted) i) ≡ true
      → Going n (attempted ++ (i ∷ [])) p'
  unfolding Same
  Going-next n i attempted p p' g h a same size f = record {
    size = size;
    split = omega (arith, g.split, free-append n i attempted h a, length-append attempted (i ∷ []));
    once = λ j. count-append_new i j attempted a (g.once j);
    fresh = λ j b k.
        let (untried, apart) = elem-append_new i j attempted b in
        (same j apart).1 ∙ g.fresh j untried k;
    failed = AllFail-append 0 i attempted g.failed (
        ap (λ n. is_connection_error (answers n i)) {x = 0 + length attempted}
          {y = length attempted} (omega arith)
        ∙ f);
  }

  -- One attempt, on the channel that was selected.
  attempt-Going :
      (n i : ℕ) (attempted : List ℕ) (p : Pool)
      → Going n attempted p
      → i < n
      → elem i attempted ≡ false
      → let p' = (select_channel (readings (length attempted)) attempted p).1 in
        is_connection_error (answers (length attempted) i) ≡ true
        → Going n
            (attempted ++ (i ∷ []))
            (after_answer readings answers i (answers (length attempted) i) p').1
  unfolding select_channel Same
  attempt-Going n i attempted p g h a f =
      let r : Readings = readings (length attempted) in
      let p' : Pool = (select_channel r attempted p).1 in
      let result : RpcCallResult = answers (length attempted) i in
      let kept : (j : ℕ) → i ≢ j → Same p (after_answer readings answers i result p').1 j =
        λ j apart.
          let s = choose-Same r (candidates p.channels attempted 0) p j in
          let t = after_answer-Same i j result p' apart in (t.0 ∙ s.0, t.1 ∙ s.1) in
      Going-next n i attempted p _ g h a kept
        ((kept (suc i) (λ e. absurd (omega (arith, e)))).0 ∙ g.size) f

  call_loop-Ends :
      (n left : ℕ) (attempted : List ℕ) (p : Pool)
      → left + length attempted ≡ n
      → Going n attempted p
      → Ends n (call_loop readings answers left attempted p)
  unfolding call_loop
  call_loop-Ends n zero attempted p e g = (
    g.once,
    inr (
      g.failed,
      λ i h.
          let tried = free-none n i attempted (omega (arith, e, g.split)) h in
          ground (arith, count-elem i attempted, tried, g.once i),
    ),
  )
  call_loop-Ends n (suc left) attempted p e g =
      let (j, (j_fits, j_free)) = free-some n attempted (omega (arith, e, g.split)) in
      let r : Readings = readings (length attempted) in
      let (i, (chosen, cand)) =
        select_channel-IsCandidate r attempted p j
          (record { healthy = g.fresh j j_free j_fits; allowed = j_free }) in
      let i_fits : i < n = omega (arith, healthy_at-in p.channels i cand.healthy, g.size) in
      elim (Bool-cases (is_connection_error (answers (length attempted) i))) [
        | inl f ↦
            rw (chosen, call_loop)
              (if_true (Ends n) _ _ _ f (
                call_loop-Ends n left (attempted ++ (i ∷ [])) _
                  (omega (arith, e, length-append attempted (i ∷ [])))
                  (attempt-Going n i attempted p g i_fits cand.allowed f)))
        | inr f ↦
            rw (chosen, call_loop)
              (if_false (Ends n) _ _ _ f (
                λ k. count-append_new i k attempted cand.allowed (g.once k),
                inl (attempted, (i, (refl, (g.failed, (refl, f))))),
              ))
      ]

  call_among-Ends :
      (cs : List Channel) (p : Pool)
      → cs ≡ p.channels
      → ((j : ℕ) → j < length p.channels → healthy_at p.channels j ≡ true)
      → Ends (length p.channels) (call_among readings answers cs p)
  unfolding call_among
  call_among-Ends [] p e healthy =
      (λ i. omega arith, inr (tt, λ i h. absurd (omega (arith, h, ap length e))))
  call_among-Ends (c ∷ cs) p e healthy =
      call_loop-Ends (length p.channels) (length p.channels) [] p (omega arith) (record {
        size = refl;
        split = omega (arith, free-nil (length p.channels));
        once = λ i. omega arith;
        fresh = λ j a h. healthy j h;
        failed = tt;
      })

  -- Where every channel is healthy at first, `Call` tries no channel twice, and it stops in one of two
  -- ways: at the first answer that is not a connection error, which it returns; or when it has tried
  -- each of the channels once and each attempt met a connection error.
  pub call-Ends :
      (p : Pool)
      → ((j : ℕ) → j < length p.channels → healthy_at p.channels j ≡ true)
      → Ends (length p.channels) (call readings answers p)
  unfolding call
  call-Ends p healthy = call_among-Ends p.channels p refl healthy
