-- ===== src/Server/Dealing.antt =====
-- The acceptor deals the new connections to the workers in turn.
use native.Mathlib.Nat.{mod-add-mod}
use mathlib.Core.Path.{subst}
use mini_rpc.Prelude.{
  none, ℕ, zero, suc, ◌+◌, ◌%◌, ◌==◌, ◌≡◌, refl, ap, sym, ◌∙◌, inl, inr, some, Bool, true, false,
  not, List, [], ◌∷◌, ◌++◌, arith, length, get_elem?, if◌then◌else◌, append_assoc, append-nil,
  Bool-cases,
}
use mini_rpc.Worker.Stopping.{
  Loop, enqueue_connection, test_connection, push_connection, push_if_passed,
}
use mini_rpc.Server.{
  Server, select_worker, enqueue_at, accept_one, Accept, accepted, interrupted, drained, broken,
  accept_all,
}

-- The sockets that the loop gets.
unfoldable pub sockets : List Accept → List ℕ
sockets [] = []
sockets (accepted fd ∷ rest) = fd ∷ sockets rest
sockets (interrupted ∷ rest) = sockets rest
sockets (drained ∷ rest) = []
sockets (broken ∷ rest) = []

-- Of the sockets, counted from `k`, every `n`-th, those whose number leaves the remainder `i`.
unfoldable pub dealt : ℕ → ℕ → ℕ → List ℕ → List ℕ
dealt n k i [] = []
dealt n k i (fd ∷ fds) = let rest = dealt n (suc k) i fds in if k % n == i then fd ∷ rest else rest

-- The worker with some number has these sockets more in its queue than before, and still accepts.
abbrev Got : ℕ → List ℕ → List Loop → List Loop → Type 0
Got i fds ls ls' =
    (l : Loop)
    → get_elem? ls i ≡ some l
    → l.accepting_new_connections ≡ true
    → (l' : Loop) × ((get_elem? ls' i ≡ some l')
        × ((l'.accepting_new_connections ≡ true) × (l'.pending ≡ l.pending ++ fds)))

length-enqueue_at : (j fd : ℕ) (ls : List Loop) → length (enqueue_at j fd ls).1 ≡ length ls
unfolding enqueue_at
length-enqueue_at j fd [] = refl
length-enqueue_at zero fd (l ∷ ls) = refl
length-enqueue_at (suc j) fd (l ∷ ls) = ap suc (length-enqueue_at j fd ls)

enqueue_accepts :
    (fd : ℕ) (l : Loop)
    → l.accepting_new_connections ≡ true
    → (enqueue_connection true (some fd) l).1
      ≡ record l { pending = l.pending ++ fd ∷ []; wakeups = suc l.wakeups; handing = none }
unfolding enqueue_connection test_connection push_connection
enqueue_accepts fd l on =
    let passed : test_connection true (some fd) l ≡ (none, record l { handing = some fd }) =
      simp (on) refl in
    ap (λ x. (push_if_passed x).1) passed

Got-none : (i : ℕ) (ls : List Loop) → Got i [] ls ls
Got-none i ls l h on = (l, (h, (on, sym (append-nil l.pending))))

enqueue_at-Got :
    (i j fd : ℕ) (ls : List Loop) → Got i (if j == i then fd ∷ [] else []) ls (enqueue_at j fd ls).1
unfolding enqueue_at enqueue_connection
enqueue_at-Got i j fd [] l h on = cc
enqueue_at-Got zero zero fd (r ∷ ls) l h on =
    let same : r ≡ l = cc in
    let on' : r.accepting_new_connections ≡ true =
      ap (λ x. x.accepting_new_connections) same ∙ on in
    (
      record r { pending = r.pending ++ fd ∷ []; wakeups = suc r.wakeups; handing = none },
      (ap some (enqueue_accepts fd r on'), (on', ap (λ x. x.pending ++ fd ∷ []) same)),
    )
enqueue_at-Got (suc i) zero fd (r ∷ ls) l h on =
    let apart : (0 == suc i) ≡ false = ground arith in
    (l, (h, (on, rw (apart) (sym (append-nil l.pending)))))
enqueue_at-Got zero (suc j) fd (r ∷ ls) l h on =
    let apart : (suc j == 0) ≡ false = ground arith in
    (l, (h, (on, rw (apart) (sym (append-nil l.pending)))))
enqueue_at-Got (suc i) (suc j) fd (r ∷ ls) l h on =
    let same : (suc j == suc i) ≡ (j == i) = ground arith in
    rw (same) (enqueue_at-Got i j fd ls l h on)

accept_one-workers :
    (fd : ℕ) (s : Server)
    → ((accept_one fd s).workers ≡ (enqueue_at s.next_worker fd s.workers).1)
      × ((accept_one fd s).next_worker ≡ (s.next_worker + 1) % length s.workers)
      × ((accept_one fd s).accepting_new_connections ≡ s.accepting_new_connections)
unfolding accept_one select_worker
accept_one-workers fd s = ground arith

Got-both :
    (i : ℕ) (fds fds' : List ℕ) (ls ls' ls'' : List Loop)
    → Got i fds ls ls'
    → Got i fds' ls' ls''
    → Got i (fds ++ fds') ls ls''
Got-both i fds fds' ls ls' ls'' g g' l h on =
    let (l', (h', (on', e))) = g l h on in
    let (l'', (h'', (on'', e'))) = g' l' h' on' in
    (l'', (h'', (on'', e' ∙ ap (λ p. p ++ fds') e ∙ append_assoc l.pending fds fds')))

-- The same, where the lists are equal.
Got-along :
    (i : ℕ) (fds fds' : List ℕ) (ls ls' ls'' : List Loop)
    → fds' ≡ fds
    → ls'' ≡ ls'
    → Got i fds ls ls'
    → Got i fds' ls ls''
Got-along i fds fds' ls ls' ls'' e e' g =
    subst (λ x. Got i x ls ls'') (sym e) (subst (Got i fds ls) (sym e') g)

while_up : (b : Bool) (s t : Server) → b ≡ true → (if not b then s else t) ≡ t
while_up b s t up = rw (up) refl

dealt-split :
    (n n' k i next fd : ℕ) (fds : List ℕ)
    → next ≡ k % n
    → n' ≡ n
    → dealt n k i (fd ∷ fds) ≡ (if next == i then fd ∷ [] else []) ++ dealt n' (suc k) i fds
unfolding dealt
dealt-split n n' k i next fd fds e same = elim (Bool-cases (k % n == i)) [
  | inl here ↦ rw (e, same, here) refl
  | inr there ↦ rw (e, same, there) refl
]

accept_all-Got :
    (accepts : List Accept) (s : Server) (k i : ℕ)
    → s.accepting_new_connections ≡ true
    → s.next_worker ≡ k % length s.workers
    → Got i
        (dealt (length s.workers) k i (sockets accepts))
        s.workers
        (accept_all accepts s).workers
unfolding accept_all dealt sockets
accept_all-Got [] s k i up next = Got-none i s.workers
accept_all-Got (accepted fd ∷ rest) s k i up next =
    let t = accept_one fd s in
    let (w, moved, kept) = accept_one-workers fd s in
    let same : length t.workers ≡ length s.workers =
      ap length w ∙ length-enqueue_at s.next_worker fd s.workers in
    let next' : t.next_worker ≡ suc k % length t.workers =
      moved
      ∙ ap (λ x. (x + 1) % length s.workers) next
      ∙ mod-add-mod k (length s.workers) 1
      ∙ ap (λ m. m % length s.workers) (omega arith)
      ∙ ap (λ n. suc k % n) (sym same) in
    let first =
      Got-along i _ _ s.workers (enqueue_at s.next_worker fd s.workers).1 t.workers refl w
        (enqueue_at-Got i s.next_worker fd s.workers) in
    let later = accept_all-Got rest t (suc k) i (kept ∙ up) next' in
    Got-along i _ _ s.workers (accept_all rest t).workers _
      (dealt-split (length s.workers) (length t.workers) k i s.next_worker fd (sockets rest) next
        same)
      (ap (λ x. x.workers) (while_up s.accepting_new_connections s (accept_all rest t) up))
      (Got-both i _ _ s.workers t.workers (accept_all rest t).workers first later)
accept_all-Got (interrupted ∷ rest) s k i up next =
    Got-along i _ _ s.workers (accept_all rest s).workers _ refl
      (ap (λ x. x.workers) (while_up s.accepting_new_connections s (accept_all rest s) up))
      (accept_all-Got rest s k i up next)
accept_all-Got (drained ∷ rest) s k i up next =
    Got-along i _ _ s.workers s.workers _ refl
      (ap (λ x. x.workers) (while_up s.accepting_new_connections s s up)) (Got-none i s.workers)
accept_all-Got (broken ∷ rest) s k i up next =
    Got-along i _ _ s.workers s.workers _ refl
      (ap (λ x. x.workers) (while_up s.accepting_new_connections s s up)) (Got-none i s.workers)

-- However `accept4` is interrupted, the sockets that it gives go to the workers in turn: the worker
-- with the number `i` finds in its queue, after what was there, every socket whose number, counted on
-- from the next worker's, leaves the remainder `i`, in their order. (The server accepts, the next
-- worker is the `k`-th modulo the number of workers, and worker `i` accepts.)
pub round_robin :
    (accepts : List Accept) (s : Server) (k i : ℕ) (l : Loop)
    → s.accepting_new_connections ≡ true
    → s.next_worker ≡ k % length s.workers
    → get_elem? s.workers i ≡ some l
    → l.accepting_new_connections ≡ true
    → (l' : Loop) × ((get_elem? (accept_all accepts s).workers i ≡ some l')
        × ((l'.accepting_new_connections ≡ true)
            × (l'.pending ≡ l.pending ++ dealt (length s.workers) k i (sockets accepts))))
round_robin accepts s k i l up next = accept_all-Got accepts s k i up next l
