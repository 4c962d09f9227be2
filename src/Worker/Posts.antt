-- ===== src/Worker/Posts.antt =====
-- What the other threads can and cannot do to a worker's queue and flags.
use mini_rpc.Prelude.{
  is_some, ℕ, if◌then◌else◌, ◌≡◌, ◌⊎◌, refl, ap, ◌∙◌, inl, inr, Option, some, none, Bool, true,
  false, List, [], ◌∷◌, ◌++◌, Bool-cases,
}
use mini_rpc.Worker.{Worker}
use mini_rpc.Worker.Stopping.{
  Loop, test_connection, push_connection, request_stop, Post, tests, pushes, stops, post, posts,
}

-- A post, by what it may do: nothing, a test that is passed, a push, or a stop.
tested :
    (fd : Option ℕ) (l : Loop)
    → ((test_connection true fd l).1 ≡ l)
      ⊎ ((l.accepting_new_connections ≡ true)
          × ((x : ℕ) × ((test_connection true fd l).1 ≡ record l { handing = some x })))
unfolding test_connection
tested none l = inl refl
tested (some fd) l = elim (Bool-cases l.accepting_new_connections) [
  | inl on ↦ inr (on, (fd, simp (on) refl))
  | inr off ↦ inl (simp (off) refl)
]

push-stopped :
    (h : Option ℕ) (l : Loop)
    → l.stop_requested ≡ true
    → (push_connection (record l { handing = h })).stop_requested ≡ true
unfolding push_connection
push-stopped none l e = e
push-stopped (some fd) l e = e

push-worker :
    (h : Option ℕ) (l : Loop) → (push_connection (record l { handing = h })).worker ≡ l.worker
unfolding push_connection
push-worker none l = refl
push-worker (some fd) l = refl

test-stopped :
    (fd : Option ℕ) (l : Loop)
    → l.stop_requested ≡ true
    → (test_connection true fd l).1.stop_requested ≡ true
test-stopped fd l e = elim (tested fd l) [
  | inl same ↦ ap (λ x. x.stop_requested) same ∙ e
  | inr (on, (x, moved)) ↦ ap (λ x. x.stop_requested) moved ∙ e
]

test-worker : (fd : Option ℕ) (l : Loop) → (test_connection true fd l).1.worker ≡ l.worker
test-worker fd l = elim (tested fd l) [
  | inl same ↦ ap (λ x. x.worker) same
  | inr (on, (x, moved)) ↦ ap (λ x. x.worker) moved
]

choose-stopped :
    (b : Bool) (x y : Loop)
    → x.stop_requested ≡ true
    → y.stop_requested ≡ true
    → (if b then x else y).stop_requested ≡ true
choose-stopped true x y h k = h
choose-stopped false x y h k = k

choose-worker :
    (b : Bool) (w : Worker) (x y : Loop)
    → x.worker ≡ w
    → y.worker ≡ w
    → (if b then x else y).worker ≡ w
choose-worker true w x y h k = h
choose-worker false w x y h k = k

post-stopped : (p : Post) (l : Loop) → l.stop_requested ≡ true → (post p l).stop_requested ≡ true
unfolding post request_stop
post-stopped (tests fd) l h = choose-stopped (is_some l.handing) l _ h (test-stopped fd l h)
post-stopped pushes l h = push-stopped l.handing l h
post-stopped stops l h = refl

post-worker : (p : Post) (l : Loop) → (post p l).worker ≡ l.worker
unfolding post request_stop
post-worker (tests fd) l = choose-worker (is_some l.handing) l.worker l _ refl (test-worker fd l)
post-worker pushes l = push-worker l.handing l
post-worker stops l = refl

pub posts-worker : (ps : List Post) (l : Loop) → (posts ps l).worker ≡ l.worker
unfolding posts
posts-worker [] l = refl
posts-worker (p ∷ ps) l = posts-worker ps (post p l) ∙ post-worker p l

-- A worker that accepts no more and whose queue was emptied: the queue holds nothing but what a call
-- of `EnqueueConnection` that was past its test has pushed.
pub record IsLate (l : Loop) : Type 0 where
  pub refuses : l.accepting_new_connections ≡ false
  pub left : (l.pending ≡ []) ⊎ ((l.handing ≡ none) × ((fd : ℕ) × (l.pending ≡ fd ∷ [])))

choose-IsLate : (b : Bool) (x y : Loop) → IsLate x → IsLate y → IsLate (if b then x else y)
choose-IsLate true x y h k = h
choose-IsLate false x y h k = k

test-IsLate : (fd : Option ℕ) (l : Loop) → IsLate l → IsLate (test_connection true fd l).1
unfolding test_connection
test-IsLate none l h = h
test-IsLate (some fd) l h = simp (h.refuses) h

push-IsLate :
    (o : Option ℕ) (l : Loop)
    → IsLate (record l { handing = o })
    → IsLate (push_connection (record l { handing = o }))
unfolding push_connection
push-IsLate none l h = h
push-IsLate (some fd) l h = elim h.left [
  | inl none_left ↦ record {
    refuses = h.refuses;
    left = inr (refl, (fd, ap (λ q. q ++ fd ∷ []) none_left));
  }
  | inr (done, x) ↦ cc
]

post-IsLate : (p : Post) (l : Loop) → IsLate l → IsLate (post p l)
unfolding post request_stop
post-IsLate (tests fd) l h = choose-IsLate (is_some l.handing) l _ h (test-IsLate fd l h)
post-IsLate pushes l h = push-IsLate l.handing l h
post-IsLate stops l h = record { refuses = refl; left = h.left }

pub posts-IsLate : (ps : List Post) (l : Loop) → IsLate l → IsLate (posts ps l)
unfolding posts
posts-IsLate [] l h = h
posts-IsLate (p ∷ ps) l h = posts-IsLate ps (post p l) (post-IsLate p l h)

choose-refuses :
    (b : Bool) (x y : Loop)
    → x.accepting_new_connections ≡ false
    → y.accepting_new_connections ≡ false
    → (if b then x else y).accepting_new_connections ≡ false
choose-refuses true x y h k = h
choose-refuses false x y h k = k

test-refuses :
    (fd : Option ℕ) (l : Loop)
    → l.accepting_new_connections ≡ false
    → (test_connection true fd l).1.accepting_new_connections ≡ false
test-refuses fd l e = elim (tested fd l) [
  | inl same ↦ ap (λ x. x.accepting_new_connections) same ∙ e
  | inr (on, (x, moved)) ↦ cc
]

push-refuses :
    (h : Option ℕ) (l : Loop)
    → l.accepting_new_connections ≡ false
    → (push_connection (record l { handing = h })).accepting_new_connections ≡ false
unfolding push_connection
push-refuses none l e = e
push-refuses (some fd) l e = e

post-refuses :
    (p : Post) (l : Loop)
    → l.accepting_new_connections ≡ false
    → (post p l).accepting_new_connections ≡ false
unfolding post request_stop
post-refuses (tests fd) l h = choose-refuses (is_some l.handing) l _ h (test-refuses fd l h)
post-refuses pushes l h = push-refuses l.handing l h
post-refuses stops l h = refl

pub posts-refuses :
    (ps : List Post) (l : Loop)
    → l.accepting_new_connections ≡ false
    → (posts ps l).accepting_new_connections ≡ false
unfolding posts
posts-refuses [] l h = h
posts-refuses (p ∷ ps) l h = posts-refuses ps (post p l) (post-refuses p l h)

posts-stopped :
    (ps : List Post) (l : Loop) → l.stop_requested ≡ true → (posts ps l).stop_requested ≡ true
unfolding posts
posts-stopped [] l h = h
posts-stopped (p ∷ ps) l h = posts-stopped ps (post p l) (post-stopped p l h)

posts-append : (ps qs : List Post) (l : Loop) → posts (ps ++ qs) l ≡ posts qs (posts ps l)
unfolding posts
posts-append [] qs l = refl
posts-append (p ∷ ps) qs l = posts-append ps qs (post p l)

pub stop_among : (ps qs : List Post) (l : Loop) → (posts (ps ++ stops ∷ qs) l).stop_requested ≡ true
unfolding posts post request_stop
stop_among ps qs l =
    ap (λ l'. l'.stop_requested) (posts-append ps (stops ∷ qs) l)
    ∙ posts-stopped qs (request_stop (posts ps l)) refl
