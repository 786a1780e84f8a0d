-- ===== src/Tracker/Service/Rounds.antt =====
-- What the thread that serves the clients does to arrivals that come in several parts.
use p2p_file_share.Base.{ℕ, ◌≡◌, refl, List, [], ◌∷◌, ◌++◌, Checked, ok, throws}
use p2p_file_share.Tracker.Server.{Setting}
use p2p_file_share.Tracker.Service.{Arrival, Service, serve, serve_all}

before-go :
    (s : Service) (r : Checked (Unit {0})) (rest all : Service × Checked (Unit {0}))
    → (elim r as (λ _. Service × Checked (Unit {0})) [ throws e ↦ (s, throws e) | ok _ ↦ all ]).1
      ≡ ok tt
    → (all.1 ≡ ok tt → rest.1 ≡ ok tt)
    → (elim r as (λ _. Service × Checked (Unit {0})) [ throws e ↦ (s, throws e) | ok _ ↦ rest ]).1
      ≡ ok tt
before-go s (ok _) rest all h k = k h
before-go s (throws e) rest all h k = h

-- If no exception leaves the thread, none leaves it before.
pub serve_all-before :
    (g : Setting) (unset n : ℕ) (xs ys : List Arrival) (s : Service)
    → (serve_all g unset n (xs ++ ys) s).1 ≡ ok tt
    → (serve_all g unset n xs s).1 ≡ ok tt
unfolding serve_all
serve_all-before g unset n [] ys s h = refl
serve_all-before g unset n (a ∷ xs) ys s h =
    let (s', r) = serve g unset n a s in
    before-go s' r (serve_all g unset n xs s') (serve_all g unset n (xs ++ ys) s') h
      (serve_all-before g unset n xs ys s')

after-go :
    (g : Setting) (unset n : ℕ) (ys : List Arrival) (s : Service) (r : Checked (Unit {0}))
    (rest all : Service × Checked (Unit {0}))
    → (elim r as (λ _. Service × Checked (Unit {0})) [ throws e ↦ (s, throws e) | ok _ ↦ rest ]).1
      ≡ ok tt
    → (rest.1 ≡ ok tt → all ≡ serve_all g unset n ys rest.0)
    → (elim r as (λ _. Service × Checked (Unit {0})) [ throws e ↦ (s, throws e) | ok _ ↦ all ])
      ≡ serve_all g unset n ys
          (elim r as (λ _. Service × Checked (Unit {0})) [
            | throws e ↦ (s, throws e)
            | ok _ ↦ rest
          ]).0
after-go g unset n ys s (ok _) rest all h k = k h
after-go g unset n ys s (throws e) rest all h k = cc h

-- Arrivals in two parts are served one part after the other.
pub serve_all-append :
    (g : Setting) (unset n : ℕ) (xs ys : List Arrival) (s : Service)
    → (serve_all g unset n xs s).1 ≡ ok tt
    → serve_all g unset n (xs ++ ys) s ≡ serve_all g unset n ys (serve_all g unset n xs s).0
unfolding serve_all
serve_all-append g unset n [] ys s h = refl
serve_all-append g unset n (a ∷ xs) ys s h =
    let (s', r) = serve g unset n a s in
    after-go g unset n ys s' r (serve_all g unset n xs s') (serve_all g unset n (xs ++ ys) s') h
      (serve_all-append g unset n xs ys s')
