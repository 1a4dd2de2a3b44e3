-- ===== src/Http/Router/Routes.antt =====
-- The routes that `add_routes` of src/service/http/router.hpp puts.
use lingdong.Prelude.{
  ℕ, ◌≡◌, ◌≢◌, refl, ap, sym, subst, ◌∙◌, true, false, List, [], ◌∷◌, Bytes, bytes_eq, bytes_eq_iff,
  some, arith, All, Bool-cases, inl, inr,
}
use lingdong.Prelude.Map.{lookup, insert, contains, lookup-insert, lookup-insert_ne}
use lingdong.Http.Router.{RouteHandler, add_routes}

lookup-contains :
    (k : Bytes) (m : List (Bytes × RouteHandler)) {h : RouteHandler}
    → lookup k m ≡ some h
    → contains k m ≡ true
unfolding lookup contains
lookup-contains k [] e = cc
lookup-contains k ((j, v) ∷ m) e = elim (Bool-cases (bytes_eq j k)) [
  | inl c ↦ rw c refl
  | inr c ↦ rw c (lookup-contains k m (rw c at e))
]

-- A path that is not there differs from one that is.
ne-of :
    (path k : Bytes) (m : List (Bytes × RouteHandler)) {h : RouteHandler}
    → contains path m ≡ false
    → lookup k m ≡ some h
    → path ≢ k
ne-of path k m c e same =
    let found = lookup-contains path m (ap (λ p. lookup p m) same ∙ e) in
    absurd (ground (arith, found, c))

lookup-insert_self :
    (k : Bytes) (h : RouteHandler) (m : List (Bytes × RouteHandler))
    → lookup k (insert k h m) ≡ some h
lookup-insert_self k h m = lookup-insert k k h m ∙ rw ((bytes_eq_iff k k).1 refl) refl

-- What was there stays.
add_routes-kept :
    (routes : List ((ℕ × Bytes) × RouteHandler)) (m : List (Bytes × RouteHandler)) (k : Bytes)
    {h : RouteHandler}
    → lookup k m ≡ some h
    → lookup k (add_routes routes m).1 ≡ some h
unfolding add_routes
add_routes-kept [] m k e = e
add_routes-kept (((method, path), handler) ∷ routes) m k e = elim (Bool-cases (contains path m)) [
  | inl c ↦ rw c e
  | inr c ↦ rw c (
      add_routes-kept routes (insert path handler m) k
        (lookup-insert_ne path k handler m (ne-of path k m c e) ∙ e))
]

abbrev pub Added : List (Bytes × RouteHandler) → (ℕ × Bytes) × RouteHandler → Type 0
Added m (action_path, handler) = lookup action_path.1 m ≡ some handler

-- If `add_routes` returns true, each path that it was given has the handler given with it, and
-- each path that was there before has still its own.
pub add_routes-Added :
    (routes : List ((ℕ × Bytes) × RouteHandler)) (m : List (Bytes × RouteHandler))
    → (add_routes routes m).0 ≡ true
    → All (Added (add_routes routes m).1) routes
      × ((k : Bytes) (h : RouteHandler)
          → lookup k m ≡ some h
          → lookup k (add_routes routes m).1 ≡ some h)
unfolding add_routes
add_routes-Added [] m e = (tt, λ k h l. l)
add_routes-Added (((method, path), handler) ∷ routes) m e = elim (Bool-cases (contains path m)) [
  | inl c ↦ absurd (ground (arith, rw c at e))
  | inr c ↦
      let (added, kept) = add_routes-Added routes (insert path handler m) (rw c at e) in
      let step : add_routes (((method, path), handler) ∷ routes) m
          ≡ add_routes routes (insert path handler m) =
        rw c refl in
      subst
        (λ r.
          All (Added r.1) (((method, path), handler) ∷ routes)
          × ((k : Bytes) (h : RouteHandler) → lookup k m ≡ some h → lookup k r.1 ≡ some h))
        (sym step)
        (
          (kept path handler (lookup-insert_self path handler m), added),
          λ k h l. kept k h (lookup-insert_ne path k handler m (ne-of path k m c l) ∙ l),
        )
]
