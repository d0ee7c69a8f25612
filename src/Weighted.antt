-- ===== src/Weighted.antt =====
-- The walk of a draw down a list of weighted routes (src/routing.rs, src/eligibility.rs,
-- src/shadow.rs), and how many draws reach a route.
pub mod Filtered
use svc_resillience_rs.Prelude.{
  ℕ, zero, suc, ◌+◌, ◌-◌, ◌≤◌, ◌<◌, ◌≡◌, refl, ap, sym, ◌∙◌, Bool, true, false, Option, none, some,
  List, [], ◌∷◌, ◌++◌, arith, leb, ltb, if◌then◌else◌, checked_add_u64, u64_max, Exec, done,
  panicked, count_below, In, here, there, dec_lt, le→ltb_false,
}
use svc_resillience_rs.Route.{RouteId, Route, same_id}

abbrev pub total : List Route → ℕ
total [] = 0
total (r ∷ rs) = r.weight + total rs

-- The loop `if cursor < weight { return route } cursor -= weight`, and `unreachable!` after it.
unfoldable pub walk : ℕ → List Route → Exec Route
walk cursor [] = panicked
walk cursor (r ∷ rs) =
    let rest = walk (cursor - r.weight) rs in if ltb cursor r.weight then done r else rest

-- `try_fold` with `checked_add` over the weights.
unfoldable pub checked_total : ℕ → List Route → Option ℕ
checked_total sum [] = some sum
checked_total sum (r ∷ rs) = elim (checked_add_u64 sum r.weight) [
  | none ↦ none
  | some sum' ↦ checked_total sum' rs
]

pub checked_total-eq :
    (sum : ℕ) (rs : List Route)
    → sum + total rs ≤ u64_max
    → checked_total sum rs ≡ some (sum + total rs)
unfolding checked_total
checked_total-eq sum [] h = ground arith
checked_total-eq sum (r ∷ rs) h = ground (arith, checked_total-eq (sum + r.weight) rs)

pub checked_total_overflow :
    (sum : ℕ) (rs : List Route)
    → sum ≤ u64_max
    → u64_max < sum + total rs
    → checked_total sum rs ≡ none
unfolding checked_total
checked_total_overflow sum [] b h = absurd (omega arith)
checked_total_overflow sum (r ∷ rs) b h = ground (arith, checked_total_overflow (sum + r.weight) rs)

-- The route that a draw falls on.
pub record Lands (cursor : ℕ) (rs : List Route) : Type 0 where
  pub before : List Route
  pub route : Route
  pub after : List Route
  pub splits : rs ≡ before ++ route ∷ after
  pub reached : walk cursor rs ≡ done route
  pub from : total before ≤ cursor
  pub to : cursor < total before + route.weight

pub walk-Lands : (cursor : ℕ) (rs : List Route) → cursor < total rs → Lands cursor rs
unfolding walk
walk-Lands cursor [] h = elim h [ ]
walk-Lands cursor (r ∷ rs) h = elim (dec_lt cursor r.weight) [
  | yes l ↦ record {
    before = [];
    route = r;
    after = rs;
    splits = refl;
    reached = ground arith;
    from = omega arith;
    to = omega arith;
  }
  | no l ↦
      let t : Lands (cursor - r.weight) rs = walk-Lands (cursor - r.weight) rs (omega arith) in
      record {
        before = r ∷ t.before;
        route = t.route;
        after = t.after;
        splits = ap (◌∷◌ r) t.splits;
        reached = ground (arith, t.reached);
        from = omega (arith, t.from);
        to = omega (arith, t.from, t.to);
      }
]

count_below-add :
    (a b : ℕ) (p : ℕ → Bool)
    → count_below (b + a) p ≡ count_below a p + count_below b (λ c. p (c + a))
count_below-add a zero p = ground arith
count_below-add a (suc b) p =
    let e : suc b + a ≡ suc (b + a) = omega arith in rw e (omega (arith, count_below-add a b p))

pub count_below-ext :
    (n : ℕ) (p q : ℕ → Bool) → ((c : ℕ) → c < n → p c ≡ q c) → count_below n p ≡ count_below n q
count_below-ext zero p q h = refl
count_below-ext (suc n) p q h =
    ground (arith, h n (omega arith), count_below-ext n p q (λ c l. h c (omega arith)))

count_below-const : (n : ℕ) (b : Bool) → count_below n (λ c. b) ≡ (if b then n else 0)
count_below-const zero b = ground arith
count_below-const (suc n) b = ground (arith, count_below-const n b)

abbrev pub picks : RouteId → Exec Route → Bool
picks i panicked = false
picks i (done r) = same_id r.id i

abbrev pub weight_of : RouteId → List Route → ℕ
weight_of i [] = 0
weight_of i (r ∷ rs) = (if same_id r.id i then r.weight else 0) + weight_of i rs

walk_here :
    (i : RouteId) (r : Route) (rs : List Route) (c : ℕ)
    → c < r.weight
    → picks i (walk c (r ∷ rs)) ≡ same_id r.id i
unfolding walk
walk_here i r rs c l = ground arith

walk_there :
    (i : RouteId) (r : Route) (rs : List Route) (c : ℕ)
    → c < total rs
    → picks i (walk (c + r.weight) (r ∷ rs)) ≡ picks i (walk c rs)
unfolding walk
walk_there i r rs c l =
    let same : c + r.weight - r.weight ≡ c = omega arith in
    rw (same, le→ltb_false (c + r.weight) r.weight (omega arith))

-- Of the draws below the total, as many reach an identifier as it has weight.
pub walk-weight :
    (i : RouteId) (rs : List Route)
    → count_below (total rs) (λ c. picks i (walk c rs)) ≡ weight_of i rs
unfolding walk
walk-weight i [] = refl
walk-weight i (r ∷ rs) =
    let swapped : r.weight + total rs ≡ total rs + r.weight = omega arith in
    rw swapped (
      omega (
        arith,
        count_below-add r.weight (total rs) (λ c. picks i (walk c (r ∷ rs))),
        count_below-ext r.weight (λ c. picks i (walk c (r ∷ rs))) (λ c. same_id r.id i)
            (walk_here i r rs),
        count_below-const r.weight (same_id r.id i),
        count_below-ext (total rs) (λ c. picks i (walk (c + r.weight) (r ∷ rs)))
            (λ c. picks i (walk c rs)) (walk_there i r rs),
        walk-weight i rs,
      ))

-- Every route that has weight is reached by some draw.
pub walk-reaches :
    (r : Route) (rs : List Route)
    → In r rs
    → 0 < r.weight
    → (c : ℕ) × (c < total rs) × (walk c rs ≡ done r)
unfolding walk
walk-reaches r [] m w = elim m [ ]
walk-reaches r (q ∷ rs) (here e) w = (0, rw (← e) (omega arith), rw (← e) (ground arith))
walk-reaches r (q ∷ rs) (there m) w =
    let (c, l, reached) = walk-reaches r rs m w in
    (
      c + q.weight,
      omega (arith, l),
      let same : c + q.weight - q.weight ≡ c = omega arith in
          rw (same, le→ltb_false (c + q.weight) q.weight (omega arith)) reached,
    )
