-- ===== src/Registry/Layout.antt =====
-- src/resource_registry.rs: where the resources of the sets lie in memory.
use svc_resillience_rs.Prelude.{
  ℕ, zero, suc, ◌+◌, ◌*◌, ◌<◌, ◌≡◌, ◌≢◌, refl, ap, sym, ◌∙◌, inl, inr, some, List, [], ◌∷◌, ◌++◌,
  arith, get_elem?, length, length-set, length-append, get_elem?-set_ne, Option-cases,
}
use svc_resillience_rs.Registry.{
  RouteResourcePolicy, RouteResources, Cell, Arc, Memory, breaker_of, bulkhead_of, budget_of,
  primary_new, shadow_new, resources_new, Part, breaker_part, bulkhead_part, budget_part,
  primary_arc, shadow_arc, written,
}

abbrev pub offset : Part → ℕ
offset breaker_part = 0
offset bulkhead_part = 1
offset budget_part = 2

-- The six resources of a set, from an address on.
abbrev pub SetAt : ℕ → RouteResources → Type 0
SetAt n v =
    (part : Part)
    → (primary_arc part v.primary ≡ n + offset part)
      × (shadow_arc part v.shadow ≡ n + 3 + offset part)

abbrev pub LaidOut : ℕ → List RouteResources → Type 0
LaidOut n [] = Unit
LaidOut n (v ∷ vs) = SetAt n v × LaidOut (n + 6) vs

pub SetAt-LaidOut :
    (n : ℕ) (vs : List RouteResources) (k : ℕ) (v : RouteResources)
    → LaidOut n vs
    → get_elem? vs k ≡ some v
    → SetAt (n + 6 * k) v
SetAt-LaidOut n [] k v l e part = cc
SetAt-LaidOut n (x ∷ xs) zero v l e part =
    let same : x ≡ v = cc in
    (
      ap (λ w. primary_arc part w.primary) (sym same) ∙ (l.0 part).0 ∙ omega arith,
      ap (λ w. shadow_arc part w.shadow) (sym same) ∙ (l.0 part).1 ∙ omega arith,
    )
SetAt-LaidOut n (x ∷ xs) (suc k) v l e part =
    let ih = SetAt-LaidOut (n + 6) xs k v l.1 e part in (omega (arith, ih.0), omega (arith, ih.1))

pub LaidOut-append :
    (n : ℕ) (vs : List RouteResources) (v : RouteResources)
    → LaidOut n vs
    → SetAt (n + 6 * length vs) v
    → LaidOut n (vs ++ v ∷ [])
LaidOut-append n [] v l h = (λ part. (omega (arith, (h part).0), omega (arith, (h part).1)), tt)
LaidOut-append n (x ∷ xs) v l h = (
  l.0,
  LaidOut-append (n + 6) xs v l.1 (λ part. (omega (arith, (h part).0), omega (arith, (h part).1))),
)

pub get_elem?-append :
    {A : Type 0} (xs ys : List A) (a : ℕ) → a < length xs → get_elem? (xs ++ ys) a ≡ get_elem? xs a
get_elem?-append [] ys a h = elim h [ ]
get_elem?-append (x ∷ xs) ys zero h = refl
get_elem?-append (x ∷ xs) ys (suc a) h = get_elem?-append xs ys a (omega arith)

-- Three allocations, one after the other.
abbrev three : Memory → Cell → Cell → Cell → Memory
three m c d e = ((m ++ c ∷ []) ++ d ∷ []) ++ e ∷ []

length-three : (m : Memory) (c d e : Cell) → length (three m c d e) ≡ length m + 3
length-three m c d e = omega (
  arith,
  length-append m (c ∷ []),
  length-append (m ++ c ∷ []) (d ∷ []),
  length-append ((m ++ c ∷ []) ++ d ∷ []) (e ∷ []),
)

get_elem?-three :
    (m : Memory) (c d e : Cell) (a : ℕ) → a < length m → get_elem? (three m c d e) a ≡ get_elem? m a
get_elem?-three m c d e a l =
    let one = length-append m (c ∷ []) in
    let two = length-append (m ++ c ∷ []) (d ∷ []) in
    get_elem?-append ((m ++ c ∷ []) ++ d ∷ []) (e ∷ []) a (omega (arith, one, two))
    ∙ get_elem?-append (m ++ c ∷ []) (d ∷ []) a (omega (arith, one))
    ∙ get_elem?-append m (c ∷ []) a l

primary_new-arcs :
    (p : RouteResourcePolicy) (m : Memory) (part : Part)
    → primary_arc part (primary_new p m).0 ≡ length m + offset part
unfolding primary_new
primary_new-arcs p m breaker_part = omega arith
primary_new-arcs p m bulkhead_part = length-append m (breaker_of p ∷ [])
primary_new-arcs p m budget_part = omega (
  arith,
  length-append m (breaker_of p ∷ []),
  length-append (m ++ breaker_of p ∷ []) (bulkhead_of p ∷ []),
)

shadow_new-arcs :
    (p : RouteResourcePolicy) (m : Memory) (part : Part)
    → shadow_arc part (shadow_new p m).0 ≡ length m + offset part
unfolding shadow_new
shadow_new-arcs p m breaker_part = omega arith
shadow_new-arcs p m bulkhead_part = length-append m (breaker_of p ∷ [])
shadow_new-arcs p m budget_part = omega (
  arith,
  length-append m (breaker_of p ∷ []),
  length-append (m ++ breaker_of p ∷ []) (bulkhead_of p ∷ []),
)

primary_new-memory :
    (p : RouteResourcePolicy) (m : Memory)
    → (primary_new p m).1 ≡ three m (breaker_of p) (bulkhead_of p) (budget_of p)
unfolding primary_new
primary_new-memory p m = refl

shadow_new-memory :
    (p : RouteResourcePolicy) (m : Memory)
    → (shadow_new p m).1 ≡ three m (breaker_of p) (bulkhead_of p) (budget_of p)
unfolding shadow_new
shadow_new-memory p m = refl

-- A new set takes the next six addresses.
pub resources_new-SetAt :
    (p q : RouteResourcePolicy) (m : Memory) → SetAt (length m) (resources_new p q m).0
unfolding resources_new
resources_new-SetAt p q m part = (
  primary_new-arcs p m part,
  shadow_new-arcs q (primary_new p m).1 part
      ∙ omega (
        arith,
        ap length (primary_new-memory p m),
        length-three m (breaker_of p) (bulkhead_of p) (budget_of p),
      ),
)

resources_new-memory :
    (p q : RouteResourcePolicy) (m : Memory)
    → (resources_new p q m).1
      ≡ three
          (three m (breaker_of p) (bulkhead_of p) (budget_of p))
          (breaker_of q)
          (bulkhead_of q)
          (budget_of q)
unfolding resources_new
resources_new-memory p q m =
    shadow_new-memory q (primary_new p m).1
    ∙ ap (λ n. three n (breaker_of q) (bulkhead_of q) (budget_of q)) (primary_new-memory p m)

pub resources_new-keeps :
    (p q : RouteResourcePolicy) (m : Memory)
    → (length (resources_new p q m).1 ≡ length m + 6)
      × ((a : ℕ) → a < length m → get_elem? (resources_new p q m).1 a ≡ get_elem? m a)
resources_new-keeps p q m =
    let half : Memory = three m (breaker_of p) (bulkhead_of p) (budget_of p) in
    let first = length-three m (breaker_of p) (bulkhead_of p) (budget_of p) in
    rw (resources_new-memory p q m) (
      omega (arith, first, length-three half (breaker_of q) (bulkhead_of q) (budget_of q)),
      λ a l.
          get_elem?-three half (breaker_of q) (bulkhead_of q) (budget_of q) a (omega (arith, first))
          ∙ get_elem?-three m (breaker_of p) (bulkhead_of p) (budget_of p) a l,
    )

pub length-written :
    (m : Memory) (a : Arc) (change : Cell → Cell) → length (written m a change) ≡ length m
unfolding written
length-written m a change = elim (Option-cases (get_elem? m a)) [
  | inl e ↦ ground arith
  | inr (c, e) ↦ ground (arith, length-set m a (change c))
]

pub get_elem?-written :
    (m : Memory) (a b : Arc) (change : Cell → Cell)
    → a ≢ b
    → get_elem? (written m a change) b ≡ get_elem? m b
unfolding written
get_elem?-written m a b change n = elim (Option-cases (get_elem? m a)) [
  | inl e ↦ ground arith
  | inr (c, e) ↦ ground (arith, get_elem?-set_ne m a b (change c) n)
]
