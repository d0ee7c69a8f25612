-- ===== src/Registry/Isolation.antt =====
-- src/resource_registry.rs: which steps change which half of a set.
use svc_resillience_rs.Prelude.{
  ℕ, zero, suc, ◌+◌, ◌*◌, ◌<◌, ◌≡◌, ◌≢◌, refl, sym, subst, ◌∙◌, Option, none, some, List, [], ◌∷◌,
  arith, get_elem?, length, All,
}
use svc_resillience_rs.Registry.{
  RouteResourcePolicy, RouteResources, RouteResourceRegistry, Cell, registry_new, Part,
  breaker_part, bulkhead_part, budget_part, primary_arc, shadow_arc, Step, creating, retiring,
  primary_call, shadow_call, perform, perform_all,
}
use svc_resillience_rs.Registry.Layout.{offset, SetAt-LaidOut}
use svc_resillience_rs.Registry.Arranged.{IsArranged, Spares, perform-Kept, perform_all-IsArranged}

-- What the primary, or the shadow, half of the set behind a handle holds in a resource.
abbrev pub primary_of : RouteResourceRegistry → ℕ → Part → Option Cell
primary_of r a part = elim (get_elem? r.heap a) [
  | none ↦ none
  | some v ↦ get_elem? r.memory (primary_arc part v.primary)
]

abbrev pub shadow_of : RouteResourceRegistry → ℕ → Part → Option Cell
shadow_of r a part = elim (get_elem? r.heap a) [
  | none ↦ none
  | some v ↦ get_elem? r.memory (shadow_arc part v.shadow)
]

-- A step that is not a primary call, or not a shadow call, on the set behind a handle.
abbrev pub SparesPrimary : ℕ → Step → Type 0
SparesPrimary a (primary_call handle part change) = handle ≢ a
SparesPrimary a _ = Unit

abbrev pub SparesShadow : ℕ → Step → Type 0
SparesShadow a (shadow_call handle part change) = handle ≢ a
SparesShadow a _ = Unit

offset-lt : (part : Part) → offset part < 3
offset-lt breaker_part = omega arith
offset-lt bulkhead_part = omega arith
offset-lt budget_part = omega arith

-- The halves lie apart, so that a call on one never writes at an address of the other.
SparesPrimary-Spares :
    (a : ℕ) (part : Part) (s : Step) → SparesPrimary a s → Spares (6 * a + offset part) s
SparesPrimary-Spares a part (primary_call handle q change) k =
    λ same. k (omega (arith, same, offset-lt part, offset-lt q))
SparesPrimary-Spares a part (shadow_call handle q change) k =
    λ same. omega (arith, same, offset-lt part, offset-lt q)
SparesPrimary-Spares a part (creating id) k = tt
SparesPrimary-Spares a part (retiring id) k = tt

SparesShadow-Spares :
    (a : ℕ) (part : Part) (s : Step) → SparesShadow a s → Spares (6 * a + 3 + offset part) s
SparesShadow-Spares a part (shadow_call handle q change) k =
    λ same. k (omega (arith, same, offset-lt part, offset-lt q))
SparesShadow-Spares a part (primary_call handle q change) k =
    λ same. omega (arith, same, offset-lt part, offset-lt q)
SparesShadow-Spares a part (creating id) k = tt
SparesShadow-Spares a part (retiring id) k = tt

get_elem?-present :
    {A : Type 0} (xs : List A) (a : ℕ) → a < length xs → (x : A) × (get_elem? xs a ≡ some x)
get_elem?-present [] a l = elim l [ ]
get_elem?-present (x ∷ xs) zero l = (x, refl)
get_elem?-present (x ∷ xs) (suc a) l = get_elem?-present xs a (omega arith)

module _ (r : RouteResourceRegistry) (a : ℕ) (v : RouteResources) (e : get_elem? r.heap a ≡ some v)
    (part : Part) where
  primary_of-eq : primary_of r a part ≡ get_elem? r.memory (primary_arc part v.primary)
  primary_of-eq = ground arith

  shadow_of-eq : shadow_of r a part ≡ get_elem? r.memory (shadow_arc part v.shadow)
  shadow_of-eq = ground arith

-- The addresses of a set that is there.
arcs_at :
    (r : RouteResourceRegistry) (a : ℕ) (v : RouteResources) (part : Part)
    → IsArranged r
    → a < length r.heap
    → get_elem? r.heap a ≡ some v
    → ((primary_arc part v.primary ≡ 6 * a + offset part)
        × (primary_arc part v.primary < length r.memory))
      × ((shadow_arc part v.shadow ≡ 6 * a + 3 + offset part)
          × (shadow_arc part v.shadow < length r.memory))
arcs_at r a v part arranged l e =
    let at = SetAt-LaidOut 0 r.heap a v arranged.0 e part in
    let low = offset-lt part in
    (
      (omega (arith, at.0), omega (arith, at.0, arranged.1, l, low)),
      (omega (arith, at.1), omega (arith, at.1, arranged.1, l, low)),
    )

perform-primary_of :
    (r : RouteResourceRegistry) (a : ℕ) (s : Step) (part : Part)
    → IsArranged r
    → a < length r.heap
    → SparesPrimary a s
    → primary_of (perform r s) a part ≡ primary_of r a part
perform-primary_of r a s part arranged l k =
    let kept = perform-Kept r a s arranged in
    let (v, e) = get_elem?-present r.heap a l in
    let (at, inside) = (arcs_at r a v part arranged l e).0 in
    let spared : Spares (primary_arc part v.primary) s =
      subst (λ b. Spares b s) (sym at) (SparesPrimary-Spares a part s k) in
    primary_of-eq (perform r s) a v (kept.set_is l ∙ e) part
    ∙ kept.cells (primary_arc part v.primary) inside spared
    ∙ sym (primary_of-eq r a v e part)

perform-shadow_of :
    (r : RouteResourceRegistry) (a : ℕ) (s : Step) (part : Part)
    → IsArranged r
    → a < length r.heap
    → SparesShadow a s
    → shadow_of (perform r s) a part ≡ shadow_of r a part
perform-shadow_of r a s part arranged l k =
    let kept = perform-Kept r a s arranged in
    let (v, e) = get_elem?-present r.heap a l in
    let (at, inside) = (arcs_at r a v part arranged l e).1 in
    let spared : Spares (shadow_arc part v.shadow) s =
      subst (λ b. Spares b s) (sym at) (SparesShadow-Spares a part s k) in
    shadow_of-eq (perform r s) a v (kept.set_is l ∙ e) part
    ∙ kept.cells (shadow_arc part v.shadow) inside spared
    ∙ sym (shadow_of-eq r a v e part)

primary_kept :
    (r : RouteResourceRegistry) (a : ℕ) (steps : List Step) (part : Part)
    → IsArranged r
    → a < length r.heap
    → All (SparesPrimary a) steps
    → primary_of (perform_all r steps) a part ≡ primary_of r a part
unfolding perform_all
primary_kept r a [] part v l k = refl
primary_kept r a (s ∷ rest) part v l k =
    let one = perform-Kept r a s v in
    primary_kept (perform r s) a rest part one.arranged (one.present l) k.1
    ∙ perform-primary_of r a s part v l k.0

shadow_kept :
    (r : RouteResourceRegistry) (a : ℕ) (steps : List Step) (part : Part)
    → IsArranged r
    → a < length r.heap
    → All (SparesShadow a) steps
    → shadow_of (perform_all r steps) a part ≡ shadow_of r a part
unfolding perform_all
shadow_kept r a [] part v l k = refl
shadow_kept r a (s ∷ rest) part v l k =
    let one = perform-Kept r a s v in
    shadow_kept (perform r s) a rest part one.arranged (one.present l) k.1
    ∙ perform-shadow_of r a s part v l k.0

-- The halves of the sets share nothing. In any history of a registry: what a set's primary breaker,
-- bulkhead and retry budget hold is changed only by primary calls on that set, and what its shadow ones
-- hold only by shadow calls on it, whatever is created, retired or called otherwise.
pub halves_isolated :
    (primary shadow : RouteResourcePolicy) (before no_primary no_shadow : List Step) (a : ℕ)
    (part : Part)
    → a < length (perform_all (registry_new primary shadow) before).heap
    → All (SparesPrimary a) no_primary
    → All (SparesShadow a) no_shadow
    → let r = perform_all (registry_new primary shadow) before in
      (primary_of (perform_all r no_primary) a part ≡ primary_of r a part)
      × (shadow_of (perform_all r no_shadow) a part ≡ shadow_of r a part)
halves_isolated primary shadow before no_primary no_shadow a part l kp ks =
    let r = perform_all (registry_new primary shadow) before in
    let v : IsArranged r =
      perform_all-IsArranged (registry_new primary shadow) before
        (unfold registry_new in (tt, refl)) in
    (primary_kept r a no_primary part v l kp, shadow_kept r a no_shadow part v l ks)
