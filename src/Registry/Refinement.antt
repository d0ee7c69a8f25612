-- ===== src/Registry/Refinement.antt =====
-- src/resource_registry.rs: the registry as a function from routes to sets, with the number of sets
-- made and of the routes that have one.
use svc_resillience_rs.Prelude.{
  ℕ, ◌+◌, ◌-◌, ◌≡◌, refl, subst, ap, sym, ◌∙◌, inl, inr, true, Option, none, some, List, [], ◌∷◌,
  arith, if◌then◌else◌, length, length-append, Option-cases, Bool-cases,
}
use svc_resillience_rs.Route.{RouteId, same_id}
use svc_resillience_rs.Route.Ids.{same_id_iff, same_id_comm}
use svc_resillience_rs.Registry.{
  RouteResourcePolicy, RouteResourceRegistry, RouteResources, resources_new, registry_new, lookup,
  remove, get, insert_new, or_insert, retire, use_primary, use_shadow, len, Step, creating,
  retiring, primary_call, shadow_call, perform, perform_all,
}
use svc_resillience_rs.Registry.Laws.{lookup-remove_other, use_primary-map, use_shadow-map}

pub record Directory : Type 0 where
  pub set_of : RouteId → Option ℕ
  pub sets : ℕ
  pub size : ℕ

abbrev pub empty : Directory
empty = record { set_of = λ i. none; sets = 0; size = 0 }

-- A route that has no set gets the next number.
abbrev pub assigned : Directory → RouteId → Option ℕ → Directory
assigned d id (some a) = d
assigned d id none = record {
  set_of = λ i. if same_id id i then some d.sets else d.set_of i;
  sets = d.sets + 1;
  size = d.size + 1;
}

-- The sets are numbered in the order in which they are made; a route that is retired has none.
abbrev pub direct : Directory → Step → Directory
direct d (creating id) = assigned d id (d.set_of id)
direct d (retiring id) = record d {
  set_of = λ i. if same_id id i then none else d.set_of i;
  size = elim (d.set_of id) [ none ↦ d.size | some a ↦ d.size - 1 ];
}
direct d _ = d

unfoldable pub direct_all : Directory → List Step → Directory
direct_all d [] = d
direct_all d (s ∷ rest) = direct_all (direct d s) rest

-- No route has two pairs in the map.
abbrev OnePair : List (RouteId × ℕ) → Type 0
OnePair [] = Unit
OnePair ((key, handle) ∷ rest) = (lookup rest key ≡ none) × OnePair rest

record Shows (r : RouteResourceRegistry) (d : Directory) : Type 0 where
  set_of : (i : RouteId) → lookup r.routes i ≡ d.set_of i
  sets : length r.heap ≡ d.sets
  size : length r.routes ≡ d.size
  one_pair : OnePair r.routes

lookup-remove :
    (rs : List (RouteId × ℕ)) (id : RouteId) → OnePair rs → lookup (remove rs id) id ≡ none
unfolding lookup remove
lookup-remove [] id o = refl
lookup-remove ((key, handle) ∷ rest) id o =
    ground (arith, lookup-remove rest id o.1, same_id_iff key id)

lookup_retired :
    (rs : List (RouteId × ℕ)) (id i : RouteId)
    → OnePair rs
    → lookup (remove rs id) i ≡ (if same_id id i then none else lookup rs i)
lookup_retired rs id i o = elim (Bool-cases (same_id id i)) [
  | inl h ↦ rw (h, ← (same_id_iff id i).0 h) (lookup-remove rs id o)
  | inr h ↦ rw h (lookup-remove_other rs id i h)
]

length-remove :
    (rs : List (RouteId × ℕ)) (id : RouteId)
    → OnePair rs
    → length rs ≡ length (remove rs id) + elim (lookup rs id) [ none ↦ 0 | some a ↦ 1 ]
unfolding lookup remove
length-remove [] id o = refl
length-remove ((key, handle) ∷ rest) id o =
    let same : same_id key id ≡ true → lookup rest id ≡ none =
      λ e. ap (lookup rest) (sym ((same_id_iff key id).0 e)) ∙ o.0 in
    ground (arith, length-remove rest id o.1, same)

OnePair-remove : (rs : List (RouteId × ℕ)) (id : RouteId) → OnePair rs → OnePair (remove rs id)
unfolding lookup remove
OnePair-remove [] id o = tt
OnePair-remove ((key, handle) ∷ rest) id o = elim (Bool-cases (same_id key id)) [
  | inl h ↦ rw h (OnePair-remove rest id o.1)
  | inr h ↦
      rw h (
        lookup-remove_other rest id key (same_id_comm id key ∙ h) ∙ o.0,
        OnePair-remove rest id o.1,
      )
]

or_insert-Shows :
    (r : RouteResourceRegistry) (d : Directory) (id : RouteId)
    → Shows r d
    → Shows (or_insert r id).0 (assigned d id (d.set_of id))
unfolding or_insert
or_insert-Shows r d id v =
    let found : get r id ≡ d.set_of id = unfold get in v.set_of id in
    elim (Option-cases (d.set_of id)) [
      | inr (a, e) ↦ rw (found ∙ e, e, or_insert) v
      | inl e ↦
          let one : List RouteResources =
            (resources_new r.primary_policy r.shadow_policy r.memory).0 ∷ [] in
          rw (found ∙ e, e, or_insert, insert_new)
            (record {
              set_of = λ i. unfold lookup in ground (arith, v.set_of i, v.sets);
              sets = omega (arith, length-append r.heap one, v.sets);
              size = omega (arith, v.size);
              one_pair = (v.set_of id ∙ e, v.one_pair);
            })
    ]

same_map-Shows :
    (r r' : RouteResourceRegistry) (d : Directory)
    → (r'.routes ≡ r.routes) × (r'.heap ≡ r.heap)
    → Shows r d
    → Shows r' d
same_map-Shows r r' d same v = record {
  set_of = λ i. ap (λ rs. lookup rs i) same.0 ∙ v.set_of i;
  sets = ap length same.1 ∙ v.sets;
  size = ap length same.0 ∙ v.size;
  one_pair = subst OnePair (sym same.0) v.one_pair;
}

perform-Shows :
    (r : RouteResourceRegistry) (d : Directory) (s : Step)
    → Shows r d
    → Shows (perform r s) (direct d s)
unfolding perform retire
perform-Shows r d (creating id) v = or_insert-Shows r d id v
perform-Shows r d (retiring id) v = record {
  set_of = λ i.
      lookup_retired r.routes id i v.one_pair ∙ ap (if◌then◌else◌ (same_id id i) none) (v.set_of i);
  sets = v.sets;
  size = ground (arith, length-remove r.routes id v.one_pair, v.set_of id, v.size);
  one_pair = OnePair-remove r.routes id v.one_pair;
}
perform-Shows r d (primary_call i part change) v =
    same_map-Shows r (use_primary r i part change) d (use_primary-map r i part change) v
perform-Shows r d (shadow_call i part change) v =
    same_map-Shows r (use_shadow r i part change) d (use_shadow-map r i part change) v

perform_all-Shows :
    (r : RouteResourceRegistry) (d : Directory) (steps : List Step)
    → Shows r d
    → Shows (perform_all r steps) (direct_all d steps)
unfolding perform_all direct_all
perform_all-Shows r d [] v = v
perform_all-Shows r d (s ∷ rest) v =
    perform_all-Shows (perform r s) (direct d s) rest (perform-Shows r d s v)

-- A registry is a directory. After any history of creations, retirements and calls on sets, what it
-- gives for any route is what the directory, a function that forgets how the map is kept, gives; as
-- many sets were made as the directory has numbered; and `len` is the number of routes that have one.
pub registry_refines :
    (primary shadow : RouteResourcePolicy) (steps : List Step) (id : RouteId)
    → let r = perform_all (registry_new primary shadow) steps in
      let d = direct_all empty steps in
      (get r id ≡ d.set_of id) × (length r.heap ≡ d.sets) × (len r ≡ d.size)
unfolding get len
registry_refines primary shadow steps id =
    let v = perform_all-Shows (registry_new primary shadow) empty steps (
      unfold registry_new in
      unfold lookup in record { set_of = λ i. refl; sets = refl; size = refl; one_pair = tt }) in
    (v.set_of id, v.sets, v.size)
