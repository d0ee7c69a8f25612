-- ===== src/Registry/Arranged.antt =====
-- src/resource_registry.rs: what a step leaves where it is.
use svc_resillience_rs.Prelude.{
  ℕ, ◌+◌, ◌*◌, ◌<◌, ◌≡◌, ◌≢◌, refl, ◌∙◌, inl, inr, List, [], ◌∷◌, arith, get_elem?, length,
  length-append, Option-cases,
}
use svc_resillience_rs.Route.{RouteId}
use svc_resillience_rs.Registry.{
  RouteResourceRegistry, Cell, Arc, resources_new, get, insert_new, or_insert, retire, primary_arc,
  shadow_arc, written, use_primary, use_shadow, Step, creating, retiring, primary_call, shadow_call,
  perform, perform_all,
}
use svc_resillience_rs.Registry.Layout.{
  offset, LaidOut, SetAt-LaidOut, LaidOut-append, get_elem?-append, resources_new-SetAt,
  resources_new-keeps, length-written, get_elem?-written,
}

abbrev pub IsArranged : RouteResourceRegistry → Type 0
IsArranged r = LaidOut 0 r.heap × (length r.memory ≡ 6 * length r.heap)

-- A step that does not write at an address.
abbrev pub Spares : Arc → Step → Type 0
Spares b (primary_call handle part change) = 6 * handle + offset part ≢ b
Spares b (shadow_call handle part change) = 6 * handle + 3 + offset part ≢ b
Spares b _ = Unit

pub record Kept (r : RouteResourceRegistry) (a : ℕ) (s : Step) (r' : RouteResourceRegistry)
    : Type 0 where
  pub arranged : IsArranged r'
  pub present : a < length r.heap → a < length r'.heap
  pub set_is : a < length r.heap → get_elem? r'.heap a ≡ get_elem? r.heap a
  pub cells :
      (b : Arc) → b < length r.memory → Spares b s → get_elem? r'.memory b ≡ get_elem? r.memory b

insert_new-Kept :
    (r : RouteResourceRegistry) (id : RouteId) (a : ℕ)
    → IsArranged r
    → Kept r a (creating id) (insert_new r id).0
unfolding insert_new
insert_new-Kept r id a v =
    let made = resources_new r.primary_policy r.shadow_policy r.memory in
    let at = resources_new-SetAt r.primary_policy r.shadow_policy r.memory in
    let more = resources_new-keeps r.primary_policy r.shadow_policy r.memory in
    let grown = length-append r.heap (made.0 ∷ []) in
    record {
      arranged = (
        LaidOut-append 0 r.heap made.0 v.0
            (λ part. (omega (arith, (at part).0, v.1), omega (arith, (at part).1, v.1))),
        omega (arith, more.0, grown, v.1),
      );
      present = λ l. omega (arith, grown, l);
      set_is = λ l. get_elem?-append r.heap (made.0 ∷ []) a l;
      cells = λ b h k. more.1 b h;
    }

same-Kept : (r : RouteResourceRegistry) (a : ℕ) (s : Step) → IsArranged r → Kept r a s r
same-Kept r a s v = record {
  arranged = v;
  present = λ l. l;
  set_is = λ l. refl;
  cells = λ b h k. refl;
}

written-Kept :
    (r : RouteResourceRegistry) (a : ℕ) (s : Step) (arc : Arc) (change : Cell → Cell)
    → IsArranged r
    → ((b : Arc) → Spares b s → arc ≢ b)
    → Kept r a s (record r { memory = written r.memory arc change })
written-Kept r a s arc change v k = record {
  arranged = (v.0, length-written r.memory arc change ∙ v.1);
  present = λ l. l;
  set_is = λ l. refl;
  cells = λ b h spared. get_elem?-written r.memory arc b change (k b spared);
}

pub perform-Kept :
    (r : RouteResourceRegistry) (a : ℕ) (s : Step) → IsArranged r → Kept r a s (perform r s)
unfolding perform or_insert retire use_primary use_shadow
perform-Kept r a (creating id) v = elim (Option-cases (get r id)) [
  | inr (x, e) ↦ rw (e, perform, or_insert) (same-Kept r a (creating id) v)
  | inl e ↦ rw (e, perform, or_insert) (insert_new-Kept r id a v)
]
perform-Kept r a (retiring id) v = record {
  arranged = v;
  present = λ l. l;
  set_is = λ l. refl;
  cells = λ b h k. refl;
}
perform-Kept r a (primary_call handle part change) v =
    elim (Option-cases (get_elem? r.heap handle)) [
      | inl e ↦ rw (e, perform, use_primary) (same-Kept r a _ v)
      | inr (w, e) ↦
          rw (e, perform, use_primary)
            (written-Kept r a _ (primary_arc part w.primary) change v
              (λ b k same. k (omega (arith, same, (SetAt-LaidOut 0 r.heap handle w v.0 e part).0))))
    ]
perform-Kept r a (shadow_call handle part change) v =
    elim (Option-cases (get_elem? r.heap handle)) [
      | inl e ↦ rw (e, perform, use_shadow) (same-Kept r a _ v)
      | inr (w, e) ↦
          rw (e, perform, use_shadow)
            (written-Kept r a _ (shadow_arc part w.shadow) change v
              (λ b k same. k (omega (arith, same, (SetAt-LaidOut 0 r.heap handle w v.0 e part).1))))
    ]

pub perform_all-IsArranged :
    (r : RouteResourceRegistry) (steps : List Step)
    → IsArranged r
    → IsArranged (perform_all r steps)
unfolding perform_all
perform_all-IsArranged r [] v = v
perform_all-IsArranged r (s ∷ rest) v =
    perform_all-IsArranged (perform r s) rest (perform-Kept r 0 s v).arranged
