-- ===== src/Route/Sets.antt =====
-- src/routing.rs: the sets of identifiers as sets: their order does not matter, and their length is
-- the number of members.
use svc_resillience_rs.Prelude.{
  ◌+◌, ◌≤◌, ◌≡◌, ap, true, false, [], ◌∷◌, arith, length, if◌then◌else◌,
}
use svc_resillience_rs.Route.{RouteId, IdSet, contains, insert, same_id}
use svc_resillience_rs.Route.Ids.{same_id_iff, same_id_refl}

abbrev pub DistinctIds : IdSet → Type 0
DistinctIds [] = Unit
DistinctIds (i ∷ is) = (contains is i ≡ false) × DistinctIds is

pub contains-insert : (s : IdSet) (i j : RouteId) → contains (insert s i).0 j ≡ contains (i ∷ s) j
unfolding insert
contains-insert s i j = ground (arith, same_id_iff i j)

-- Every identifier of the first list is in the second.
abbrev pub Within : IdSet → IdSet → Type 0
Within xs ys = (i : RouteId) → contains xs i ≡ true → contains ys i ≡ true

abbrev erase : RouteId → IdSet → IdSet
erase x [] = []
erase x (y ∷ ys) = if same_id y x then ys else y ∷ erase x ys

length-erase :
    (x : RouteId) (ys : IdSet) → contains ys x ≡ true → length (erase x ys) + 1 ≡ length ys
unfolding contains
length-erase x [] h = cc
length-erase x (y ∷ ys) h = ground (arith, length-erase x ys)

contains-erase :
    (x : RouteId) (ys : IdSet) (i : RouteId)
    → same_id x i ≡ false
    → contains ys i ≡ true
    → contains (erase x ys) i ≡ true
unfolding contains
contains-erase x [] i n h = h
contains-erase x (y ∷ ys) i n h =
    ground (arith, contains-erase x ys i n, same_id_iff y x, ap (λ j. same_id j i))

new_member :
    (x i : RouteId) (xs : IdSet)
    → contains xs x ≡ false
    → contains xs i ≡ true
    → same_id x i ≡ false
new_member x i xs n m = ground (arith, same_id_iff x i, ap (contains xs))

-- A list without repetitions is no longer than a list that has all its members.
pub length-Within : (xs ys : IdSet) → DistinctIds xs → Within xs ys → length xs ≤ length ys
unfolding contains
length-Within [] ys d w = omega arith
length-Within (x ∷ xs) ys d w =
    let rest : Within xs (erase x ys) =
      λ i m. contains-erase x ys i (new_member x i xs d.0 m) (w i (ground arith)) in
    omega (
      arith,
      length-Within xs (erase x ys) d.1 rest,
      length-erase x ys (w x (ground (arith, same_id_refl x))),
    )
