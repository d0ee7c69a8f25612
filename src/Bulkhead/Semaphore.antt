-- ===== src/Bulkhead/Semaphore.antt =====
-- What src/bulkhead.rs promises: a counting semaphore whose calls are atomic.
use svc_resillience_rs.Prelude.{
  ℕ, ◌+◌, ◌-◌, Option, none, some, List, [], ◌∷◌, ltb, leb, ◌==◌, if◌then◌else◌,
}

pub data Event : Type 0 where
  admitted refused released : Event

-- What an event makes of the number of permits held; `none` if it may not happen then.
abbrev pub allow : (capacity held : ℕ) → Event → Option ℕ
allow capacity held admitted = if ltb held capacity then some (held + 1) else none
allow capacity held refused = if leb capacity held then some held else none
allow capacity held released = if held == 0 then none else some (held - 1)

abbrev then_replay : Option ℕ → (ℕ → Option ℕ) → Option ℕ
then_replay none next = none
then_replay (some held) next = next held

-- What a sequence of events makes of it.
unfoldable pub replay : (capacity held : ℕ) → List Event → Option ℕ
replay capacity held [] = some held
replay capacity held (e ∷ es) =
    then_replay (allow capacity held e) (λ held'. replay capacity held' es)
