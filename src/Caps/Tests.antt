-- ===== src/Caps/Tests.antt =====
-- Runs of the capability environment with numbers for the states.
use gicel.Prelude.{ℕ, ◌<◌, ◌≡◌, refl, false, some, List, [], ◌∷◌, length, arith}
use gicel.Prelude.Bytes.{Bytes}
use gicel.Caps.{Heap, CapEnv, no_caps, map_at, map_set, mark_shared, cap_get, cap_set}
use gicel.Caps.Isolation.{Write, set_label, delete_label, run, apply_all, mark_shared_isolates}

abbrev fail_label : Bytes
fail_label = b'f' ∷ []

abbrev state_label : Bytes
state_label = b's' ∷ []

abbrev heap : Heap ℕ
heap = map_set state_label 7 no_caps ∷ []

abbrev env : CapEnv
env = record { caps = some 0; shared = false }

abbrev writes : List (Write ℕ)
writes = set_label fail_label 1 ∷ delete_label state_label ∷ []

-- A write through a handle that is not shared is seen at its map.
written_in_place : map_at (cap_set heap env state_label 8).1 0 state_label ≡ some 8
unfolding cap_set
written_in_place = refl

mark_shared_isolates_example :
    let (c', h') = run heap (mark_shared env) writes in
    ((label : Bytes) → cap_get h' c' label ≡ apply_all writes (cap_get heap env) label)
    × ((a : ℕ) → a < length heap → map_at h' a ≡ map_at heap a)
mark_shared_isolates_example = mark_shared_isolates heap env writes (omega arith)
