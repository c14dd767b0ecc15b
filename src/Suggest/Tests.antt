-- ===== src/Suggest/Tests.antt =====
-- Runs of the suggestions, and a witness of the theorem on the edit distance.
use gicel.Prelude.{◌+◌, ◌≤◌, List, [], ◌∷◌, length, some, ◌≡◌, refl}
use gicel.Suggest.{Name, levenshtein, first_row, rows, rest_of_row, name_len, hits_of, suggest}
use gicel.Suggest.Distance.{onto}
use gicel.Suggest.Scripts.{Edit, edit, cost, levenshtein_least}

-- "map", "mp", "mat"
abbrev map_name : Name
map_name = 109 ∷ 97 ∷ 112 ∷ []

abbrev mp_name : Name
mp_name = 109 ∷ 112 ∷ []

abbrev mat_name : Name
mat_name = 109 ∷ 97 ∷ 116 ∷ []

levenshtein_least_example :
    ((s : List Edit) × (edit s (onto [] map_name) ≡ some (onto [] mp_name))
      × (cost s ≡ levenshtein map_name mp_name))
    × ((s : List Edit)
        → edit s (onto [] map_name) ≡ some (onto [] mp_name)
        → levenshtein map_name mp_name ≤ cost s)
    × (length map_name ≤ levenshtein map_name mp_name + length mp_name)
    × (length mp_name ≤ levenshtein map_name mp_name + length map_name)
levenshtein_least_example = levenshtein_least map_name mp_name

two_edits : levenshtein mp_name mat_name ≡ 2
unfolding levenshtein first_row rows rest_of_row
two_edits = refl

-- The nearest first, and the target itself left out.
suggested : suggest map_name (mp_name ∷ mat_name ∷ map_name ∷ []) 1 5 ≡ mat_name ∷ mp_name ∷ []
unfolding suggest hits_of levenshtein first_row rows rest_of_row name_len
suggested = refl

-- A name at distance one of the target is skipped, since it is two bytes longer: "e" and one ideograph.
skipped : suggest (101 ∷ []) ((26085 ∷ []) ∷ []) 1 5 ≡ []
unfolding suggest hits_of levenshtein first_row rows rest_of_row name_len
skipped = refl

skipped_distance : levenshtein (101 ∷ []) (26085 ∷ []) ≡ 1
unfolding levenshtein first_row rows rest_of_row
skipped_distance = refl
