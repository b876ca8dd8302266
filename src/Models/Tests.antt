-- ===== src/Models/Tests.antt =====
-- Concrete boxes and identifiers, and the theorems on them.
use penampakan.Base.{ℕ, ◌≡◌, ◌⊎◌, refl, Bool, true, false, none, some}
use penampakan.Base.Ticks.{ticks}
use penampakan.Base.Result.{ok}
use penampakan.Models.Boxes.{Box, IsBox, intersection, intersection_lem}
use penampakan.Models.Ids.{observation_id, observation_sequence, observation_sequence-id}

-- the whole image, in whole numbers
abbrev whole : Box ticks
whole = record { x_min = 0; y_min = 0; x_max = 1; y_max = 1 }

whole-IsBox : IsBox ticks whole
whole-IsBox = record {
  x_min_normal = refl;
  y_min_normal = refl;
  x_max_normal = refl;
  y_max_normal = refl;
  wide = refl;
  high = refl;
}

same_whole : intersection ticks whole whole ≡ ok (some whole)
unfolding intersection
same_whole = refl

intersection_lem_example :
    ((intersection ticks whole whole ≡ ok none) × (◌≡◌ {A = Bool} false true))
    ⊎ ((c : Box ticks) × (intersection ticks whole whole ≡ ok (some c))
        × IsBox ticks c
        × (◌≡◌ {A = ℕ} c.x_min 0)
        × (◌≡◌ {A = ℕ} c.y_min 0)
        × (◌≡◌ {A = ℕ} c.x_max 1)
        × (◌≡◌ {A = ℕ} c.y_max 1))
intersection_lem_example = intersection_lem ticks whole whole whole-IsBox whole-IsBox

observation_sequence-id_example : observation_sequence (observation_id 1234567) ≡ 1234567
observation_sequence-id_example = observation_sequence-id 1234567
