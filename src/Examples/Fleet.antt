-- ===== src/Examples/Fleet.antt =====
-- Ids in the order of their numbers.
use swarmsim.Base.{some, refl, [], ◌∷◌, ◌≡◌}
use swarmsim.Fleet.{sort_ids, second_number}

sort_ids_runs :
    sort_ids ("drone_10" ∷ "drone_2" ∷ "scout" ∷ "drone_1" ∷ [])
    ≡ "drone_1" ∷ "drone_2" ∷ "drone_10" ∷ "scout" ∷ []
unfolding sort_ids
sort_ids_runs = refl

second_number_runs : second_number "drone_12" ≡ some 12
unfolding second_number
second_number_runs = refl
