-- ===== src/Fleet.antt =====
-- Drone ids and the orders in which the code lists them: `_id_order` of supervisor.py, and the
-- `int(d.split("_")[1])` of mission_planning.py and swarm_state.py. Ids are ASCII texts.
pub mod Sorting
use swarmsim.Errors.{Error, id_not_a_number, id_without_part}
use Prim.Native.Char.{code}
use swarmsim.Base.{
  ℕ, ◌+◌, ◌*◌, ◌-◌, ◌^◌, ◌≡◌, refl, Bool, true, false, ◌&&◌, ◌||◌, Option, none, some, List, [],
  ◌∷◌, ◌++◌, String, num_eq, ltb, leb, if◌then◌else◌, is_some,
}

abbrev pub codes : String → List ℕ
codes String.[] = []
codes (String.◌∷◌ c s) = code c ∷ codes s

-- `text.rsplit("_", 1)[-1]`: what follows the last underscore, or the whole text. `seen` is what
-- follows the last underscore so far.
last_part : List ℕ → List ℕ → List ℕ
last_part seen [] = seen
last_part seen (c ∷ cs) = last_part (if num_eq c b'_' then [] else (seen ++ c ∷ [])) cs

-- `text.split("_")[1]`: what stands between the first underscore and the next; none where there
-- is no underscore.
until_underscore : List ℕ → List ℕ
until_underscore [] = []
until_underscore (c ∷ cs) = let rest = until_underscore cs in if num_eq c b'_' then [] else c ∷ rest

second_part : List ℕ → Option (List ℕ)
second_part [] = none
second_part (c ∷ cs) =
    let rest = second_part cs in if num_eq c b'_' then some (until_underscore cs) else rest

is_digit : ℕ → Bool
is_digit c = leb b'0' c && leb c b'9'

-- `text.isdigit()`
all_digits : List ℕ → Bool
all_digits [] = true
all_digits (c ∷ cs) = is_digit c && all_digits cs

is_digits : List ℕ → Bool
unfolding all_digits is_digit
is_digits [] = false
is_digits (c ∷ cs) = all_digits (c ∷ cs)

decimal : ℕ → List ℕ → ℕ
decimal acc [] = acc
decimal acc (c ∷ cs) = decimal (acc * 10 + (c - b'0')) cs

-- `int(text)`, where the text is of digits. The spaces, sign and underscores between digits that
-- `int` also takes are left out: no id of the swarm has them there.
int_of : List ℕ → Option ℕ
unfolding is_digits decimal
int_of cs = if is_digits cs then some (decimal 0 cs) else none

-- `_id_order(drone)[0]`
pub id_number : String → ℕ
unfolding int_of last_part
id_number drone = elim (int_of (last_part [] (codes drone))) [ some n ↦ n | none ↦ 2 ^ 30 ]

-- `int(drone.split("_")[1])`; none where it raises.
unfoldable pub second_number : String → Option ℕ
unfolding int_of second_part until_underscore
second_number drone = elim (second_part (codes drone)) [ none ↦ none | some part ↦ int_of part ]

-- What `int(drone.split("_")[1])` raises, where it does.
unfoldable pub number_error : String → Error
unfolding second_part until_underscore
number_error drone =
    if is_some (second_part (codes drone)) then id_not_a_number else id_without_part

-- `a <= b` on texts, by code points.
text_leb : List ℕ → List ℕ → Bool
text_leb [] _ = true
text_leb (a ∷ as') [] = false
text_leb (a ∷ as') (b ∷ bs) = ltb a b || (num_eq a b && text_leb as' bs)

-- `_id_order(a) <= _id_order(b)`
unfoldable pub id_leb : String → String → Bool
unfolding id_number text_leb
id_leb a b =
    ltb (id_number a) (id_number b)
    || (num_eq (id_number a) (id_number b) && text_leb (codes a) (codes b))

module _ {ℓ} {A : Type ℓ} (before : A → A → Bool) where
  -- The place of `x` is in front of the first entry that it comes before.
  unfoldable pub insert_sorted : A → List A → List A
  insert_sorted x [] = x ∷ []
  insert_sorted x (y ∷ ys) = if before x y then x ∷ y ∷ ys else (y ∷ insert_sorted x ys)

  -- `sorted(xs, key=...)`, where `before a b` is `key(a) <= key(b)`; stable.
  unfoldable pub sort_by : List A → List A
  unfolding insert_sorted
  sort_by [] = []
  sort_by (x ∷ xs) = insert_sorted x (sort_by xs)

-- `sorted(ids, key=_id_order)`
unfoldable pub sort_ids : List String → List String
unfolding sort_by id_leb
sort_ids = sort_by id_leb
