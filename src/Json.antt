-- ===== src/Json.antt =====
-- The values of Python that json.loads returns and json.dumps takes, and the conversions of
-- Python that the code applies to such a value.
use swarmsim.Base.{
  none, some, true, false, [], ◌∷◌, ℕ, Bool, String, Option, List, not, ◌&&◌, ◌==◌, if◌then◌else◌,
  num_eq, ◌≡◌,
}
use swarmsim.Int.{ℤ, pos, negsuc}
use swarmsim.Float.{Float}

mutual
  pub data Json (F : Type 0) : Type 0 where
    null : Json F
    boolean : Bool → Json F
    integer : ℤ → Json F
    number : F → Json F
    text : String → Json F
    array : Items F → Json F
    object : Members F → Json F

  pub data Items (F : Type 0) : Type 0 where
    nil : Items F
    cons : Json F → Items F → Items F

  pub data Members (F : Type 0) : Type 0 where
    end : Members F
    member : String → Json F → Members F → Members F

module _ {F : Type 0} where
  -- `d.get(key)`
  unfoldable pub find_member : String → Members F → Option (Json F)
  find_member key end = none
  find_member key (member k v rest) = if k == key then some v else find_member key rest

  abbrev pub get : String → Members F → Json F
  get key d = elim (find_member key d) [ none ↦ null | some v ↦ v ]

  -- `list(xs)`, and the list as a JSON array
  unfoldable pub items_of : Items F → List (Json F)
  items_of nil = []
  items_of (cons x xs) = x ∷ items_of xs

  unfoldable pub array_of : List (Json F) → Items F
  array_of [] = nil
  array_of (x ∷ xs) = cons x (array_of xs)

  abbrev pub is_null : Json F → Bool
  is_null null = true
  is_null _ = false

module _ {F : Type 0} ⦃f : Float F⦄ where
  -- `bool(value)`
  unfoldable pub truthy : Json F → Bool
  truthy null = false
  truthy (boolean b) = b
  truthy (integer (pos n)) = not (num_eq n 0)
  truthy (integer (negsuc n)) = true
  truthy (number x) = not (f.le x (f.of_nat 0) && f.le (f.of_nat 0) x)
  truthy (text s) = not (s == "")
  truthy (array nil) = false
  truthy (array (cons x xs)) = true
  truthy (object end) = false
  truthy (object (member k v rest)) = true

-- What the code uses of Python's library on such values, where it depends on how Python reads and
-- spells numbers: a parameter. What raises ValueError gives `none`.
pub record Conversions (F : Type 0) : Type 0 where
  -- `str(value)`
  pub str_of : Json F → String
  -- `str(uuid.UUID(text))`
  pub uuid_of : String → Option String
  -- `http.client.responses.get(status, "Error")`
  pub phrase_of : ℕ → String
  -- `float(text)`, `int(text)`
  pub float_of_text : String → Option F
  pub int_of_text : String → Option ℤ
  -- `int(x)` of a float, which NaN and the infinities have none of
  pub whole_of : F → Option ℤ

-- A text is its own `str`.
pub record IsFaithful {F : Type 0} (python : Conversions F) : Type 0 where
  pub str_of-text : (s : String) → python.str_of (text s) ≡ s
