-- ===== src/Grid/Tile.antt =====
-- sovereign-types/src/odu.rs: coordinates, their names and their neighbours. A coordinate's fields
-- are bytes that the type does not hold below 16.
use sovereign_stack.Base.{
  ℕ, ◌+◌, ◌-◌, ◌*◌, ◌/◌, ◌%◌, ◌^◌, Bool, true, false, ◌&&◌, Option, none, some, List, [], ◌∷◌, ◌++◌,
  Text, text, ltb, leb, starts_with, drop, if◌then◌else◌,
}

pub record OduCoordinate : Type 0 where
  pub x : ℕ
  pub y : ℕ

-- `n.min(15)`
abbrev pub clamp : ℕ → ℕ
clamp n = if ltb n 15 then n else 15

unfoldable pub new_coordinate : ℕ → ℕ → OduCoordinate
new_coordinate x y = record { x = clamp x; y = clamp y }

-- one digit of `{:x}`
abbrev pub hex_digit : ℕ → ℕ
hex_digit n = if ltb n 10 then 48 + n else 87 + n

-- `{:x}` of a byte
unfoldable pub hex : ℕ → Text
hex n = if ltb n 16 then hex_digit n ∷ [] else hex_digit (n / 16) ∷ hex_digit (n % 16) ∷ []

-- `u8::from_str_radix` to the base 16, of a text of one byte
unfoldable pub hex_value : ℕ → Option ℕ
hex_value b =
    if leb 48 b && leb b 57
    then some (b - 48)
    else if leb 97 b && leb b 102
    then some (b - 87)
    else if leb 65 b && leb b 70
    then some (b - 55)
    else none

-- A call that returns or panics.
pub data Outcome (A : Type 0) : Type 0 where
  returns : A → Outcome A
  panics : Outcome A

-- a byte that does not start a character, so that a slice cannot end before it
abbrev pub is_continuation : ℕ → Bool
is_continuation b = leb 128 b && ltb b 192

abbrev pub pair : Option ℕ → Option ℕ → Option OduCoordinate
pair (some x) (some y) = some (record { x = x; y = y })
pair (some x) none = none
pair none y = none

-- the two slices of a text and their digits
unfoldable pub from_hex : Text → Outcome (Option OduCoordinate)
from_hex (a ∷ b ∷ []) =
    if is_continuation b then panics else returns (pair (hex_value a) (hex_value b))
from_hex s = returns none

unfoldable pub from_tile_id : Text → Outcome (Option OduCoordinate)
from_tile_id tile_id =
    if starts_with (text "odu:") tile_id then from_hex (drop 4 tile_id) else returns none

unfoldable pub tile_id : OduCoordinate → Text
tile_id c = text "odu:" ++ (hex c.x ++ hex c.y)

-- in the arithmetic of bytes, which wraps around in a release build
unfoldable pub index : OduCoordinate → ℕ
index c = (c.y * 16 + c.x) % 2 ^ 8

abbrev pub push_if : Bool → OduCoordinate → List OduCoordinate
push_if true c = c ∷ []
push_if false c = []

unfoldable pub neighbors : OduCoordinate → List OduCoordinate
unfolding new_coordinate
neighbors c =
    push_if (ltb 0 c.x) (new_coordinate (c.x - 1) c.y)
    ++ (push_if (ltb c.x 15) (new_coordinate (c.x + 1) c.y)
        ++ (push_if (ltb 0 c.y) (new_coordinate c.x (c.y - 1))
            ++ push_if (ltb c.y 15) (new_coordinate c.x (c.y + 1))))
