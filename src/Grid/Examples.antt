-- ===== src/Grid/Examples.antt =====
-- Tiles at concrete values.
use sovereign_stack.Base.{◌≡◌, ◌++◌, ◌∷◌, [], refl, text, arith}
use sovereign_stack.Grid.Tile.{OduCoordinate, new_coordinate, tile_id, index, hex}
use sovereign_stack.Grid.Names.{IsCell, IsRead, from_tile_id-IsRead}

abbrev corner : OduCoordinate
corner = record { x = 0; y = 15 }

corner-IsCell : IsCell corner
corner-IsCell = record { column = omega arith; row = omega arith }

clamped_corner : new_coordinate 0 99 ≡ corner
unfolding new_coordinate
clamped_corner = refl

name_of_corner : tile_id corner ≡ text "odu:0f"
unfolding tile_id hex
name_of_corner = refl

index_of_corner : index corner ≡ 240
unfolding index
index_of_corner = refl

from_tile_id-IsRead_example : IsRead (text "odu:" ++ (195 ∷ 169 ∷ []))
from_tile_id-IsRead_example = from_tile_id-IsRead (text "odu:" ++ (195 ∷ 169 ∷ []))
