-- ===== src/Grid/Names.antt =====
-- The names of tiles in sovereign-types/src/odu.rs.
use sovereign_stack.Base.{
  ℕ, ◌<◌, ◌≡◌, ◌↔◌, inl, inr, refl, sym, ap, ◌∙◌, subst, Bool, true, false, Option, none, some, [],
  ◌∷◌, ◌++◌, Text, text, starts_with, starts_with_sound, if◌then◌else◌, Bool-cases, arith,
}
use mathlib.Core.Option.{some_inj}
use sovereign_stack.Grid.Tile.{
  pair, OduCoordinate, hex, hex_digit, hex_value, from_hex, from_tile_id, tile_id, Outcome, returns,
  panics, is_continuation,
}

-- A cell of the grid.
pub record IsCell (c : OduCoordinate) : Type 0 where
  pub column : c.x < 16
  pub row : c.y < 16

hex_value-hex_digit : (n : ℕ) → n < 16 → hex_value (hex_digit n) ≡ some n
unfolding hex_value
hex_value-hex_digit n h = ground arith

hex-digit : (n : ℕ) → n < 16 → hex n ≡ hex_digit n ∷ []
unfolding hex
hex-digit n h = ground arith

plain : (n : ℕ) → n < 16 → is_continuation (hex_digit n) ≡ false
plain n h = ground arith

hex_value_fits : (b n : ℕ) → hex_value b ≡ some n → n < 16
unfolding hex_value
hex_value_fits b n h = ground arith

-- The name of a cell of the grid is read back as that cell.
from_tile_id-tile_id : (c : OduCoordinate) → IsCell c → from_tile_id (tile_id c) ≡ returns (some c)
unfolding from_tile_id tile_id from_hex starts_with
from_tile_id-tile_id c cell =
    rw
      (
        hex-digit c.x cell.column,
        hex-digit c.y cell.row,
        plain c.y cell.row,
        hex_value-hex_digit c.x cell.column,
        hex_value-hex_digit c.y cell.row,
      )
      refl

returns-pair_fits :
    (o p : Option ℕ) (c : OduCoordinate)
    → ((n : ℕ) → o ≡ some n → n < 16)
    → ((n : ℕ) → p ≡ some n → n < 16)
    → pair o p ≡ some c
    → IsCell c
returns-pair_fits none p c f g h = cc
returns-pair_fits (some x) none c f g h = cc
returns-pair_fits (some x) (some y) c f g h =
    subst IsCell (some_inj.0 h) (record { column = f x refl; row = g y refl })

returned : Outcome (Option OduCoordinate) → Option OduCoordinate
returned (returns o) = o
returned panics = none

from_hex-two :
    (a b : ℕ) (t : Bool)
    → is_continuation b ≡ t
    → from_hex (a ∷ b ∷ []) ≡ (if t then panics else returns (pair (hex_value a) (hex_value b)))
unfolding from_hex
from_hex-two a b t h = rw (from_hex, h) refl

from_hex-IsCell : (s : Text) (c : OduCoordinate) → from_hex s ≡ returns (some c) → IsCell c
unfolding from_hex returned
from_hex-IsCell [] c h = cc
from_hex-IsCell (a ∷ []) c h = cc
from_hex-IsCell (a ∷ b ∷ []) c h = elim (Bool-cases (is_continuation b)) [
  | inl y ↦ cc (from_hex-two a b true y)
  | inr n ↦
      returns-pair_fits (hex_value a) (hex_value b) c (hex_value_fits a) (hex_value_fits b)
        (ap returned (sym (from_hex-two a b false n) ∙ h))
]
from_hex-IsCell (a ∷ b ∷ d ∷ s) c h = cc

from_hex-panics :
    (s : Text) → from_hex s ≡ panics → (a b : ℕ) × (s ≡ a ∷ b ∷ []) × (is_continuation b ≡ true)
unfolding from_hex
from_hex-panics [] h = cc
from_hex-panics (a ∷ []) h = cc
from_hex-panics (a ∷ b ∷ []) h = elim (Bool-cases (is_continuation b)) [
  | inl y ↦ (a, b, refl, y)
  | inr n ↦ cc (from_hex-two a b false n)
]
from_hex-panics (a ∷ b ∷ d ∷ s) h = cc

from_tile_id-other :
    (t : Text) → starts_with (text "odu:") t ≡ false → from_tile_id t ≡ returns none
unfolding from_tile_id
from_tile_id-other t h = rw (from_tile_id, h) refl

from_tile_id-rest : (r : Text) → from_tile_id (text "odu:" ++ r) ≡ from_hex r
unfolding from_tile_id starts_with
from_tile_id-rest r = refl

-- The outcomes of reading a name.
pub record IsRead (t : Text) : Type 0 where
  pub cells : (c : OduCoordinate) → from_tile_id t ≡ returns (some c) → IsCell c
  pub panicking :
      (from_tile_id t ≡ panics)
      ↔ ((a b : ℕ) × (t ≡ text "odu:" ++ (a ∷ b ∷ [])) × (is_continuation b ≡ true))

panics_for :
    (t : Text)
    → (a b : ℕ) × (t ≡ text "odu:" ++ (a ∷ b ∷ [])) × (is_continuation b ≡ true)
    → from_tile_id t ≡ panics
panics_for t (a, b, e, h) =
    ap from_tile_id e ∙ (from_tile_id-rest (a ∷ b ∷ []) ∙ from_hex-two a b true h)

-- Whatever text is read, a coordinate that comes back is a cell of the grid, and the call panics
-- exactly for the prefix followed by two bytes of which the second does not start a character.
pub from_tile_id-IsRead : (t : Text) → IsRead t
from_tile_id-IsRead t = elim (Bool-cases (starts_with (text "odu:") t)) [
  | inl y ↦
      let (r, e) = starts_with_sound (text "odu:") t y in
      let read = ap from_tile_id e ∙ from_tile_id-rest r in
      record {
        cells = λ c h. from_hex-IsCell r c (sym read ∙ h);
        panicking = (
          λ h.
              let (a, b, p, q) = from_hex-panics r (sym read ∙ h) in
              (a, b, e ∙ ap (λ s. text "odu:" ++ s) p, q),
          panics_for t,
        );
      }
  | inr n ↦ record {
    cells = λ c h. cc (from_tile_id-other t n);
    panicking = (λ h. cc (from_tile_id-other t n), panics_for t);
  }
]
