-- ===== src/Grid/Neighbors.antt =====
-- The neighbours of a tile in sovereign-types/src/odu.rs.
use sovereign_stack.Base.{
  ℕ, suc, ◌+◌, ◌-◌, ◌<◌, ◌≡◌, ◌↔◌, inl, inr, refl, sym, subst, Bool, true, false, List, ltb, arith,
}
use mathlib.Core.List.{Memᴰ}
use mathlib.Core.List.Memᴰ
use sovereign_stack.Grid.Tile.{clamp, push_if, OduCoordinate, neighbors, new_coordinate}
use sovereign_stack.Grid.Names.{IsCell}

-- Two cells that share a side.
pub data IsAdjacent (c n : OduCoordinate) : Type 0 where
  west : suc n.x ≡ c.x → n.y ≡ c.y → IsAdjacent c n
  east : n.x ≡ suc c.x → n.y ≡ c.y → IsAdjacent c n
  south : n.x ≡ c.x → suc n.y ≡ c.y → IsAdjacent c n
  north : n.x ≡ c.x → n.y ≡ suc c.y → IsAdjacent c n

same_cell : (a b : OduCoordinate) → a.x ≡ b.x → a.y ≡ b.y → a ≡ b
same_cell a b p q = cc

clamped : (n : ℕ) → n < 16 → clamp n ≡ n
clamped n h = ground arith

push_if_in : (b : Bool) (m n : OduCoordinate) → b ≡ true → n ≡ m → Memᴰ n (push_if b m)
push_if_in true m n h e = Memᴰ.head e
push_if_in false m n h e = cc

push_if_of : (b : Bool) (m n : OduCoordinate) → Memᴰ n (push_if b m) → (b ≡ true) × (n ≡ m)
push_if_of true m n d = elim (Memᴰ.cases_cons d) [
  | inl e ↦ (refl, e)
  | inr d' ↦ absurd (Memᴰ.not-nil d')
]
push_if_of false m n d = absurd (Memᴰ.not-nil d)

-- What each side contributes to the list.
abbrev pushed_west : OduCoordinate → List OduCoordinate
pushed_west c = push_if (ltb 0 c.x) (new_coordinate (c.x - 1) c.y)

abbrev pushed_east : OduCoordinate → List OduCoordinate
pushed_east c = push_if (ltb c.x 15) (new_coordinate (c.x + 1) c.y)

abbrev pushed_south : OduCoordinate → List OduCoordinate
pushed_south c = push_if (ltb 0 c.y) (new_coordinate c.x (c.y - 1))

abbrev pushed_north : OduCoordinate → List OduCoordinate
pushed_north c = push_if (ltb c.y 15) (new_coordinate c.x (c.y + 1))

pushed_west_in :
    (c n : OduCoordinate) → IsCell c → IsCell n → suc n.x ≡ c.x → n.y ≡ c.y → Memᴰ n (pushed_west c)
unfolding new_coordinate
pushed_west_in c n a b p q =
    push_if_in (ltb 0 c.x) (new_coordinate (c.x - 1) c.y) n (ground arith)
      (same_cell n (new_coordinate (c.x - 1) c.y) (ground arith) (ground arith))

pushed_east_in :
    (c n : OduCoordinate) → IsCell c → IsCell n → n.x ≡ suc c.x → n.y ≡ c.y → Memᴰ n (pushed_east c)
unfolding new_coordinate
pushed_east_in c n a b p q =
    push_if_in (ltb c.x 15) (new_coordinate (c.x + 1) c.y) n (ground arith)
      (same_cell n (new_coordinate (c.x + 1) c.y) (ground arith) (ground arith))

pushed_south_in :
    (c n : OduCoordinate)
    → IsCell c
    → IsCell n
    → n.x ≡ c.x
    → suc n.y ≡ c.y
    → Memᴰ n (pushed_south c)
unfolding new_coordinate
pushed_south_in c n a b p q =
    push_if_in (ltb 0 c.y) (new_coordinate c.x (c.y - 1)) n (ground arith)
      (same_cell n (new_coordinate c.x (c.y - 1)) (ground arith) (ground arith))

pushed_north_in :
    (c n : OduCoordinate)
    → IsCell c
    → IsCell n
    → n.x ≡ c.x
    → n.y ≡ suc c.y
    → Memᴰ n (pushed_north c)
unfolding new_coordinate
pushed_north_in c n a b p q =
    push_if_in (ltb c.y 15) (new_coordinate c.x (c.y + 1)) n (ground arith)
      (same_cell n (new_coordinate c.x (c.y + 1)) (ground arith) (ground arith))

neighbors_complete :
    (c n : OduCoordinate) → IsCell c → IsCell n → IsAdjacent c n → Memᴰ n (neighbors c)
unfolding neighbors
neighbors_complete c n a b (west p q) = Memᴰ.append_left _ (pushed_west_in c n a b p q)
neighbors_complete c n a b (east p q) =
    Memᴰ.append_right (pushed_west c) (Memᴰ.append_left _ (pushed_east_in c n a b p q))
neighbors_complete c n a b (south p q) =
    Memᴰ.append_right (pushed_west c)
      (Memᴰ.append_right (pushed_east c) (Memᴰ.append_left _ (pushed_south_in c n a b p q)))
neighbors_complete c n a b (north p q) = Memᴰ.append_right (pushed_west c) (
    Memᴰ.append_right (pushed_east c)
      (Memᴰ.append_right (pushed_south c) (pushed_north_in c n a b p q)))

abbrev IsBeside : OduCoordinate → OduCoordinate → Type 0
IsBeside c n = IsCell n × IsAdjacent c n

pushed_of :
    (c m n : OduCoordinate) (b : Bool)
    → (b ≡ true → IsBeside c m)
    → Memᴰ n (push_if b m)
    → IsBeside c n
pushed_of c m n b f d = let (h, e) = push_if_of b m n d in subst (IsBeside c) (sym e) (f h)

pushed_west_of : (c n : OduCoordinate) → IsCell c → Memᴰ n (pushed_west c) → IsBeside c n
unfolding new_coordinate
pushed_west_of c n a = pushed_of c (new_coordinate (c.x - 1) c.y) n (ltb 0 c.x) (λ h.
    (record { column = ground arith; row = ground arith }, west (ground arith) (ground arith)))

pushed_east_of : (c n : OduCoordinate) → IsCell c → Memᴰ n (pushed_east c) → IsBeside c n
unfolding new_coordinate
pushed_east_of c n a = pushed_of c (new_coordinate (c.x + 1) c.y) n (ltb c.x 15) (λ h.
    (record { column = ground arith; row = ground arith }, east (ground arith) (ground arith)))

pushed_south_of : (c n : OduCoordinate) → IsCell c → Memᴰ n (pushed_south c) → IsBeside c n
unfolding new_coordinate
pushed_south_of c n a = pushed_of c (new_coordinate c.x (c.y - 1)) n (ltb 0 c.y) (λ h.
    (record { column = ground arith; row = ground arith }, south (ground arith) (ground arith)))

pushed_north_of : (c n : OduCoordinate) → IsCell c → Memᴰ n (pushed_north c) → IsBeside c n
unfolding new_coordinate
pushed_north_of c n a = pushed_of c (new_coordinate c.x (c.y + 1)) n (ltb c.y 15) (λ h.
    (record { column = ground arith; row = ground arith }, north (ground arith) (ground arith)))

neighbors_sound : (c n : OduCoordinate) → IsCell c → Memᴰ n (neighbors c) → IsBeside c n
unfolding neighbors
neighbors_sound c n a d = elim (Memᴰ.append_cases (pushed_west c) d) [
  | inl w ↦ pushed_west_of c n a w
  | inr d' ↦ elim (Memᴰ.append_cases (pushed_east c) d') [
    | inl e ↦ pushed_east_of c n a e
    | inr d'' ↦ elim (Memᴰ.append_cases (pushed_south c) d'') [
      | inl s ↦ pushed_south_of c n a s
      | inr t ↦ pushed_north_of c n a t
    ]
  ]
]

-- The neighbours of a cell of the grid are exactly the cells of the grid that share a side with it.
neighbors_iff :
    (c : OduCoordinate)
    → IsCell c
    → (n : OduCoordinate) → Memᴰ n (neighbors c) ↔ (IsCell n × IsAdjacent c n)
neighbors_iff c a n = (neighbors_sound c n a, λ h. neighbors_complete c n a h.0 h.1)
