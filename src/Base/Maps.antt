-- ===== src/Base/Maps.antt =====
-- `HashMap` and `HashSet` as association lists and lists without repetition. The program never
-- depends on their iteration order.
use mathlib.Core.Path.{◌≡◌, refl}
use mathlib.Core.Logic.{◌≢◌, ite, inl, inr}
use mathlib.Core.Bool.{Bool, true, false}
use mathlib.Core.Option.{Option, none, some}
use mathlib.Core.List.{List, [], ◌∷◌}
use native.Mathlib.Omega.{arith}
use sovereign_stack.Base.Tests.{Bool-cases}

abbrev pub Dict {ℓ} : Type ℓ → Type ℓ → Type ℓ
Dict K V = List (K × V)

module _ {ℓ} {K V : Type ℓ} (d : Discrete K) where
  -- `map.get(&k)`
  unfoldable pub lookup : K → Dict K V → Option V
  lookup k [] = none
  lookup k ((j, v) ∷ m) = ite (d j k) (some v) (lookup k m)

  -- `map.insert(k, v)`
  unfoldable pub insert : K → V → Dict K V → Dict K V
  insert k v [] = (k, v) ∷ []
  insert k v ((j, w) ∷ m) = ite (d j k) ((k, v) ∷ m) ((j, w) ∷ insert k v m)

  -- `if let Some(v) = map.get_mut(&k) { *v = f(v) }`
  unfoldable pub modify : K → (V → V) → Dict K V → Dict K V
  modify k f [] = []
  modify k f ((j, w) ∷ m) = ite (d j k) ((j, f w) ∷ m) ((j, w) ∷ modify k f m)

  abbrev pub map_option : (V → V) → Option V → Option V
  map_option f none = none
  map_option f (some v) = some (f v)

  pub lookup-insert :
      (k j : K) (v : V) (m : Dict K V) → lookup j (insert k v m) ≡ ite (d k j) (some v) (lookup j m)
  unfolding lookup insert
  lookup-insert k j v [] = refl
  lookup-insert k j v ((i, w) ∷ m) = ground (arith, lookup-insert k j v m)

  ite_self_of : {k : K} (x : Dec (k ≡ k)) (a b : Option V) → ite x a b ≡ a
  ite_self_of (yes p) a b = refl
  ite_self_of (no p) a b = absurd (p refl)

  ite_other_of : {k j : K} (x : Dec (k ≡ j)) (a b : Option V) → k ≢ j → ite x a b ≡ b
  ite_other_of (yes p) a b h = absurd (h p)
  ite_other_of (no p) a b h = refl

  pub lookup-insert_same : (k : K) (v : V) (m : Dict K V) → lookup k (insert k v m) ≡ some v
  lookup-insert_same k v m = rw (lookup-insert k k v m) (ite_self_of (d k k) (some v) (lookup k m))

  pub lookup-insert_other :
      (k j : K) (v : V) (m : Dict K V) → k ≢ j → lookup j (insert k v m) ≡ lookup j m
  lookup-insert_other k j v m h =
      rw (lookup-insert k j v m) (ite_other_of (d k j) (some v) (lookup j m) h)

  pub lookup-modify :
      (k j : K) (f : V → V) (m : Dict K V)
      → lookup j (modify k f m) ≡ ite (d k j) (map_option f (lookup j m)) (lookup j m)
  unfolding lookup modify
  lookup-modify k j f [] = ground arith
  lookup-modify k j f ((i, w) ∷ m) = ground (arith, lookup-modify k j f m)

module _ {ℓ} {K : Type ℓ} (d : Discrete K) where
  -- `set.contains(&k)`
  unfoldable pub contains : K → List K → Bool
  contains k [] = false
  contains k (j ∷ s) = ite (d j k) true (contains k s)

  -- `set.insert(k)`
  unfoldable pub add : K → List K → List K
  unfolding contains
  add k s = elim (contains k s) [ true ↦ s | false ↦ k ∷ s ]

  pub contains-add : (k j : K) (s : List K) → contains j (add k s) ≡ ite (d k j) true (contains j s)
  unfolding contains add
  contains-add k j s = elim (Bool-cases (contains k s)) [
    | inl old ↦ ground (arith, old)
    | inr new ↦ ground (arith, new)
  ]

  ite-true : {P : Type ℓ} (x : Dec P) → ite x true true ≡ true
  ite-true (yes p) = refl
  ite-true (no p) = refl

  ite_self : {k : K} (x : Dec (k ≡ k)) (b : Bool) → ite x true b ≡ true
  ite_self (yes p) b = refl
  ite_self (no p) b = absurd (p refl)

  -- What is in a set stays in it.
  pub contains-add_grows :
      (k j : K) (s : List K) → contains j s ≡ true → contains j (add k s) ≡ true
  contains-add_grows k j s h = rw (contains-add k j s, h) (ite-true (d k j))

  pub contains-add_self : (k : K) (s : List K) → contains k (add k s) ≡ true
  contains-add_self k s = rw (contains-add k k s) (ite_self (d k k) (contains k s))
