-- ===== src/Base/Texts.antt =====
-- A `String` as the list of its UTF-8 bytes. The literals of the program are ASCII.
use Prim.Native.Nat.{ℕ, ◌+◌}
use Prim.Native.Char.{code}
use Prim.Native.String.{String}
use mathlib.Core.Path.{◌≡◌, refl, ap}
use mathlib.Core.Logic.{◌≢◌}
use mathlib.Core.Bool.{Bool, true, false, ◌&&◌, ◌||◌}
use mathlib.Core.Option.{Option, none, some}
use mathlib.Core.List.{List, [], ◌∷◌, ◌++◌}
use native.Mathlib.Omega.{arith}
use sovereign_stack.Base.Tests.{leb, ◌==◌, if◌then◌else◌}

abbrev pub Text : Type 0
Text = List ℕ

-- A literal.
abbrev pub text : String → Text
text String.[] = []
text (String.◌∷◌ c s) = code c ∷ text s

unfoldable pub text_eq : Text → Text → Bool
text_eq [] [] = true
text_eq [] (y ∷ ys) = false
text_eq (x ∷ xs) [] = false
text_eq (x ∷ xs) (y ∷ ys) = x == y && text_eq xs ys

pub text_eq_sound : (s t : Text) → text_eq s t ≡ true → s ≡ t
unfolding text_eq
text_eq_sound [] [] h = refl
text_eq_sound [] (y ∷ ys) h = cc
text_eq_sound (x ∷ xs) [] h = cc
text_eq_sound (x ∷ xs) (y ∷ ys) h = ground (arith, text_eq_sound xs ys)

pub text_eq_refl : (s : Text) → text_eq s s ≡ true
unfolding text_eq
text_eq_refl [] = refl
text_eq_refl (x ∷ xs) = ground (arith, text_eq_refl xs)

decide_text : (s t : Text) (b : Bool) → text_eq s t ≡ b → Dec (s ≡ t)
decide_text s t true e = yes (text_eq_sound s t e)
decide_text s t false e = no (λ p. cc (text_eq_refl s, ap (text_eq s) p))

-- Equality of texts, decided.
unfoldable pub Text_discrete : Discrete Text
unfolding decide_text text_eq
Text_discrete s t = decide_text s t (text_eq s t) refl

abbrev pub is_empty {ℓ} : {A : Type ℓ} → List A → Bool
is_empty [] = true
is_empty (x ∷ xs) = false

-- `s.starts_with(p)`
unfoldable pub starts_with : Text → Text → Bool
starts_with [] s = true
starts_with (x ∷ p) [] = false
starts_with (x ∷ p) (y ∷ s) = x == y && starts_with p s

-- `s.ends_with(c)`
unfoldable pub ends_with : ℕ → Text → Bool
ends_with c [] = false
ends_with c (x ∷ []) = x == c
ends_with c (x ∷ y ∷ s) = ends_with c (y ∷ s)

-- `&s[..s.len() - 1]`
unfoldable pub drop_last : Text → Text
drop_last [] = []
drop_last (x ∷ []) = []
drop_last (x ∷ y ∷ s) = x ∷ drop_last (y ∷ s)

-- `s.split_once(c)`
unfoldable pub split_once : ℕ → Text → Option (Text × Text)
split_once c [] = none
split_once c (x ∷ s) =
    if x == c
    then some ([], s)
    else elim (split_once c s) [ none ↦ none | some (p, r) ↦ some (x ∷ p, r) ]

pub starts_with-append : (p s : Text) → starts_with p (p ++ s) ≡ true
unfolding starts_with
starts_with-append [] s = refl
starts_with-append (x ∷ p) s = ground (arith, starts_with-append p s)

pub starts_with_sound : (p s : Text) → starts_with p s ≡ true → (r : Text) × (s ≡ p ++ r)
unfolding starts_with
starts_with_sound [] s h = (s, refl)
starts_with_sound (x ∷ p) [] h = cc
starts_with_sound (x ∷ p) (y ∷ s) h =
    let (r, e) = starts_with_sound p s (ground arith) in (r, ground (arith, e))

pub ends_with-append : (c : ℕ) (p : Text) → ends_with c (p ++ c ∷ []) ≡ true
unfolding ends_with
ends_with-append c [] = ground arith
ends_with-append c (x ∷ []) = ground arith
ends_with-append c (x ∷ y ∷ p) = ends_with-append c (y ∷ p)

pub drop_last-append : (c : ℕ) (p : Text) → drop_last (p ++ c ∷ []) ≡ p
unfolding drop_last
drop_last-append c [] = refl
drop_last-append c (x ∷ []) = refl
drop_last-append c (x ∷ y ∷ p) = ap (◌∷◌ x) (drop_last-append c (y ∷ p))

-- A text without the byte `c`.
abbrev pub Lacks : ℕ → Text → Type 0
Lacks c [] = Unit
Lacks c (x ∷ s) = (x ≢ c) × Lacks c s

pub split_once-append : (c : ℕ) (p s : Text) → Lacks c p → split_once c (p ++ (c ∷ s)) ≡ some (p, s)
unfolding split_once
split_once-append c [] s h = ground arith
split_once-append c (x ∷ p) s h = ground (arith, split_once-append c p s h.1, h.0)

-- `s.contains(p)` on texts
unfoldable pub contains_text : Text → Text → Bool
unfolding starts_with
contains_text p [] = starts_with p []
contains_text p (x ∷ s) = starts_with p (x ∷ s) || contains_text p s

-- `s.to_lowercase()` on the ASCII letters, byte by byte
abbrev pub lower_byte : ℕ → ℕ
lower_byte b = if leb 65 b && leb b 90 then b + 32 else b

abbrev pub to_lowercase : Text → Text
to_lowercase [] = []
to_lowercase (b ∷ s) = lower_byte b ∷ to_lowercase s
