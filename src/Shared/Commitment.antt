-- ===== src/Shared/Commitment.antt =====
-- What a Merkle root of sovereign-types/src/merkle.rs commits to.
use sovereign_stack.Base.{
  suc, ◌≡◌, ◌⊎◌, inl, inr, refl, sym, ap, ◌∙◌, some, List, [], ◌∷◌, ◌++◌, map, Text, text,
  Text_discrete, length, drop, All, drop-append, arith,
}
use mathlib.Core.Option.{some_inj}
use sovereign_stack.Shared.Merkle.{
  Hashing, IsHashing, combine_from, combine_leaves, leaf, merkle_root, prefixed,
}
use sovereign_stack.Shared.Leaves.{IsDigest, Collision, combine_from_total, combine_from_binds}

module _ (h : Hashing) (laws : IsHashing h) where
  abbrev pub leaves : List (Text × Text) → List Text
  leaves fields = map (leaf h) fields

  leaves-IsDigest : (fields : List (Text × Text)) → All (IsDigest h laws) (leaves fields)
  unfolding leaf
  leaves-IsDigest [] = tt
  leaves-IsDigest ((k, v) ∷ fields) =
      (laws.digest_length (k ++ (text ":" ++ v)), leaves-IsDigest fields)

  tail_of : (k v w : Text) → k ++ (text ":" ++ v) ≡ k ++ (text ":" ++ w) → v ≡ w
  tail_of k v w e =
      let t =
        sym (drop-append k (text ":" ++ v))
        ∙ ap (drop (length k)) e
        ∙ drop-append k (text ":" ++ w) in
      ap (drop 1) t

  leaf_binds :
      (k l v w : Text)
      → k ≡ l
      → leaf h (k, v) ≡ leaf h (l, w)
      → (◌≡◌ {A = Text × Text} (k, v) (l, w)) ⊎ Collision h laws
  unfolding leaf
  leaf_binds k l v w same p = elim (Text_discrete (k ++ (text ":" ++ v)) (l ++ (text ":" ++ w))) [
    | yes e ↦
        let e' : k ++ (text ":" ++ v) ≡ k ++ (text ":" ++ w) =
          e ∙ ap (λ t. t ++ (text ":" ++ w)) (sym same) in
        inl (cc (same, tail_of k v w e'))
    | no other ↦ inr (k ++ (text ":" ++ v), l ++ (text ":" ++ w), other, p)
  ]

  both :
      (f g : Text × Text) (fs gs : List (Text × Text))
      → (f ≡ g) ⊎ Collision h laws
      → (fs ≡ gs) ⊎ Collision h laws
      → (f ∷ fs ≡ g ∷ gs) ⊎ Collision h laws
  both f g fs gs (inr c) q = inr c
  both f g fs gs (inl p) (inr c) = inr c
  both f g fs gs (inl p) (inl q) = inl (cc)

  -- Leaves of the same keys determine the values, or there is a collision.
  leaves_bind :
      (fs gs : List (Text × Text))
      → map (λ f. f.0) fs ≡ map (λ f. f.0) gs
      → leaves fs ≡ leaves gs
      → (fs ≡ gs) ⊎ Collision h laws
  leaves_bind [] [] k e = inl refl
  leaves_bind [] (g ∷ gs) k e = cc
  leaves_bind (f ∷ fs) [] k e = cc
  leaves_bind ((k, v) ∷ fs) ((l, w) ∷ gs) e p =
      let same_key : k ≡ l = cc in
      let same_keys : map (λ (f : Text × Text). f.0) fs ≡ map (λ g. g.0) gs = cc in
      let head : leaf h (k, v) ≡ leaf h (l, w) = cc in
      let tail : leaves fs ≡ leaves gs = cc in
      both (k, v) (l, w) fs gs (leaf_binds k l v w same_key head) (leaves_bind fs gs same_keys tail)

  -- The root of some fields, and the digest that it encodes.
  abbrev RootOf : List (Text × Text) → Type 0
  RootOf fields =
      (d : Text) × (merkle_root h fields ≡ some (prefixed h (h.hex d)))
      × IsDigest h laws d
      × (combine_from h (length (leaves fields)) (leaves fields) ≡ some d)

  root_of : (f : Text × Text) (fields : List (Text × Text)) → RootOf (f ∷ fields)
  unfolding merkle_root combine_leaves
  root_of f fields =
      let all = leaves (f ∷ fields) in
      let (d, e, i) =
        combine_from_total h laws (length all) all (omega arith) (omega arith)
          (leaves-IsDigest (f ∷ fields)) in
      (d, rw (merkle_root, e) refl, i, e)

  -- The computation of a root ends, with a root of the prefix and an encoded digest.
  pub merkle_root_total :
      (fields : List (Text × Text))
      → (d : Text) × (merkle_root h fields ≡ some (prefixed h (h.hex d))) × IsDigest h laws d
  unfolding merkle_root
  merkle_root_total [] = (h.sha256 [], refl, laws.digest_length [])
  merkle_root_total (f ∷ fields) = let (d, e, i, c) = root_of f fields in (d, e, i)

  pub same_root : (d e : Text) → prefixed h (h.hex d) ≡ prefixed h (h.hex e) → d ≡ e
  same_root d e k = laws.hex_injective d e (
      sym (drop-append (text "sha256:") (h.hex d))
      ∙ ap (drop 7) k
      ∙ drop-append (text "sha256:") (h.hex e))

  same_fields :
      (fs gs : List (Text × Text))
      → map (λ f. f.0) fs ≡ map (λ f. f.0) gs
      → (leaves fs ≡ leaves gs) ⊎ Collision h laws
      → (fs ≡ gs) ⊎ Collision h laws
  same_fields fs gs k (inr c) = inr c
  same_fields fs gs k (inl e) = leaves_bind fs gs k e

  length-leaves :
      (fs gs : List (Text × Text))
      → map (λ f. f.0) fs ≡ map (λ f. f.0) gs
      → length (leaves fs) ≡ length (leaves gs)
  length-leaves [] [] k = refl
  length-leaves [] (g ∷ gs) k = cc
  length-leaves (f ∷ fs) [] k = cc
  length-leaves (f ∷ fs) (g ∷ gs) k = ap suc (length-leaves fs gs (cc))

  -- A root commits to the fields: two records of fields with the same keys and the same root are
  -- equal, or two different texts with the same SHA-256 digest are at hand.
  pub merkle_root_binds :
      (fs gs : List (Text × Text))
      → map (λ f. f.0) fs ≡ map (λ f. f.0) gs
      → merkle_root h fs ≡ merkle_root h gs
      → (fs ≡ gs) ⊎ Collision h laws
  merkle_root_binds [] [] k e = inl refl
  merkle_root_binds [] (g ∷ gs) k e = cc
  merkle_root_binds (f ∷ fs) [] k e = cc
  merkle_root_binds (f ∷ fs) (g ∷ gs) k e =
      let (d, p, i, c) = root_of f fs in
      let (d', p', i', c') = root_of g gs in
      let same = same_root d d' (some_inj.0 (sym p ∙ e ∙ p')) in
      let l = length-leaves (f ∷ fs) (g ∷ gs) k in
      same_fields (f ∷ fs) (g ∷ gs) k (
        combine_from_binds h laws (length (leaves (f ∷ fs))) (leaves (f ∷ fs)) (leaves (g ∷ gs)) d l
          (omega arith) (leaves-IsDigest (f ∷ fs)) (leaves-IsDigest (g ∷ gs)) c
          (ap (λ n. combine_from h n (leaves (g ∷ gs))) l ∙ c' ∙ ap some (sym same)))
