-- ===== src/Shared/Leaves.antt =====
-- What the pairwise hashing of leaves in sovereign-types/src/merkle.rs commits to.
use sovereign_stack.Base.{
  ℕ, zero, suc, ◌+◌, ◌/◌, ◌≤◌, ◌<◌, ◌≡◌, ◌≢◌, ◌⊎◌, inl, inr, refl, sym, ap, subst, ◌∙◌, min,
  Bool-cases, true, false, Option, none, some, List, [], ◌∷◌, ◌++◌, Text, Text_discrete, ltb, ◌==◌,
  length, take, drop, All, All-take, All-drop, length-take, length-drop, take-append-drop,
  take-append_of, drop-append_of, arith,
}
use mathlib.Core.Option.{some_inj}
use sovereign_stack.Shared.Merkle.{
  Hashing, IsHashing, power_from, next_power_of_two, join, combine_from,
}

-- Doubling ends at a power that reaches `n`, and half of it does not, unless it has not begun.
power_from_bounds :
    (f p n : ℕ)
    → 1 ≤ p
    → n ≤ p + f
    → (n ≤ power_from f p n)
      × ((power_from f p n ≡ p) ⊎ ((q : ℕ) × (power_from f p n ≡ q + q) × (q < n) × (1 ≤ q)))
unfolding power_from
power_from_bounds zero p n h k = (omega arith, inl refl)
power_from_bounds (suc f) p n h k = elim (Bool-cases (ltb p n)) [
  | inl below ↦
      let (reached, form) = power_from_bounds f (p + p) n (omega arith) (omega arith) in
      rw below (reached, inr (elim form [ inl e ↦ (p, e, ground arith, h) | inr q ↦ q ]))
  | inr done ↦ rw done (power_from_bounds f p n h (ground arith))
]

-- The split stays strictly inside a list of two leaves or more.
mid_bounds : (n : ℕ) → 2 ≤ n → (1 ≤ next_power_of_two n / 2) × (next_power_of_two n / 2 < n)
unfolding next_power_of_two
mid_bounds n h =
    let (reached, form) = power_from_bounds n 1 n (omega arith) (omega arith) in
    elim form [
      | inl e ↦ absurd (omega arith)
      | inr (q, e, below, least) ↦ (omega arith, omega arith)
    ]

module _ (h : Hashing) (laws : IsHashing h) where
  abbrev pub IsDigest : Text → Type 0
  IsDigest t = length t ≡ 32

  -- Two texts of one digest.
  abbrev pub Collision : Type 0
  Collision = (s : Text) × (t : Text) × (s ≢ t) × (h.sha256 s ≡ h.sha256 t)

  join_total :
      (a b : Option Text)
      → (d : Text) × (a ≡ some d)
      → (e : Text) × (b ≡ some e)
      → (r : Text) × (join h a b ≡ some r) × IsDigest r
  join_total a b (d, p) (e, q) = (h.sha256 (d ++ e), rw (p, q) refl, laws.digest_length (d ++ e))

  abbrev mid : List Text → ℕ
  mid leaves = next_power_of_two (length leaves) / 2

  -- Two leaves or more are split into two parts that are both shorter.
  combine_split :
      (f : ℕ) (leaves : List Text)
      → 2 ≤ length leaves
      → combine_from h (suc f) leaves
        ≡ join h
            (combine_from h f (take (mid leaves) leaves))
            (combine_from h f (drop (mid leaves) leaves))
  unfolding combine_from
  combine_split f leaves two =
      let (least, below) = mid_bounds (length leaves) two in
      let many : (length leaves == 1) ≡ false = ground arith in
      let inside : ltb (mid leaves) (length leaves) ≡ true = ground arith in
      let within : min (mid leaves) (length leaves) ≡ mid leaves = omega arith in
      rw (combine_from, many, inside, within) refl

  take_shorter :
      (f : ℕ) (leaves : List Text)
      → 2 ≤ length leaves
      → length leaves ≤ suc f
      → (1 ≤ length (take (mid leaves) leaves)) × (length (take (mid leaves) leaves) ≤ f)
  take_shorter f leaves two fuel =
      let (least, below) = mid_bounds (length leaves) two in
      let e = length-take (mid leaves) leaves in (omega arith, omega arith)

  drop_shorter :
      (f : ℕ) (leaves : List Text)
      → 2 ≤ length leaves
      → length leaves ≤ suc f
      → (1 ≤ length (drop (mid leaves) leaves)) × (length (drop (mid leaves) leaves) ≤ f)
  drop_shorter f leaves two fuel =
      let (least, below) = mid_bounds (length leaves) two in
      let e = length-drop (mid leaves) leaves in (omega arith, omega arith)

  pub combine_from_total :
      (f : ℕ) (leaves : List Text)
      → 1 ≤ length leaves
      → length leaves ≤ f
      → All IsDigest leaves
      → (r : Text) × (combine_from h f leaves ≡ some r) × IsDigest r
  combine_from_total zero leaves one fuel ds = absurd (omega arith)
  combine_from_total (suc f) [] one fuel ds = absurd (omega arith)
  combine_from_total (suc f) (x ∷ []) one fuel ds = (x, unfold combine_from in refl, ds.0)
  combine_from_total (suc f) (x ∷ y ∷ leaves) one fuel ds =
      let all = x ∷ y ∷ leaves in
      let (a, b) = take_shorter f all (omega arith) fuel in
      let (c, d) = drop_shorter f all (omega arith) fuel in
      let (l, p, i) =
        combine_from_total f (take (mid all) all) a b (All-take IsDigest (mid all) all ds) in
      let (r, q, j) =
        combine_from_total f (drop (mid all) all) c d (All-drop IsDigest (mid all) all ds) in
      let (o, e, k) = join_total _ _ (l, p) (r, q) in (o, combine_split f all (omega arith) ∙ e, k)

  join-some :
      (a b : Option Text) (r : Text)
      → join h a b ≡ some r
      → (d : Text) × (e : Text) × (a ≡ some d) × (b ≡ some e) × (r ≡ h.sha256 (d ++ e))
  join-some none b r k = cc
  join-some (some d) none r k = cc
  join-some (some d) (some e) r k = (d, e, refl, refl, sym (some_inj.0 k))

  combine_from-IsDigest :
      (f : ℕ) (leaves : List Text) (r : Text)
      → 1 ≤ length leaves
      → length leaves ≤ f
      → All IsDigest leaves
      → combine_from h f leaves ≡ some r
      → IsDigest r
  combine_from-IsDigest f leaves r one fuel ds k =
      let (s, e, i) = combine_from_total f leaves one fuel ds in
      subst IsDigest (some_inj.0 (sym e ∙ k)) i

  -- Equal digests of two pairs of digests come from equal pairs, or from a collision.
  pair_binds :
      (d e d' e' : Text)
      → IsDigest d
      → IsDigest d'
      → h.sha256 (d ++ e) ≡ h.sha256 (d' ++ e')
      → ((d ≡ d') × (e ≡ e')) ⊎ Collision
  pair_binds d e d' e' i j k = elim (Text_discrete (d ++ e) (d' ++ e')) [
    | yes same ↦ inl (
      sym (take-append_of 32 d e i) ∙ ap (take 32) same ∙ take-append_of 32 d' e' j,
      sym (drop-append_of 32 d e i) ∙ ap (drop 32) same ∙ drop-append_of 32 d' e' j,
    )
    | no other ↦ inr (d ++ e, d' ++ e', other, k)
  ]

  -- The two parts determine the list.
  rejoin : (n : ℕ) (xs ys : List Text) → take n xs ≡ take n ys → drop n xs ≡ drop n ys → xs ≡ ys
  rejoin n xs ys p q =
      sym (take-append-drop n xs)
      ∙ ap (λ t. t ++ drop n xs) p
      ∙ ap (λ t. take n ys ++ t) q
      ∙ take-append-drop n ys

  same_parts :
      (n : ℕ) (xs ys : List Text)
      → (take n xs ≡ take n ys) ⊎ Collision
      → (drop n xs ≡ drop n ys) ⊎ Collision
      → (xs ≡ ys) ⊎ Collision
  same_parts n xs ys (inr c) q = inr c
  same_parts n xs ys (inl p) (inr c) = inr c
  same_parts n xs ys (inl p) (inl q) = inl (rejoin n xs ys p q)

  single : (f : ℕ) (x : Text) → combine_from h (suc f) (x ∷ []) ≡ some x
  unfolding combine_from
  single f x = refl

  pub combine_from_binds :
      (f : ℕ) (xs ys : List Text) (r : Text)
      → length xs ≡ length ys
      → length xs ≤ f
      → All IsDigest xs
      → All IsDigest ys
      → combine_from h f xs ≡ some r
      → combine_from h f ys ≡ some r
      → (xs ≡ ys) ⊎ Collision
  combine_from_binds f [] [] r l fuel i j p q = inl refl
  combine_from_binds f [] (y ∷ ys) r l fuel i j p q = absurd (omega arith)
  combine_from_binds f (x ∷ xs) [] r l fuel i j p q = absurd (omega arith)
  combine_from_binds zero (x ∷ xs) (y ∷ ys) r l fuel i j p q = absurd (omega arith)
  combine_from_binds (suc f) (x ∷ []) (y ∷ []) r l fuel i j p q =
      inl (ap (λ t. t ∷ []) (some_inj.0 (sym (single f x) ∙ p ∙ sym q ∙ single f y)))
  combine_from_binds (suc f) (x ∷ []) (y ∷ z ∷ ys) r l fuel i j p q = absurd (omega arith)
  combine_from_binds (suc f) (x ∷ z ∷ xs) (y ∷ []) r l fuel i j p q = absurd (omega arith)
  combine_from_binds (suc f) (x ∷ w ∷ xs) (y ∷ z ∷ ys) r l fuel i j p q =
      let all = x ∷ w ∷ xs in
      let other = y ∷ z ∷ ys in
      let n = mid all in
      let e : mid other ≡ n = ap (λ k. next_power_of_two k / 2) (sym l) in
      let p' = sym (combine_split f all (omega arith)) ∙ p in
      let q' =
        subst
          (λ k. join h (combine_from h f (take k other)) (combine_from h f (drop k other)) ≡ some r)
          e (sym (combine_split f other (omega arith)) ∙ q) in
      let (a1, a2) = take_shorter f all (omega arith) fuel in
      let (b1, b2) = drop_shorter f all (omega arith) fuel in
      let tl : length (take n other) ≡ length (take n all) =
        omega (arith, length-take n all, length-take n other) in
      let dl : length (drop n all) ≡ length (drop n other) =
        omega (arith, length-drop n all, length-drop n other) in
      let (d, d', pd, pd', pr) = join-some _ _ r p' in
      let (c, c', qc, qc', qr) = join-some _ _ r q' in
      let ti = All-take IsDigest n all i in
      let tj = All-take IsDigest n other j in
      let left = combine_from-IsDigest f (take n all) d a1 a2 ti pd in
      let right =
        combine_from-IsDigest f (take n other) c (subst (λ k. 1 ≤ k) (sym tl) a1)
          (subst (λ k. k ≤ f) (sym tl) a2) tj qc in
      elim (pair_binds d d' c c' left right (sym pr ∙ qr)) [
        | inr clash ↦ inr clash
        | inl (s, t) ↦
            same_parts n all other
              (combine_from_binds f (take n all) (take n other) d (sym tl) a2 ti tj pd
                (qc ∙ ap some (sym s)))
              (combine_from_binds f (drop n all) (drop n other) d' dl b2 (All-drop IsDigest n all i)
                (All-drop IsDigest n other j) pd' (qc' ∙ ap some (sym t)))
      ]
