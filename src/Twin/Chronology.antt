-- ===== src/Twin/Chronology.antt =====
-- The order that twin-protocol/src/timeline.rs keeps.
use sovereign_stack.Base.{
  ℕ, ◌≤◌, ◌<◌, ◌≡◌, inl, inr, refl, Bool, Bool-cases, true, false, List, [], ◌∷◌, ◌++◌, Text, All,
  All-append, filter, leb, ltb, leb→le, arith,
}
use sovereign_stack.Twin.Timeline.{
  TwinTimelineEntry, TwinTimeline, new_timeline, put, sort_by_timestamp, append,
}

module _ {F : Type 0} where
  -- No entry is older than one before it.
  abbrev pub IsChronological : List (TwinTimelineEntry F) → Type 0
  IsChronological [] = Unit
  IsChronological (e ∷ es) = All (λ x. e.timestamp ≤ x.timestamp) es × IsChronological es

  abbrev pub upto : ℕ → List (TwinTimelineEntry F) → List (TwinTimelineEntry F)
  upto time es = filter (λ x. leb x.timestamp time) es

  abbrev pub beyond : ℕ → List (TwinTimelineEntry F) → List (TwinTimelineEntry F)
  beyond time es = filter (λ x. ltb time x.timestamp) es

  put_first :
      (e : TwinTimelineEntry F) (es : List (TwinTimelineEntry F))
      → All (λ x. e.timestamp ≤ x.timestamp) es
      → put e es ≡ e ∷ es
  unfolding put
  put_first e [] h = refl
  put_first e (x ∷ es) h = ground (arith, h.0)

  later :
      (time : ℕ) (es : List (TwinTimelineEntry F))
      → All (λ x. time < x.timestamp) es
      → (upto time es ≡ []) × (beyond time es ≡ es)
  later time [] h = (refl, refl)
  later time (x ∷ es) (a, h) =
      let (p, q) = later time es h in
      let u : leb x.timestamp time ≡ false = ground (arith, a) in
      let v : ltb time x.timestamp ≡ true = ground (arith, a) in (rw (u, p) refl, rw (v, q) refl)

  All-put :
      (P : TwinTimelineEntry F → Type 0) (e : TwinTimelineEntry F) (es : List (TwinTimelineEntry F))
      → P e
      → All P es
      → All P (put e es)
  unfolding put
  All-put P e [] p h = (p, tt)
  All-put P e (x ∷ es) p (a, h) = elim (Bool-cases (leb e.timestamp x.timestamp)) [
    | inl q ↦ rw q (p, (a, h))
    | inr q ↦ rw q (a, All-put P e es p h)
  ]

  weaken :
      (m n : ℕ) (es : List (TwinTimelineEntry F))
      → m ≤ n
      → All (λ x. n ≤ x.timestamp) es
      → All (λ x. m ≤ x.timestamp) es
  weaken m n [] h a = tt
  weaken m n (x ∷ es) h (a, b) = (omega arith, weaken m n es h b)

  put-IsChronological :
      (e : TwinTimelineEntry F) (es : List (TwinTimelineEntry F))
      → IsChronological es
      → IsChronological (put e es)
  unfolding put
  put-IsChronological e [] h = (tt, tt)
  put-IsChronological e (x ∷ es) (a, h) = elim (Bool-cases (leb e.timestamp x.timestamp)) [
    | inl q ↦
        let le : e.timestamp ≤ x.timestamp = leb→le _ _ q in rw q ((le, weaken _ _ es le a), (a, h))
    | inr q ↦
        let le : x.timestamp ≤ e.timestamp = ground (arith, q) in
        rw q (All-put (λ y. x.timestamp ≤ y.timestamp) e es le a, put-IsChronological e es h)
  ]

  pub sort-IsChronological :
      (es : List (TwinTimelineEntry F)) → IsChronological (sort_by_timestamp es)
  unfolding sort_by_timestamp
  sort-IsChronological [] = tt
  sort-IsChronological (e ∷ es) = put-IsChronological e _ (sort-IsChronological es)

  All-filter :
      (P : TwinTimelineEntry F → Type 0) (p : TwinTimelineEntry F → Bool)
      (es : List (TwinTimelineEntry F))
      → All P es
      → All P (filter p es)
  All-filter P p [] h = tt
  All-filter P p (x ∷ es) (a, h) = elim (Bool-cases (p x)) [
    | inl q ↦ rw q (a, All-filter P p es h)
    | inr q ↦ rw q (All-filter P p es h)
  ]

  strictly :
      (m n : ℕ) (es : List (TwinTimelineEntry F))
      → m < n
      → All (λ x. n ≤ x.timestamp) es
      → All (λ x. m < x.timestamp) es
  strictly m n [] h a = tt
  strictly m n (x ∷ es) h (a, b) = (omega arith, strictly m n es h b)

  -- Sorting after an entry was pushed on a chronological list inserts it after all that is not later.
  pub sort-pushed :
      (e : TwinTimelineEntry F) (es : List (TwinTimelineEntry F))
      → IsChronological es
      → sort_by_timestamp (es ++ (e ∷ [])) ≡ upto e.timestamp es ++ (e ∷ beyond e.timestamp es)
  unfolding sort_by_timestamp put
  sort-pushed e [] h = refl
  sort-pushed e (x ∷ es) (a, h) = elim (Bool-cases (leb x.timestamp e.timestamp)) [
    | inl q ↦
        let le : x.timestamp ≤ e.timestamp = leb→le _ _ q in
        let v : ltb e.timestamp x.timestamp ≡ false = ground (arith, le) in
        let after = put_first x (upto e.timestamp es ++ (e ∷ beyond e.timestamp es)) (
          All-append (λ y. x.timestamp ≤ y.timestamp) (upto e.timestamp es) _ (All-filter _ _ es a)
            (le, All-filter _ _ es a)) in
        rw (sort-pushed e es h, q, v) after
    | inr q ↦
        let gt : e.timestamp < x.timestamp = ground (arith, q) in
        let v : ltb e.timestamp x.timestamp ≡ true = ground (arith, gt) in
        let (none_before, all_after) =
          later e.timestamp es (strictly e.timestamp x.timestamp es gt a) in
        rw (sort-pushed e es h, q, v, none_before, all_after, q, put_first x es a) refl
  ]

  -- What a list of entries makes of a new timeline.
  pub append_all : TwinTimeline F → List (TwinTimelineEntry F) → TwinTimeline F
  append_all t [] = t
  append_all t (e ∷ es) = append_all (append t e) es

  append_all-IsChronological :
      (t : TwinTimeline F) (es : List (TwinTimelineEntry F))
      → IsChronological t.entries
      → IsChronological (append_all t es).entries
  unfolding append_all append
  append_all-IsChronological t [] h = h
  append_all-IsChronological t (e ∷ es) h =
      append_all-IsChronological (append t e) es (sort-IsChronological (t.entries ++ (e ∷ [])))

  -- Whatever has been appended to a new timeline, its entries are in the order of their times, and
  -- one more entry goes behind all that are not later than it and before all that are.
  pub append_all-append :
      (timeline_id : Text) (es : List (TwinTimelineEntry F)) (e : TwinTimelineEntry F)
      → IsChronological (append_all (new_timeline timeline_id) es).entries
        × ((append (append_all (new_timeline timeline_id) es) e).entries
            ≡ upto e.timestamp (append_all (new_timeline timeline_id) es).entries
              ++ (e ∷ beyond e.timestamp (append_all (new_timeline timeline_id) es).entries))
  unfolding append new_timeline
  append_all-append timeline_id es e =
      let h = append_all-IsChronological (new_timeline timeline_id) es tt in (h, sort-pushed e _ h)
