-- ===== src/Diagram/Lanes/Disjoint.antt =====
-- Where a path is placed.
use forktrace.Prelude.{
  ℕ, zero, suc, ◌+◌, ◌<◌, ◌≤◌, ◌≡◌, refl, pos, true, false, ◌||◌, none, some, Option-cases,
  Bool-cases, inl, inr, ◌⊎◌, List, [], ◌∷◌, ◌++◌, get_or, set, length, arith, ltb, length-append,
  length-set, ap, ◌∙◌, max, ◌-◌, dec_lt,
}
use forktrace.Diagram.{DiagramPath}
use forktrace.Diagram.Lanes.{Lane, overlaps, collides, fall, push, place}

-- No two paths of a lane share a line.
abbrev pub Disjoint : Lane → Type 0
Disjoint [] = Unit {0}
Disjoint (q ∷ qs) = (collides q qs ≡ false) × Disjoint qs

abbrev pub AllDisjoint : List Lane → Type 0
AllDisjoint [] = Unit {0}
AllDisjoint (l ∷ ls) = Disjoint l × AllDisjoint ls

overlaps_comm : (p q : DiagramPath) → overlaps p q ≡ overlaps q p
overlaps_comm p q = ground arith

collides-snoc :
    (p q : DiagramPath) (qs : Lane) → collides p (qs ++ q ∷ []) ≡ (collides p qs || overlaps p q)
unfolding collides
collides-snoc p q [] = ground arith
collides-snoc p q (x ∷ qs) = ground (arith, collides-snoc p q qs)

Disjoint-snoc :
    (p : DiagramPath) (qs : Lane) → Disjoint qs → collides p qs ≡ false → Disjoint (qs ++ p ∷ [])
unfolding collides
Disjoint-snoc p [] d c = (refl, tt)
Disjoint-snoc p (q ∷ qs) d c =
    (ground (arith, collides-snoc q p qs, overlaps_comm p q), Disjoint-snoc p qs d.1 (ground arith))

AllDisjoint-set :
    (ls : List Lane) (i : ℕ) (l : Lane) → AllDisjoint ls → Disjoint l → AllDisjoint (set ls i l)
AllDisjoint-set [] i l a d = tt
AllDisjoint-set (x ∷ ls) zero l a d = (d, a.1)
AllDisjoint-set (x ∷ ls) (suc i) l a d = (a.0, AllDisjoint-set ls i l a.1 d)

AllDisjoint-get_or : (ls : List Lane) (i : ℕ) → AllDisjoint ls → Disjoint (get_or ls i [])
AllDisjoint-get_or [] i a = tt
AllDisjoint-get_or (x ∷ ls) zero a = a.0
AllDisjoint-get_or (x ∷ ls) (suc i) a = AllDisjoint-get_or ls i a.1

AllDisjoint-snoc : (ls : List Lane) → AllDisjoint ls → AllDisjoint (ls ++ [] ∷ [])
AllDisjoint-snoc [] a = (tt, tt)
AllDisjoint-snoc (l ∷ ls) a = (a.0, AllDisjoint-snoc ls a.1)

get_or-snoc : (ls : List Lane) (i : ℕ) → get_or (ls ++ [] ∷ []) i [] ≡ get_or ls i []
get_or-snoc [] zero = refl
get_or-snoc [] (suc i) = refl
get_or-snoc (l ∷ ls) zero = refl
get_or-snoc (l ∷ ls) (suc i) = get_or-snoc ls i

get_or-length : (ls : List Lane) → get_or ls (length ls) [] ≡ []
get_or-length [] = refl
get_or-length (l ∷ ls) = get_or-length ls

collides-lane :
    (p : DiagramPath) (i : ℕ) (l : Lane) → collides (record p { lane = pos i }) l ≡ collides p l
unfolding collides
collides-lane p i [] = refl
collides-lane p i (q ∷ l) = ground (arith, collides-lane p i l)

push-AllDisjoint :
    (ls : List Lane) (i : ℕ) (p : DiagramPath)
    → AllDisjoint ls
    → collides p (get_or ls i []) ≡ false
    → AllDisjoint (push ls i p)
push-AllDisjoint ls i p a c =
    AllDisjoint-set ls i _ a
      (Disjoint-snoc _ (get_or ls i []) (AllDisjoint-get_or ls i a) (rw collides-lane c))

module _ (p : DiagramPath) (lanes : List Lane) where
  pub fall-none : (n j : ℕ) → fall p lanes n ≡ none → j < n → collides p (get_or lanes j []) ≡ false
  unfolding fall
  fall-none zero j e h = absurd (omega arith)
  fall-none (suc n) j e h = ground (arith, fall-none n j)

  pub fall-above :
      (n i j : ℕ) → fall p lanes n ≡ some i → i < j → j < n → collides p (get_or lanes j []) ≡ false
  unfolding fall
  fall-above zero i j e h k = absurd (omega arith)
  fall-above (suc n) i j e h k = ground (arith, fall-above n i j)

  pub fall-lands :
      (n i : ℕ) → fall p lanes n ≡ some i → (i < n) × (collides p (get_or lanes i []) ≡ true)
  unfolding fall
  fall-lands zero i e = cc
  fall-lands (suc n) i e = ground (arith, fall-lands n i)

-- A path is put where it shares no line with another path of its lane.
pub place-AllDisjoint :
    (lanes : List Lane) (p : DiagramPath)
    → 0 < length lanes
    → AllDisjoint lanes
    → AllDisjoint (place lanes p).1
unfolding place
place-AllDisjoint lanes p some' a = elim (Option-cases (fall p lanes (length lanes))) [
  | inl clear ↦
      rw (clear, place)
        (push-AllDisjoint lanes 0 p a (fall-none p lanes (length lanes) 0 clear some'))
  | inr (i, lands) ↦ elim (Bool-cases (ltb (i + 1) (length lanes))) [
    | inl room ↦
        rw (lands, place, room)
          (push-AllDisjoint lanes (i + 1) p a
            (fall-above p lanes (length lanes) i (i + 1) lands (omega arith) (ground arith)))
    | inr full ↦
        rw (lands, place, full)
          (push-AllDisjoint (lanes ++ [] ∷ []) (length lanes) p (AllDisjoint-snoc lanes a)
            (rw (get_or-snoc, get_or-length) (unfold collides in refl)))
  ]
]

-- Where `place` puts a path into lanes of which there is at least one: every lane with a path that
-- shares a line with it lies below, and the lane right below is one of these, unless the path lies
-- on the bottom. The path's lane is an old one or the next, and then the only one added.
pub place_rests :
    (lanes : List Lane) (p : DiagramPath) (j : ℕ)
    → 0 < length lanes
    → j < length lanes
    → let (lane, lanes') = place lanes p in
      ((j < lane) ⊎ (collides p (get_or lanes j []) ≡ false))
      × ((lane ≡ 0) ⊎ (collides p (get_or lanes (lane - 1) []) ≡ true))
      × (lane ≤ length lanes)
      × (length lanes' ≡ max (lane + 1) (length lanes))
unfolding place
place_rests lanes p j some' inside = elim (Option-cases (fall p lanes (length lanes))) [
  | inl clear ↦
      rw (clear, place)
        (
          inr (fall-none p lanes (length lanes) j clear inside),
          inl refl,
          omega arith,
          grown 0 lanes some',
        )
  | inr (i, lands) ↦
      let below : (i < length lanes) × (collides p (get_or lanes i []) ≡ true) =
        fall-lands p lanes (length lanes) i lands in
      let side : (j < i + 1) ⊎ (collides p (get_or lanes j []) ≡ false) = elim (dec_lt i j) [
        | yes above ↦ inr (fall-above p lanes (length lanes) i j lands above inside)
        | no not_above ↦ inl (omega arith)
      ] in
      let under : i + 1 - 1 ≡ i = omega arith in
      elim (Bool-cases (ltb (i + 1) (length lanes))) [
        | inl room ↦
            rw (lands, place, room)
              (
                side,
                inr (rw under below.1),
                ground (arith, room),
                grown (i + 1) lanes (ground (arith, room)),
              )
        | inr full ↦
            let top : length lanes ≡ i + 1 = ground (arith, full, below.0) in
            rw (lands, place, full)
              (
                rw (← top) at side,
                inr (rw (ap (λ (n : ℕ). n - 1) top ∙ under) below.1),
                omega arith,
                added,
              )
      ]
]
  where
    added :
        length (push (lanes ++ [] ∷ []) (length lanes) p) ≡ max (length lanes + 1) (length lanes)
    added = omega (
      arith,
      length-set (lanes ++ [] ∷ []) (length lanes) (
          get_or (lanes ++ [] ∷ []) (length lanes) []
          ++ record p { lane = pos (length lanes) } ∷ []),
      length-append lanes ([] ∷ []),
    )

    grown :
        (k : ℕ) (ls : List Lane) → k < length ls → length (push ls k p) ≡ max (k + 1) (length ls)
    grown k ls h = omega (arith, length-set ls k (get_or ls k [] ++ record p { lane = pos k } ∷ []))
