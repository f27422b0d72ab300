-- ===== src/Size/Snap/Nearest.antt =====
-- workflow/resolve/size.go: when the wanted size is itself supported.
use aigo.Base.{
  String, Bool, true, false, ◌&&◌, ◌<◌, ◌≡◌, ◌≢◌, List, [], ◌∷◌, if◌then◌else◌, Bool-cases, inl,
  inr, arith, All, some_of, ◌==◌, ◌⊎◌, not,
}
use aigo.Size.{SizeSpec, is_zero, parse_size}
use aigo.Size.Snap.{
  Angles, candidates_of, angle_diff, pixel_diff, is_nearer, nearest, among, snap_to,
}

module _ (angles : Angles) (s : SizeSpec) where
  -- About the angle of the wanted size, and its area.
  abbrev pub Hits : SizeSpec → Type 0
  Hits c = (angle_diff angles s c < angles.epsilon) × (pixel_diff angles s c ≡ 0)

  abbrev pub OffEdge : SizeSpec → Type 0
  OffEdge c = angle_diff angles s c ≢ angles.epsilon

  nearest-kept :
      (best : SizeSpec) (cs : List SizeSpec) → Hits best → Hits (nearest angles s best cs)
  unfolding nearest is_nearer
  nearest-kept best [] h = h
  nearest-kept best (c ∷ cs) h =
      let stays : is_nearer angles s c best ≡ false = ground (arith, h) in
      rw stays (nearest-kept best cs h)

  -- A supported size with the angle and the area of the wanted one.
  unfoldable pub is_exact : SizeSpec → Bool
  is_exact c = (angle_diff angles s c == 0) && (pixel_diff angles s c == 0)

  module _ (positive : 0 < angles.epsilon) where
    exact-Hits : (c : SizeSpec) → is_exact c ≡ true → Hits c
    unfolding is_exact
    exact-Hits c e = ground (arith, positive)

    -- An exact candidate is taken, or the best so far is as good.
    step-Hits :
        (best c : SizeSpec)
        → OffEdge best
        → is_exact c ≡ true
        → Hits (if is_nearer angles s c best then c else best)
    unfolding is_exact is_nearer
    step-Hits best c off e = ground (arith, positive, off)

    nearest-found :
        (best : SizeSpec) (cs : List SizeSpec)
        → OffEdge best
        → All OffEdge cs
        → (is_exact best ≡ true) ⊎ (some_of is_exact cs ≡ true)
        → Hits (nearest angles s best cs)
    unfolding nearest
    nearest-found best cs off offs (inl e) = nearest-kept best cs (exact-Hits best e)
    nearest-found best [] off offs (inr e) = absurd (ground arith)
    nearest-found best (c ∷ cs) off offs (inr e) = elim (Bool-cases (is_exact c)) [
      | inl exact ↦ nearest-kept _ cs (step-Hits best c off exact)
      | inr other ↦
          nearest-found (if is_nearer angles s c best then c else best) cs
            (still_off (is_nearer angles s c best)) offs.1 (inr (ground (arith, other, e)))
    ]
      where
        still_off : (b : Bool) → OffEdge (if b then c else best)
        still_off true = offs.0
        still_off false = off

    among-found :
        (cs : List SizeSpec)
        → All OffEdge cs
        → some_of is_exact cs ≡ true
        → Hits (among angles s cs)
    unfolding among
    among-found [] offs e = absurd (ground arith)
    among-found (c ∷ cs) offs e = nearest-found c cs offs.0 offs.1 (ground arith)

    -- An entry of the list that `ParseSize` reads, and that has the angle and the area of the wanted size.
    unfoldable pub is_exact_entry : String → Bool
    is_exact_entry t = not (is_zero (parse_size t)) && is_exact (parse_size t)

    found-candidates_of :
        (ts : List String)
        → some_of is_exact_entry ts ≡ true
        → some_of is_exact (candidates_of ts) ≡ true
    unfolding candidates_of is_exact_entry
    found-candidates_of [] e = absurd (ground arith)
    found-candidates_of (t ∷ ts) e = ground (arith, found-candidates_of ts)

    All-candidates_of :
        (ts : List String) → All (λ t. OffEdge (parse_size t)) ts → All OffEdge (candidates_of ts)
    unfolding candidates_of
    All-candidates_of [] h = tt
    All-candidates_of (t ∷ ts) h = elim (Bool-cases (is_zero (parse_size t))) [
      | inl e ↦ rw e (All-candidates_of ts h.1)
      | inr e ↦ rw e (h.0, All-candidates_of ts h.1)
    ]

    -- If the list has a size with the angle and the area of the wanted one, and no angle of the list
    -- differs from the wanted one by exactly the epsilon, `SnapTo` gives a size whose angle differs by
    -- less than the epsilon and whose area is the wanted one.
    pub snap_to-Hits :
        (supported : List String)
        → is_zero s ≡ false
        → All (λ t. OffEdge (parse_size t)) supported
        → some_of is_exact_entry supported ≡ true
        → Hits (snap_to angles s supported)
    unfolding snap_to
    snap_to-Hits supported some_size offs e = rw some_size (
        among-found (candidates_of supported) (All-candidates_of supported offs)
          (found-candidates_of supported e))
