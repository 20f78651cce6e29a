-- ===== src/Anim/Held.antt =====
-- `PropertyAnimator::getInterpolatedFilterData` of src/backend/animator.cpp: which key frame decides
-- the value of a property at a frame.
use depict_isosurfaces.Prelude.{
  ℕ, suc, ◌+◌, ◌≤◌, ◌≡◌, refl, sym, subst, Bool, true, false, ◌&&◌, &&-true, leb→le, List, [], ◌∷◌,
  Option, none, some, arith, ◌==◌, leb, if◌then◌else◌, All, is_empty, get_elem?, Bool-cases,
  Option-cases, inl, inr, ◌⊎◌,
}
use depict_isosurfaces.Basics.Sort.{sort_by, insert, back, back-sort_by, back-sort_by-All}
use depict_isosurfaces.Anim.Frame.{FrameProperties, Text, get_min_frame, get_max_frame}
use depict_isosurfaces.Anim.Remove.{KeyFrames}

module _ (filter_id property_key : ℕ) where
  -- The frame animates the property.
  abbrev pub controls : FrameProperties → Bool
  controls p = (filter_id == p.filter_id) && (property_key == p.property_key)

  -- `modifyingId`: the first frame that alters the property, from `ui` on.
  find_modifying : ℕ → KeyFrames → Option ℕ
  find_modifying ui [] = none
  find_modifying ui (p ∷ ks) =
      let later = find_modifying (suc ui) ks in if controls p then some ui else later

  -- The frame lies within the span of a key frame that alters the property.
  abbrev pub covers : ℕ → FrameProperties → Bool
  covers frame p = controls p && (leb (get_min_frame p) frame && leb frame (get_max_frame p))

  find_covering : ℕ → ℕ → KeyFrames → Option ℕ
  find_covering frame ui [] = none
  find_covering frame ui (p ∷ ks) =
      let later = find_covering frame (suc ui) ks in if covers frame p then some ui else later

  -- `seenFrames`: positions and maximal frames of the key frames that are over.
  seen_frames : ℕ → ℕ → KeyFrames → List (ℕ × ℕ)
  seen_frames frame ui [] = []
  seen_frames frame ui (p ∷ ks) =
      let rest = seen_frames frame (suc ui) ks in
      if controls p && leb (get_max_frame p) frame then (ui, get_max_frame p) ∷ rest else rest

  -- The hold: of the key frames that are over, the last by its maximal frame.
  hold : List (ℕ × ℕ) → Option (ℕ × ℕ)
  unfolding sort_by insert
  hold seen = if is_empty seen then none else back (sort_by (λ e. e.1) seen)

  -- `keyFrameId` and the frame at which it is asked; `none` is the empty string.
  unfoldable pub find_key_frame : ℕ → KeyFrames → Option (ℕ × ℕ)
  unfolding find_modifying find_covering seen_frames hold
  find_key_frame frame ks = elim (find_modifying 0 ks) [
    | none ↦ none
    | some modifying_id ↦ elim (find_covering frame 0 ks) [
      | some id ↦ some (id, frame)
      | none ↦ hold (seen_frames frame 0 ks)
    ]
  ]

-- `keyFrames[keyFrameId].getInterpolatedData(frame)`, with the interpolation as a parameter.
abbrev value_at : (FrameProperties → ℕ → Text) → KeyFrames → Option (ℕ × ℕ) → Text
value_at interpolate ks none = []
value_at interpolate ks (some (id, frame)) = elim (get_elem? ks id) [
  | none ↦ []
  | some p ↦ interpolate p frame
]

unfoldable pub get_interpolated_filter_data :
    (FrameProperties → ℕ → Text) → ℕ → ℕ → ℕ → KeyFrames → Text
unfolding find_key_frame
get_interpolated_filter_data interpolate filter_id property_key frame ks =
    value_at interpolate ks (find_key_frame filter_id property_key frame ks)

module _ (filter_id property_key frame : ℕ) where
  -- A key frame of the list at a position, counted from `off`, that meets a condition.
  abbrev pub At : ℕ → KeyFrames → ℕ → (FrameProperties → Type 0) → Type 0
  At off ks i P = (k : ℕ) × (p : FrameProperties) × (i ≡ off + k) × (get_elem? ks k ≡ some p) × P p

  At_later :
      (off : ℕ) (x : FrameProperties) (ks : KeyFrames) (i : ℕ) (P : FrameProperties → Type 0)
      → At (suc off) ks i P
      → At off (x ∷ ks) i P
  At_later off x ks i P h = (suc h.0, h.1, omega (arith, h.2), h.3, h.4)

  abbrev pub Covers : FrameProperties → Type 0
  Covers p = covers filter_id property_key frame p ≡ true

  -- A key frame of the property that ended by the frame.
  abbrev pub IsOver : FrameProperties → Type 0
  IsOver p = (controls filter_id property_key p ≡ true) × (get_max_frame p ≤ frame)

  covering_some :
      (off : ℕ) (ks : KeyFrames) (i : ℕ)
      → find_covering filter_id property_key frame off ks ≡ some i
      → At off ks i Covers
  unfolding find_covering
  covering_some off [] i h = absurd (cc)
  covering_some off (p ∷ ks) i h = elim (Bool-cases (covers filter_id property_key frame p)) [
    | inl e ↦ (0, p, ground arith, refl, e)
    | inr e ↦ At_later off p ks i Covers (covering_some (suc off) ks i (rw e at h))
  ]

  covering_none :
      (off : ℕ) (ks : KeyFrames)
      → find_covering filter_id property_key frame off ks ≡ none
      → All (λ p. covers filter_id property_key frame p ≡ false) ks
  unfolding find_covering
  covering_none off [] h = tt
  covering_none off (p ∷ ks) h = ground (arith, covering_none (suc off) ks)

  modifying_none :
      (off : ℕ) (ks : KeyFrames)
      → find_modifying filter_id property_key off ks ≡ none
      → All (λ p. controls filter_id property_key p ≡ false) ks
  unfolding find_modifying
  modifying_none off [] h = tt
  modifying_none off (p ∷ ks) h = ground (arith, modifying_none (suc off) ks)

  -- None of the key frames covers the frame.
  abbrev pub NoneCovers : KeyFrames → Type 0
  NoneCovers = All (λ p. covers filter_id property_key frame p ≡ false)

  uncontrolled :
      (ks : KeyFrames)
      → All (λ p. controls filter_id property_key p ≡ false) ks
      → NoneCovers ks × All (λ p. ¬ IsOver p) ks
  uncontrolled [] h = (tt, tt)
  uncontrolled (p ∷ ks) h =
      let rest = uncontrolled ks h.1 in
      let c = h.0 in ((rw c, rest.0), ((λ o. cc (o.0, c)), rest.1))

  abbrev Seen : ℕ → KeyFrames → ℕ × ℕ → Type 0
  Seen off ks e = At off ks e.0 (λ p. IsOver p × (get_max_frame p ≡ e.1))

  Seen-later :
      (off : ℕ) (x : FrameProperties) (ks : KeyFrames) (es : List (ℕ × ℕ))
      → All (Seen (suc off) ks) es
      → All (Seen off (x ∷ ks)) es
  Seen-later off x ks [] h = tt
  Seen-later off x ks (e ∷ es) h = (
    At_later off x ks e.0 (λ p. IsOver p × (get_max_frame p ≡ e.1)) h.0,
    Seen-later off x ks es h.1,
  )

  Seen-All :
      (off : ℕ) (ks : KeyFrames)
      → All (Seen off ks) (seen_frames filter_id property_key frame off ks)
  unfolding seen_frames
  Seen-All off [] = tt
  Seen-All off (p ∷ ks) =
      let rest = Seen-later off p ks _ (Seen-All (suc off) ks) in
      elim (Bool-cases (controls filter_id property_key p && leb (get_max_frame p) frame)) [
        | inl e ↦
            let start : off ≡ off + 0 = omega arith in
            let both = &&-true _ _ e in
            rw e ((0, p, start, refl, ((both.0, leb→le _ _ both.1), refl)), rest)
        | inr e ↦ rw e rest
      ]

  not-IsOver :
      (p : FrameProperties)
      → (controls filter_id property_key p && leb (get_max_frame p) frame) ≡ false
      → ¬ IsOver p
  not-IsOver p e o = let c = o.0 in let l = o.1 in ground arith

  seen_bound :
      (b off : ℕ) (ks : KeyFrames)
      → All (λ e. e.1 ≤ b) (seen_frames filter_id property_key frame off ks)
      → All (λ p. IsOver p → get_max_frame p ≤ b) ks
  unfolding seen_frames
  seen_bound b off [] h = tt
  seen_bound b off (p ∷ ks) h =
      elim (Bool-cases (controls filter_id property_key p && leb (get_max_frame p) frame)) [
        | inl e ↦ let k = rw e at h in ((λ o. k.0), seen_bound b (suc off) ks k.1)
        | inr e ↦
            let k = rw e at h in ((λ o. absurd (not-IsOver p e o)), seen_bound b (suc off) ks k)
      ]

  seen_none :
      (off : ℕ) (ks : KeyFrames)
      → is_empty (seen_frames filter_id property_key frame off ks) ≡ true
      → All (λ p. ¬ IsOver p) ks
  unfolding seen_frames
  seen_none off [] h = tt
  seen_none off (p ∷ ks) h =
      elim (Bool-cases (controls filter_id property_key p && leb (get_max_frame p) frame)) [
        | inl e ↦ absurd (cc (rw e at h))
        | inr e ↦ (not-IsOver p e, seen_none (suc off) ks (rw e at h))
      ]

  -- What decides the value: a key frame that covers the frame, at the frame; or, where none does, the
  -- end of the key frame that was over last; or nothing, where no key frame of the property covers the
  -- frame or is over.
  abbrev pub Decides : KeyFrames → Option (ℕ × ℕ) → Type 0
  Decides ks none = NoneCovers ks × All (λ p. ¬ IsOver p) ks
  Decides ks (some (i, at)) =
      (At 0 ks i Covers × (at ≡ frame))
      ⊎ (NoneCovers ks
          × At 0 ks i (λ p. IsOver p × (get_max_frame p ≡ at))
          × All (λ p. IsOver p → get_max_frame p ≤ at) ks)

  hold_lem :
      (ks : KeyFrames) (seen : List (ℕ × ℕ))
      → NoneCovers ks
      → seen ≡ seen_frames filter_id property_key frame 0 ks
      → Decides ks (hold filter_id property_key seen)
  unfolding hold
  hold_lem ks [] c e = (c, seen_none 0 ks (rw (← e)))
  hold_lem ks (s ∷ seen) c e =
      let (m, b, most) = back-sort_by (λ (e : ℕ × ℕ). e.1) s seen in
      rw b (
        inr (
          c,
          back-sort_by-All (λ (x : ℕ × ℕ). x.1) (Seen 0 ks) (s ∷ seen) m
              (subst (All (Seen 0 ks)) (sym e) (Seen-All 0 ks)) b,
          seen_bound m.1 0 ks (subst (All (λ y. y.1 ≤ m.1)) e most),
        ))

  -- The value of a property at a frame comes from a key frame of that property that covers the frame;
  -- where none covers it, from the end of the one that was over last; and it is empty exactly where no
  -- key frame of the property covers the frame or is over.
  pub find_key_frame_lem :
      (ks : KeyFrames) → Decides ks (find_key_frame filter_id property_key frame ks)
  unfolding find_key_frame
  find_key_frame_lem ks = elim (Option-cases (find_modifying filter_id property_key 0 ks)) [
    | inl e ↦ rw (e, find_key_frame) (uncontrolled ks (modifying_none 0 ks e))
    | inr (m, e) ↦ elim (Option-cases (find_covering filter_id property_key frame 0 ks)) [
      | inr (i, f) ↦ rw (e, f, find_key_frame) (inl (covering_some 0 ks i f, refl))
      | inl f ↦ rw (e, f, find_key_frame) (hold_lem ks _ (covering_none 0 ks f) refl)
    ]
  ]
