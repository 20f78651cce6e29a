-- ===== src/Anim/Conflicts.antt =====
-- `PropertyAnimator::checkSelfConsistent` of src/backend/animator.cpp.
use depict_isosurfaces.Prelude.{
  ℕ, suc, ◌≤◌, ◌<◌, ◌≡◌, ◌↔◌, refl, Bool, true, false, ◌&&◌, List, [], ◌∷◌, ◌++◌, arith, ◌==◌,
  if◌then◌else◌, All, is_empty, &&-true, Bool-cases, inl, inr, length,
}
use depict_isosurfaces.Basics.Ranges.{ranges_overlap, ranges_overlap_iff}
use depict_isosurfaces.Anim.Frame.{FrameProperties, get_min_frame, get_max_frame, min-le-max}
use depict_isosurfaces.Anim.Remove.{KeyFrames}

-- Both control one property of one filter at one time.
unfoldable pub clashes : FrameProperties → FrameProperties → Bool
clashes p q =
    (p.property_key == q.property_key)
    && (p.filter_id == q.filter_id)
    && ranges_overlap (get_min_frame p) (get_max_frame p) (get_min_frame q) (get_max_frame q)

-- The inner loop from `uj` on: what it inserts into `conflictFrames`, in order.
inner : ℕ → FrameProperties → ℕ → KeyFrames → List ℕ
unfolding clashes
inner ui p uj [] = []
inner ui p uj (q ∷ ks) =
    let rest = inner ui p (suc uj) ks in if clashes p q then ui ∷ uj ∷ rest else rest

-- The outer loop from `ui` on.
outer : ℕ → KeyFrames → List ℕ
unfolding inner
outer ui [] = []
outer ui (p ∷ ks) = inner ui p (suc ui) ks ++ outer (suc ui) ks

-- The positions in conflict, and whether there are none.
unfoldable pub check_self_consistent : KeyFrames → List ℕ × Bool
unfolding outer
check_self_consistent ks = let conflicts = outer 0 ks in (conflicts, is_empty conflicts)

-- No property of a filter is animated twice at one frame.
abbrev pub Apart : FrameProperties → FrameProperties → Type 0
Apart p q =
    p.property_key ≡ q.property_key
    → p.filter_id ≡ q.filter_id
    → (t : ℕ) → get_min_frame p ≤ t
    → t ≤ get_max_frame p
    → get_min_frame q ≤ t
    → t ≤ get_max_frame q
    → ⊥

abbrev pub Consistent : KeyFrames → Type 0
Consistent [] = Unit
Consistent (p ∷ ks) = All (Apart p) ks × Consistent ks

abbrev pub HasData : FrameProperties → Type 0
HasData p = 0 < length p.frame_data

clashes_parts :
    (p q : FrameProperties)
    → (clashes p q ≡ true) ↔ (
        (p.property_key ≡ q.property_key)
        × (p.filter_id ≡ q.filter_id)
        × (ranges_overlap (get_min_frame p) (get_max_frame p) (get_min_frame q) (get_max_frame q)
            ≡ true))
unfolding clashes
clashes_parts p q = (
  λ e. (ground arith, ground arith, ground arith),
  λ e. let a = e.0 in let b = e.1 in let c = e.2 in ground arith,
)

module _ (p q : FrameProperties) (hp : HasData p) (hq : HasData q) where
  overlap_iff :
      (ranges_overlap (get_min_frame p) (get_max_frame p) (get_min_frame q) (get_max_frame q)
        ≡ true)
      ↔ ((t : ℕ) × (get_min_frame p ≤ t)
          × (t ≤ get_max_frame p)
          × (get_min_frame q ≤ t)
          × (t ≤ get_max_frame q))
  overlap_iff = ranges_overlap_iff _ _ _ _ (min-le-max p hp) (min-le-max q hq)

  Apart-intro : clashes p q ≡ false → Apart p q
  Apart-intro e k f t a b c d = cc ((clashes_parts p q).1 (k, f, overlap_iff.1 (t, a, b, c, d)), e)

  Apart-elim : Apart p q → clashes p q ≡ false
  Apart-elim h = elim (Bool-cases (clashes p q)) [
    | inl e ↦
        let parts = (clashes_parts p q).0 e in
        let t = overlap_iff.0 parts.2 in absurd (h parts.0 parts.1 t.0 t.1 t.2 t.3 t.4)
    | inr e ↦ e
  ]

inner_none :
    (ui uj : ℕ) (p : FrameProperties) (ks : KeyFrames)
    → HasData p
    → All HasData ks
    → (is_empty (inner ui p uj ks) ≡ true) ↔ All (Apart p) ks
unfolding inner
inner_none ui uj p [] hp h = (λ e. tt, λ e. refl)
inner_none ui uj p (q ∷ ks) hp h = elim (Bool-cases (clashes p q)) [
  | inl e ↦ rw (e, inner) (λ k. cc, λ a. cc (Apart-elim p q hp h.0 a.0, e))
  | inr e ↦
      let ih = inner_none ui (suc uj) p ks hp h.1 in
      rw (e, inner) (λ k. (Apart-intro p q hp h.0 e, ih.0 k), λ a. ih.1 a.1)
]

is_empty-append : (xs ys : List ℕ) → is_empty (xs ++ ys) ≡ (is_empty xs && is_empty ys)
is_empty-append [] ys = refl
is_empty-append (x ∷ xs) ys = refl

outer_none :
    (ui : ℕ) (ks : KeyFrames) → All HasData ks → (is_empty (outer ui ks) ≡ true) ↔ Consistent ks
unfolding outer
outer_none ui [] h = (λ e. tt, λ c. refl)
outer_none ui (p ∷ ks) h =
    let here = inner_none ui (suc ui) p ks h.0 h.1 in
    let later = outer_none (suc ui) ks h.1 in
    rw (is_empty-append (inner ui p (suc ui) ks) (outer (suc ui) ks)) (
      λ e. let both = &&-true _ _ e in (here.0 both.0, later.0 both.1),
      λ c. rw (here.1 c.0, later.1 c.1),
    )

-- Where every frame has data, the check passes exactly if no property of a filter is animated by two
-- frames at one time.
pub check_self_consistent_iff :
    (ks : KeyFrames) → All HasData ks → ((check_self_consistent ks).1 ≡ true) ↔ Consistent ks
unfolding check_self_consistent
check_self_consistent_iff ks h = outer_none 0 ks h
