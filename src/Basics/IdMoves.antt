-- ===== src/Basics/IdMoves.antt =====
-- `UniqueIDHandler` (src/common/basics.cpp) through its calls.
use depict_isosurfaces.Prelude.{
  ℕ, suc, ◌≡◌, refl, sym, subst, ◌∙◌, Bool, true, false, ◌||◌, [], ◌∷◌, ◌++◌, some, arith, ◌==◌,
  ltb, if◌then◌else◌, Bool-cases, inl, inr,
}
use depict_isosurfaces.Basics.Ids.{
  IdList, get_pos, get_id, id_taken, gen_id, gen_id_lem, erase_pos, move_down, kill_by_pos,
}

-- Whether a position has an id.
unfoldable pub pos_used : ℕ → IdList → Bool
pos_used pos [] = false
pos_used pos ((p, i) ∷ s) = (pos == p) || pos_used pos s

-- No position twice.
abbrev pub HasDistinctPositions : IdList → Type 0
HasDistinctPositions [] = Unit
HasDistinctPositions ((p, i) ∷ s) = (pos_used p s ≡ false) × HasDistinctPositions s

-- No id twice.
abbrev pub HasDistinctIds : IdList → Type 0
HasDistinctIds [] = Unit
HasDistinctIds ((p, i) ∷ s) = (id_taken i s ≡ false) × HasDistinctIds s

-- The place of an element before the one at `pos` was taken out.
abbrev pub before : ℕ → ℕ → ℕ
before pos q = if ltb q pos then q else suc q

get_id-move_down :
    (pos q : ℕ) (s : IdList)
    → pos_used pos s ≡ false
    → get_id q (move_down pos s) ≡ get_id (before pos q) s
unfolding get_id move_down pos_used
get_id-move_down pos q [] h = refl
get_id-move_down pos q ((p, i) ∷ s) h = ground (arith, get_id-move_down pos q s)

-- Once the element at a position is taken out of the vector and its id killed, every other element has
-- the id that it had.
pub get_id-kill_by_pos :
    (pos q : ℕ) (s : IdList)
    → HasDistinctPositions s
    → get_id q (kill_by_pos pos s) ≡ get_id (before pos q) s
unfolding kill_by_pos get_id erase_pos move_down
get_id-kill_by_pos pos q [] h = refl
get_id-kill_by_pos pos q ((p, i) ∷ s) h = elim (Bool-cases (pos == p)) [
  | inl u ↦
      let same : pos ≡ p = ground arith in
      let unused = subst (λ x. pos_used x s ≡ false) (sym same) h.0 in
      rw u (ground (arith, get_id-move_down pos q s unused))
  | inr u ↦ rw u (ground (arith, get_id-kill_by_pos pos q s h.1))
]

id_taken-move_down : (pos id : ℕ) (s : IdList) → id_taken id (move_down pos s) ≡ id_taken id s
unfolding id_taken move_down
id_taken-move_down pos id [] = refl
id_taken-move_down pos id ((p, i) ∷ s) = ground (arith, id_taken-move_down pos id s)

id_taken-erase_pos :
    (pos id : ℕ) (s : IdList) → id_taken id s ≡ false → id_taken id (erase_pos pos s) ≡ false
unfolding id_taken erase_pos
id_taken-erase_pos pos id [] h = refl
id_taken-erase_pos pos id ((p, i) ∷ s) h = ground (arith, id_taken-erase_pos pos id s)

move_down-HasDistinctIds :
    (pos : ℕ) (s : IdList) → HasDistinctIds s → HasDistinctIds (move_down pos s)
unfolding move_down
move_down-HasDistinctIds pos [] h = tt
move_down-HasDistinctIds pos ((p, i) ∷ s) h =
    (id_taken-move_down pos i s ∙ h.0, move_down-HasDistinctIds pos s h.1)

erase_pos-HasDistinctIds :
    (pos : ℕ) (s : IdList) → HasDistinctIds s → HasDistinctIds (erase_pos pos s)
unfolding erase_pos
erase_pos-HasDistinctIds pos [] h = tt
erase_pos-HasDistinctIds pos ((p, i) ∷ s) h = elim (Bool-cases (pos == p)) [
  | inl u ↦ rw u h.1
  | inr u ↦ rw u (id_taken-erase_pos pos i s h.0, erase_pos-HasDistinctIds pos s h.1)
]

id_taken-snoc :
    (id p i : ℕ) (s : IdList) → id_taken id (s ++ (p, i) ∷ []) ≡ (id_taken id s || (id == i))
unfolding id_taken
id_taken-snoc id p i [] = ground arith
id_taken-snoc id p i ((q, j) ∷ s) = ground (arith, id_taken-snoc id p i s)

snoc-HasDistinctIds :
    (p i : ℕ) (s : IdList)
    → id_taken i s ≡ false
    → HasDistinctIds s
    → HasDistinctIds (s ++ (p, i) ∷ [])
unfolding id_taken
snoc-HasDistinctIds p i [] h d = (refl, tt)
snoc-HasDistinctIds p i ((q, j) ∷ s) h d = (
  ground (arith, id_taken-snoc j p i s, d.0, h),
  snoc-HasDistinctIds p i s (ground (arith, h)) d.1,
)

-- The lists that the calls of the handler make.
pub data Reach : IdList → Type 0 where
  start : Reach []
  gen : (pos id : ℕ) (s d : IdList) → gen_id pos s ≡ some (id, d) → Reach s → Reach d
  kill : (pos : ℕ) (s : IdList) → Reach s → Reach (kill_by_pos pos s)

Reach-HasDistinctIds : (s : IdList) → Reach s → HasDistinctIds s
unfolding kill_by_pos
Reach-HasDistinctIds _ start = tt
Reach-HasDistinctIds _ (gen pos id s d e r) =
    let (i, made, small, free) = gen_id_lem pos s in
    let pushed = snoc-HasDistinctIds pos i s free (Reach-HasDistinctIds s r) in
    let same : some (i, s ++ (pos, i) ∷ []) ≡ some (id, d) = sym made ∙ e in
    let same_list : s ++ (pos, i) ∷ [] ≡ d = cc same in subst HasDistinctIds same_list pushed
Reach-HasDistinctIds _ (kill pos s r) =
    move_down-HasDistinctIds pos (erase_pos pos s)
      (erase_pos-HasDistinctIds pos s (Reach-HasDistinctIds s r))

get_id-taken : (q i : ℕ) (s : IdList) → get_id q s ≡ some i → id_taken i s ≡ true
unfolding get_id id_taken
get_id-taken q i [] h = absurd (cc)
get_id-taken q i ((p, j) ∷ s) h = elim (Bool-cases (q == p)) [
  | inl u ↦ let same : j ≡ i = cc (rw u at h) in ground arith
  | inr u ↦ ground (arith, get_id-taken q i s (rw u at h))
]

get_pos_of : (q i : ℕ) (s : IdList) → HasDistinctIds s → get_id q s ≡ some i → get_pos i s ≡ some q
unfolding get_id get_pos
get_pos_of q i [] d h = absurd (cc)
get_pos_of q i ((p, j) ∷ s) d h = elim (Bool-cases (q == p)) [
  | inl u ↦
      let same : j ≡ i = cc (rw u at h) in
      let place : q ≡ p = ground arith in rw (← same, place) (ground arith)
  | inr u ↦
      let rest = get_pos_of q i s d.1 (rw u at h) in
      let taken = get_id-taken q i s (rw u at h) in
      elim (Bool-cases (i == j)) [
        | inl v ↦ let same : i ≡ j = ground arith in absurd (cc (d.0, taken, same))
        | inr v ↦ rw v rest
      ]
]

-- Through all calls of the handler the position of the id of a position is that position.
pub get_pos-get_id : (q i : ℕ) (s : IdList) → Reach s → get_id q s ≡ some i → get_pos i s ≡ some q
get_pos-get_id q i s r h = get_pos_of q i s (Reach-HasDistinctIds s r) h
