-- ===== src/Basics/Ids.antt =====
-- `UniqueIDHandler` of src/common/basics.h and basics.cpp: the ids of the elements of a vector, kept as
-- pairs of a position and an id.
use depict_isosurfaces.Prelude.{
  ℕ, zero, suc, ◌+◌, ◌-◌, ◌≤◌, ◌<◌, ◌≡◌, refl, ap, ◌∙◌, Bool, true, false, ◌||◌, List, [], ◌∷◌,
  ◌++◌, Option, none, some, arith, ◌==◌, ltb, if◌then◌else◌, elem, length, pigeonhole, Bool-cases,
  Option-cases, inl, inr,
}

abbrev pub IdList : Type 0
IdList = List (ℕ × ℕ)

-- `none` is the failed assertion.
unfoldable pub get_pos : ℕ → IdList → Option ℕ
get_pos id [] = none
get_pos id ((p, i) ∷ s) = let rest = get_pos id s in if id == i then some p else rest

unfoldable pub get_id : ℕ → IdList → Option ℕ
get_id pos [] = none
get_id pos ((p, i) ∷ s) = let rest = get_id pos s in if pos == p then some i else rest

-- `idTaken`
unfoldable pub id_taken : ℕ → IdList → Bool
id_taken ui [] = false
id_taken ui ((p, i) ∷ s) = (ui == i) || id_taken ui s

-- The loop over `ui`, with the rounds left.
unfoldable pub free_id : IdList → ℕ → ℕ → Option ℕ
unfolding id_taken
free_id s zero ui = none
free_id s (suc n) ui = let later = free_id s n (suc ui) in if id_taken ui s then later else some ui

abbrev pub push_id : ℕ → IdList → Option ℕ → Option (ℕ × IdList)
push_id pos s none = none
push_id pos s (some id) = some (id, s ++ (pos, id) ∷ [])

unfoldable pub gen_id : ℕ → IdList → Option (ℕ × IdList)
unfolding free_id
gen_id pos s = push_id pos s (free_id s (suc (length s)) 0)

unfoldable pub erase_pos : ℕ → IdList → IdList
erase_pos pos [] = []
erase_pos pos ((p, i) ∷ s) = let rest = (p, i) ∷ erase_pos pos s in if pos == p then s else rest

unfoldable pub move_down : ℕ → IdList → IdList
move_down pos [] = []
move_down pos ((p, i) ∷ s) = (if ltb pos p then p - 1 else p, i) ∷ move_down pos s

unfoldable pub kill_by_pos : ℕ → IdList → IdList
unfolding erase_pos move_down
kill_by_pos pos s = move_down pos (erase_pos pos s)

unfoldable pub get_ids : IdList → List ℕ
get_ids [] = []
get_ids ((p, i) ∷ s) = i ∷ get_ids s

id_taken-get_ids : (ui : ℕ) (s : IdList) → elem ui (get_ids s) ≡ id_taken ui s
unfolding get_ids id_taken
id_taken-get_ids ui [] = refl
id_taken-get_ids ui ((p, i) ∷ s) = ground (arith, id_taken-get_ids ui s)

length-get_ids : (s : IdList) → length (get_ids s) ≡ length s
unfolding get_ids
length-get_ids [] = refl
length-get_ids ((p, i) ∷ s) = ap suc (length-get_ids s)

free_id-none :
    (s : IdList) (n ui : ℕ)
    → free_id s n ui ≡ none
    → (i : ℕ) → ui ≤ i
    → i < ui + n
    → id_taken i s ≡ true
unfolding free_id
free_id-none s zero ui h i l m = absurd (omega arith)
free_id-none s (suc n) ui h i l m = elim (Bool-cases (i == ui)) [
  | inl u ↦ let same : i ≡ ui = ground arith in rw same (ground arith)
  | inr u ↦ free_id-none s n (suc ui) (ground arith) i (ground arith) (omega arith)
]

free_id-some :
    (s : IdList) (n ui i : ℕ) → free_id s n ui ≡ some i → (i < ui + n) × (id_taken i s ≡ false)
unfolding free_id
free_id-some s zero ui i h = absurd (cc)
free_id-some s (suc n) ui i h = elim (Bool-cases (id_taken ui s)) [
  | inl u ↦ let rest = free_id-some s n (suc ui) i (rw u at h) in (omega (arith, rest.0), rest.1)
  | inr u ↦ let same : ui ≡ i = cc (rw u at h) in rw (← same) (omega arith, u)
]

-- genId always finds an id: one that is not taken and is at most the number of ids.
pub gen_id_lem :
    (pos : ℕ) (s : IdList)
    → (id : ℕ) × (gen_id pos s ≡ some (id, s ++ (pos, id) ∷ []))
      × (id ≤ length s)
      × (id_taken id s ≡ false)
unfolding gen_id
gen_id_lem pos s = elim (Option-cases (free_id s (suc (length s)) 0)) [
  | inl e ↦
      let full = pigeonhole (suc (length s)) (get_ids s) (λ i m.
        id_taken-get_ids i s
        ∙ free_id-none s (suc (length s)) 0 e i (omega arith) (omega (arith, m))) in
      absurd (omega (arith, full, length-get_ids s))
  | inr (id, e) ↦
      let found = free_id-some s (suc (length s)) 0 id e in
      (id, rw e refl, omega (arith, found.0), found.1)
]
