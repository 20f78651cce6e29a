-- ===== src/State/FilterMap.antt =====
-- The id that `TreeState::addFilter` (src/backend/state.cpp) gives a new filter in its map of ids.
use depict_isosurfaces.Prelude.{
  ℕ, zero, suc, ◌+◌, ◌≤◌, ◌<◌, ◌≡◌, refl, ap, sym, ◌∙◌, Bool, true, false, ◌||◌, List, [], ◌∷◌,
  Option, none, some, arith, ltb, ◌==◌, if◌then◌else◌, All, elem, length, get_elem?, set, replicate,
  length-set, get_elem?-set_self, get_elem?-set_ne, length-replicate, All-map, subst, Bool-cases,
  inl, inr, ◌⊎◌,
}

-- What `idToUse` is after the loops: a write to `idInUse` was out of range, no id was assigned and the
-- variable is read without a value, or an id.
pub data Chosen : Type 0 where
  out_of_range unset : Chosen
  id : ℕ → Chosen

-- `idInUse[it->first] = true` for every id of the map.
mark : List ℕ → List Bool → Option (List Bool)
mark [] in_use = some in_use
mark (i ∷ ids) in_use =
    let more = mark ids (set in_use i true) in if ltb i (length in_use) then more else none

-- `for(ui = 0; ui < filterMap.size(); ui++) if(!idInUse[ui]) { idToUse = ui; continue; }`
scan : ℕ → ℕ → List Bool → Chosen → Chosen
scan zero ui in_use chosen = chosen
scan (suc n) ui [] chosen = out_of_range
scan (suc n) ui (used ∷ in_use) chosen = scan n (suc ui) in_use (if used then chosen else id ui)

abbrev scan_marked : ℕ → Option (List Bool) → Chosen
scan_marked n none = out_of_range
scan_marked n (some in_use) = scan n 0 in_use unset

-- The ids of the map in their order.
unfoldable pub choose_id : List ℕ → Chosen
unfolding mark scan
choose_id ids = scan_marked (length ids) (mark ids (replicate (length ids + 1) false))

or_true : (b : Bool) → (b || true) ≡ true
or_true b = ground arith

or_false : (b : Bool) → (b || false) ≡ b
or_false b = ground arith

lt→ltb : (a b : ℕ) → a < b → ltb a b ≡ true
lt→ltb a b h = ground arith

-- The flag of every place is set if its number is an id, or was set before.
mark_lem :
    (ids : List ℕ) (fs : List Bool)
    → All (λ i. i < length fs) ids
    → (fs' : List Bool) × (mark ids fs ≡ some fs')
      × ((k : ℕ) (b : Bool) → get_elem? fs k ≡ some b → get_elem? fs' k ≡ some (elem k ids || b))
unfolding mark
mark_lem [] fs h = (fs, refl, λ k b e. e)
mark_lem (i ∷ ids) fs h =
    let (fs', e, f) = mark_lem ids (set fs i true) (rw (length-set fs i true) h.1) in
    (
      fs',
      rw (lt→ltb i (length fs) h.0) e,
      λ k b q. elim (Bool-cases (k == i)) [
        | inl same ↦
            let here : k ≡ i = ground arith in
            rw same (
              f k true (rw here (get_elem?-set_self fs i true h.0))
              ∙ ap some (or_true (elem k ids)))
        | inr other ↦ rw other (f k b (get_elem?-set_ne fs i k true (ground arith) ∙ q))
      ],
    )

get_elem?-replicate : (n k : ℕ) → k < n → get_elem? (replicate n false) k ≡ some false
get_elem?-replicate zero k h = absurd (omega arith)
get_elem?-replicate (suc n) zero h = refl
get_elem?-replicate (suc n) (suc k) h = get_elem?-replicate n k (omega arith)

-- What the choice says of the ids: no number below their count is free, and none is chosen; or the
-- chosen one is free and below their count.
abbrev pub Chooses : List ℕ → ℕ → Chosen → Type 0
Chooses ids n c =
    ((c ≡ unset) × ((k : ℕ) → k < n → elem k ids ≡ true))
    ⊎ ((k : ℕ) × (c ≡ id k) × (k < n) × (elem k ids ≡ false))

Chooses-step :
    (ids : List ℕ) (ui : ℕ) (u : Bool) (c : Chosen)
    → u ≡ elem ui ids
    → Chooses ids ui c
    → Chooses ids (suc ui) (if u then c else id ui)
Chooses-step ids ui true c e (inl (un, used)) = inl (
  un,
  λ k l. elim (Bool-cases (k == ui)) [
    | inl same ↦ let here : k ≡ ui = ground arith in rw here (sym e)
    | inr other ↦ used k (ground arith)
  ],
)
Chooses-step ids ui true c e (inr (k, is, l, free)) = inr (k, is, omega arith, free)
Chooses-step ids ui false c e h = inr (ui, refl, omega arith, sym e)

-- The scan from `ui` on, where the flags tell which numbers are ids.
scan_lem :
    (ids : List ℕ) (n ui : ℕ) (fs : List Bool) (c : Chosen)
    → ((k : ℕ) → k < n → get_elem? fs k ≡ some (elem (ui + k) ids))
    → Chooses ids ui c
    → Chooses ids (ui + n) (scan n ui fs c)
unfolding scan
scan_lem ids zero ui fs c f h = let e : ui + zero ≡ ui = omega arith in rw e h
scan_lem ids (suc n) ui [] c f h = absurd (cc (f 0 (omega arith)))
scan_lem ids (suc n) ui (u ∷ fs) c f h =
    let e : ui + suc n ≡ suc ui + n = omega arith in
    let z : ui + 0 ≡ ui = omega arith in
    rw e (
      scan_lem ids n (suc ui) fs (if u then c else id ui)
        (λ k l. f (suc k) (omega arith) ∙ ap (λ t. some (elem t ids)) (omega arith))
        (Chooses-step ids ui u c (cc (f 0 (omega arith), z)) h))

-- An id above the count of the ids is written out of range.
mark-none :
    (ids : List ℕ) (fs : List Bool) (i : ℕ) → elem i ids ≡ true → length fs ≤ i → mark ids fs ≡ none
unfolding mark
mark-none [] fs i h k = absurd (cc)
mark-none (j ∷ ids) fs i h k = elim (Bool-cases (ltb j (length fs))) [
  | inr u ↦ rw u refl
  | inl u ↦
      let other : elem i ids ≡ true = ground (arith, h, k, u) in
      let size = length-set fs j true in
      rw u (mark-none ids (set fs j true) i other (omega (arith, size, k)))
]

-- Either an id is above the bound, or all are at most it.
above_or_fit :
    (n : ℕ) (ids : List ℕ) → ((i : ℕ) × (elem i ids ≡ true) × (n < i)) ⊎ All (λ i. i ≤ n) ids
above_or_fit n [] = inr tt
above_or_fit n (j ∷ ids) = elim (Bool-cases (ltb n j)) [
  | inl u ↦ inl (j, ground arith, ground arith)
  | inr u ↦ elim (above_or_fit n ids) [
    | inl (i, there, high) ↦ inl (i, ground (arith, there), high)
    | inr fit ↦ inr (ground arith, fit)
  ]
]

choose_fitting :
    (ids : List ℕ) → All (λ i. i ≤ length ids) ids → Chooses ids (length ids) (choose_id ids)
unfolding choose_id
choose_fitting ids h =
    let (fs, e, f) =
      mark_lem ids (replicate (length ids + 1) false)
        (rw (length-replicate (length ids + 1) false) (All-map _ _ (λ i l. omega arith) ids h)) in
    rw (e, choose_id)
      (subst (λ t. Chooses ids t (scan (length ids) 0 fs unset)) (omega arith)
        (scan_lem ids (length ids) 0 fs unset
          (λ k l.
            f k false (get_elem?-replicate (length ids + 1) k (omega arith))
            ∙ ap some (or_false (elem k ids))
            ∙ ap (λ t. some (elem t ids)) (omega arith))
          (inl (refl, λ k l. absurd (omega arith)))))

choose_id-outside :
    (ids : List ℕ) (i : ℕ) → elem i ids ≡ true → length ids < i → choose_id ids ≡ out_of_range
unfolding choose_id
choose_id-outside ids i there high =
    let size = length-replicate (length ids + 1) false in
    rw (mark-none ids (replicate (length ids + 1) false) i there (omega (arith, size, high))) refl

-- The id of a new filter. If one of the ids is above their count, the flags are written out of range.
-- If not, the id is a free number below their count; or, where the ids are exactly the numbers below
-- their count, no id is assigned and the variable is read without a value.
pub choose_id_lem :
    (ids : List ℕ)
    → ((i : ℕ) × (elem i ids ≡ true) × (length ids < i) × (choose_id ids ≡ out_of_range))
      ⊎ (All (λ i. i ≤ length ids) ids × Chooses ids (length ids) (choose_id ids))
choose_id_lem ids = elim (above_or_fit (length ids) ids) [
  | inl (i, there, high) ↦ inl (i, there, high, choose_id-outside ids i there high)
  | inr fit ↦ inr (fit, choose_fitting ids fit)
]
