-- ===== src/Basics/Misread.antt =====
-- `randomSelect` of src/common/basics.h when it compares with the memory behind its ticks.
use depict_isosurfaces.Prelude.{
  ℕ, suc, ◌+◌, ◌-◌, ◌/◌, ◌≤◌, ◌<◌, ◌≡◌, ◌∙◌, ◌⊎◌, subst, refl, ap, false, List, [], ◌∷◌, arith,
  length, get_elem?, set, ◌==◌, ltb, leb, Bool-cases, inl, inr, IsRising, IsRising-fits,
  get_elem?-set_ne,
}
use depict_isosurfaces.Basics.Sort.{sort-IsRising}
use depict_isosurfaces.Basics.Select.{tick_at, ticks_needed, select_loop, transfer, chosen}
use depict_isosurfaces.Basics.Selected.{select_lem, pick_lem}

-- Either the number is a position of the source behind all ticks, or it is not.
far_or_not :
    (low q n : ℕ) (ts : List ℕ) → (IsRising low q ts × (q < n)) ⊎ (IsRising low q ts → n ≤ q)
far_or_not low q n [] = elim (Bool-cases (leb low q)) [
  | inl u ↦ elim (Bool-cases (ltb q n)) [
    | inl v ↦ inl (ground arith, ground arith)
    | inr v ↦ inr (λ r. ground (arith, v))
  ]
  | inr u ↦ inr (λ r. absurd (ground (arith, r, u)))
]
far_or_not low q n (e ∷ es) = elim (Bool-cases (leb low e)) [
  | inl u ↦ elim (far_or_not (suc e) q n es) [
    | inl (rise, small) ↦ inl ((ground arith, rise), small)
    | inr far ↦ inr (λ r. far r.1)
  ]
  | inr u ↦ inr (λ r. let from = r.0 in absurd (ground (arith, from, u)))
]

module _ {A : Type 0} (ticks : List ℕ) (past : ℕ → ℕ) where
  -- Once one position more than there are ticks is left out, the last place is not written.
  misread_after :
      (n count k : ℕ) (xs : List A) (ui cur : ℕ) (result : List A)
      → ui + length xs ≡ n
      → k + count + 1 ≡ n
      → count < cur
      → cur ≤ ui
      → get_elem? (select_loop ticks past xs ui cur result) k ≡ get_elem? result k
  unfolding select_loop
  misread_after n count k [] ui cur result end last over low = refl
  misread_after n count k (x ∷ xs) ui cur result end last over low =
      elim (Bool-cases (ui == tick_at ticks past cur)) [
        | inl u ↦ rw u (
            misread_after n count k xs (suc ui) (suc cur) result (omega (arith, end)) last
              (omega (arith, over)) (omega (arith, low)))
        | inr u ↦ rw u (
            misread_after n count k xs (suc ui) cur (set result (ui - cur) x) (omega (arith, end))
              last over (omega (arith, low))
            ∙ get_elem?-set_ne result (ui - cur) k x
                (λ e. absurd (omega (arith, end, last, over, low, e))))
      ]

  misread_lem :
      (n count k : ℕ) (ts : List ℕ) (xs : List A) (ui cur : ℕ) (result : List A)
      → ((i : ℕ) → tick_at ticks past (cur + i) ≡ tick_at ts past i)
      → IsRising ui (past 0) ts
      → past 0 < n
      → ui + length xs ≡ n
      → cur + length ts ≡ count
      → k + count + 1 ≡ n
      → cur ≤ ui
      → get_elem? (select_loop ticks past xs ui cur result) k ≡ get_elem? result k
  unfolding select_loop
  misread_lem n count k ts [] ui cur result at up inside end all last low =
      let fits = IsRising-fits ui (past 0) ts up in absurd (omega (arith, fits, inside, end))
  misread_lem n count k [] (x ∷ xs) ui cur result at up inside end all last low =
      let now : cur + 0 ≡ cur = omega arith in
      let first : tick_at ticks past cur ≡ past 0 =
        subst (λ i. tick_at ticks past i ≡ past 0) now (at 0) in
      elim (Bool-cases (ui == past 0)) [
        | inl u ↦
            rw (first, u)
              (misread_after n count k xs (suc ui) (suc cur) result (omega (arith, end)) last
                (omega (arith, all)) (omega (arith, low)))
        | inr u ↦
            let before : ui < past 0 = ground (arith, up, u) in
            rw (first, u)
              (misread_lem n count k [] xs (suc ui) cur (set result (ui - cur) x) at
                  (omega (arith, before)) inside (omega (arith, end)) all last (omega (arith, low))
                ∙ get_elem?-set_ne result (ui - cur) k x
                    (λ e. absurd (omega (arith, inside, all, last, low, e, before))))
      ]
  misread_lem n count k (e ∷ es) (x ∷ xs) ui cur result at up inside end all last low =
      let now : cur + 0 ≡ cur = omega arith in
      let first : tick_at ticks past cur ≡ e = subst (λ i. tick_at ticks past i ≡ e) now (at 0) in
      let from = up.0 in
      elim (Bool-cases (ui == e)) [
        | inl u ↦
            let same : e ≡ ui = ground arith in
            let shift : (i : ℕ) → suc cur + i ≡ cur + suc i = λ i. omega arith in
            let next = λ (i : ℕ). ap (tick_at ticks past) (shift i) ∙ at (suc i) in
            rw (first, u)
              (misread_lem n count k es xs (suc ui) (suc cur) result next
                (subst (λ i. IsRising (suc i) (past 0) es) same up.1) inside (omega (arith, end))
                (omega (arith, all)) last (omega (arith, low)))
        | inr u ↦
            let later : IsRising (suc ui) (past 0) (e ∷ es) = (ground (arith, from, u), up.1) in
            let fits = IsRising-fits (suc ui) (past 0) (e ∷ es) later in
            rw (first, u)
              (misread_lem n count k (e ∷ es) xs (suc ui) cur (set result (ui - cur) x) at later
                  inside (omega (arith, end)) all last (omega (arith, low))
                ∙ get_elem?-set_ne result (ui - cur) k x
                    (λ d. absurd (omega (arith, inside, all, last, low, d, fits))))
      ]

-- `randomSelect` of at most as many elements as there are, with rising ticks inside the source, as
-- many as it draws, whatever was in the result before and whatever the memory behind the ticks holds. Either it selects the elements at the ticks,
-- if the selection is below half of the source, or the others, if not, in their order. Or the ticks are
-- the vacancies, the first number behind them is a later position of the source, and the last place of
-- the result keeps what it held.
pub transfer_lem :
    {A : Type 0}
    → (ticks : List ℕ) (past : ℕ → ℕ) (source : List A) (num : ℕ) (result : List A)
    → IsRising 0 (length source) ticks
    → length ticks ≡ ticks_needed num (length source)
    → num ≤ length source
    → length result ≡ num
    → (transfer ticks past source num result ≡ chosen (ltb num (length source / 2)) ticks 0 source)
      ⊎ ((ltb num (length source / 2) ≡ false)
          × IsRising 0 (past 0) ticks
          × (past 0 < length source)
          × (get_elem? (transfer ticks past source num result) (num - 1)
              ≡ get_elem? result (num - 1)))
unfolding transfer ticks_needed
transfer_lem ticks past source num result up drawn fewer size =
    elim (Bool-cases (ltb num (length source / 2))) [
      | inl u ↦
          let count : length ticks ≡ num = drawn ∙ rw u refl in
          rw u (
            inl (
              pick_lem source (length source) ticks source 0 0 [] result
                (λ k. ap (get_elem? source) (omega arith)) up (omega arith) refl
                (omega (arith, count, size))))
      | inr u ↦
          let count : length ticks ≡ length source - num = drawn ∙ rw u refl in
          rw (u, sort-IsRising 0 (length source) ticks up)
            (elim (far_or_not 0 (past 0) (length source) ticks) [
              | inr far ↦ inl (
                  select_lem ticks past (length source) ticks source 0 0 [] result
                    (λ k. ap (tick_at ticks past) (omega arith)) up (omega arith) far (omega arith)
                    (omega (arith, count, size, fewer)))
              | inl (rise, small) ↦
                  let fits = IsRising-fits 0 (past 0) ticks rise in
                  inr (
                    refl,
                    rise,
                    small,
                    misread_lem ticks past (length source) (length ticks) (num - 1) ticks source 0 0
                        result (λ k. ap (tick_at ticks past) (omega arith)) rise small (omega arith)
                        (omega arith) (omega (arith, count, fits, small, fewer)) (omega arith),
                  )
            ])
    ]
