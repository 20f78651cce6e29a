-- ===== src/Basics/Selected.antt =====
-- What the selections of src/common/basics.h take.
use depict_isosurfaces.Prelude.{
  elem-IsRising, ℕ, suc, ◌+◌, ◌-◌, ◌≤◌, ◌<◌, ◌≡◌, subst, refl, ap, sym, ◌∙◌, Bool, true, false,
  List, [], ◌∷◌, ◌++◌, some, arith, length, get_elem?, set, ◌==◌, Bool-cases, inl, inr, IsRising,
  IsRising-fits, length-append,
}
use depict_isosurfaces.Basics.Erase.{set-append, regroup}
use depict_isosurfaces.Basics.Select.{tick_at, pick_loop, select_loop, chosen}

module _ {A : Type 0} where
  -- A tick behind which the loop is no longer counts.
  chosen-passed :
      (want : Bool) (e ui : ℕ) (es : List ℕ) (xs : List A)
      → e < ui
      → chosen want (e ∷ es) ui xs ≡ chosen want es ui xs
  unfolding chosen
  chosen-passed want e ui es [] h = refl
  chosen-passed want e ui es (x ∷ xs) h =
      let differ : (ui == e) ≡ false = ground arith in
      let rest = chosen-passed want e (suc ui) es xs (omega arith) in rw (differ, rest) refl

  chosen-none : (ui : ℕ) (xs : List A) → chosen true [] ui xs ≡ []
  unfolding chosen
  chosen-none ui [] = refl
  chosen-none ui (x ∷ xs) = chosen-none (suc ui) xs

  -- One more element is written behind those that are there.
  written :
      (kept : List A) (x : A) (rest : List A) (n : ℕ)
      → n ≡ length kept
      → 0 < length rest
      → (tail : List A) × (set (kept ++ rest) n x ≡ (kept ++ x ∷ []) ++ tail)
        × (length rest ≡ suc (length tail))
  written kept x [] n h k = absurd (omega arith)
  written kept x (y ∷ rest) n h k = (rest, set-append kept y rest n x h ∙ regroup kept x rest, refl)

  pub select_lem :
      (ticks : List ℕ) (past : ℕ → ℕ) (n : ℕ) (ts : List ℕ) (xs : List A) (ui cur : ℕ)
      (kept rest : List A)
      → ((k : ℕ) → tick_at ticks past (cur + k) ≡ tick_at ts past k)
      → IsRising ui n ts
      → ui + length xs ≡ n
      → (IsRising ui (past 0) ts → n ≤ past 0)
      → length kept + cur ≡ ui
      → length rest + length ts ≡ length xs
      → select_loop ticks past xs ui cur (kept ++ rest) ≡ kept ++ chosen false ts ui xs
  unfolding select_loop chosen
  select_lem ticks past n ts [] ui cur kept [] at up end far here fits = refl
  select_lem ticks past n ts [] ui cur kept (y ∷ rest) at up end far here fits =
      absurd (omega (arith, fits))
  select_lem ticks past n [] (x ∷ xs) ui cur kept rest at up end far here fits =
      let (tail, wrote, size) =
        written kept x rest (ui - cur) (omega (arith, here)) (omega (arith, fits)) in
      let now : cur + 0 ≡ cur = omega arith in
      let first : tick_at ticks past cur ≡ past 0 =
        subst (λ i. tick_at ticks past i ≡ past 0) now (at 0) in
      let apart : (ui == tick_at ticks past cur) ≡ false =
        rw first (elim (Bool-cases (ui == past 0)) [
          | inl u ↦ let behind = far (ground arith) in absurd (ground (arith, end, behind, u))
          | inr u ↦ u
        ]) in
      let longer = length-append kept (x ∷ []) in
      rw (apart, wrote)
        (select_lem ticks past n [] xs (suc ui) cur (kept ++ x ∷ []) tail at (omega (arith, end))
            (omega (arith, end)) (λ r. far (omega (arith, r))) (omega (arith, here, longer))
            (omega (arith, fits, size))
          ∙ sym (regroup kept x (chosen false [] (suc ui) xs)))
  select_lem ticks past n (e ∷ es) (x ∷ xs) ui cur kept rest at up end far here fits =
      let now : cur + 0 ≡ cur = omega arith in
      let first : tick_at ticks past cur ≡ e = subst (λ i. tick_at ticks past i ≡ e) now (at 0) in
      elim (Bool-cases (ui == e)) [
        | inl u ↦
            let same : e ≡ ui = ground arith in
            let marked : (ui == tick_at ticks past cur) ≡ true = rw first u in
            let shift : (k : ℕ) → suc cur + k ≡ cur + suc k = λ k. omega arith in
            let next = λ (k : ℕ). ap (tick_at ticks past) (shift k) ∙ at (suc k) in
            let later = subst (λ i. IsRising (suc i) n es) same up.1 in
            rw (marked, u)
              (select_lem ticks past n es xs (suc ui) (suc cur) kept rest next later
                  (omega (arith, end))
                  (λ r.
                    far
                      (omega (arith, same), subst (λ i. IsRising (suc i) (past 0) es) (sym same) r))
                  (omega (arith, here)) (omega (arith, fits))
                ∙ ap (λ t. kept ++ t)
                    (sym (chosen-passed false e (suc ui) es xs (omega (arith, same)))))
        | inr u ↦
            let from = up.0 in
            let low : suc ui ≤ e = ground (arith, from, u) in
            let later : IsRising (suc ui) n (e ∷ es) = (low, up.1) in
            let room = IsRising-fits (suc ui) n (e ∷ es) later in
            let missing = elem-IsRising (suc ui) n ui (e ∷ es) later (omega arith) in
            let apart : (ui == tick_at ticks past cur) ≡ false = rw first u in
            let (tail, wrote, size) =
              written kept x rest (ui - cur) (omega (arith, here))
                (omega (arith, fits, room, end)) in
            let longer = length-append kept (x ∷ []) in
            rw (apart, wrote, missing)
              (select_lem ticks past n (e ∷ es) xs (suc ui) cur (kept ++ x ∷ []) tail at later
                  (omega (arith, end)) (λ r. far (from, r.1)) (omega (arith, here, longer))
                  (omega (arith, fits, size))
                ∙ sym (regroup kept x (chosen false (e ∷ es) (suc ui) xs)))
      ]

  pub pick_lem :
      (source : List A) (n : ℕ) (ts : List ℕ) (xs : List A) (ui pos : ℕ) (kept rest : List A)
      → ((k : ℕ) → get_elem? source (ui + k) ≡ get_elem? xs k)
      → IsRising ui n ts
      → ui + length xs ≡ n
      → pos ≡ length kept
      → length rest ≡ length ts
      → pick_loop ts source pos (kept ++ rest) ≡ kept ++ chosen true ts ui xs
  unfolding pick_loop chosen
  pick_lem source n [] xs ui pos kept [] at up end here fits =
      ap (λ t. kept ++ t) (sym (chosen-none ui xs))
  pick_lem source n [] xs ui pos kept (y ∷ rest) at up end here fits = absurd (omega (arith, fits))
  pick_lem source n (e ∷ es) [] ui pos kept rest at up end here fits =
      let room = IsRising-fits ui n (e ∷ es) up in absurd (omega (arith, room, end))
  pick_lem source n (e ∷ es) (x ∷ xs) ui pos kept rest at up end here fits =
      let now : ui + 0 ≡ ui = omega arith in
      let first : get_elem? source ui ≡ some x =
        subst (λ i. get_elem? source i ≡ some x) now (at 0) in
      let shift : (k : ℕ) → suc ui + k ≡ ui + suc k = λ k. omega arith in
      let next = λ (k : ℕ). ap (get_elem? source) (shift k) ∙ at (suc k) in
      elim (Bool-cases (ui == e)) [
        | inl u ↦
            let same : e ≡ ui = ground arith in
            let later = subst (λ i. IsRising (suc i) n es) same up.1 in
            let (tail, wrote, size) = written kept x rest pos here (omega (arith, fits)) in
            let longer = length-append kept (x ∷ []) in
            rw (u, ap (get_elem? source) same ∙ first, wrote)
              (pick_lem source n es xs (suc ui) (suc pos) (kept ++ x ∷ []) tail next later
                  (omega (arith, end)) (omega (arith, here, longer)) (omega (arith, fits, size))
                ∙ sym (regroup kept x (chosen true es (suc ui) xs))
                ∙ ap (λ t. kept ++ x ∷ t)
                    (sym (chosen-passed true e (suc ui) es xs (omega (arith, same)))))
        | inr u ↦
            let from = up.0 in
            let low : suc ui ≤ e = ground (arith, from, u) in
            let later : IsRising (suc ui) n (e ∷ es) = (low, up.1) in
            let missing = elem-IsRising (suc ui) n ui (e ∷ es) later (omega arith) in
            rw missing (
              pick_lem source n (e ∷ es) xs (suc ui) pos kept rest next later (omega (arith, end))
                here fits)
      ]
