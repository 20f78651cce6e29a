-- ===== src/Tree/Paths/Nonce.antt =====
-- The loop of `FilterTree::serialiseToStringPaths` (src/backend/filtertree.cpp) that looks for a path
-- that no filter has yet.
use depict_isosurfaces.Prelude.{
  ℕ, zero, suc, ◌+◌, ◌-◌, ◌%◌, ◌^◌, ◌≤◌, ◌<◌, ◌≡◌, refl, sym, ap, ◌∙◌, subst, Bool, true, false,
  none, some, List, [], ◌∷◌, ◌++◌, append_assoc, map, length, length-map, elem, pigeonhole,
  if◌then◌else◌, ◌==◌, ==_refl, ==_iff, arith, Bool-cases, Option-cases, inl, inr, &&-true,
}
use depict_isosurfaces.Text.Decimal.{dec, stream_cast, stream_cast-dec}
use depict_isosurfaces.State.Stashes.{text_eq, text_eq_refl}
use depict_isosurfaces.Tree.Paths.{Text, has_path, path_nonce, nonce_path, nonce_loop, test_path}

pub text_eq-eq : (s t : Text) → text_eq s t ≡ true → s ≡ t
unfolding text_eq
text_eq-eq [] [] h = refl
text_eq-eq [] (d ∷ t) h = absurd (cc)
text_eq-eq (c ∷ s) [] h = absurd (cc)
text_eq-eq (c ∷ s) (d ∷ t) h =
    let parts = &&-true (c == d) (text_eq s t) h in
    let same : c ≡ d = (==_iff c d).0 parts.0 in rw (same, text_eq-eq s t parts.1)

text_eq-prefix : (p s t : Text) → text_eq (p ++ s) (p ++ t) ≡ text_eq s t
unfolding text_eq
text_eq-prefix [] s t = refl
text_eq-prefix (c ∷ p) s t = rw (==_refl c, text_eq-prefix p s t)

dec-injective : (i j : ℕ) → i < 2 ^ 32 → j < 2 ^ 32 → dec i ≡ dec j → i ≡ j
dec-injective i j h k same =
    let both = sym (stream_cast-dec i h) ∙ ap stream_cast same ∙ stream_cast-dec j k in
    ap (λ (r : ℕ × Bool). r.0) both

nonce_path-injective :
    (parent type_string : Text) (i j : ℕ)
    → i < 2 ^ 32
    → j < 2 ^ 32
    → text_eq (nonce_path parent type_string i) (nonce_path parent type_string j) ≡ true
    → i ≡ j
unfolding nonce_path
nonce_path-injective parent type_string i j h k same =
    let left = (parent ++ type_string) ++ path_nonce in
    let tails : text_eq (dec (i % 2 ^ 32)) (dec (j % 2 ^ 32)) ≡ true =
      sym (text_eq-prefix left (dec (i % 2 ^ 32)) (dec (j % 2 ^ 32))) ∙ same in
    let numbers =
      dec-injective (i % 2 ^ 32) (j % 2 ^ 32) (omega arith) (omega arith)
        (text_eq-eq (dec (i % 2 ^ 32)) (dec (j % 2 ^ 32)) tails) in
    omega (arith, numbers)

-- Distinct strings that all stand in a list are at most as many as it has.
module _ (g : ℕ → Text) (n : ℕ)
    (apart : (i j : ℕ) → i < n → j < n → text_eq (g i) (g j) ≡ true → i ≡ j) where
  abbrev number_of : ℕ → Text → ℕ
  number_of zero s = 0
  number_of (suc m) s = let rest = number_of m s in if text_eq (g m) s then m else rest

  number_of-string : (m i : ℕ) → m ≤ n → i < m → number_of m (g i) ≡ i
  number_of-string zero i h k = absurd (omega arith)
  number_of-string (suc m) i h k = elim (Bool-cases (text_eq (g m) (g i))) [
    | inl u ↦ rw u (apart m i (omega arith) (omega arith) u)
    | inr u ↦ elim (Bool-cases (i == m)) [
      | inl q ↦
          let same : i ≡ m = (==_iff i m).0 q in
          absurd (cc (subst (λ k. text_eq (g m) (g k) ≡ false) same u, text_eq_refl (g m)))
      | inr q ↦ rw u (number_of-string m i (omega arith) (ground arith))
    ]
  ]

  elem-number_of :
      (paths : List Text) (i : ℕ)
      → i < n
      → has_path paths (g i) ≡ true
      → elem i (map (number_of n) paths) ≡ true
  unfolding has_path
  elem-number_of [] i h k = absurd (cc)
  elem-number_of (p ∷ paths) i h k = elim (Bool-cases (text_eq p (g i))) [
    | inl u ↦
        let same : p ≡ g i = text_eq-eq p (g i) u in
        rw (same, number_of-string n i (omega arith) h, ==_refl i)
    | inr u ↦
        let later : has_path paths (g i) ≡ true = rw u at k in
        ground (arith, elem-number_of paths i h later)
  ]

  strings_fit :
      (paths : List Text) → ((i : ℕ) → i < n → has_path paths (g i) ≡ true) → n ≤ length paths
  strings_fit paths h =
      let fit = pigeonhole n (map (number_of n) paths) (λ i k. elem-number_of paths i k (h i k)) in
      omega (arith, fit, length-map paths (number_of n))

module _ (paths : List Text) (parent type_string : Text) where
  abbrev taken : ℕ → Bool
  taken count = has_path paths (nonce_path parent type_string count)

  nonce_loop-none :
      (n count : ℕ)
      → nonce_loop paths parent type_string n count ≡ none
      → (i : ℕ) → i < n
      → taken (count + i) ≡ true
  unfolding nonce_loop
  nonce_loop-none zero count h i k = absurd (omega arith)
  nonce_loop-none (suc n) count h i k = elim (Bool-cases (taken count)) [
    | inl u ↦ elim (Bool-cases (i == 0)) [
      | inl q ↦
          let same : count ≡ count + i = ground (arith, q) in subst (λ c. taken c ≡ true) same u
      | inr q ↦
          let again : nonce_loop paths parent type_string n (suc count) ≡ none = rw u at h in
          let rest = nonce_loop-none n (suc count) again (i - 1) (ground (arith, q)) in
          let same : suc count + (i - 1) ≡ count + i = ground (arith, q) in
          subst (λ c. taken c ≡ true) same rest
    ]
    | inr u ↦ absurd (cc (rw u at h))
  ]

  -- A path that no filter has, which begins with that of the parent.
  abbrev pub IsFree : Text → Type 0
  IsFree path = (has_path paths path ≡ false) × ((tail : Text) × (path ≡ parent ++ tail))

  nonce_loop-IsFree :
      (n count : ℕ) (path : Text)
      → nonce_loop paths parent type_string n count ≡ some path
      → IsFree path
  unfolding nonce_loop nonce_path
  nonce_loop-IsFree zero count path h = absurd (cc)
  nonce_loop-IsFree (suc n) count path h = elim (Bool-cases (taken count)) [
    | inl u ↦ nonce_loop-IsFree n (suc count) path (rw u at h)
    | inr u ↦
        let same : some (nonce_path parent type_string count) ≡ some path = rw u at h in
        let found : nonce_path parent type_string count ≡ path = cc same in
        let tail = type_string ++ (path_nonce ++ dec (count % 2 ^ 32)) in
        (subst (λ s. has_path paths s ≡ false) found u, (tail, sym found ∙ simp append_assoc))
  ]

  pub test_path_lem :
      length paths + 1 < 2 ^ 32
      → (path : Text) × (test_path paths parent type_string ≡ some path) × IsFree path
  unfolding test_path
  test_path_lem h = elim (Bool-cases (has_path paths (parent ++ b'/' ∷ type_string))) [
    | inl u ↦
        let n = suc (length paths) in
        elim (Option-cases (nonce_loop paths parent type_string n 1)) [
          | inl e ↦
              let fit =
                strings_fit (λ i. nonce_path parent type_string (1 + i)) n
                  (λ i j hi hj same.
                    let next =
                      nonce_path-injective parent type_string (1 + i) (1 + j) (omega arith)
                        (omega arith) same in
                    omega (arith, next))
                  paths (nonce_loop-none n 1 e) in
              absurd (omega arith)
          | inr (path, e) ↦ (path, rw (u, e), nonce_loop-IsFree n 1 path e)
        ]
    | inr u ↦ (parent ++ b'/' ∷ type_string, rw u, (u, (b'/' ∷ type_string, refl)))
  ]
