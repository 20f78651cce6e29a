-- ===== src/State/Merge.antt =====
-- Merging gives every stash or camera the first free name of its row of names, keeps what is there and
-- keeps names distinct; erasing stashes erases those at the offsets.
use depict_isosurfaces.Prelude.{
  ℕ, zero, suc, ◌<◌, ◌≡◌, refl, Bool, true, false, ◌||◌, List, [], ◌∷◌, ◌++◌, Option, none, some,
  arith, keep, not, is_empty, Bool-cases, inl, inr,
}
use depict_isosurfaces.Basics.Sort.{IsDistinct}
use depict_isosurfaces.Basics.Erase.{erase_down-sort, unlisted}
use depict_isosurfaces.State.Stashes.{
  text_eq_comm, merge_suffix, has_name, erase_stashes, merge_name, push_named, merge_stashes,
  merge_cameras,
}

-- The row of names that a name is tried under.
abbrev pub suffixed : ℕ → List ℕ → List ℕ
suffixed zero name = name
suffixed (suc k) name = suffixed k (name ++ merge_suffix)

-- The first name of the row that is free, or none where the first `n` are all taken.
abbrev pub FirstFree : (List ℕ → Bool) → ℕ → List ℕ → Option (List ℕ) → Type 0
FirstFree exists n name none = (k : ℕ) → k < n → exists (suffixed k name) ≡ true
FirstFree exists n name (some name') =
    (k : ℕ) × (k < n)
    × (name' ≡ suffixed k name)
    × (exists name' ≡ false)
    × ((j : ℕ) → j < k → exists (suffixed j name) ≡ true)

FirstFree-later :
    (exists : List ℕ → Bool) (n : ℕ) (name : List ℕ) (o : Option (List ℕ))
    → exists name ≡ true
    → FirstFree exists n (name ++ merge_suffix) o
    → FirstFree exists (suc n) name o
FirstFree-later exists n name none e h = taken
  where
    taken : (k : ℕ) → k < suc n → exists (suffixed k name) ≡ true
    taken zero l = e
    taken (suc k) l = h k (omega arith)
FirstFree-later exists n name (some name') e (k, l, is, free, before) =
    (suc k, omega arith, is, free, taken)
  where
    taken : (j : ℕ) → j < suc k → exists (suffixed j name) ≡ true
    taken zero m = e
    taken (suc j) m = before j (omega arith)

merge_name_lem :
    (exists : List ℕ → Bool) (n : ℕ) (name : List ℕ)
    → FirstFree exists n name (merge_name exists n name)
unfolding merge_name
merge_name_lem exists zero name = λ k l. absurd (omega arith)
merge_name_lem exists (suc n) name = elim (Bool-cases (exists name)) [
  | inl e ↦
      rw (e, merge_name)
        (FirstFree-later exists n name _ e (merge_name_lem exists n (name ++ merge_suffix)))
  | inr e ↦ rw (e, merge_name) (0, omega arith, refl, e, λ j l. absurd (omega arith))
]

-- How a list of named things grows in a merge.
pub data Merges {ℓ} {A : Type ℓ}
    : List (List ℕ × A) → List (List ℕ × A) → List (List ℕ × A) → Type ℓ where
  done : {v : List (List ℕ × A)} → Merges v [] v
  pass :
      (name : List ℕ) (a : A) {v rest r : List (List ℕ × A)}
      → ((k : ℕ) → k < 100 → has_name v (suffixed k name) ≡ true)
      → Merges v rest r
      → Merges v ((name, a) ∷ rest) r
  push :
      (k : ℕ) (name name' : List ℕ) (a : A) {v rest r : List (List ℕ × A)}
      → name' ≡ suffixed k name
      → has_name v name' ≡ false
      → ((j : ℕ) → j < k → has_name v (suffixed j name) ≡ true)
      → Merges (v ++ (name', a) ∷ []) rest r
      → Merges v ((name, a) ∷ rest) r

module _ {ℓ} {A : Type ℓ} where
  -- No two things under one name.
  abbrev pub HasDistinctNames : List (List ℕ × A) → Type 0
  HasDistinctNames [] = Unit
  HasDistinctNames ((n, a) ∷ v) = (has_name v n ≡ false) × HasDistinctNames v

module _ {ℓ} {A : Type ℓ} where
  -- Every stash of the other state is added behind those that are there, with its tree, under the first
  -- name of its row that is free at that time; one is passed over only if a hundred names are taken.
  pub merge_stashes-Merges : (v w : List (List ℕ × A)) → Merges v w (merge_stashes v w)
  unfolding merge_stashes
  merge_stashes-Merges v [] = done
  merge_stashes-Merges v ((name, a) ∷ rest) =
      go (merge_name (has_name v) 100 name) (merge_name_lem (has_name v) 100 name)
        (λ u. merge_stashes-Merges u rest)
    where
      go :
          (o : Option (List ℕ))
          → FirstFree (has_name v) 100 name o
          → ((u : List (List ℕ × A)) → Merges u rest (merge_stashes u rest))
          → Merges v ((name, a) ∷ rest) (merge_stashes (push_named v a o) rest)
      go none f ih = pass name a f (ih v)
      go (some name') (k, l, is, free, before) ih =
          push k name name' a is free before (ih (v ++ (name', a) ∷ []))

  has_name-append :
      (v w : List (List ℕ × A)) (m : List ℕ) → has_name (v ++ w) m ≡ (has_name v m || has_name w m)
  unfolding has_name
  has_name-append [] w m = refl
  has_name-append ((n, a) ∷ v) w m = ground (arith, has_name-append v w m)

  HasDistinctNames-snoc :
      (v : List (List ℕ × A)) (n : List ℕ) (a : A)
      → has_name v n ≡ false
      → HasDistinctNames v
      → HasDistinctNames (v ++ (n, a) ∷ [])
  unfolding has_name
  HasDistinctNames-snoc [] n a h d = (refl, tt)
  HasDistinctNames-snoc ((m, b) ∷ v) n a h d = (
    ground (arith, has_name-append v ((n, a) ∷ []) m, text_eq_comm n m),
    HasDistinctNames-snoc v n a (ground arith) d.1,
  )

  Merges-HasDistinctNames :
      {v w r : List (List ℕ × A)} → Merges v w r → HasDistinctNames v → HasDistinctNames r
  Merges-HasDistinctNames done d = d
  Merges-HasDistinctNames (pass name a h m) d = Merges-HasDistinctNames m d
  Merges-HasDistinctNames (push k name name' a {v = v} e f g m) d =
      Merges-HasDistinctNames m (HasDistinctNames-snoc v name' a f d)

  -- A merge of stashes under distinct names leaves distinct names, whatever names the other state has.
  pub merge_stashes-HasDistinctNames :
      (v w : List (List ℕ × A)) → HasDistinctNames v → HasDistinctNames (merge_stashes v w)
  merge_stashes-HasDistinctNames v w d = Merges-HasDistinctNames (merge_stashes-Merges v w) d

  -- Cameras are merged as stashes are, but for those without a name, which are left out.
  pub merge_cameras-eq :
      (v w : List (List ℕ × A))
      → merge_cameras v w ≡ merge_stashes v (keep (λ e. not (is_empty e.0)) w)
  unfolding merge_cameras merge_stashes
  merge_cameras-eq v [] = refl
  merge_cameras-eq v (([], a) ∷ rest) = merge_cameras-eq v rest
  merge_cameras-eq v (((c ∷ name), a) ∷ rest) =
      merge_cameras-eq (push_named v a (merge_name (has_name v) 100 (c ∷ name))) rest

  -- Erasing stashes at distinct offsets leaves the stashes at the other offsets, in their order.
  pub erase_stashes_lem :
      (offsets : List ℕ) (v : List (List ℕ × A))
      → IsDistinct offsets
      → erase_stashes offsets v ≡ unlisted offsets 0 v
  unfolding erase_stashes
  erase_stashes_lem offsets v d = erase_down-sort offsets v d
