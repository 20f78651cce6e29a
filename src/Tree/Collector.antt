-- ===== src/Tree/Collector.antt =====
-- `FilterRefreshCollector` of src/backend/filtertree.cpp, which owns the intermediate streams of a
-- refresh. A pointer is a number; what is deleted is recorded in the order of the deletions.
use depict_isosurfaces.Prelude.{
  ℕ, zero, suc, ◌+◌, ◌≡◌, refl, ap, Bool, true, false, not, ◌&&◌, ◌||◌, List, [], ◌∷◌, ◌++◌, arith,
  ◌==◌, if◌then◌else◌, elem, keep, drop, Bool-cases, inl, inr,
}

pub record Collector : Type 0 where
  pub nodes : List (List ℕ)
  pub forgotten_nodes : List ℕ
  pub deleted : List ℕ

-- The pointers of all levels.
unfoldable pub flat : List (List ℕ) → List ℕ
flat [] = []
flat (l ∷ ls) = l ++ flat ls

-- `find` over the levels in turn
unfoldable pub in_nodes : ℕ → List (List ℕ) → Bool
in_nodes p [] = false
in_nodes p (l ∷ ls) = elem p l || in_nodes p ls

abbrev pub found : Collector → ℕ → Bool
found c p = in_nodes p c.nodes || elem p c.forgotten_nodes

-- `tracksSelf` is given: `p->cached`.
unfoldable pub track_pointers : (ℕ → Bool) → List ℕ → Collector → Collector
unfolding in_nodes
track_pointers tracks_self v c = record c {
  nodes = c.nodes ++ keep (λ p. not (tracks_self p) && not (found c p)) v ∷ [];
}

-- `list.erase(find(list.begin(), list.end(), p))`
unfoldable pub erase_first : ℕ → List ℕ → List ℕ
erase_first p [] = []
erase_first p (x ∷ xs) = let rest = x ∷ erase_first p xs in if p == x then xs else rest

-- From the first level that has the pointer.
unfoldable pub erase_in : ℕ → List (List ℕ) → List (List ℕ)
unfolding erase_first
erase_in p [] = []
erase_in p (l ∷ ls) =
    let rest = l ∷ erase_in p ls in if elem p l then erase_first p l ∷ ls else rest

unfoldable pub forget_one : ℕ → Collector → Collector
unfolding in_nodes erase_in
forget_one p c =
    if in_nodes p c.nodes
    then record c { nodes = erase_in p c.nodes; forgotten_nodes = p ∷ c.forgotten_nodes }
    else c

unfoldable pub forget_pointers : List ℕ → Collector → Collector
unfolding forget_one
forget_pointers [] c = c
forget_pointers (p ∷ v) c = forget_pointers v (forget_one p c)

unfoldable pub collect_all : Collector → Collector
unfolding flat
collect_all c = record c { nodes = []; deleted = c.deleted ++ flat c.nodes }

-- `nodes.resize(level)`
unfoldable pub resize : ℕ → List (List ℕ) → List (List ℕ)
resize zero ls = []
resize (suc n) [] = [] ∷ resize n []
resize (suc n) (l ∷ ls) = l ∷ resize n ls

-- The loop begins at `level + 1`.
unfoldable pub collect_to_level : ℕ → Collector → Collector
unfolding flat resize
collect_to_level level c = record c {
  nodes = resize level c.nodes;
  deleted = c.deleted ++ flat (drop (suc level) c.nodes);
}

unfoldable pub count : ℕ → List ℕ → ℕ
count p [] = 0
count p (x ∷ xs) = let rest = count p xs in if p == x then suc rest else rest

-- How often a pointer is tracked, forgotten or deleted.
abbrev pub tally : ℕ → Collector → ℕ
tally p c = count p (flat c.nodes) + count p c.forgotten_nodes + count p c.deleted

pub count-append : (p : ℕ) (xs ys : List ℕ) → count p (xs ++ ys) ≡ count p xs + count p ys
unfolding count
count-append p [] ys = omega arith
count-append p (x ∷ xs) ys = ground (arith, count-append p xs ys)

pub count-elem : (p : ℕ) (xs : List ℕ) → elem p xs ≡ false → count p xs ≡ 0
unfolding count
count-elem p [] h = refl
count-elem p (x ∷ xs) h = ground (arith, count-elem p xs)

pub count-flat : (p : ℕ) (ls : List (List ℕ)) → in_nodes p ls ≡ false → count p (flat ls) ≡ 0
unfolding flat in_nodes count
count-flat p [] h = refl
count-flat p (l ∷ ls) h =
    rw (count-append p l (flat ls)) (ground (arith, count-elem p l, count-flat p ls))

pub flat-append :
    (p : ℕ) (ls ms : List (List ℕ))
    → count p (flat (ls ++ ms)) ≡ count p (flat ls) + count p (flat ms)
unfolding flat count
flat-append p [] ms = omega arith
flat-append p (l ∷ ls) ms =
    omega
      (arith, count-append p l (flat (ls ++ ms)), count-append p l (flat ls), flat-append p ls ms)

pub count-keep :
    (t : ℕ → Bool) (p : ℕ) (xs : List ℕ) → count p (keep t xs) ≡ (if t p then count p xs else 0)
unfolding count
count-keep t p [] = ground arith
count-keep t p (x ∷ xs) = elim (Bool-cases (p == x)) [
  | inl u ↦ let same : t p ≡ t x = ap t (ground arith) in ground (arith, same, count-keep t p xs)
  | inr u ↦ ground (arith, count-keep t p xs)
]

count-erase_first :
    (p q : ℕ) (xs : List ℕ)
    → elem p xs ≡ true
    → count q (erase_first p xs) + (if q == p then 1 else 0) ≡ count q xs
unfolding count erase_first
count-erase_first p q [] h = absurd (cc)
count-erase_first p q (x ∷ xs) h = ground (arith, count-erase_first p q xs)

pub count-erase_in :
    (p q : ℕ) (ls : List (List ℕ))
    → in_nodes p ls ≡ true
    → count q (flat (erase_in p ls)) + (if q == p then 1 else 0) ≡ count q (flat ls)
unfolding in_nodes erase_in flat
count-erase_in p q [] h = absurd (cc)
count-erase_in p q (l ∷ ls) h = elim (Bool-cases (elem p l)) [
  | inl u ↦ rw u (
      omega (
        arith,
        count-append q l (flat ls),
        count-append q (erase_first p l) (flat ls),
        count-erase_first p q l u,
      ))
  | inr u ↦ rw u (
      omega (
        arith,
        count-append q l (flat ls),
        count-append q l (flat (erase_in p ls)),
        count-erase_in p q ls (rw u at h),
      ))
]
