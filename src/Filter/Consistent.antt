-- ===== src/Filter/Consistent.antt =====
-- What the calls of `FilterPropGroup` (src/backend/filter.cpp) keep true.
use depict_isosurfaces.Prelude.{
  ℕ, suc, ◌+◌, ◌-◌, ◌≡◌, ◌<◌, ◌≤◌, map, All, All-map, All-append, refl, sym, ap, ◌∙◌, subst, max,
  true, not, some, List, [], ◌∷◌, ◌++◌, take, set, replicate, length, length-append, length-take,
  length-set, length-replicate, elem, ◌==◌, ==_refl, ltb, leb, arith, Bool-cases, inl, inr, ◌↔◌,
  &&-true,
}
use depict_isosurfaces.Filter.Props.{
  FilterProperty, FilterPropGroup, empty_group, resize_names, grow_groups, add_property,
  set_group_title, keys_of, prop_keys, narrow, unique_from, all_help, all_named, check_consistent,
}

-- The calls.
pub data Reach : FilterPropGroup → Type 0 where
  start : Reach empty_group
  add :
      (g : FilterPropGroup) (prop : FilterProperty) (group : ℕ)
      → Reach g
      → Reach (add_property prop group g)
  title :
      (g h : FilterPropGroup) (group : ℕ) (str : List ℕ)
      → Reach g
      → set_group_title group str g ≡ some h
      → Reach h

pub record IsAligned (g : FilterPropGroup) : Type 0 where
  pub keys : keys_of g.key_groupings ≡ map narrow (prop_keys g.properties)
  pub groups : All (λ k. k.1 < g.group_count) g.key_groupings
  pub names : length g.group_names ≡ g.group_count

keys_of-append : (ks ls : List (ℕ × ℕ)) → keys_of (ks ++ ls) ≡ keys_of ks ++ keys_of ls
keys_of-append [] ls = refl
keys_of-append (k ∷ ks) ls = ap (λ rest. k.0 ∷ rest) (keys_of-append ks ls)

narrow_keys-append :
    (ps : List FilterProperty) (p : FilterProperty)
    → map narrow (prop_keys (ps ++ p ∷ [])) ≡ map narrow (prop_keys ps) ++ narrow p.key ∷ []
narrow_keys-append [] p = refl
narrow_keys-append (q ∷ ps) p = ap (λ rest. narrow q.key ∷ rest) (narrow_keys-append ps p)

elem-narrow : (k : ℕ) (ks : List ℕ) → elem k ks ≡ true → elem (narrow k) (map narrow ks) ≡ true
elem-narrow k [] h = absurd (cc)
elem-narrow k (x ∷ xs) h = elim (Bool-cases (k == x)) [
  | inl u ↦ let same : k ≡ x = ground arith in rw same (rw (==_refl (narrow x)) refl)
  | inr u ↦ let rest = elem-narrow k xs (ground (arith, h, u)) in ground (arith, rest)
]

-- Keys that differ in 32 bits differ.
unique_from-narrow :
    (seen ks : List ℕ)
    → unique_from (map narrow seen) (map narrow ks) ≡ true
    → unique_from seen ks ≡ true
unique_from-narrow seen [] h = refl
unique_from-narrow seen (k ∷ ks) h =
    let parts =
      &&-true (not (elem (narrow k) (map narrow seen)))
        (unique_from (narrow k ∷ map narrow seen) (map narrow ks)) h in
    let rest = unique_from-narrow (k ∷ seen) ks parts.1 in
    let new = parts.0 in
    elim (Bool-cases (elem k seen)) [
      | inl u ↦ let there = elem-narrow k seen u in absurd (ground (arith, there, new))
      | inr u ↦ rw (u, rest) refl
    ]

grow_groups-lengths :
    (group : ℕ) (g : FilterPropGroup)
    → length g.group_names ≡ g.group_count
    → length (grow_groups group g).group_names ≡ (grow_groups group g).group_count
unfolding grow_groups resize_names
grow_groups-lengths group g h = elim (Bool-cases (leb g.group_count group)) [
  | inl u ↦
      let count = max (group + 1) g.group_count in
      let none_name : List ℕ = [] in
      rw u (
        length-append (take count g.group_names)
          (replicate (count - length g.group_names) none_name)
        ∙ omega (
          arith,
          length-take count g.group_names,
          length-replicate (count - length g.group_names) none_name,
          h,
        ))
  | inr u ↦ rw u h
]

grow_groups-count :
    (group : ℕ) (g : FilterPropGroup)
    → (g.group_count ≤ (grow_groups group g).group_count)
      × (group < (grow_groups group g).group_count)
unfolding grow_groups
grow_groups-count group g = elim (Bool-cases (leb g.group_count group)) [
  | inl u ↦ rw u (omega arith, omega arith)
  | inr u ↦ rw u (omega arith, ground arith)
]

All-lt : (m n : ℕ) (ks : List (ℕ × ℕ)) → m ≤ n → All (λ k. k.1 < m) ks → All (λ k. k.1 < n) ks
All-lt m n ks h = All-map (λ k. k.1 < m) (λ k. k.1 < n) (λ k l. omega arith) ks

narrow-le : (n : ℕ) → narrow n ≤ n
narrow-le n = omega arith

add_property-IsAligned :
    (g : FilterPropGroup) (prop : FilterProperty) (group : ℕ)
    → IsAligned g
    → IsAligned (add_property prop group g)
unfolding add_property
add_property-IsAligned g prop group a =
    let more = grow_groups-count group g in
    let count = (grow_groups group g).group_count in
    let small : narrow group < count = omega (arith, narrow-le group, more.1) in
    record {
      keys =
          keys_of-append g.key_groupings ((narrow prop.key, narrow group) ∷ [])
          ∙ ap (λ ks. ks ++ narrow prop.key ∷ []) a.keys
          ∙ sym (narrow_keys-append g.properties prop);
      groups =
          All-append (λ k. k.1 < count) g.key_groupings ((narrow prop.key, narrow group) ∷ [])
            (All-lt g.group_count count g.key_groupings more.0 a.groups) (small, tt);
      names = grow_groups-lengths group g a.names;
    }

title-IsAligned :
    (g h : FilterPropGroup) (group : ℕ) (str : List ℕ)
    → IsAligned g
    → set_group_title group str g ≡ some h
    → IsAligned h
unfolding set_group_title
title-IsAligned g h group str a set_to = elim (Bool-cases (ltb group g.group_count)) [
  | inl u ↦
      let titled = record g { group_names = set g.group_names group str } in
      let same : titled ≡ h = cc (rw u at set_to) in
      subst IsAligned same (record {
        keys = a.keys;
        groups = a.groups;
        names = length-set g.group_names group str ∙ a.names;
      })
  | inr u ↦ absurd (cc (rw u at set_to))
]

pub Reach-IsAligned : (g : FilterPropGroup) → Reach g → IsAligned g
Reach-IsAligned g r = elim r as (λ g r. IsAligned g) [
  | start ↦ record { keys = refl; groups = tt; names = refl }
  | add g prop group (r → ih) ↦ add_property-IsAligned g prop group ih
  | title g h group str (r → ih) set_to ↦ title-IsAligned g h group str ih set_to
]

length-keys_of : (ks : List (ℕ × ℕ)) → length (keys_of ks) ≡ length ks
length-keys_of [] = refl
length-keys_of (k ∷ ks) = ap suc (length-keys_of ks)

length-prop_keys : (ps : List FilterProperty) → length (map narrow (prop_keys ps)) ≡ length ps
length-prop_keys [] = refl
length-prop_keys (p ∷ ps) = ap suc (length-prop_keys ps)

pub aligned-length :
    (g : FilterPropGroup) → IsAligned g → length g.key_groupings ≡ length g.properties
aligned-length g a =
    sym (length-keys_of g.key_groupings) ∙ ap length a.keys ∙ length-prop_keys g.properties

-- After any calls of `addProperty` and `setGroupTitle` no assertion of `checkConsistent` fails exactly
-- if the keys differ in their lower 32 bits, every property has a help text and every group has been
-- given a title: the other assertions always hold.
pub check_consistent_iff :
    (g : FilterPropGroup)
    → Reach g
    → (check_consistent g ≡ true) ↔ (
        (unique_from [] (map narrow (prop_keys g.properties)) ≡ true)
        × (all_help g.properties ≡ true)
        × (all_named g.group_names ≡ true))
unfolding check_consistent
check_consistent_iff g r =
    let a = Reach-IsAligned g r in
    let sizes : (length g.key_groupings == length g.properties) ≡ true =
      rw (aligned-length g a) (==_refl (length g.properties)) in
    let names : (length g.group_names == g.group_count) ≡ true =
      rw a.names (==_refl g.group_count) in
    let by_prop = unique_from-narrow [] (prop_keys g.properties) in
    rw (sizes, names, a.keys) (λ h. ground (arith, h), λ (u, l, n). rw (u, by_prop u, l, n) refl)
