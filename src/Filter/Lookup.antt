-- ===== src/Filter/Lookup.antt =====
-- Looking up what `FilterPropGroup::addProperty` (src/backend/filter.cpp) has added.
use depict_isosurfaces.Prelude.{
  ℕ, ◌<◌, ◌≤◌, All, ◌≡◌, refl, sym, ◌∙◌, subst, Bool, true, false, Option, none, some, List, [],
  ◌∷◌, ◌++◌, length, elem, ◌==◌, ltb, if◌then◌else◌, arith, Bool-cases, inl, inr,
}
use depict_isosurfaces.Filter.Props.{
  FilterProperty, FilterPropGroup, grow_groups, add_property, get_from, get_group, value_from,
  get_prop_value, keys_of, has_prop, narrow,
}
use depict_isosurfaces.Filter.Consistent.{Reach, Reach-IsAligned, aligned-length}

value_from-append :
    (key : ℕ) (ks : List (ℕ × ℕ)) (ps : List FilterProperty) (prop : FilterProperty) (new group : ℕ)
    → length ks ≡ length ps
    → value_from key (ks ++ (new, group) ∷ []) (ps ++ prop ∷ []) ≡ (
        if elem key (keys_of ks)
        then value_from key ks ps
        else if new == key
        then some prop
        else none)
unfolding value_from
value_from-append key [] [] prop new group h = refl
value_from-append key [] (p ∷ ps) prop new group h = absurd (omega arith)
value_from-append key (k ∷ ks) [] prop new group h = absurd (omega arith)
value_from-append key (k ∷ ks) (p ∷ ps) prop new group h =
    let rest = value_from-append key ks ps prop new group (omega arith) in
    elim (Bool-cases (k.0 == key)) [
      | inl u ↦ let back : (key == k.0) ≡ true = ground (arith, u) in rw (u, back)
      | inr u ↦ let back : (key == k.0) ≡ false = ground (arith, u) in rw (u, back) rest
    ]

value_from-none :
    (key : ℕ) (ks : List (ℕ × ℕ)) (ps : List FilterProperty)
    → elem key (keys_of ks) ≡ false
    → value_from key ks ps ≡ none
unfolding value_from
value_from-none key [] ps h = refl
value_from-none key (k ∷ ks) [] h =
    let other : (k.0 == key) ≡ false = ground (arith, h) in
    rw other (value_from-none key ks [] (ground (arith, h)))
value_from-none key (k ∷ ks) (p ∷ ps) h =
    let other : (k.0 == key) ≡ false = ground (arith, h) in
    rw other (value_from-none key ks ps (ground (arith, h)))

first_of :
    (b : Bool) (p : FilterProperty) (found : List FilterProperty) (prop : FilterProperty)
    → ◌≡◌ {A = Option (List FilterProperty)}
        (some (p ∷ (if b then found ++ prop ∷ [] else found)))
        (some (if b then p ∷ (found ++ prop ∷ []) else p ∷ found))
first_of true p found prop = refl
first_of false p found prop = refl

-- No property is in a group that is not there.
get_from-none :
    (target count : ℕ) (ks : List (ℕ × ℕ)) (ps : List FilterProperty)
    → All (λ k. k.1 < count) ks
    → count ≤ target
    → get_from target ks ps ≡ some []
unfolding get_from
get_from-none target count [] ps h le = refl
get_from-none target count (k ∷ ks) [] h le =
    let other : (k.1 == target) ≡ false = ground (arith, h.0, le) in
    rw other (get_from-none target count ks [] h.1 le)
get_from-none target count (k ∷ ks) (p ∷ ps) h le =
    let other : (k.1 == target) ≡ false = ground (arith, h.0, le) in
    rw (other, get_from-none target count ks ps h.1 le) refl

get_from-some :
    (target : ℕ) (ks : List (ℕ × ℕ)) (ps : List FilterProperty) (prop : FilterProperty)
    (new group : ℕ)
    → length ks ≡ length ps
    → (found : List FilterProperty) × (get_from target ks ps ≡ some found)
      × (get_from target (ks ++ (new, group) ∷ []) (ps ++ prop ∷ [])
          ≡ some (if group == target then found ++ prop ∷ [] else found))
unfolding get_from
get_from-some target [] [] prop new group h = elim (Bool-cases (group == target)) [
  | inl u ↦ ([], refl, rw u)
  | inr u ↦ ([], refl, rw u)
]
get_from-some target [] (p ∷ ps) prop new group h = absurd (omega arith)
get_from-some target (k ∷ ks) [] prop new group h = absurd (omega arith)
get_from-some target (k ∷ ks) (p ∷ ps) prop new group h =
    let (found, before, with_one) = get_from-some target ks ps prop new group (omega arith) in
    elim (Bool-cases (k.1 == target)) [
      | inl u ↦
          (p ∷ found, rw (u, before), rw (u, with_one) (first_of (group == target) p found prop))
      | inr u ↦ (found, rw (u, before), rw (u, with_one))
    ]

-- A property that is added is the one that `getPropValue` finds for the lower 32 bits of its key, if
-- no property had these, and all other keys find what they did before. `getGroup` gives each group
-- the properties it had, in their order, with the new one at the end of the group of the lower 32 bits;
-- a group that was not there had none.
pub add_property_lem :
    (g : FilterPropGroup) (prop : FilterProperty) (group key target : ℕ)
    → Reach g
    → has_prop (narrow prop.key) g ≡ false
    → target < (add_property prop group g).group_count
    → let after = add_property prop group g in
      (get_prop_value key after
        ≡ (if key == narrow prop.key then some prop else get_prop_value key g))
      × ((found : List FilterProperty) × ((if ltb target g.group_count
              then get_group target g
              else some [])
            ≡ some found)
          × (get_group target after
              ≡ some (if narrow group == target then found ++ prop ∷ [] else found)))
unfolding add_property get_prop_value get_group has_prop
add_property_lem g prop group key target r fresh h =
    let a = Reach-IsAligned g r in
    let sizes = aligned-length g a in
    let new = narrow prop.key in
    let value = value_from-append key g.key_groupings g.properties prop new (narrow group) sizes in
    let (found, before, with_one) =
      get_from-some target g.key_groupings g.properties prop new (narrow group) sizes in
    let inside : ltb target (grow_groups group g).group_count ≡ true = ground (arith, h) in
    (value ∙ pick new fresh, (found, old found before, rw inside with_one))
  where
    old :
        (found : List FilterProperty)
        → get_from target g.key_groupings g.properties ≡ some found
        → (if ltb target g.group_count
            then if ltb target g.group_count
              then get_from target g.key_groupings g.properties
              else none
            else some [])
          ≡ some found
    old found before = elim (Bool-cases (ltb target g.group_count)) [
      | inl u ↦ rw u before
      | inr u ↦
          let none_there =
            get_from-none target g.group_count g.key_groupings g.properties
              (Reach-IsAligned g r).groups (ground (arith, u)) in
          rw u (sym none_there ∙ before)
    ]

    pick :
        (new : ℕ)
        → elem new (keys_of g.key_groupings) ≡ false
        → (if elem key (keys_of g.key_groupings)
            then value_from key g.key_groupings g.properties
            else if new == key
            then some prop
            else none)
          ≡ (if key == new then some prop else value_from key g.key_groupings g.properties)
    pick new absent_new = elim (Bool-cases (key == new)) [
      | inl u ↦
          let same : new ≡ key = ground arith in
          let absent = subst (λ k. elem k (keys_of g.key_groupings) ≡ false) same absent_new in
          let back : (new == key) ≡ true = ground (arith, u) in rw (u, absent, back)
      | inr u ↦
          let back : (new == key) ≡ false = ground (arith, u) in
          elim (Bool-cases (elem key (keys_of g.key_groupings))) [
            | inl q ↦ rw (u, q)
            | inr q ↦ rw (u, q, back) (sym (value_from-none key g.key_groupings g.properties q))
          ]
    ]
