-- ===== src/Filter/Props.antt =====
-- `FilterPropGroup` of src/backend/filter.cpp and filter.h: the properties of a filter in groups.
use depict_isosurfaces.Prelude.{
  ℕ, ◌+◌, ◌-◌, ◌%◌, ◌^◌, max, Bool, true, false, not, ◌&&◌, ◌||◌, Option, none, some, List, [], ◌∷◌,
  ◌++◌, take, set, replicate, get_elem?, length, is_empty, elem, ◌==◌, ltb, leb, if◌then◌else◌,
}

pub record FilterProperty : Type 0 where
  pub help_text : List ℕ
  pub prop_type : ℕ
  pub key : ℕ
  pub prop_data : List ℕ
  pub data_secondary : List ℕ
  pub name : List ℕ

pub record FilterPropGroup : Type 0 where
  pub key_groupings : List (ℕ × ℕ)
  pub group_names : List (List ℕ)
  pub properties : List FilterProperty
  pub group_count : ℕ

abbrev pub empty_group : FilterPropGroup
empty_group = record { key_groupings = []; group_names = []; properties = []; group_count = 0 }

-- `groupNames.resize(n, string(""))`
unfoldable pub resize_names : ℕ → List (List ℕ) → List (List ℕ)
resize_names n names = take n names ++ replicate (n - length names) []

unfoldable pub grow_groups : ℕ → FilterPropGroup → FilterPropGroup
grow_groups group g =
    let count = max (group + 1) g.group_count in
    if leb g.group_count group
    then record g { group_count = count; group_names = resize_names count g.group_names }
    else g

-- What an `unsigned int` of `keyGroupings` keeps of a size_t.
abbrev pub narrow : ℕ → ℕ
narrow n = n % 2 ^ 32

unfoldable pub add_property : FilterProperty → ℕ → FilterPropGroup → FilterPropGroup
add_property prop group g =
    let grown = grow_groups group g in
    record grown {
      key_groupings = g.key_groupings ++ (narrow prop.key, narrow group) ∷ [];
      properties = g.properties ++ prop ∷ [];
    }

-- Nothing where the assertion fails.
unfoldable pub set_group_title : ℕ → List ℕ → FilterPropGroup → Option FilterPropGroup
set_group_title group str g =
    if ltb group g.group_count
    then some (record g { group_names = set g.group_names group str })
    else none

-- The loop of `getGroup` over the positions; `none` where there is no property at one.
unfoldable pub get_from : ℕ → List (ℕ × ℕ) → List FilterProperty → Option (List FilterProperty)
get_from target [] props = some []
get_from target (k ∷ ks) [] = if k.1 == target then none else get_from target ks []
get_from target (k ∷ ks) (p ∷ props) =
    let rest = get_from target ks props in if k.1 == target then with_first p rest else rest
  where
    with_first : FilterProperty → Option (List FilterProperty) → Option (List FilterProperty)
    with_first p none = none
    with_first p (some ps) = some (p ∷ ps)

unfoldable pub get_group : ℕ → FilterPropGroup → Option (List FilterProperty)
unfolding get_from
get_group target g =
    if ltb target g.group_count then get_from target g.key_groupings g.properties else none

abbrev has_second : ℕ → List (ℕ × ℕ) → Bool
has_second target [] = false
has_second target (k ∷ ks) = (k.1 == target) || has_second target ks

unfoldable pub has_group : ℕ → FilterPropGroup → Bool
has_group target g = has_second target g.key_groupings

unfoldable pub get_group_title : ℕ → FilterPropGroup → Option (List ℕ)
get_group_title group g = get_elem? g.group_names group

-- The loop of `getPropValue`; `none` where the assertion fails.
unfoldable pub value_from : ℕ → List (ℕ × ℕ) → List FilterProperty → Option FilterProperty
value_from key [] props = none
value_from key (k ∷ ks) [] = if k.0 == key then none else value_from key ks []
value_from key (k ∷ ks) (p ∷ props) =
    let rest = value_from key ks props in if k.0 == key then some p else rest

unfoldable pub get_prop_value : ℕ → FilterPropGroup → Option FilterProperty
unfolding value_from
get_prop_value key g = value_from key g.key_groupings g.properties

abbrev pub keys_of : List (ℕ × ℕ) → List ℕ
keys_of [] = []
keys_of (k ∷ ks) = k.0 ∷ keys_of ks

abbrev pub prop_keys : List FilterProperty → List ℕ
prop_keys [] = []
prop_keys (p ∷ ps) = p.key ∷ prop_keys ps

unfoldable pub has_prop : ℕ → FilterPropGroup → Bool
has_prop key g = elem key (keys_of g.key_groupings)

-- The loops over a set of the keys seen so far.
abbrev pub unique_from : List ℕ → List ℕ → Bool
unique_from seen [] = true
unique_from seen (k ∷ ks) = not (elem k seen) && unique_from (k ∷ seen) ks

abbrev pub all_help : List FilterProperty → Bool
all_help [] = true
all_help (p ∷ ps) = not (is_empty p.help_text) && all_help ps

abbrev pub all_named : List (List ℕ) → Bool
all_named [] = true
all_named (n ∷ ns) = not (is_empty n) && all_named ns

-- Whether no assertion of `checkConsistent` fails.
unfoldable pub check_consistent : FilterPropGroup → Bool
check_consistent g =
    (length g.key_groupings == length g.properties)
    && (unique_from [] (keys_of g.key_groupings)
        && (unique_from [] (prop_keys g.properties)
            && (all_help g.properties
                && ((length g.group_names == g.group_count) && all_named g.group_names))))
