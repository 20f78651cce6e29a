-- ===== src/Tests/Filter.antt =====
-- Keys and properties of filters, for src/backend/filter.cpp.
use depict_isosurfaces.Prelude.{
  ◌≡◌, ◌<◌, ◌++◌, map, ltb, if◌then◌else◌, none, ◌↔◌, refl, true, false, some, List, [], ◌∷◌, arith,
}
use depict_isosurfaces.Filter.Keys.{demux_key, mux_key, demux_key-mux_key}
use depict_isosurfaces.Filter.Props.{
  FilterProperty, FilterPropGroup, empty_group, grow_groups, resize_names, add_property,
  set_group_title, get_group, get_prop_value, has_prop, has_group, get_group_title,
  check_consistent, all_named, all_help, unique_from, prop_keys, narrow,
}
use depict_isosurfaces.Filter.Consistent.{Reach, start, add, title, check_consistent_iff}
use depict_isosurfaces.Filter.Lookup.{add_property_lem}

demux_key-mux_key_example : (demux_key (mux_key 3 7) ≡ (3, 7)) × (mux_key 3 7 ≡ 196615)
unfolding demux_key
demux_key-mux_key_example = demux_key-mux_key 3 7 196615 (omega arith) (omega arith) (omega arith)

abbrev prop_a : FilterProperty
prop_a = record {
  help_text = b'h' ∷ [];
  prop_type = 1;
  key = 5;
  prop_data = b'1' ∷ [];
  data_secondary = [];
  name = b'n' ∷ [];
}

abbrev prop_b : FilterProperty
prop_b = record prop_a { key = 6 }

abbrev one : FilterPropGroup
one = add_property prop_a 0 empty_group

one-Reach : Reach one
one-Reach = add empty_group prop_a 0 start

abbrev titled : FilterPropGroup
titled = record {
  key_groupings = (5, 0) ∷ [];
  group_names = (b't' ∷ []) ∷ [];
  properties = prop_a ∷ [];
  group_count = 1;
}

titled-Reach : Reach titled
unfolding add_property grow_groups resize_names set_group_title
titled-Reach = title one titled 0 (b't' ∷ []) one-Reach refl

check_consistent_iff_example : (check_consistent titled ≡ true) ↔ (
    (unique_from [] (map narrow (prop_keys titled.properties)) ≡ true)
    × (all_help titled.properties ≡ true)
    × (all_named titled.group_names ≡ true))
check_consistent_iff_example = check_consistent_iff titled titled-Reach

is_consistent : check_consistent titled ≡ true
unfolding check_consistent
is_consistent = refl

titled-fresh : has_prop (narrow prop_b.key) titled ≡ false
unfolding has_prop
titled-fresh = refl

two_groups : 1 < (add_property prop_b 1 titled).group_count
unfolding add_property grow_groups
two_groups = omega arith

-- The second group, which is new.
add_property_lem_example :
    let after = add_property prop_b 1 titled in
    (get_prop_value 6 after ≡ some prop_b)
    × ((found : List FilterProperty) × ((if ltb 1 titled.group_count
            then get_group 1 titled
            else some [])
          ≡ some found)
        × (get_group 1 after ≡ some (found ++ prop_b ∷ [])))
add_property_lem_example = add_property_lem titled prop_b 1 6 1 titled-Reach titled-fresh two_groups

abbrev wide : FilterProperty
wide = record prop_a { key = 4294967301 }

-- A key of 2^32 + 5 is not found, and goes for the key 5.
wide_run :
    (get_prop_value 4294967301 (add_property wide 0 empty_group) ≡ none)
    × (get_prop_value 5 (add_property wide 0 empty_group) ≡ some wide)
unfolding add_property get_prop_value
wide_run = (refl, refl)

other_calls :
    (has_group 0 titled ≡ true)
    × (has_group 1 titled ≡ false)
    × (get_group_title 0 titled ≡ some (b't' ∷ []))
unfolding has_group get_group_title
other_calls = (refl, refl, refl)
