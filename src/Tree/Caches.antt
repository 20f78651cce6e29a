-- ===== src/Tree/Caches.antt =====
-- Which filters lose their caches (src/backend/filtertree.cpp): `clearCache`, `purgeCache`,
-- `clearCacheByType`, `setFilterProperty`, the start of `refreshFilterTree`, and `reparentFilter`. A
-- filter is its position in the pre-order, and the caches are the `haveCache()` of each.
use depict_isosurfaces.Prelude.{
  IsRising, ℕ, zero, suc, ◌+◌, ◌-◌, ◌≤◌, ◌<◌, ◌≡◌, Bool, true, false, not, ◌&&◌, ◌||◌, List, [],
  ◌∷◌, Option, none, some, arith, ◌==◌, if◌then◌else◌, elem, keep, ◌↔◌,
}
use depict_isosurfaces.Tree.Order.{TreeOps, subtree}

abbrev pub Caches : Type 0
Caches = ℕ → Bool

-- `(*it)->clearCache()`
unfoldable pub clear_at : ℕ → Caches → Caches
clear_at i cached j = if j == i then false else cached j

unfoldable pub clear_each : List ℕ → Caches → Caches
unfolding clear_at
clear_each [] cached = cached
clear_each (i ∷ is) cached = clear_each is (clear_at i cached)

-- The positions from `it` on.
unfoldable pub positions : ℕ → ℕ → List ℕ
positions zero it = []
positions (suc n) it = it ∷ positions n (suc it)

positions-IsRising : (n it size : ℕ) → it + n ≡ size → IsRising it size (positions n it)
unfolding positions
positions-IsRising zero it size h = omega (arith, h)
positions-IsRising (suc n) it size h =
    (omega arith, positions-IsRising n (suc it) size (omega (arith, h)))

pub positions_rise : (size : ℕ) → IsRising 0 size (positions size 0)
positions_rise size = positions-IsRising size 0 size (omega arith)

unfoldable pub purge_cache : TreeOps → Caches → Caches
unfolding clear_each positions
purge_cache t cached = clear_each (positions t.size 0) cached

-- `clearCache(filter, includeSelf)`; no filter is the null pointer.
unfoldable pub clear_cache : TreeOps → Option ℕ → Bool → Caches → Caches
unfolding purge_cache clear_each subtree
clear_cache t none include_self cached = purge_cache t cached
clear_cache t (some f) include_self cached =
    clear_each (keep (λ it. include_self || not (it == f)) (subtree t f)) cached

-- A loop over all filters that clears each one that passes a test, and what is below it.
unfoldable pub clear_tested : TreeOps → (ℕ → Bool) → List ℕ → Caches → Caches
unfolding clear_cache
clear_tested t test [] cached = cached
clear_tested t test (it ∷ its) cached =
    clear_tested t test its (if test it then clear_cache t (some it) true cached else cached)

unfoldable pub clear_cache_by_type : TreeOps → (ℕ → ℕ) → ℕ → Caches → Caches
unfolding clear_tested positions
clear_cache_by_type t get_type type cached =
    clear_tested t (λ it. get_type it == type) (positions t.size 0) cached

-- The first loop of `refreshFilterTree`, over `monitorNeedsRefresh()`.
unfoldable pub clear_monitored : TreeOps → (ℕ → Bool) → Caches → Caches
unfolding clear_tested positions
clear_monitored t needs_refresh cached = clear_tested t needs_refresh (positions t.size 0) cached

-- `setFilterProperty`; what the filter's own `setProperty` returns, leaves in `needUpdate` and does to
-- its cache is given.
unfoldable pub set_filter_property : TreeOps → ℕ → Bool × Bool × Caches → Bool × Caches
unfolding clear_each subtree
set_filter_property t f (accepted, need_update, cached) =
    if accepted
    then (
      true,
      (if need_update
          then clear_each (keep (λ it. not (it == f)) (subtree t f)) cached
          else cached),
    )
    else (false, cached)

-- `reparentFilter` refuses a parent that its loop over the moved filter meets.
unfoldable pub reparent_refused : TreeOps → ℕ → ℕ → Bool
unfolding subtree
reparent_refused t f new_parent = elem new_parent (subtree t f)

-- The caches that `reparentFilter` clears: its loop passes over nodes as deep as the filter.
unfoldable pub reparent_clear : TreeOps → ℕ → Caches → Caches
unfolding clear_each positions
reparent_clear t f cached =
    clear_at f
      (clear_each (keep (λ it. not (t.depth f == t.depth it)) (positions (t.size - f) f)) cached)

pub clear_each_lem :
    (is : List ℕ) (cached : Caches) (j : ℕ) → clear_each is cached j ≡ (cached j && not (elem j is))
unfolding clear_each clear_at
clear_each_lem [] cached j = ground arith
clear_each_lem (i ∷ is) cached j = ground (arith, clear_each_lem is (clear_at i cached) j)

pub elem-positions : (n it j : ℕ) → (elem j (positions n it) ≡ true) ↔ ((it ≤ j) × (j < it + n))
unfolding positions
elem-positions zero it j = ground arith
elem-positions (suc n) it j = ground (arith, elem-positions n (suc it) j)
