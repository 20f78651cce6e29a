-- ===== src/Surface/March.antt =====
-- The triangles that `marchingCubes` of src/gl/isoSurface.cpp finds in one cube.
use depict_isosurfaces.Prelude.{
  ℕ, zero, suc, ◌*◌, ◌%◌, ◌^◌, ◌≤◌, ◌<◌, ◌≡◌, refl, sym, ap, ap₂, ◌∙◌, subst, Bool, true, false,
  not, Option, some, List, [], ◌∷◌, ◌==◌, elem, length, map, All, arith, ==_iff, all_below_lem,
  &&-true, ltb, ltb→lt, Bool-cases, inl, inr,
}
use native.Mathlib.Nat.{zero-div}
use depict_isosurfaces.Surface.Edges.{Bins, Cell, deprecated_get_edge_unique_index}
use depict_isosurfaces.Surface.Cube.{
  Triangle, nth, edge_flags, triangle_row, bit, edge_start, edge_end, edge_remap, edge_starts,
  edge_ends, edge_remaps, is_below, flag_index, edge_vertex, row_triangles, march_cell,
}
use depict_isosurfaces.Surface.Bits.{same_bool, bit-flag_index, flag_index-lt}
use depict_isosurfaces.Surface.Check.{IsRow, all_small, differ, tables-IsRow}

abbrev pub corners : List Triangle → List ℕ
corners [] = []
corners ((p, q, r) ∷ ts) = p ∷ q ∷ r ∷ corners ts

nth-small : (xs : List ℕ) (b i : ℕ) → 0 < b → All (λ x. x < b) xs → nth xs i < b
nth-small [] b i pos h = pos
nth-small (x ∷ xs) b zero pos h = h.0
nth-small (x ∷ xs) b (suc i) pos h = nth-small xs b i pos h.1

-- The surface passes between the ends of the edge.
abbrev pub is_crossed : (Cell → Bool) → Cell → ℕ → Bool
is_crossed below cell e =
    not (same_bool (is_below below cell (edge_start e)) (is_below below cell (edge_end e)))

differ-is_crossed :
    (below : Cell → Bool) (cell : Cell) (e : ℕ)
    → differ (flag_index below cell) e ≡ is_crossed below cell e
differ-is_crossed below cell e =
    ap₂ (λ a b. not (same_bool a b))
      (bit-flag_index below cell (edge_start e)
        (nth-small edge_starts 8 e (omega arith) (ground arith)))
      (bit-flag_index below cell (edge_end e)
        (nth-small edge_ends 8 e (omega arith) (ground arith)))

-- From the index of voxels.h back to that of the tables.
abbrev unmap : ℕ → ℕ
unmap i = nth (0 ∷ 2 ∷ 4 ∷ 6 ∷ 3 ∷ 7 ∷ 1 ∷ 5 ∷ 8 ∷ 11 ∷ 9 ∷ 10 ∷ []) i

abbrev remaps_back : ℕ → Bool
remaps_back e = unmap (edge_remap e) == e

unmap-edge_remap : (e : ℕ) → e < 12 → unmap (edge_remap e) ≡ e
unmap-edge_remap e h = (==_iff (unmap (edge_remap e)) e).0 (all_below_lem remaps_back 12 e refl h)

pub edge_remap-lt : (e : ℕ) → edge_remap e < 12
edge_remap-lt e = nth-small edge_remaps 12 e (omega arith) (ground arith)

module _ (bins : Bins) (cell : Cell) where
  abbrev pub edge_id : ℕ → ℕ
  edge_id e = deprecated_get_edge_unique_index bins cell (edge_remap e)

  edge_id-injective : (e f : ℕ) → e < 12 → f < 12 → edge_id e ≡ edge_id f → e ≡ f
  unfolding deprecated_get_edge_unique_index
  edge_id-injective e f h k same =
      let re = edge_remap-lt e in
      let rf = edge_remap-lt f in
      let index : edge_remap e ≡ edge_remap f = omega (arith, re, rf, same) in
      sym (unmap-edge_remap e h) ∙ ap unmap index ∙ unmap-edge_remap f k

  elem-edge_id :
      (e : ℕ) (row : List ℕ)
      → e < 12
      → all_small row ≡ true
      → elem (edge_id e) (map edge_id row) ≡ elem e row
  elem-edge_id e [] h small = refl
  elem-edge_id e (f ∷ row) h small =
      let parts = &&-true (ltb f 12) (all_small row) small in
      let rest = elem-edge_id e row h parts.1 in
      elim (Bool-cases (e == f)) [
        | inl u ↦ let same : e ≡ f = ground arith in rw same (ground arith)
        | inr u ↦ elim (Bool-cases (edge_id e == edge_id f)) [
          | inl q ↦
              let ids : edge_id e ≡ edge_id f = ground arith in
              absurd (ground (arith, u, edge_id-injective e f h (ltb→lt f 12 parts.0) ids))
          | inr q ↦ ground (arith, q, u, rest)
        ]
      ]

  abbrev IsFound : Option (List Triangle) → List ℕ → Type 0
  IsFound found row = (ts : List Triangle) × (found ≡ some ts) × (corners ts ≡ map edge_id row)

  row_triangles-IsFound :
      (vertex : ℕ → Option ℕ) (n : ℕ) (row : List ℕ)
      → ((e : ℕ) → elem e row ≡ true → vertex e ≡ some (edge_id e))
      → length row % 3 ≡ 0
      → length row ≤ 3 * n
      → IsFound (row_triangles vertex n row) row
  row_triangles-IsFound vertex zero [] at whole short = ([], refl, refl)
  row_triangles-IsFound vertex (suc n) [] at whole short = ([], refl, refl)
  row_triangles-IsFound vertex n (a ∷ []) at whole short = absurd (omega arith)
  row_triangles-IsFound vertex n (a ∷ b ∷ []) at whole short = absurd (omega arith)
  row_triangles-IsFound vertex zero (a ∷ b ∷ c ∷ rest) at whole short = absurd (omega arith)
  row_triangles-IsFound vertex (suc n) (a ∷ b ∷ c ∷ rest) at whole short =
      let (ts, found, same) =
        row_triangles-IsFound vertex n rest (λ e h. at e (ground (arith, h))) (omega arith)
          (omega arith) in
      (
        (edge_id a, edge_id b, edge_id c) ∷ ts,
        rw (at a (ground arith), at b (ground arith), at c (ground arith), found),
        ap (λ (ids : List ℕ). edge_id a ∷ edge_id b ∷ edge_id c ∷ ids) same,
      )

bit-zero : (n e : ℕ) → n ≡ 0 → bit n e ≡ false
bit-zero n e h = rw (h, zero-div (2 ^ e))

elem-small : (e : ℕ) (row : List ℕ) → all_small row ≡ true → elem e row ≡ true → e < 12
elem-small e [] h k = absurd (cc)
elem-small e (f ∷ row) h k =
    let parts = &&-true (ltb f 12) (all_small row) h in
    elim (Bool-cases (e == f)) [
      | inl u ↦ ground (arith, parts.0)
      | inr u ↦ elem-small e row parts.1 (ground (arith, k))
    ]

module _ (bins : Bins) (below : Cell → Bool) where
  -- The number of an edge of the cell that the surface crosses.
  abbrev pub IsCrossedId : Cell → ℕ → Type 0
  IsCrossedId cell id =
      (e : ℕ) × (e < 12) × (id ≡ edge_id bins cell e) × (is_crossed below cell e ≡ true)

  All-IsCrossedId :
      (cell : Cell) (row : List ℕ)
      → ((e : ℕ) → elem e row ≡ true → (e < 12) × (is_crossed below cell e ≡ true))
      → All (IsCrossedId cell) (map (edge_id bins cell) row)
  All-IsCrossedId cell [] h = tt
  All-IsCrossedId cell (e ∷ row) h =
      let (lt, crossed) = h e (ground arith) in
      ((e, lt, refl, crossed), All-IsCrossedId cell row (λ f k. h f (ground (arith, k))))

  vertex-set :
      (cell : Cell) (e : ℕ)
      → IsRow
          (flag_index below cell)
          (edge_flags (flag_index below cell))
          (triangle_row (flag_index below cell))
      → elem e (triangle_row (flag_index below cell)) ≡ true
      → e < 12
      → edge_vertex bins below cell (edge_flags (flag_index below cell)) e
        ≡ some (edge_id bins cell e)
  unfolding edge_vertex
  vertex-set cell e row h k = rw (row.flag e k, sym (row.in_row e k), h)

  -- For every field of voxels and every cell, the loop of `marchingCubes` only uses numbers of edges
  -- that it has set, and the corners of the triangles it adds are on exactly the edges of the cell
  -- that the surface crosses.
  pub march_cell_lem :
      (cell : Cell)
      → (ts : List Triangle) × (march_cell bins below cell ≡ some ts)
        × All (IsCrossedId cell) (corners ts)
        × ((e : ℕ) → e < 12 → elem (edge_id bins cell e) (corners ts) ≡ is_crossed below cell e)
  unfolding march_cell
  march_cell_lem cell =
      let index = flag_index below cell in
      let flags = edge_flags index in
      let row = triangle_row index in
      let ok = tables-IsRow index (flag_index-lt below cell) in
      let in_row : (f : ℕ) → elem f row ≡ true → (f < 12) × (is_crossed below cell f ≡ true) =
        λ f h.
          let lt = elem-small f row ok.small h in
          (lt, sym (sym h ∙ ok.in_row f lt ∙ differ-is_crossed below cell f)) in
      elim (Bool-cases (flags == 0)) [
        | inl e ↦
            let none_set : flags ≡ 0 = ground arith in
            (
              [],
              rw e,
              tt,
              λ f h. sym (bit-zero flags f none_set) ∙ ok.flag f h ∙ differ-is_crossed below cell f,
            )
        | inr e ↦
            let (ts, found, same) =
              row_triangles-IsFound bins cell (edge_vertex bins below cell flags) 5 row
                (λ f h. vertex-set cell f ok h (elem-small f row ok.small h)) ok.whole ok.short in
            (
              ts,
              rw e found,
              subst (All (IsCrossedId cell)) (sym same) (All-IsCrossedId cell row in_row),
              λ f h.
                  ap (elem (edge_id bins cell f)) same
                  ∙ elem-edge_id bins cell f row h ok.small
                  ∙ ok.in_row f h
                  ∙ differ-is_crossed below cell f,
            )
      ]
