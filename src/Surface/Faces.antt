-- ===== src/Surface/Faces.antt =====
-- The sides of the triangles in the rows of `a2iTriangleConnectionTable` of src/gl/isoSurface.cpp, and
-- the faces of a cube.
use depict_isosurfaces.Prelude.{
  ℕ, ◌+◌, ◌*◌, ◌^◌, ◌<◌, ◌≡◌, refl, sym, ap, ◌∙◌, Bool, true, not, ◌&&◌, List, [], ◌∷◌,
  if◌then◌else◌, elem, All, all_below, all_below_lem, &&-true,
}
use depict_isosurfaces.Surface.Edges.{Cell}
use depict_isosurfaces.Surface.Cube.{bit, triangle_row, row_at}
use depict_isosurfaces.Surface.Table.{triangle_connection_table}
use depict_isosurfaces.Surface.Bits.{same_bool, same_bool-eq}

-- A side from one edge of the cube to another, as a number.
abbrev pub side : ℕ → ℕ → ℕ
side a b = 12 * a + b

-- The sides of the triangles of a row, in their order around each triangle.
abbrev pub sides : List ℕ → List ℕ
sides (a ∷ b ∷ c ∷ row) = side a b ∷ side b c ∷ side c a ∷ sides row
sides row = []

-- No other triangle of the row has the side in the other direction.
abbrev pub is_open : List ℕ → ℕ → ℕ → Bool
is_open row a b = elem (side a b) (sides row) && not (elem (side b a) (sides row))

pub data Axis : Type 0 where
  x_axis : Axis
  y_axis : Axis
  z_axis : Axis

abbrev pub unit : Axis → Cell
unit x_axis = (1, 0, 0)
unit y_axis = (0, 1, 0)
unit z_axis = (0, 0, 1)

-- The vertices of the upper face along an axis, each with the one below it on the lower face.
abbrev pub face_vertices : Axis → List (ℕ × ℕ)
face_vertices x_axis = (1, 0) ∷ (2, 3) ∷ (5, 4) ∷ (6, 7) ∷ []
face_vertices y_axis = (3, 0) ∷ (2, 1) ∷ (7, 4) ∷ (6, 5) ∷ []
face_vertices z_axis = (4, 0) ∷ (5, 1) ∷ (6, 2) ∷ (7, 3) ∷ []

-- The edges of the upper face, each with the one below it on the lower face.
abbrev pub face_edges : Axis → List (ℕ × ℕ)
face_edges x_axis = (1, 3) ∷ (5, 7) ∷ (9, 8) ∷ (10, 11) ∷ []
face_edges y_axis = (2, 0) ∷ (6, 4) ∷ (10, 9) ∷ (11, 8) ∷ []
face_edges z_axis = (4, 0) ∷ (5, 1) ∷ (6, 2) ∷ (7, 3) ∷ []

-- The configuration in which only the upper face has vertices below the surface: from its own bits,
-- and from those of the lower face of the next cube.
abbrev pub upper_part : ℕ → List (ℕ × ℕ) → ℕ
upper_part i [] = 0
upper_part i ((u, l) ∷ vs) = let rest = upper_part i vs in if bit i u then 2 ^ u + rest else rest

abbrev pub lower_part : ℕ → List (ℕ × ℕ) → ℕ
lower_part j [] = 0
lower_part j ((u, l) ∷ vs) = let rest = lower_part j vs in if bit j l then 2 ^ u + rest else rest

abbrev pub pair_ok : List ℕ → List ℕ → List ℕ → ℕ × ℕ → ℕ × ℕ → Bool
pair_ok row upper lower e f =
    same_bool (is_open row e.0 f.0) (is_open upper e.0 f.0)
    && same_bool (is_open row f.1 e.1) (is_open lower e.0 f.0)

abbrev pub all_of : (ℕ × ℕ → Bool) → List (ℕ × ℕ) → Bool
all_of p [] = true
all_of p (e ∷ es) = p e && all_of p es

abbrev row_of : ℕ → List ℕ
row_of i = row_at triangle_connection_table i

abbrev face_ok : Axis → ℕ → Bool
face_ok axis i =
    let row = row_of i in
    let upper = row_of (upper_part i (face_vertices axis)) in
    let lower = row_of (lower_part i (face_vertices axis)) in
    all_of (λ e. all_of (λ f. pair_ok row upper lower e f) (face_edges axis)) (face_edges axis)

faces_ok : (axis : Axis) → all_below (face_ok axis) 256 ≡ true
faces_ok x_axis = refl
faces_ok y_axis = refl
faces_ok z_axis = refl

all_of-All : (p : ℕ × ℕ → Bool) (es : List (ℕ × ℕ)) → all_of p es ≡ true → All (λ e. p e ≡ true) es
all_of-All p [] h = tt
all_of-All p (e ∷ es) h =
    let parts = &&-true (p e) (all_of p es) h in (parts.0, all_of-All p es parts.1)

All-both :
    (P Q R : ℕ × ℕ → Type 0)
    → ((e : ℕ × ℕ) → P e → Q e → R e)
    → (es : List (ℕ × ℕ)) → All P es
    → All Q es
    → All R es
All-both P Q R f [] h k = tt
All-both P Q R f (e ∷ es) h k = (f e h.0 k.0, All-both P Q R f es h.1 k.1)

-- For two configurations that agree on the face between their cubes, a side on it is open in one
-- exactly if it is open in the other direction in the other.
pub rows_agree :
    (axis : Axis) (i j : ℕ)
    → i < 256
    → j < 256
    → upper_part i (face_vertices axis) ≡ lower_part j (face_vertices axis)
    → All
        (λ e.
          All
            (λ f. is_open (triangle_row i) e.0 f.0 ≡ is_open (triangle_row j) f.1 e.1)
            (face_edges axis))
        (face_edges axis)
unfolding triangle_row
rows_agree axis i j h k same =
    All-both (λ e. tested i e ≡ true) (λ e. tested j e ≡ true)
      (λ e. All (λ f. is_open (row_of i) e.0 f.0 ≡ is_open (row_of j) f.1 e.1) (face_edges axis))
      (λ e p q.
        All-both (λ f. pair i e f ≡ true) (λ f. pair j e f ≡ true)
          (λ f. is_open (row_of i) e.0 f.0 ≡ is_open (row_of j) f.1 e.1) (agree e) (face_edges axis)
          (all_of-All (pair i e) (face_edges axis) p) (all_of-All (pair j e) (face_edges axis) q))
      (face_edges axis)
      (all_of-All (tested i) (face_edges axis)
        (all_below_lem (face_ok axis) 256 i (faces_ok axis) h))
      (all_of-All (tested j) (face_edges axis)
        (all_below_lem (face_ok axis) 256 j (faces_ok axis) k))
  where
    pair : ℕ → ℕ × ℕ → ℕ × ℕ → Bool
    pair n e f =
        pair_ok (row_of n) (row_of (upper_part n (face_vertices axis)))
          (row_of (lower_part n (face_vertices axis))) e f

    tested : ℕ → ℕ × ℕ → Bool
    tested n e = all_of (pair n e) (face_edges axis)

    agree :
        (e f : ℕ × ℕ)
        → pair i e f ≡ true
        → pair j e f ≡ true
        → is_open (row_of i) e.0 f.0 ≡ is_open (row_of j) f.1 e.1
    agree e f p q =
        let up = row_of (upper_part i (face_vertices axis)) in
        let down = row_of (lower_part j (face_vertices axis)) in
        let first =
          same_bool-eq (is_open (row_of i) e.0 f.0) (is_open up e.0 f.0)
            (&&-true (same_bool (is_open (row_of i) e.0 f.0) (is_open up e.0 f.0)) _ p).0 in
        let second =
          same_bool-eq (is_open (row_of j) f.1 e.1) (is_open down e.0 f.0)
            (&&-true
              (same_bool (is_open (row_of j) e.0 f.0)
                (is_open (row_of (upper_part j (face_vertices axis))) e.0 f.0))
              _ q).1 in
        first ∙ ap (λ n. is_open (row_of n) e.0 f.0) same ∙ sym second
