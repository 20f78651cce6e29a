-- ===== src/Text/Paths.antt =====
-- `onlyFilename`, `onlyDir` and `splitFileData` of src/common/stringFuncs.cpp, with `/` between the
-- parts of a path.
use depict_isosurfaces.Prelude.{
  ℕ, zero, suc, ◌-◌, Bool, false, List, [], ◌∷◌, ◌++◌, ◌≡◌, refl, ap, sym, ◌∙◌, ◌⊎◌, inl, inr,
  Option, none, some, arith, ◌==◌, if◌then◌else◌, take, drop, length, get_elem?, is_empty,
  Option-cases, take-append-drop, take_all, length-drop, All-take, All-drop, subst,
}
use depict_isosurfaces.Text.Find.{
  find_last_char, later_or, next_pos, Lacks, find_last_char-some, find_last_char-none,
}

unfoldable pub only_filename : List ℕ → List ℕ
only_filename path = drop (next_pos (find_last_char b'/' path)) path

unfoldable pub only_dir : List ℕ → List ℕ
only_dir path = take (next_pos (find_last_char b'/' path)) path

pub record FileData : Type 0 where
  pub path : List ℕ
  pub basename : List ℕ
  pub extension : List ℕ

-- `basename[ui] == '.'`
abbrev is_dot : Option ℕ → Bool
is_dot none = false
is_dot (some c) = c == b'.'

-- `for(ui = basename.size(); ui--;)`: the position of the last dot.
ext_position : List ℕ → ℕ → Option ℕ
ext_position base zero = none
ext_position base (suc ui) =
    let earlier = ext_position base ui in if is_dot (get_elem? base ui) then some ui else earlier

abbrev cut_extension : List ℕ → List ℕ → Option ℕ → FileData
cut_extension dir base none = record { path = dir; basename = base; extension = [] }
cut_extension dir base (some i) = record {
  path = dir;
  basename = take i base;
  extension = take (length base - suc i) (drop (suc i) base);
}

unfoldable pub split_file_data : List ℕ → FileData
unfolding only_filename only_dir ext_position
split_file_data file =
    if is_empty file
    then record { path = []; basename = []; extension = [] }
    else let base = only_filename file in
      cut_extension (only_dir file) base (ext_position base (length base))

-- The directory and the file name are the path.
pub only_dir-append-only_filename : (path : List ℕ) → only_dir path ++ only_filename path ≡ path
unfolding only_dir only_filename
only_dir-append-only_filename path = take-append-drop _ path

only_filename-Lacks : (path : List ℕ) → Lacks b'/' (only_filename path)
unfolding only_filename
only_filename-Lacks path = elim (Option-cases (find_last_char b'/' path)) [
  | inl e ↦ rw e (find_last_char-none b'/' path e)
  | inr (i, e) ↦ rw e (find_last_char-some b'/' path i e).1
]

ext_position-cons :
    (c : ℕ) (s : List ℕ) (n : ℕ)
    → ext_position (c ∷ s) (suc n)
      ≡ later_or (ext_position s n) (if c == b'.' then some 0 else none)
unfolding ext_position
ext_position-cons c s zero = ground arith
ext_position-cons c s (suc n) = ground (arith, ext_position-cons c s n)

ext_position_lem : (s : List ℕ) → ext_position s (length s) ≡ find_last_char b'.' s
unfolding ext_position find_last_char
ext_position_lem [] = refl
ext_position_lem (c ∷ s) = ext_position-cons c s (length s) ∙ rw (ext_position_lem s)

-- What the three parts say of the path: they rebuild it, with a dot before the extension if there is
-- one, and the extension begins at the last dot of the file name.
abbrev pub Rebuilds : FileData → List ℕ → Type 0
Rebuilds r file =
    ((r.path ++ r.basename ≡ file) × (r.extension ≡ []) × Lacks b'.' r.basename)
    ⊎ ((r.path ++ (r.basename ++ b'.' ∷ r.extension) ≡ file) × Lacks b'.' r.extension)

cut_extension_lem :
    (dir base : List ℕ)
    → Rebuilds (cut_extension dir base (ext_position base (length base))) (dir ++ base)
cut_extension_lem dir base = elim (Option-cases (find_last_char b'.' base)) [
  | inl e ↦ rw (ext_position_lem base, e) (inl (refl, refl, find_last_char-none b'.' base e))
  | inr (i, e) ↦
      let cut = find_last_char-some b'.' base i e in
      rw
        (
          ext_position_lem base,
          e,
          take_all (length base - suc i) (drop (suc i) base)
              (omega (arith, length-drop (suc i) base)),
        )
        (inr (ap (λ t. dir ++ t) (sym cut.0), cut.1))
]

cut_extension-Lacks :
    (dir base : List ℕ) (o : Option ℕ)
    → Lacks b'/' base
    → Lacks b'/' (cut_extension dir base o).basename
      × Lacks b'/' (cut_extension dir base o).extension
cut_extension-Lacks dir base none h = (h, tt)
cut_extension-Lacks dir base (some i) h =
    (All-take _ i base h, All-take _ _ (drop (suc i) base) (All-drop _ (suc i) base h))

-- Splitting a path loses nothing: directory, base name and extension rebuild it, with a dot before
-- the extension if the file name has one; the extension holds no dot, a base name without extension
-- holds none either, and neither base name nor extension holds a slash.
pub split_file_data_lem :
    (file : List ℕ)
    → Rebuilds (split_file_data file) file
      × Lacks b'/' (split_file_data file).basename
      × Lacks b'/' (split_file_data file).extension
unfolding split_file_data
split_file_data_lem [] = (inl (refl, refl, tt), tt, tt)
split_file_data_lem (c ∷ cs) =
    let file : List ℕ = c ∷ cs in
    let base = only_filename file in
    let lacks =
      cut_extension-Lacks (only_dir file) base (ext_position base (length base))
        (only_filename-Lacks file) in
    (
      subst (Rebuilds (cut_extension (only_dir file) base (ext_position base (length base))))
          (only_dir-append-only_filename file) (cut_extension_lem (only_dir file) base),
      lacks.0,
      lacks.1,
    )
