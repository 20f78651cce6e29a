-- ===== src/Tree/Outputs.antt =====
-- What happens to the output of a refresh (src/backend/filtertree.cpp): `safeDeleteFilterList`, and the
-- last part of `refreshFilterTree`, which lists each stream once. An output is a filter with its streams.
use depict_isosurfaces.Prelude.{
  ℕ, suc, ◌≡◌, refl, ap, ◌∙◌, Bool, true, false, not, ◌&&◌, ◌||◌, List, [], ◌∷◌, ◌++◌, arith, ◌==◌,
  if◌then◌else◌, elem, elem-append, keep, is_empty, All, length, Bool-cases, inl, inr,
}
use depict_isosurfaces.Basics.Sort.{IsDistinct}
use depict_isosurfaces.Basics.Erase.{vector_multi_erase, vector_multi_erase_lem, unflagged}

abbrev pub Outputs : Type 0
Outputs = List (ℕ × List ℕ)

-- `^` on bool
abbrev xor : Bool → Bool → Bool
xor true b = not b
xor false b = b

-- `it = outData.erase(it)` on an empty vector, `++it` otherwise.
unfoldable pub put_output : ℕ → List ℕ → Outputs → Outputs
put_output f v rest = if is_empty v then rest else (f, v) ∷ rest

-- The `continue` of the loop; `masked` is `getStreamType() & typeMask` as a bool.
abbrev pub is_spared : ℕ → Bool → (ℕ → Bool) → ℕ → Bool
is_spared type_mask mask_prevents masked p =
    not (type_mask == 0) && xor (masked p) (not mask_prevents)

-- `killV`
unfoldable pub kill_flags : (ℕ → Bool) → List ℕ → List Bool
kill_flags spared [] = []
kill_flags spared (p ∷ v) = not (spared p) ∷ kill_flags spared v

-- `if(!f->cached) delete f;`
unfoldable pub killed : (ℕ → Bool) → (ℕ → Bool) → List ℕ → List ℕ
killed spared cached [] = []
killed spared cached (p ∷ v) =
    let rest = killed spared cached v in
    if spared p then rest else if not (cached p) then p ∷ rest else rest

unfoldable pub delete_loop : (ℕ → Bool) → (ℕ → Bool) → Outputs → Outputs × List ℕ
unfolding kill_flags killed put_output vector_multi_erase
delete_loop spared cached [] = ([], [])
delete_loop spared cached ((f, v) ∷ out) =
    let rest = delete_loop spared cached out in
    (
      put_output f (vector_multi_erase v (kill_flags spared v)) rest.0,
      killed spared cached v ++ rest.1,
    )

-- The list that is left, and the streams that are deleted, in order.
unfoldable pub safe_delete : ℕ → Bool → (ℕ → Bool) → (ℕ → Bool) → Outputs → Outputs × List ℕ
unfolding delete_loop
safe_delete type_mask mask_prevents masked cached out =
    delete_loop (is_spared type_mask mask_prevents masked) cached out

-- The streams of each filter that pass a test, without the filters that are left with none.
unfoldable pub restrict : (ℕ → Bool) → Outputs → Outputs
unfolding put_output
restrict test [] = []
restrict test ((f, v) ∷ out) = put_output f (keep test v) (restrict test out)

unflagged-kill_flags :
    (spared : ℕ → Bool) (v : List ℕ) → unflagged v (kill_flags spared v) ≡ keep spared v
unfolding kill_flags unflagged
unflagged-kill_flags spared [] = refl
unflagged-kill_flags spared (p ∷ v) = elim (Bool-cases (spared p)) [
  | inl u ↦ rw u (ap (λ r. p ∷ r) (unflagged-kill_flags spared v))
  | inr u ↦ rw u (unflagged-kill_flags spared v)
]

length-kill_flags : (spared : ℕ → Bool) (v : List ℕ) → length (kill_flags spared v) ≡ length v
unfolding kill_flags
length-kill_flags spared [] = refl
length-kill_flags spared (p ∷ v) = ap suc (length-kill_flags spared v)

-- `uniqueSet`, and the streams of one vector that it does not have yet.
unfoldable pub scrub_vector : List ℕ → List ℕ → List ℕ × List ℕ
scrub_vector unique [] = ([], unique)
scrub_vector unique (p ∷ v) =
    let new = scrub_vector (p ∷ unique) v in
    let old = scrub_vector unique v in if elem p unique then old else (p ∷ new.0, new.1)

unfoldable pub scrub : List ℕ → Outputs → Outputs
unfolding scrub_vector put_output
scrub unique [] = []
scrub unique ((f, v) ∷ out) =
    let (kept, seen) = scrub_vector unique v in put_output f kept (scrub seen out)

-- All streams.
unfoldable pub streams : Outputs → List ℕ
streams [] = []
streams ((f, v) ∷ out) = v ++ streams out

abbrev pub HasNoEmpty : Outputs → Type 0
HasNoEmpty = All (λ e. is_empty e.1 ≡ false)

streams-put_output :
    (f : ℕ) (v : List ℕ) (out : Outputs) → streams (put_output f v out) ≡ v ++ streams out
unfolding put_output streams
streams-put_output f [] out = refl
streams-put_output f (p ∷ v) out = refl

put_output-HasNoEmpty :
    (f : ℕ) (v : List ℕ) (out : Outputs) → HasNoEmpty out → HasNoEmpty (put_output f v out)
unfolding put_output
put_output-HasNoEmpty f [] out h = h
put_output-HasNoEmpty f (p ∷ v) out h = (refl, h)

scrub-HasNoEmpty : (unique : List ℕ) (out : Outputs) → HasNoEmpty (scrub unique out)
unfolding scrub
scrub-HasNoEmpty unique [] = tt
scrub-HasNoEmpty unique ((f, v) ∷ out) =
    let split = scrub_vector unique v in
    put_output-HasNoEmpty f split.0 (scrub split.1 out) (scrub-HasNoEmpty split.1 out)

elem-scrub_vector :
    (p : ℕ) (unique v : List ℕ)
    → (elem p (scrub_vector unique v).0 ≡ (elem p v && not (elem p unique)))
      × (elem p (scrub_vector unique v).1 ≡ (elem p v || elem p unique))
unfolding scrub_vector
elem-scrub_vector p unique [] = (refl, refl)
elem-scrub_vector p unique (x ∷ v) =
    let same : (p == x) ≡ true → elem p unique ≡ elem x unique =
      λ e. ap (λ y. elem y unique) (ground arith) in
    let old = elem-scrub_vector p unique v in
    let new = elem-scrub_vector p (x ∷ unique) v in
    elim (Bool-cases (elem x unique)) [
      | inl u ↦ rw u (ground (arith, old.0, same, u), ground (arith, old.1, same, u))
      | inr u ↦ rw u (ground (arith, new.0, same, u), ground (arith, new.1, same, u))
    ]

elem-scrub :
    (p : ℕ) (unique : List ℕ) (out : Outputs)
    → elem p (streams (scrub unique out)) ≡ (elem p (streams out) && not (elem p unique))
unfolding scrub streams
elem-scrub p unique [] = refl
elem-scrub p unique ((f, v) ∷ out) =
    let split = scrub_vector unique v in
    let one = elem-scrub_vector p unique v in
    let rest = elem-scrub p split.1 out in
    rw
      (
        streams-put_output f split.0 (scrub split.1 out),
        elem-append p split.0 (streams (scrub split.1 out)),
        elem-append p v (streams out),
        rest,
        one.0,
        one.1,
      )
      (ground arith)

append-IsDistinct :
    (xs ys : List ℕ)
    → IsDistinct xs
    → IsDistinct ys
    → ((p : ℕ) → elem p xs ≡ true → elem p ys ≡ false)
    → IsDistinct (xs ++ ys)
append-IsDistinct [] ys h k d = k
append-IsDistinct (x ∷ xs) ys h k d = (
  ground (arith, elem-append x xs ys, h.0, d x),
  append-IsDistinct xs ys h.1 k (λ p e. d p (ground (arith, e))),
)

scrub_vector-IsDistinct : (unique v : List ℕ) → IsDistinct (scrub_vector unique v).0
unfolding scrub_vector
scrub_vector-IsDistinct unique [] = tt
scrub_vector-IsDistinct unique (x ∷ v) = elim (Bool-cases (elem x unique)) [
  | inl u ↦ rw u (scrub_vector-IsDistinct unique v)
  | inr u ↦
      let inside = (elem-scrub_vector x (x ∷ unique) v).0 in
      rw u (ground (arith, inside), scrub_vector-IsDistinct (x ∷ unique) v)
]

scrub-IsDistinct : (unique : List ℕ) (out : Outputs) → IsDistinct (streams (scrub unique out))
unfolding scrub streams
scrub-IsDistinct unique [] = tt
scrub-IsDistinct unique ((f, v) ∷ out) =
    let split = scrub_vector unique v in
    rw (streams-put_output f split.0 (scrub split.1 out)) (
      append-IsDistinct split.0 (streams (scrub split.1 out)) (scrub_vector-IsDistinct unique v)
        (scrub-IsDistinct split.1 out)
        (λ p e. ground (arith, elem-scrub p split.1 out, elem-scrub_vector p unique v, e)))

-- After a refresh each stream of the output is listed once, none is lost, and no filter is listed
-- without a stream.
pub scrub_lem :
    (out : Outputs)
    → IsDistinct (streams (scrub [] out))
      × ((p : ℕ) → elem p (streams (scrub [] out)) ≡ elem p (streams out))
      × HasNoEmpty (scrub [] out)
scrub_lem out =
    (scrub-IsDistinct [] out, (λ p. elem-scrub p [] out ∙ ground arith), scrub-HasNoEmpty [] out)

module _ (spared cached : ℕ → Bool) where
  elem-killed :
      (p : ℕ) (v : List ℕ)
      → elem p (killed spared cached v) ≡ (elem p v && (not (spared p) && not (cached p)))
  unfolding killed
  elem-killed p [] = refl
  elem-killed p (x ∷ v) =
      let same_spared : (p == x) ≡ true → spared p ≡ spared x = λ e. ap spared (ground arith) in
      let same_cached : (p == x) ≡ true → cached p ≡ cached x = λ e. ap cached (ground arith) in
      ground (arith, elem-killed p v, same_spared, same_cached)

  delete_loop_lem :
      (out : Outputs)
      → ((delete_loop spared cached out).0 ≡ restrict spared out)
        × ((p : ℕ)
            → elem p (delete_loop spared cached out).1
              ≡ (elem p (streams out) && (not (spared p) && not (cached p))))
  unfolding delete_loop restrict streams
  delete_loop_lem [] = (refl, λ p. refl)
  delete_loop_lem ((f, v) ∷ out) =
      let rest = delete_loop_lem out in
      let left : vector_multi_erase v (kill_flags spared v) ≡ keep spared v =
        vector_multi_erase_lem v (kill_flags spared v) (length-kill_flags spared v)
        ∙ unflagged-kill_flags spared v in
      (
        rw (left, rest.0) refl,
        λ p.
            rw
              (
                elem-append p (killed spared cached v) (delete_loop spared cached out).1,
                elem-append p v (streams out),
                rest.1 p,
                elem-killed p v,
              )
              (ground arith),
      )

-- safeDeleteFilterList leaves exactly the streams that the mask spares, in order, and the filters that
-- have one, and deletes exactly the others that are not cached; a zero mask spares none.
pub safe_delete_lem :
    (type_mask : ℕ) (mask_prevents : Bool) (masked cached : ℕ → Bool) (out : Outputs)
    → ((safe_delete type_mask mask_prevents masked cached out).0
        ≡ restrict (is_spared type_mask mask_prevents masked) out)
      × ((p : ℕ)
          → elem p (safe_delete type_mask mask_prevents masked cached out).1 ≡ (
              elem p (streams out)
              && (not (is_spared type_mask mask_prevents masked p) && not (cached p))))
unfolding safe_delete
safe_delete_lem type_mask mask_prevents masked cached out =
    delete_loop_lem (is_spared type_mask mask_prevents masked) cached out
