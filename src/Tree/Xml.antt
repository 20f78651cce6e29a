-- ===== src/Tree/Xml.antt =====
-- The part of a state file between <filtertree> and </filtertree>: the elements that libxml2 hands
-- to `FilterTree::loadXML` of src/backend/filtertree.cpp, and the tags that `saveXML` writes.
use depict_isosurfaces.Prelude.{ℕ, zero, suc, ◌+◌, ◌-◌, Option, some, ◌>>=◌, List, [], ◌∷◌}

-- A node and what follows it under the same parent. An element whose name is a filter's carries
-- what is between its own tags, which only the filter reads.
pub data Xml (X : Type 0) : Type 0 where
  done : Xml X
  text : Xml X → Xml X
  entry : X → Xml X → Xml X
  children : Xml X → Xml X → Xml X
  unknown : Xml X → Xml X

-- The same as a sequence of tags.
pub data Tag (X : Type 0) : Type 0 where
  space : Tag X
  element : X → Tag X
  open_children : Tag X
  close_children : Tag X
  other : Tag X

module _ {X : Type 0} where
  -- `node->next` of the first node, which is what `XMLHelpNextType` goes to first.
  abbrev pub next : Xml X → Xml X
  next done = done
  next (text r) = r
  next (entry x r) = r
  next (children k r) = r
  next (unknown r) = r

  -- The number of nodes, with the end of each list of siblings.
  abbrev pub weight : Xml X → ℕ
  weight done = 1
  weight (text r) = suc (weight r)
  weight (entry x r) = suc (weight r)
  weight (children k r) = suc (weight k + weight r)
  weight (unknown r) = suc (weight r)

  -- The tags of the nodes, before `ts`.
  abbrev pub tags_then : Xml X → List (Tag X) → List (Tag X)
  tags_then done ts = ts
  tags_then (text r) ts = space ∷ tags_then r ts
  tags_then (entry x r) ts = element x ∷ tags_then r ts
  tags_then (children k r) ts = open_children ∷ tags_then k (close_children ∷ tags_then r ts)
  tags_then (unknown r) ts = other ∷ tags_then r ts

  abbrev pub tags : Xml X → List (Tag X)
  tags x = tags_then x []

  -- `while(depthLast++ < depth) f << tabs(...) << "<children>" << endl;`
  unfoldable pub opens : ℕ → List (Tag X) → List (Tag X)
  opens zero ts = ts
  opens (suc n) ts = space ∷ open_children ∷ opens n ts

  -- `while(depthLast-- > depth) f << tabs(...) << "</children>" << endl;`
  unfoldable pub closes : ℕ → List (Tag X) → List (Tag X)
  closes zero ts = ts
  closes (suc n) ts = space ∷ close_children ∷ closes n ts

module _ {X : Type 0} where
  -- What leads from the depth of one filter to that of the next.
  abbrev pub move : ℕ → ℕ → List (Tag X) → List (Tag X)
  move depth_last depth ts = opens (depth - depth_last) (closes (depth_last - depth) ts)

module _ {F X : Type 0} (write_state : F → Option X) where
  -- The loop of `saveXML` over the filters, each with its depth, and what closes it. The count
  -- `child` goes up and down with the tags; a filter that fails to write ends the loop.
  unfoldable pub save_from : ℕ → ℕ → List (ℕ × F) → Option (List (Tag X))
  unfolding closes
  save_from depth_last child [] = some (closes child (space ∷ []))
  save_from depth_last child ((depth, f) ∷ xs) =
      let after = save_from depth ((child + (depth - depth_last)) - (depth_last - depth)) xs in
      do x ← write_state f; ts ← after; some (move depth_last depth (space ∷ element x ∷ ts))

  unfoldable pub save_xml : List (ℕ × F) → Option (List (Tag X))
  unfolding save_from
  save_xml filters = save_from 0 0 filters
