-- ===== src/Tree/Refresh.antt =====
-- The loop of `FilterTree::refreshFilterTree` (src/backend/filtertree.cpp) that passes streams down the
-- tree by a stack. The calls of the filters' own `refresh` are recorded with their inputs; caching
-- decisions, progress, messages and devices are left out, and so is the deletion of the output after an
-- error.
use depict_isosurfaces.Prelude.{
  ℕ, zero, suc, ◌-◌, Bool, not, ◌||◌, List, [], ◌∷◌, ◌++◌, Option, none, some, ◌==◌, if◌then◌else◌,
  take, get_elem?, length, is_empty,
}
use depict_isosurfaces.Tree.Order.{TreeOps, is_child}
use depict_isosurfaces.Tree.Collector.{
  Collector, track_pointers, forget_pointers, collect_all, collect_to_level,
}
use depict_isosurfaces.Tree.Outputs.{Outputs, scrub}

-- The streams that one filter hands to the next.
abbrev pub Data : Type 0
Data = List ℕ

-- The bottom of `inDataStack` is the head of its list.
pub record Run : Type 0 where
  pub in_data_stack : List Data
  pub out_data : Outputs
  pub collector : Collector
  pub calls : List (ℕ × Data)
  pub err_code : ℕ

-- `while(inDataStack.size() > depth) inDataStack.pop();`
abbrev pub pop_pointer_stack : ℕ → List Data → List Data
pop_pointer_stack depth stack = take depth stack

-- `inDataStack.top()`; there is none in an empty stack.
abbrev pub top : List Data → Option Data
top stack = get_elem? stack (length stack - 1)

-- A filter's `refresh` gives an error code and its streams.
module _ (t : TreeOps) (is_leaf : ℕ → Bool) (tracks_self : ℕ → Bool)
    (refresh : ℕ → Data → ℕ × Data) where
  -- What follows a call: an error empties the stack and ends the refresh, a leaf's streams are output,
  -- and those of another filter go on the stack.
  unfoldable pub record_call : ℕ → Data → Run → Run
  record_call f input run =
      let (err, cur) = refresh f input in
      let called = record run { calls = run.calls ++ (f, input) ∷ [] } in
      if not (err == 0)
      then record called { err_code = err; in_data_stack = [] }
      else if not (is_leaf f)
      then record called {
        collector = track_pointers tracks_self cur run.collector;
        in_data_stack = run.in_data_stack ++ cur ∷ [];
      }
      else if is_empty cur
      then called
      else record called {
        out_data = run.out_data ++ (f, cur) ∷ [];
        collector = forget_pointers cur run.collector;
      }

  -- `none` where the stack is empty.
  unfoldable pub refresh_one : ℕ → ℕ → Run → Option Run
  unfolding record_call
  refresh_one base f run =
      let pop_level = suc (t.depth f - t.depth base) in
      let popped = record run {
        in_data_stack = pop_pointer_stack pop_level run.in_data_stack;
        collector = collect_to_level pop_level run.collector;
      } in
      elim (top popped.in_data_stack) [
        | none ↦ none
        | some input ↦ some (record_call f input popped)
      ]

  -- One round of the loop: nothing after an error, and only the base and its children.
  unfoldable pub visit : ℕ → ℕ → Run → Option Run
  unfolding refresh_one is_child
  visit base f run =
      if not (run.err_code == 0)
      then some run
      else if (f == base) || is_child t base f
      then refresh_one base f run
      else some run

  unfoldable pub refresh_below : ℕ → ℕ → ℕ → Run → Option Run
  unfolding visit
  refresh_below base zero f run = some run
  refresh_below base (suc n) f run = elim (visit base f run) [
    | none ↦ none
    | some next ↦ refresh_below base n (suc f) next
  ]

  -- The loop over the starts.
  unfoldable pub refresh_bases : List ℕ → Run → Option Run
  unfolding refresh_below track_pointers collect_all
  refresh_bases [] run = some run
  refresh_bases (base ∷ bases) run =
      let ready = record run {
        collector = track_pointers tracks_self [] (collect_all run.collector);
      } in
      elim (if run.err_code == 0 then refresh_below base (t.size - base) base ready else some run) [
        | none ↦ none
        | some next ↦ refresh_bases bases next
      ]

  -- After an error the run is left as it stopped; otherwise what is still owned is deleted, and each
  -- stream is output once.
  unfoldable pub finish : Run → Run
  unfolding collect_all scrub
  finish run =
      if run.err_code == 0
      then record run {
        in_data_stack = [];
        collector = collect_all run.collector;
        out_data = scrub [] run.out_data;
      }
      else run

  abbrev pub initial : Run
  initial = record {
    in_data_stack = [] ∷ [];
    out_data = [];
    collector = record { nodes = []; forgotten_nodes = []; deleted = [] };
    calls = [];
    err_code = 0;
  }

  unfoldable pub refresh_filter_tree : List ℕ → Option Run
  unfolding refresh_bases finish
  refresh_filter_tree bases = elim (refresh_bases bases initial) [
    | none ↦ none
    | some run ↦ some (finish run)
  ]
