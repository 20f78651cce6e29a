-- ===== src/Tests/Reload.antt =====
-- A tree container and a state file for the loading of src/backend/filtertree.cpp.
use depict_isosurfaces.Prelude.{
  ℕ, suc, ◌+◌, ◌-◌, ◌≤◌, ◌<◌, ◌≡◌, refl, sym, ap, ◌∙◌, false, Option, none, some, List, [], ◌∷◌,
  ◌++◌, append_assoc, arith, All, ◌==◌, ltb, if◌then◌else◌, elem, max,
}
use depict_isosurfaces.Tree.Xml.{Xml, done, text, entry, children, tags, save_xml, opens}
use depict_isosurfaces.Tree.Load.{Node, Listing, TreeCalls, IsTree, Ends, node, keys, load_xml}
use depict_isosurfaces.Tree.Reload.Saved.{Root, branch, in_order, shape}
use depict_isosurfaces.Tree.Reload.Whole.{load_xml-save_xml}
use depict_isosurfaces.Tree.Reload.Fuel.{load_xml_ends}

new_key : Listing ℕ → ℕ
new_key [] = 0
new_key (n ∷ ns) = max (suc n.key) (new_key ns)

new_key_fresh : (ns : Listing ℕ) (k : ℕ) → new_key ns ≤ k → elem k (keys ns) ≡ false
unfolding new_key
new_key_fresh [] k h = refl
new_key_fresh (n ∷ ns) k h = ground (arith, new_key_fresh ns k (omega arith))

insert_at : Listing ℕ → ℕ → Node ℕ → Listing ℕ
insert_at [] k x = x ∷ []
insert_at (n ∷ ns) k x = let rest = insert_at ns k x in if k == n.key then x ∷ n ∷ ns else n ∷ rest

skip_deeper : ℕ → Listing ℕ → Node ℕ → Listing ℕ
skip_deeper d [] x = x ∷ []
skip_deeper d (n ∷ ns) x =
    let rest = skip_deeper d ns x in if ltb d n.depth then n ∷ rest else x ∷ n ∷ ns

append_at : Listing ℕ → ℕ → ℕ → ℕ → Listing ℕ
unfolding skip_deeper
append_at [] k new f = []
append_at (n ∷ ns) k new f =
    let rest = append_at ns k new f in
    if k == n.key then n ∷ skip_deeper n.depth ns (node new (suc n.depth) f) else n ∷ rest

calls : TreeCalls ℕ
calls = record {
  insert = λ ns at f. (
    new_key ns,
    elim at [
      | none ↦ ns ++ node (new_key ns) 0 f ∷ []
      | some k ↦ insert_at ns k (node (new_key ns) 0 f)
    ],
  );
  append_child =
      λ ns at f. (new_key ns, elim at [ none ↦ ns | some k ↦ append_at ns k (new_key ns) f ]);
}

insert_at_lem :
    (a : Listing ℕ) (n : Node ℕ) (b : Listing ℕ) (x : Node ℕ)
    → elem n.key (keys a) ≡ false
    → insert_at (a ++ n ∷ b) n.key x ≡ a ++ x ∷ n ∷ b
unfolding insert_at
insert_at_lem [] n b x h = ground arith
insert_at_lem (m ∷ a) n b x h = ground (arith, insert_at_lem a n b x)

skip_deeper_lem :
    (d : ℕ) (below b : Listing ℕ) (x : Node ℕ)
    → All (λ m. d < m.depth) below
    → Ends d b
    → skip_deeper d (below ++ b) x ≡ below ++ x ∷ b
unfolding skip_deeper
skip_deeper_lem d [] [] x h k = refl
skip_deeper_lem d [] (n ∷ b) x h k = ground arith
skip_deeper_lem d (m ∷ below) b x h k = ground (arith, skip_deeper_lem d below b x h.1 k, h.0)

append_at_lem :
    (a : Listing ℕ) (n : Node ℕ) (below b : Listing ℕ) (new f : ℕ)
    → elem n.key (keys a) ≡ false
    → All (λ m. n.depth < m.depth) below
    → Ends n.depth b
    → append_at (a ++ n ∷ (below ++ b)) n.key new f
      ≡ a ++ n ∷ (below ++ node new (suc n.depth) f ∷ b)
unfolding append_at
append_at_lem [] n below b new f h k e =
    ground (arith, skip_deeper_lem n.depth below b (node new (suc n.depth) f) k e)
append_at_lem (m ∷ a) n below b new f h k e = ground (arith, append_at_lem a n below b new f)

calls-IsTree : IsTree calls
unfolding calls
calls-IsTree = record {
  insert_end = λ ns f. (new_key_fresh ns (new_key ns) (omega arith), refl);
  insert_before = λ a n b f h d. (
    new_key_fresh (a ++ n ∷ b) (new_key (a ++ n ∷ b)) (omega arith),
    insert_at_lem a n b (node (new_key (a ++ n ∷ b)) 0 f) h,
  );
  append_last = λ a n below b f h k e.
      let new = new_key (a ++ n ∷ below ++ b) in
      (
        new_key_fresh (a ++ n ∷ below ++ b) new (omega arith),
        ap (λ ns. append_at ns n.key new f) (append_assoc a (n ∷ below) b)
            ∙ append_at_lem a n below b new f h k e
            ∙ sym (append_assoc a (n ∷ below) (node new (suc n.depth) f ∷ b)),
      );
}

-- A filter writes its state as a number.
abbrev write_state : ℕ → Option ℕ
write_state f = some (f + 100)

abbrev read_state : ℕ → Option ℕ
read_state x = if ltb x 100 then none else some (x - 100)

reads : (f x : ℕ) → write_state f ≡ some x → read_state x ≡ some f
reads f x h = ground arith

-- A data source with a filter below it and one below that, and two sources more.
abbrev source : Root ℕ
source = (10, (1, 11) ∷ (2, 12) ∷ (1, 13) ∷ [])

abbrev others : List (Root ℕ)
others = (20, []) ∷ (30, (1, 31) ∷ []) ∷ []

abbrev state_file : Xml ℕ
state_file = text (
    entry 110 (
      text (
        children
          (text (
            entry 111
              (text (children (text (entry 112 (text done))) (text (entry 113 (text done)))))))
          (text (
            entry 120
              (text (entry 130 (text (children (text (entry 131 (text done))) (text done))))))))))

saved : save_xml write_state (branch source ++ in_order others) ≡ some (tags state_file)
unfolding save_xml opens
saved = refl

load_xml-save_xml_example :
    (t : Listing ℕ) × (load_xml calls read_state state_file ≡ some (0, t))
    × (shape t ≡ (0, 10) ∷ (1, 11) ∷ (2, 12) ∷ (1, 13) ∷ (0, 30) ∷ (1, 31) ∷ (0, 20) ∷ [])
load_xml-save_xml_example =
    load_xml-save_xml calls calls-IsTree write_state read_state reads source others
      (tags state_file) state_file
      (omega arith, omega arith, (omega arith, omega arith, (omega arith, omega arith, tt)))
      (tt, ((omega arith, omega arith, tt), tt)) saved refl

abbrev small_file : Xml ℕ
small_file =
    text (entry 120 (text (entry 130 (text (children (text (entry 131 (text done))) (text done))))))

saved_small :
    save_xml write_state (branch (20, []) ++ in_order ((30, (1, 31) ∷ []) ∷ []))
    ≡ some (tags small_file)
unfolding save_xml opens
saved_small = refl

load_xml_ends_example : (out : ℕ × Listing ℕ) × (load_xml calls read_state state_file ≡ some out)
load_xml_ends_example = load_xml_ends calls read_state state_file (λ e. absurd (cc e))

-- An opening tag before any filter, and one with nothing in it, end the loading with an error.
no_parent : load_xml calls read_state (text (children (text done) done)) ≡ some (1, [])
unfolding load_xml
no_parent = refl

no_children : load_xml calls read_state (text (entry 110 (children done done))) ≡ some (1, [])
unfolding load_xml calls
no_children = refl
