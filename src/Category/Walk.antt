-- ===== src/Category/Walk.antt =====
-- The walks up the tree of frontend/lib/model/Category.tsx.
use prosper.Prelude.{
  ℕ, zero, suc, ◌≡◌, refl, ap, Bool, some, List, [], ◌∷◌, reverse, arith, ◌==◌, nat_eq, ◌≤◌, ◌<◌,
  get_elem?, any, Option-cases, inl, inr, ok, >>=-eq-ok, or_throw, or_throw-eq-ok,
  category_not_found,
}
use prosper.Prelude.Maps.{lookup}
use prosper.Category.{
  CategoryTree, CategoryTreeNode, find_node, climb, get_ancestors, includes_from, subtree_includes,
}

-- Every parent is of a lower rank than its children, and every pointer leads to a node: going up
-- comes to an end.
pub record IsRanked (rank : ℕ → ℕ) (nodes : List CategoryTreeNode) : Type 0 where
  pub falls :
      (i : ℕ) (node : CategoryTreeNode) (p : ℕ)
      → get_elem? nodes i ≡ some node
      → node.parent ≡ some p
      → (above : CategoryTreeNode) × (get_elem? nodes p ≡ some above) × (rank p < rank i)

-- The category is in the list.
abbrev pub is_among : ℕ → List CategoryTreeNode → Bool
is_among id l = any (λ (a : CategoryTreeNode). a.category.id == id) l

module _ {rank : ℕ → ℕ} {nodes : List CategoryTreeNode} (ranked : IsRanked rank nodes) where
  climb_step :
      (fuel p : ℕ) (above : CategoryTreeNode) (l : List CategoryTreeNode)
      → get_elem? nodes p ≡ some above
      → climb fuel nodes above.parent ≡ some l
      → climb (suc fuel) nodes (some p) ≡ some (above ∷ l)
  unfolding climb
  climb_step fuel p above l at done = ground arith

  climb_first :
      (fuel p : ℕ) (above : CategoryTreeNode) (l : List CategoryTreeNode)
      → get_elem? nodes p ≡ some above
      → climb (suc fuel) nodes (some p) ≡ some l
      → (rest : List CategoryTreeNode) × (climb fuel nodes above.parent ≡ some rest)
        × (l ≡ above ∷ rest)
  unfolding climb
  climb_first fuel p above l at h = elim (Option-cases (climb fuel nodes above.parent)) [
    | inl e ↦ absurd (ground arith)
    | inr (rest, e) ↦ (rest, e, ground arith)
  ]

  pub climb_total :
      (fuel i : ℕ) (node : CategoryTreeNode)
      → get_elem? nodes i ≡ some node
      → rank i ≤ fuel
      → (l : List CategoryTreeNode) × (climb fuel nodes node.parent ≡ some l)
  unfolding climb
  climb_total zero i node h k = elim (Option-cases node.parent) [
    | inl e ↦ ([], rw e refl)
    | inr (p, e) ↦ let (above, at, lt) = ranked.falls i node p h e in absurd (omega arith)
  ]
  climb_total (suc fuel) i node h k = elim (Option-cases node.parent) [
    | inl e ↦ ([], rw e refl)
    | inr (p, e) ↦
        let (above, at, lt) = ranked.falls i node p h e in
        let (l, done) = climb_total fuel p above at (omega arith) in
        (above ∷ l, rw e (climb_step fuel p above l at done))
  ]

  -- The test up the tree finds what the chain of parents holds.
  includes_from-climb :
      (fuel root i : ℕ) (node : CategoryTreeNode) (l : List CategoryTreeNode)
      → get_elem? nodes i ≡ some node
      → climb fuel nodes node.parent ≡ some l
      → includes_from (suc fuel) nodes root node ≡ some (is_among root (node ∷ l))
  unfolding climb includes_from any
  includes_from-climb zero root i node l h k = elim (Option-cases node.parent) [
    | inl e ↦ ground arith
    | inr (p, e) ↦ absurd (ground arith)
  ]
  includes_from-climb (suc fuel) root i node l h k = elim (Option-cases node.parent) [
    | inl e ↦ ground arith
    | inr (p, e) ↦
        let (above, at, lt) = ranked.falls i node p h e in
        let (rest, up, split) = climb_first fuel p above l at (rw e at k) in
        let found = includes_from-climb fuel root p above rest at up in rw split (ground arith)
  ]

pub find_node_at :
    (c i : ℕ) (node : CategoryTreeNode) (tree : CategoryTree)
    → find_node c tree ≡ ok (i, node)
    → (lookup c tree.node_lookup ≡ some i) × (get_elem? tree.nodes i ≡ some node)
unfolding find_node
find_node_at c i node tree h =
    let (j, found, rest) =
      >>=-eq-ok (or_throw (lookup c tree.node_lookup) category_not_found) _ h in
    let (n, at, same) = >>=-eq-ok (or_throw (get_elem? tree.nodes j) category_not_found) _ rest in
    let at' = or_throw-eq-ok (get_elem? tree.nodes j) category_not_found at in
    let found' = or_throw-eq-ok (lookup c tree.node_lookup) category_not_found found in (cc, cc)

-- In a tree where every parent is of a lower rank than its children, the category's chain of
-- parents is found with fuel for its rank, and `subtreeIncludes`, with one more, says whether the
-- root of the subtree is the category itself or on that chain.
pub subtree_includes_ancestors :
    (rank : ℕ → ℕ) (fuel root c i j : ℕ) (top node : CategoryTreeNode) (tree : CategoryTree)
    → IsRanked rank tree.nodes
    → find_node root tree ≡ ok (i, top)
    → find_node c tree ≡ ok (j, node)
    → rank j ≤ fuel
    → (l : List CategoryTreeNode) × (get_ancestors fuel c tree ≡ ok (some (reverse l)))
      × (subtree_includes (suc fuel) root c tree ≡ ok (some (is_among top.category.id (node ∷ l))))
unfolding get_ancestors subtree_includes
subtree_includes_ancestors rank fuel root c i j top node tree ranked at_root at_c k =
    let at = (find_node_at c j node tree at_c).1 in
    let (l, up) = climb_total ranked fuel j node at k in
    (
      l,
      rw (at_c, up) refl,
      rw (at_root, at_c)
          (ap (λ o. ok o) (includes_from-climb ranked fuel top.category.id j node l at up)),
    )
