-- ===== src/Category/Descendants.antt =====
-- `getDescendants` of frontend/lib/model/Category.tsx: what it returns and what it leaves behind.
use mathlib.Core.List.{append_assoc, append-nil}
use prosper.Prelude.{
  ℕ, zero, suc, ◌≡◌, ◌≢◌, refl, sym, ap, ◌∙◌, Option, some, List, [], ◌∷◌, ◌++◌, map, reverse,
  arith, get_elem?, Option-cases, inl, inr, ok,
}
use prosper.Category.{
  CategoryTree, CategoryTreeNode, find_node, update_at, with_children, children_at, nodes_at,
  descend, get_descendants, immediate_children,
}
use prosper.Category.Walk.{find_node_at}

module _ {ℓ} {A : Type ℓ} (f : A → A) where
  pub get_elem?-update_at_same :
      (i : ℕ) (x : A) (xs : List A)
      → get_elem? xs i ≡ some x
      → get_elem? (update_at i f xs) i ≡ some (f x)
  unfolding update_at
  get_elem?-update_at_same i x [] h = cc
  get_elem?-update_at_same zero x (y ∷ xs) h = cc
  get_elem?-update_at_same (suc i) x (y ∷ xs) h = get_elem?-update_at_same i x xs h

  pub get_elem?-update_at_other :
      (i j : ℕ) (xs : List A) → j ≢ i → get_elem? (update_at i f xs) j ≡ get_elem? xs j
  unfolding update_at
  get_elem?-update_at_other i j [] h = refl
  get_elem?-update_at_other zero zero (y ∷ xs) h = absurd (h refl)
  get_elem?-update_at_other zero (suc j) (y ∷ xs) h = refl
  get_elem?-update_at_other (suc i) zero (y ∷ xs) h = refl
  get_elem?-update_at_other (suc i) (suc j) (y ∷ xs) h =
      get_elem?-update_at_other i j xs (λ e. h (ap (λ n. suc n) e))

abbrev with_list : CategoryTreeNode → List ℕ → Option CategoryTreeNode
with_list node cs = some (record node { children = cs })

-- The loop adds to the children of the target and leaves every other node.
pub descend_only :
    (fuel target : ℕ) (frontier : List ℕ) (node : CategoryTreeNode)
    (nodes nodes' : List CategoryTreeNode)
    → get_elem? nodes target ≡ some node
    → descend fuel target frontier nodes ≡ some nodes'
    → (more : List ℕ) × (get_elem? nodes' target ≡ some (with_children more node))
      × ((j : ℕ) → j ≢ target → get_elem? nodes' j ≡ get_elem? nodes j)
unfolding descend
descend_only fuel target [] node nodes nodes' at h =
    let same : nodes ≡ nodes' = cc in
    (
      [],
      rw (← same) (at ∙ ap (with_list node) (sym (append-nil node.children))),
      λ j e. rw (← same) refl,
    )
descend_only zero target (next ∷ frontier) node nodes nodes' at h = cc
descend_only (suc fuel) target (next ∷ frontier) node nodes nodes' at h =
    let added = children_at nodes next in
    let (more, grown, others) =
      descend_only fuel target (reverse added ++ frontier) (with_children added node) _ nodes'
        (get_elem?-update_at_same (with_children added) target node nodes at) h in
    (
      added ++ more,
      grown ∙ ap (with_list node) (append_assoc node.children added more),
      λ j e. others j e ∙ get_elem?-update_at_other (with_children added) target j nodes e,
    )

children_at-found :
    (nodes : List CategoryTreeNode) (i : ℕ) (node : CategoryTreeNode)
    → get_elem? nodes i ≡ some node
    → children_at nodes i ≡ node.children
children_at-found nodes i node at = ground arith

-- A call of `getDescendants` that returns leaves its answer as the children of the category: from
-- then on `immediateChildren` gives all that it returned, the direct children first. The other
-- nodes are as before.
pub get_descendants_overwrites :
    (fuel c i : ℕ) (node : CategoryTreeNode) (tree tree' : CategoryTree) (descendants : List ℕ)
    → find_node c tree ≡ ok (i, node)
    → get_descendants fuel c tree ≡ ok (some (descendants, tree'))
    → (more : List ℕ) × (descendants ≡ node.children ++ more)
      × (immediate_children c tree'
          ≡ ok (map (λ (n : CategoryTreeNode). n.category) (nodes_at tree'.nodes descendants)))
      × ((j : ℕ) → j ≢ i → get_elem? tree'.nodes j ≡ get_elem? tree.nodes j)
unfolding get_descendants immediate_children find_node
get_descendants_overwrites fuel c i node tree tree' descendants at h =
    let (key, here) = find_node_at c i node tree at in
    elim (Option-cases (descend fuel i (reverse node.children) tree.nodes)) [
      | inl e ↦ absurd (let h' = rw (at, e) at h in ground arith)
      | inr (nodes', e) ↦
          let (more, grown, others) =
            descend_only fuel i (reverse node.children) node tree.nodes nodes' here e in
          let h' = rw (at, e) at h in
          let all : children_at nodes' i ≡ descendants = cc in
          let left : record tree { nodes = nodes' } ≡ tree' = cc in
          let whole : descendants ≡ node.children ++ more =
            sym all ∙ children_at-found nodes' i (with_children more node) grown in
          (more, whole, rw (← left, key, grown, whole) refl, λ j k. rw (← left) (others j k))
    ]
