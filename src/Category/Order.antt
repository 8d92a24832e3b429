-- ===== src/Category/Order.antt =====
-- `sortCategories` of frontend/lib/model/Category.tsx and the comparator of
-- frontend/lib/util/util.ts that it uses.
use prosper.Prelude.{
  ℕ, zero, suc, ◌+◌, ◌≤◌, ◌<◌, ◌≡◌, refl, sym, ap, ◌∙◌, subst, nat_beq_iff, true, Bool, Option,
  none, some, List, [], ◌∷◌, ◌++◌, arith, ◌==◌, nat_eq, if◌then◌else◌, leb, get_elem?, any, All,
  inl, inr, Option-cases, Result, ok, ◌>>=◌,
}
use prosper.Prelude.Int.{leb_ℤ, int_eq}
use prosper.Prelude.Sort.{sort, sort-All}
use prosper.Category.{
  Category, CategoryTree, CategoryTreeNode, make_category_tree, nodes_at, children_at,
}
use prosper.Category.Walk.{IsRanked}
use prosper.Category.Links.{IsMirrored, parent_at, is_in, points_to}
use prosper.Category.Mirror.{make_category_tree_mirrors}

-- `byDisplayOrderThenId` on the categories of two nodes.
unfoldable pub by_display_order_then_id : CategoryTreeNode → CategoryTreeNode → Bool
by_display_order_then_id a b =
    if a.category.display_order == b.category.display_order
    then leb a.category.id b.category.id
    else leb_ℤ a.category.display_order b.category.display_order

-- The `forEach`: each category, and after it those that the visit of its children gives.
unfoldable pub for_each :
    (List ℕ → Option (List Category)) → List CategoryTreeNode → Option (List Category)
for_each visit [] = some []
for_each visit (c ∷ rest) =
    let more = for_each visit rest in
    elim (visit c.children) [
      | none ↦ none
      | some below ↦ elim more [ none ↦ none | some l ↦ some (c.category ∷ below ++ l) ]
    ]

-- The recursion on fuel; without enough of it the answer is `none`.
unfoldable pub in_order_tree_traversal : ℕ → List CategoryTreeNode → List ℕ → Option (List Category)
unfolding for_each sort by_display_order_then_id
in_order_tree_traversal fuel nodes [] = some []
in_order_tree_traversal zero nodes (i ∷ subtree) = none
in_order_tree_traversal (suc fuel) nodes (i ∷ subtree) =
    for_each (in_order_tree_traversal fuel nodes)
      (sort by_display_order_then_id (nodes_at nodes (i ∷ subtree)))

unfoldable pub sort_categories : ℕ → List Category → Result (Option (List Category))
unfolding in_order_tree_traversal make_category_tree
sort_categories fuel categories = do
  tree ← make_category_tree categories
  ok (in_order_tree_traversal fuel tree.nodes tree.tree)

for_each_total :
    (visit : List ℕ → Option (List Category)) (l : List CategoryTreeNode)
    → All (λ c. (below : List Category) × (visit c.children ≡ some below)) l
    → (out : List Category) × (for_each visit l ≡ some out)
unfolding for_each
for_each_total visit [] h = ([], refl)
for_each_total visit (c ∷ rest) h =
    let (below, e) = h.0 in
    let (l, f) = for_each_total visit rest h.1 in (c.category ∷ below ++ l, ground (arith, e, f))

All-is_in : (P : ℕ → Type 0) (l : List ℕ) → ((j : ℕ) → is_in j l ≡ true → P j) → All P l
unfolding any
All-is_in P [] h = tt
All-is_in P (i ∷ l) h = (h i (ground arith), All-is_in P l (λ j e. h j (ground arith)))

All-weaken {ℓ} :
    {A : Type ℓ} (P Q : A → Type 0) (l : List A) → ((a : A) → P a → Q a) → All P l → All Q l
All-weaken P Q [] f h = tt
All-weaken P Q (a ∷ l) f h = (f a h.0, All-weaken P Q l f h.1)

points_to_same : (i : ℕ) (o : Option ℕ) → points_to i o ≡ true → o ≡ some i
points_to_same i none h = cc
points_to_same i (some q) h = ap some ((nat_beq_iff q i).0 h)

module _ (nodes : List CategoryTreeNode) (i : ℕ) (node : CategoryTreeNode)
    (at : get_elem? nodes i ≡ some node) where
  parent_at_found : parent_at nodes i ≡ node.parent
  parent_at_found = rw (at, parent_at) refl

  children_at_found : children_at nodes i ≡ node.children
  children_at_found = rw (at, children_at) refl

  nodes_at_found : (l : List ℕ) → nodes_at nodes (i ∷ l) ≡ node ∷ nodes_at nodes l
  nodes_at_found l = rw (at, nodes_at) refl

nodes_at_missing :
    (nodes : List CategoryTreeNode) (i : ℕ) (l : List ℕ)
    → get_elem? nodes i ≡ none
    → nodes_at nodes (i ∷ l) ≡ nodes_at nodes l
nodes_at_missing nodes i l e = rw (e, nodes_at) refl

parent_found :
    (nodes : List CategoryTreeNode) (i j : ℕ)
    → points_to i (parent_at nodes j) ≡ true
    → (node : CategoryTreeNode) × (get_elem? nodes j ≡ some node) × (node.parent ≡ some i)
parent_found nodes i j h = elim (Option-cases (get_elem? nodes j)) [
  | inl e ↦ absurd (ground arith)
  | inr (node, e) ↦ (
    node,
    e,
    points_to_same i node.parent
        (subst (λ o. points_to i o ≡ true) (parent_at_found nodes j node e) h),
  )
]

module _ {rank : ℕ → ℕ} {nodes : List CategoryTreeNode} (ranked : IsRanked rank nodes)
    (mirrored : IsMirrored nodes) where
  -- A child is of a higher rank.
  child_above : (i j : ℕ) → is_in j (children_at nodes i) ≡ true → rank i < rank j
  child_above i j h =
      let (node, at, parent) = parent_found nodes i j (sym (mirrored j i) ∙ h) in
      let (above, _, falls) = ranked.falls j node i at parent in falls

  -- The fuel left covers the ranks up to the bound.
  abbrev Covers : ℕ → ℕ → List ℕ → Type 0
  Covers bound fuel l = All (λ i. bound < rank i + fuel) l

  nodes_at-Covers :
      (bound fuel : ℕ) (l : List ℕ)
      → Covers bound (suc fuel) l
      → All (λ c. Covers bound fuel c.children) (nodes_at nodes l)
  nodes_at-Covers bound fuel [] h = tt
  nodes_at-Covers bound fuel (i ∷ l) h = elim (Option-cases (get_elem? nodes i)) [
    | inl e ↦
        subst (All (λ c. Covers bound fuel c.children)) (sym (nodes_at_missing nodes i l e))
          (nodes_at-Covers bound fuel l h.1)
    | inr (node, e) ↦
        subst (All (λ c. Covers bound fuel c.children)) (sym (nodes_at_found nodes i node e l)) (
          All-is_in (λ j. bound < rank j + fuel) node.children
              (λ j k.
                let above =
                  child_above i j
                    (subst (λ is. is_in j is ≡ true) (sym (children_at_found nodes i node e)) k) in
                omega (arith, above, h.0)),
          nodes_at-Covers bound fuel l h.1,
        )
  ]

  traversal_total :
      (bound fuel : ℕ) (l : List ℕ)
      → ((i : ℕ) → rank i ≤ bound)
      → Covers bound fuel l
      → (out : List Category) × (in_order_tree_traversal fuel nodes l ≡ some out)
  unfolding in_order_tree_traversal
  traversal_total bound fuel [] top h = ([], refl)
  traversal_total bound zero (i ∷ l) top h = absurd (omega (arith, top i, h.0))
  traversal_total bound (suc fuel) (i ∷ l) top h =
      for_each_total (in_order_tree_traversal fuel nodes)
        (sort by_display_order_then_id (nodes_at nodes (i ∷ l)))
        (sort-All by_display_order_then_id _ (nodes_at nodes (i ∷ l)) (
          All-weaken _ _ (nodes_at nodes (i ∷ l))
            (λ n k. traversal_total bound fuel n.children top k)
            (nodes_at-Covers bound fuel (i ∷ l) h)))

-- In a tree where every parent is of a lower rank than its children, and no rank is above a bound,
-- fuel for the bound and one more is enough to sort the categories.
pub sort_categories_returns :
    (rank : ℕ → ℕ) (bound : ℕ) (categories : List Category) (tree : CategoryTree)
    → make_category_tree categories ≡ ok tree
    → IsRanked rank tree.nodes
    → ((i : ℕ) → rank i ≤ bound)
    → (sorted : List Category) × (sort_categories (suc bound) categories ≡ ok (some sorted))
unfolding sort_categories
sort_categories_returns rank bound categories tree made ranked top =
    let mirrored = (make_category_tree_mirrors categories tree made).0 in
    let (sorted, e) =
      traversal_total ranked mirrored bound (suc bound) tree.tree top (enough tree.tree) in
    (sorted, rw (made, e) refl)
  where
    enough : (l : List ℕ) → All (λ i. bound < rank i + suc bound) l
    enough [] = tt
    enough (i ∷ l) = (omega arith, enough l)
