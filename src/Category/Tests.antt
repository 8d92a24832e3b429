-- ===== src/Category/Tests.antt =====
-- Tests of frontend/lib/model/Category.tsx, and the theorems at concrete inputs.
use prosper.Prelude.{
  ℕ, zero, suc, ◌<◌, ◌≤◌, ◌≡◌, ◌≢◌, refl, none, some, List, [], ◌∷◌, ◌++◌, map, reverse, arith,
  get_elem?, ok, err, parent_not_found,
}
use prosper.Prelude.Int.{pos}
use prosper.Category.{
  Category, CategoryTree, CategoryTreeNode, make_category_tree, find_node, get_ancestors, find_root,
  get_name_with_ancestors, subtree_includes, immediate_children, get_descendants, nodes_at,
}
use prosper.Category.Walk.{IsRanked, is_among, subtree_includes_ancestors}
use prosper.Category.Order.{sort_categories, sort_categories_returns}
use prosper.Category.Descendants.{get_descendants_overwrites}

abbrev food : Category
food = record { id = 10; name = "Food"; display_order = pos 1; parent_category_id = none }

abbrev groceries : Category
groceries = record {
  id = 20;
  name = "Groceries";
  display_order = pos 2;
  parent_category_id = some 10;
}

abbrev fruit : Category
fruit = record { id = 30; name = "Fruit"; display_order = pos 3; parent_category_id = some 20 }

abbrev family : List Category
family = fruit ∷ groceries ∷ food ∷ []

abbrev fruit_node : CategoryTreeNode
fruit_node = record { category = fruit; parent = some 1; children = [] }

abbrev groceries_node : CategoryTreeNode
groceries_node = record { category = groceries; parent = some 2; children = 0 ∷ [] }

abbrev food_node : CategoryTreeNode
food_node = record { category = food; parent = none; children = 1 ∷ [] }

abbrev family_tree : CategoryTree
family_tree = record {
  nodes = fruit_node ∷ groceries_node ∷ food_node ∷ [];
  tree = 2 ∷ [];
  node_lookup = (30, 0) ∷ (20, 1) ∷ (10, 2) ∷ [];
}

family_tree_made : make_category_tree family ≡ ok family_tree
unfolding make_category_tree
family_tree_made = refl

orphan_refused : make_category_tree (fruit ∷ []) ≡ err parent_not_found
unfolding make_category_tree
orphan_refused = refl

fruit_name : get_name_with_ancestors 3 30 family_tree ≡ ok (some "Food > Groceries > Fruit")
unfolding get_name_with_ancestors
fruit_name = refl

fruit_root : find_root 3 30 family_tree ≡ ok (some food)
unfolding find_root
fruit_root = refl

-- Before the call.
food_children : immediate_children 10 family_tree ≡ ok (groceries ∷ [])
unfolding immediate_children
food_children = refl

-- What `getDescendants` leaves.
abbrev family_tree_after : CategoryTree
family_tree_after = record family_tree {
  nodes = fruit_node ∷ groceries_node ∷ record food_node { children = 1 ∷ 0 ∷ [] } ∷ [];
}

food_descendants : get_descendants 9 10 family_tree ≡ ok (some (1 ∷ 0 ∷ [], family_tree_after))
unfolding get_descendants
food_descendants = refl

-- The grandchild is a child now.
food_children_after : immediate_children 10 family_tree_after ≡ ok (groceries ∷ fruit ∷ [])
unfolding immediate_children
food_children_after = refl

food_found : find_node 10 family_tree ≡ ok (2, food_node)
unfolding find_node
food_found = refl

fruit_found : find_node 30 family_tree ≡ ok (0, fruit_node)
unfolding find_node
fruit_found = refl

get_descendants_overwrites_example :
    (more : List ℕ) × (1 ∷ 0 ∷ [] ≡ food_node.children ++ more)
    × (immediate_children 10 family_tree_after
        ≡ ok (
            map
              (λ (n : CategoryTreeNode). n.category)
              (nodes_at family_tree_after.nodes (1 ∷ 0 ∷ []))))
    × ((j : ℕ) → j ≢ 2 → get_elem? family_tree_after.nodes j ≡ get_elem? family_tree.nodes j)
get_descendants_overwrites_example =
    get_descendants_overwrites 9 10 2 food_node family_tree family_tree_after (1 ∷ 0 ∷ [])
      food_found food_descendants

-- The height under the root.
abbrev rank : ℕ → ℕ
rank zero = 2
rank (suc zero) = 1
rank (suc (suc i)) = 0

family_tree-IsRanked : IsRanked rank family_tree.nodes
family_tree-IsRanked = record { falls = falls }
  where
    falls :
        (i : ℕ) (node : CategoryTreeNode) (p : ℕ)
        → get_elem? family_tree.nodes i ≡ some node
        → node.parent ≡ some p
        → (above : CategoryTreeNode) × (get_elem? family_tree.nodes p ≡ some above)
          × (rank p < rank i)
    falls zero node p h k = let e : 1 ≡ p = cc in rw (← e) (groceries_node, refl, omega arith)
    falls (suc zero) node p h k = let e : 2 ≡ p = cc in rw (← e) (food_node, refl, omega arith)
    falls (suc (suc zero)) node p h k = absurd (ground arith)
    falls (suc (suc (suc i))) node p h k = cc

subtree_includes_ancestors_example :
    (l : List CategoryTreeNode) × (get_ancestors 2 30 family_tree ≡ ok (some (reverse l)))
    × (subtree_includes 3 10 30 family_tree ≡ ok (some (is_among 10 (fruit_node ∷ l))))
subtree_includes_ancestors_example =
    subtree_includes_ancestors rank 2 10 30 2 0 food_node fruit_node family_tree
      family_tree-IsRanked food_found fruit_found (omega arith)

rank_bounded : (i : ℕ) → rank i ≤ 2
rank_bounded zero = omega arith
rank_bounded (suc zero) = omega arith
rank_bounded (suc (suc i)) = omega arith

sort_categories_returns_example :
    (sorted : List Category) × (sort_categories 3 family ≡ ok (some sorted))
sort_categories_returns_example =
    sort_categories_returns rank 2 family family_tree family_tree_made family_tree-IsRanked
      rank_bounded

parents_first : sort_categories 3 family ≡ ok (some (food ∷ groceries ∷ fruit ∷ []))
unfolding sort_categories
parents_first = refl
