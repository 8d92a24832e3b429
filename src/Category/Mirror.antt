-- ===== src/Category/Mirror.antt =====
-- `makeCategoryTree` of frontend/lib/model/Category.tsx as a whole.
use prosper.Prelude.{
  ℕ, zero, suc, ◌+◌, ◌≤◌, ◌<◌, ◌≡◌, ◌≢◌, refl, ap, ◌∙◌, subst, Option, none, some, List, [], ◌∷◌,
  map, arith, ◌==◌, nat_eq, if◌then◌else◌, get_elem?, length, All, any, ok, >>=-eq-ok,
}
use prosper.Prelude.Maps.{Assoc, lookup, insert, from_entries, lookup-insert}
use prosper.Category.{
  Category, CategoryTree, CategoryTreeNode, new_node, indexed_from, link_node, link_nodes,
  positions, make_category_tree, children_at,
}
use prosper.Category.Links.{parent_at, IsMirrored, target_of, link_node-Linked}

-- What the loop has done with the categories from position `k` on.
record Looped (m : Assoc ℕ ℕ) (k : ℕ) (rest : List Category) (nodes nodes' : List CategoryTreeNode)
    : Type 0 where
  mirrored : IsMirrored nodes'
  kept : (j : ℕ) → j < k → parent_at nodes' j ≡ parent_at nodes j
  parents :
      (i : ℕ) (c : Category) → get_elem? rest i ≡ some c → parent_at nodes' (k + i) ≡ target_of m c

other_parent : (k j : ℕ) (o o' : Option ℕ) → k ≢ j → (if k == j then o else o') ≡ o'
other_parent k j o o' h = ground arith

own_parent : (k : ℕ) (o o' : Option ℕ) → (if k == k then o else o') ≡ o
own_parent k o o' = ground arith

parents_from :
    (m : Assoc ℕ ℕ) (k : ℕ) (c : Category) (rest : List Category) (nodes : List CategoryTreeNode)
    → parent_at nodes k ≡ target_of m c
    → ((i : ℕ) (d : Category)
        → get_elem? rest i ≡ some d
        → parent_at nodes (suc k + i) ≡ target_of m d)
    → (i : ℕ) (d : Category) → get_elem? (c ∷ rest) i ≡ some d
    → parent_at nodes (k + i) ≡ target_of m d
parents_from m k c rest nodes first later zero d h =
    let same : c ≡ d = cc in ap (parent_at nodes) (k_zero k) ∙ first ∙ ap (target_of m) same
  where
    k_zero : (k : ℕ) → k + 0 ≡ k
    k_zero k = omega arith
parents_from m k c rest nodes first later (suc i) d h =
    ap (parent_at nodes) (k_suc k i) ∙ later i d h
  where
    k_suc : (k i : ℕ) → k + suc i ≡ suc k + i
    k_suc k i = omega arith

link_nodes-Looped :
    (m : Assoc ℕ ℕ) (k : ℕ) (rest : List Category) (nodes nodes' : List CategoryTreeNode)
    → ((id p : ℕ) → lookup id m ≡ some p → p < length nodes)
    → k + length rest ≡ length nodes
    → ((j : ℕ) → k ≤ j → parent_at nodes j ≡ none)
    → IsMirrored nodes
    → link_nodes m (indexed_from k rest) nodes ≡ ok nodes'
    → Looped m k rest nodes nodes'
unfolding link_nodes indexed_from
link_nodes-Looped m k [] nodes nodes' inside room fresh mirrored done =
    let same : nodes ≡ nodes' = cc in
    record {
      mirrored = rw (← same) mirrored;
      kept = λ j h. rw (← same) refl;
      parents = λ i c h. absurd (ground arith);
    }
link_nodes-Looped m k (c ∷ rest) nodes nodes' inside room fresh mirrored done =
    let (mid, first, later) = >>=-eq-ok (link_node m k c nodes) _ done in
    let l =
      link_node-Linked m k c nodes mid inside (omega arith) (fresh k (omega arith)) mirrored
        first in
    let r =
      link_nodes-Looped m (suc k) rest mid nodes' (λ id p h. rw l.same_length (inside id p h))
        (rw l.same_length (omega arith))
        (λ j h. l.parents j ∙ other_parent k j _ _ (omega arith) ∙ fresh j (omega arith)) l.mirrored
        later in
    record {
      mirrored = r.mirrored;
      kept = λ j h. r.kept j (omega arith) ∙ l.parents j ∙ other_parent k j _ _ (omega arith);
      parents =
          parents_from m k c rest nodes' (r.kept k (omega arith) ∙ l.parents k ∙ own_parent k _ _)
            r.parents;
    }

lookup-from_entries :
    (n : ℕ) (l : List (ℕ × ℕ)) (m : Assoc ℕ ℕ)
    → All (λ e. e.1 < n) l
    → ((id p : ℕ) → lookup id m ≡ some p → p < n)
    → (id p : ℕ) → lookup id (from_entries l m) ≡ some p
    → p < n
unfolding from_entries
lookup-from_entries n [] m h inside = inside
lookup-from_entries n ((key, v) ∷ l) m h inside =
    lookup-from_entries n l (insert key v m) h.1
      (λ id p e. ground (arith, lookup-insert key id v m, inside id p, h.0))

-- The entry of a category in the map of positions.
abbrev entry_of : ℕ × Category → ℕ × ℕ
entry_of e = (e.1.id, e.0)

All-indexed_from :
    (n k : ℕ) (cs : List Category)
    → k + length cs ≤ n
    → All (λ e. e.1 < n) (map entry_of (indexed_from k cs))
unfolding indexed_from
All-indexed_from n k [] h = tt
All-indexed_from n k (c ∷ cs) h = (omega arith, All-indexed_from n (suc k) cs (omega arith))

length-map-new_node : (cs : List Category) → length (map new_node cs) ≡ length cs
length-map-new_node [] = refl
length-map-new_node (c ∷ cs) = ap (λ n. suc n) (length-map-new_node cs)

parent_at-map-new_node : (cs : List Category) (j : ℕ) → parent_at (map new_node cs) j ≡ none
parent_at-map-new_node [] j = refl
parent_at-map-new_node (c ∷ cs) zero = refl
parent_at-map-new_node (c ∷ cs) (suc j) = parent_at-map-new_node cs j

children_at-map-new_node : (cs : List Category) (j : ℕ) → children_at (map new_node cs) j ≡ []
children_at-map-new_node [] j = refl
children_at-map-new_node (c ∷ cs) zero = refl
children_at-map-new_node (c ∷ cs) (suc j) = children_at-map-new_node cs j

pub make_category_tree_mirrors :
    (all : List Category) (tree : CategoryTree)
    → make_category_tree all ≡ ok tree
    → IsMirrored tree.nodes
      × ((i : ℕ) (c : Category)
          → get_elem? all i ≡ some c
          → parent_at tree.nodes i ≡ target_of tree.node_lookup c)
unfolding make_category_tree positions any
make_category_tree_mirrors all tree h =
    let (nodes, linked, made) =
      >>=-eq-ok (link_nodes (positions all) (indexed_from 0 all) (map new_node all)) _ h in
    let whole : nodes ≡ tree.nodes = cc in
    let keyed : positions all ≡ tree.node_lookup = cc in
    let inside =
      lookup-from_entries (length (map new_node all)) (map entry_of (indexed_from 0 all)) []
        (All-indexed_from (length (map new_node all)) 0 all
          (rw (length-map-new_node all) (omega arith)))
        (λ id p e. absurd (ground arith)) in
    let r =
      link_nodes-Looped (positions all) 0 all (map new_node all) nodes inside
        (rw (length-map-new_node all) (omega arith)) (λ j k. parent_at-map-new_node all j)
        (λ j p. rw (children_at-map-new_node all p, parent_at-map-new_node all j) refl) linked in
    (
      rw (← whole) r.mirrored,
      λ i c e.
          rw (← whole, ← keyed)
            (subst (λ n. parent_at nodes n ≡ target_of (positions all) c) (zero_plus i)
              (r.parents i c e)),
    )
  where
    zero_plus : (i : ℕ) → 0 + i ≡ i
    zero_plus i = omega arith
