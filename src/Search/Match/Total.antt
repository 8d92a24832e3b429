-- ===== src/Search/Match/Total.antt =====
-- When the tests of frontend/lib/search/matchers.tsx do not throw.
use prosper.Prelude.{
  ℕ, ◌≤◌, ◌≡◌, refl, String, Bool, false, Option, none, some, [], ◌∷◌, ◌++◌, map, reverse, any, All,
  Result, ok, ◌>>=◌,
}
use prosper.Model.BankAccount.{Bank, BankAccount, account_bank}
use prosper.Model.Tag.{Tag}
use prosper.Category.{
  CategoryTreeNode, find_node, get_ancestors, get_name_with_ancestors, join_names,
}
use prosper.Category.Walk.{IsRanked, climb_total, find_node_at}
use prosper.Transaction.{
  Transaction, personal_expense, third_party_expense, transfer, income, opening_balance,
}
use prosper.Transaction.Accessors.{
  transaction_bank_account, transaction_bank, transaction_tags, outgoing_bank_account,
  incoming_bank_account, outgoing_bank, incoming_bank,
}
use prosper.Search.{Term}
use prosper.Search.Match.{category_id_of, match_bank_id}
use prosper.Search.Match.Fields.{
  Runtime, includes, match_bank, match_bank_account, match_category, match_tag,
}
use prosper.Search.Match.Choice.{Lists, field_rows, match_any_field, match_field}
use prosper.Search.Match.Returns.{
  Returns, account_ids_of, bind-Returns, or_else-Returns, choose-Returns, outgoing_bank_account_lem,
  incoming_bank_account_lem, outgoing_bank_lem, incoming_bank_lem,
}

module _ (m : Lists) (rank : ℕ → ℕ) where
  -- An account and its bank are in the lists.
  abbrev pub HasBank : ℕ → Type 0
  HasBank id =
      (a : BankAccount) × (b : Bank) × (transaction_bank_account id m.bank_accounts ≡ ok a)
      × (account_bank a m.banks ≡ ok b)

  -- A category is in the tree, and the fuel is for its rank.
  abbrev pub HasNode : Option ℕ → Type 0
  HasNode none = Unit
  HasNode (some id) =
      (i : ℕ) × (node : CategoryTreeNode) × (find_node id m.category_tree ≡ ok (i, node))
      × (rank i ≤ m.fuel)

  -- What a transaction refers to is in the lists.
  pub record IsReferenced (t : Transaction) : Type 0 where
    pub accounts : All HasBank (account_ids_of t)
    pub category : HasNode (category_id_of t)
    pub tags : Returns (transaction_tags t m.tags)

  module _ (run : Runtime) where
    account-Returns :
        (id : ℕ) (f : BankAccount → Result Bool)
        → HasBank id
        → ((a : BankAccount) → Returns (f a))
        → Returns (transaction_bank_account id m.bank_accounts >>= f)
    account-Returns id f (a, _, e, _) h =
        bind-Returns (transaction_bank_account id m.bank_accounts) f (a, e) h

    has_bank : (id : ℕ) → HasBank id → Returns (transaction_bank id m.banks m.bank_accounts)
    unfolding transaction_bank
    has_bank id (a, b, e, d) = (b, rw (e, d) refl)

    bank-Returns :
        (id : ℕ) (f : Bank → Result Bool)
        → HasBank id
        → ((b : Bank) → Returns (f b))
        → Returns (transaction_bank id m.banks m.bank_accounts >>= f)
    bank-Returns id f k h =
        bind-Returns (transaction_bank id m.banks m.bank_accounts) f (has_bank id k) h

    match_bank-Returns :
        (t : Transaction) (term : Term)
        → All HasBank (account_ids_of t)
        → Returns (match_bank run t term m.banks m.bank_accounts)
    unfolding match_bank
    match_bank-Returns (personal_expense t) term h =
        bank-Returns t.account_id _ h.0 (λ b. (_, refl))
    match_bank-Returns (income t) term h = bank-Returns t.account_id _ h.0 (λ b. (_, refl))
    match_bank-Returns (opening_balance t) term h = bank-Returns t.account_id _ h.0 (λ b. (_, refl))
    match_bank-Returns (third_party_expense t) term h = (false, refl)
    match_bank-Returns (transfer t) term h =
        or_else-Returns _ _
          (bind-Returns (outgoing_bank t m.banks m.bank_accounts) _
            (rw (outgoing_bank_lem t m.banks m.bank_accounts) (has_bank t.from_account_id h.0))
            (λ b. (_, refl)))
          (bind-Returns (incoming_bank t m.banks m.bank_accounts) _
            (rw (incoming_bank_lem t m.banks m.bank_accounts) (has_bank t.to_account_id h.1.0))
            (λ b. (_, refl)))

    match_bank_account-Returns :
        (t : Transaction) (term : Term)
        → All HasBank (account_ids_of t)
        → Returns (match_bank_account run t term m.bank_accounts)
    unfolding match_bank_account
    match_bank_account-Returns (personal_expense t) term h =
        account-Returns t.account_id _ h.0 (λ a. (_, refl))
    match_bank_account-Returns (income t) term h =
        account-Returns t.account_id _ h.0 (λ a. (_, refl))
    match_bank_account-Returns (opening_balance t) term h =
        account-Returns t.account_id _ h.0 (λ a. (_, refl))
    match_bank_account-Returns (third_party_expense t) term h = (false, refl)
    match_bank_account-Returns (transfer t) term h =
        or_else-Returns _ _
          (bind-Returns (outgoing_bank_account t m.bank_accounts) _
            (rw (outgoing_bank_account_lem t m.bank_accounts) (h.0.0, h.0.2)) (λ a. (_, refl)))
          (bind-Returns (incoming_bank_account t m.bank_accounts) _
            (rw (incoming_bank_account_lem t m.bank_accounts) (h.1.0.0, h.1.0.2)) (λ a. (_, refl)))

    match_bank_id-Returns :
        (t : Transaction) (term : String)
        → All HasBank (account_ids_of t)
        → Returns (match_bank_id t term m.bank_accounts)
    unfolding match_bank_id
    match_bank_id-Returns (personal_expense t) term h =
        account-Returns t.account_id _ h.0 (λ a. (_, refl))
    match_bank_id-Returns (income t) term h = account-Returns t.account_id _ h.0 (λ a. (_, refl))
    match_bank_id-Returns (opening_balance t) term h =
        account-Returns t.account_id _ h.0 (λ a. (_, refl))
    match_bank_id-Returns (third_party_expense t) term h = (false, refl)
    match_bank_id-Returns (transfer t) term h =
        rw
          (outgoing_bank_account_lem t m.bank_accounts, incoming_bank_account_lem t m.bank_accounts)
          (account-Returns t.from_account_id _ h.0
            (λ a. account-Returns t.to_account_id _ h.1.0 (λ b. (_, refl))))

    name-Returns :
        IsRanked rank m.category_tree.nodes
        → (id i : ℕ) (node : CategoryTreeNode) → find_node id m.category_tree ≡ ok (i, node)
        → rank i ≤ m.fuel
        → (name : String) × (get_name_with_ancestors m.fuel id m.category_tree ≡ ok (some name))
    unfolding get_name_with_ancestors
    name-Returns ranked id i node e h =
        let (_, at) = find_node_at id i node m.category_tree e in
        let (l, climbed) = climb_total ranked m.fuel i node at h in
        (
          join_names (map (λ (a : CategoryTreeNode). a.category.name) (reverse l ++ node ∷ [])),
          rw (get_ancestors, e, climbed) refl,
        )

    match_category-Returns :
        IsRanked rank m.category_tree.nodes
        → (t : Transaction) (term : Term) → HasNode (category_id_of t)
        → Returns (match_category run t term m.fuel m.category_tree)
    unfolding match_category
    match_category-Returns ranked (opening_balance t) term h = (false, refl)
    match_category-Returns ranked (personal_expense t) term (i, node, e, k) =
        let (name, found) = name-Returns ranked t.category_id i node e k in
        (includes run name term, rw found refl)
    match_category-Returns ranked (third_party_expense t) term (i, node, e, k) =
        let (name, found) = name-Returns ranked t.category_id i node e k in
        (includes run name term, rw found refl)
    match_category-Returns ranked (transfer t) term (i, node, e, k) =
        let (name, found) = name-Returns ranked t.category_id i node e k in
        (includes run name term, rw found refl)
    match_category-Returns ranked (income t) term (i, node, e, k) =
        let (name, found) = name-Returns ranked t.category_id i node e k in
        (includes run name term, rw found refl)

    match_tag-Returns :
        (t : Transaction) (term : Term)
        → Returns (transaction_tags t m.tags)
        → Returns (match_tag run t term m.tags)
    unfolding match_tag
    match_tag-Returns t term (l, e) = (any (λ (tag : Tag). includes run tag.name term) l, rw e refl)

    module _ (ranked : IsRanked rank m.category_tree.nodes) where
      pub match_any_field-Returns :
          (t : Transaction) (term : Term) → IsReferenced t → Returns (match_any_field run m t term)
      unfolding match_any_field
      match_any_field-Returns t term r =
          or_else-Returns _ _ (_, refl)
            (or_else-Returns _ _ (match_bank-Returns t term r.accounts) (
              or_else-Returns _ _ (match_bank_account-Returns t term r.accounts) (
                or_else-Returns _ _ (match_category-Returns ranked t term r.category) (
                  or_else-Returns _ _ (_, refl)
                    (or_else-Returns _ _ (match_tag-Returns t term r.tags) (_, refl))))))

      field_rows-Return :
          (t : Transaction) (term : Term)
          → IsReferenced t
          → All (λ row. Returns row.1) (field_rows run m t term)
      unfolding field_rows
      field_rows-Return t term r = (
        (_, refl),
        (
          (_, refl),
          (
            (_, refl),
            (
              (_, refl),
              (
                (_, refl),
                (
                  (_, refl),
                  (
                    or_else-Returns _ _ (match_bank_id-Returns t term.text r.accounts)
                        (match_bank-Returns t term r.accounts),
                    (
                      or_else-Returns _ _ (_, refl) (match_bank_account-Returns t term r.accounts),
                      (
                        or_else-Returns _ _ (_, refl)
                            (match_category-Returns ranked t term r.category),
                        (
                          (_, refl),
                          (
                            or_else-Returns _ _ (_, refl) (match_tag-Returns t term r.tags),
                            ((_, refl), ((_, refl), tt)),
                          ),
                        ),
                      ),
                    ),
                  ),
                ),
              ),
            ),
          ),
        ),
      )

      pub match_field-Returns :
          (t : Transaction) (name : String) (term : Term)
          → IsReferenced t
          → Returns (match_field run m t name term)
      unfolding match_field
      match_field-Returns t name term r =
          choose-Returns run name (field_rows run m t term) (field_rows-Return t term r)
