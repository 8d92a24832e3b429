-- ===== src/Links/Refunds.antt =====
-- What the loop of frontend/lib/model/TransactionLink.tsx collects.
use prosper.Prelude.{
  ℕ, ◌≡◌, sym, ap, ◌∙◌, Option, none, some, List, [], ◌∷◌, ◌++◌, map, arith, ◌==◌, nat_eq,
  if◌then◌else◌, Bool-cases, inl, inr, ok, >>=-eq-ok, or_throw, or_throw-eq-ok, ok-injective,
  not_an_income, source_not_found, linked_not_found, not_third_party, not_personal, nat_beq_iff,
}
use mathlib.Core.List.{append-nil, append_assoc}
use prosper.Prelude.Maps.{Assoc, values, lookup, insert, from_entries, lookup-insert}
use prosper.Model.Ledger.{PbTransaction, PbTransactionLink, LinkType}
use prosper.Transaction.{Transaction, Income, id_of}
use prosper.Versions.{superseded_ids}
use prosper.Links.{
  Refund, as_third_party, as_personal, Found, as_income, find_source_and_linked, refund_for,
  add_refund, add_debt, add_by_type, is_skipped, add_link, add_links, by_id, TransactionLink,
  refund, debt_settling, transaction_link_model_from_db, nothing_found,
}

-- The incomes of a refund, none without one.
abbrev pub refund_list : Option Refund → List Income
refund_list none = []
refund_list (some r) = r.refunds

abbrev pub income_list : Option Transaction → List Income
income_list none = []
income_list (some t) = elim (as_income t) [ none ↦ [] | some i ↦ i ∷ [] ]

-- The incomes of a refund between two sides, for one source.
abbrev pub given : LinkType → ℕ → Option Transaction → ℕ → List Income
given LinkType.refund source linked s = if source == s then income_list linked else []
given _ source linked s = []

-- The incomes that a link gives back to a source.
pub returned : List ℕ → Assoc ℕ Transaction → ℕ → PbTransactionLink → List Income
returned superseded transactions source l =
    if is_skipped superseded l
    then []
    else given l.link_type l.source_transaction_id (lookup l.linked_transaction_id transactions)
        source

-- The incomes that links give back to a source, in the order of the links.
pub all_returned : List ℕ → Assoc ℕ Transaction → ℕ → List PbTransactionLink → List Income
unfolding returned
all_returned superseded transactions source [] = []
all_returned superseded transactions source (l ∷ links) =
    returned superseded transactions source l ++ all_returned superseded transactions source links

refund_for-list :
    (id : ℕ) (source : Transaction) (o : Option Refund) (r : Refund)
    → refund_for id source o ≡ ok r
    → r.refunds ≡ refund_list o
unfolding refund_for
refund_for-list id source none r h = ground arith
refund_for-list id source (some q) r h = cc

abbrev with_refund : Income → Refund → Refund
with_refund back r = record r { refunds = r.refunds ++ back ∷ [] }

income_list-found :
    (t : Transaction) (i : Income) → as_income t ≡ some i → income_list (some t) ≡ i ∷ []
income_list-found t i h = ground arith

with_refund-list :
    (k s : ℕ) (r : Refund) (back : Income) (m : Assoc ℕ Refund) (added : List Income)
    → added ≡ back ∷ []
    → r.refunds ≡ refund_list (lookup k m)
    → refund_list (lookup s (insert k (with_refund back r) m))
      ≡ refund_list (lookup s m) ++ (if k == s then added else [])
with_refund-list k s r back m added one before =
    rw (lookup-insert k s (with_refund back r) m, one)
      (elim (Bool-cases (k == s)) [
        | inl e ↦
            let at : k ≡ s = (nat_beq_iff k s).0 e in
            rw e (ap (λ l. l ++ back ∷ []) (before ∙ ap (λ j. refund_list (lookup j m)) at))
        | inr e ↦ rw e (sym (append-nil (refund_list (lookup s m))))
      ])

add_refund-list :
    (id : ℕ) (source linked : Transaction) (found found' : Found) (s : ℕ)
    → add_refund id source linked found ≡ ok found'
    → refund_list (lookup s found'.refunds)
      ≡ refund_list (lookup s found.refunds)
        ++ (if id_of source == s then income_list (some linked) else [])
unfolding add_refund
add_refund-list id source linked found found' s h =
    let (r, made, later) =
      >>=-eq-ok (refund_for id source (lookup (id_of source) found.refunds)) _ h in
    let (back, given, last) = >>=-eq-ok (or_throw (as_income linked) not_an_income) _ later in
    let before = refund_for-list id source (lookup (id_of source) found.refunds) r made in
    let some_back = or_throw-eq-ok (as_income linked) not_an_income given in
    let same : insert (id_of source) (with_refund back r) found.refunds ≡ found'.refunds = cc in
    rw (← same) (
      with_refund-list (id_of source) s r back found.refunds (income_list (some linked))
        (income_list-found linked back some_back) before)

add_debt-list :
    (id : ℕ) (source linked : Transaction) (found found' : Found)
    → add_debt id source linked found ≡ ok found'
    → found'.refunds ≡ found.refunds
unfolding add_debt
add_debt-list id source linked found found' h =
    let (expense, is_third, later) =
      >>=-eq-ok (or_throw (as_third_party source) not_third_party) _ h in
    let (repayment, is_own, last) =
      >>=-eq-ok (or_throw (as_personal linked) not_personal) _ later in
    cc

add_by_type-list :
    (type : LinkType) (id : ℕ) (source linked : Transaction) (found found' : Found) (s : ℕ)
    → add_by_type type id source linked found ≡ ok found'
    → refund_list (lookup s found'.refunds)
      ≡ refund_list (lookup s found.refunds) ++ given type (id_of source) (some linked) s
unfolding add_by_type
add_by_type-list LinkType.refund id source linked found found' s h =
    add_refund-list id source linked found found' s h
add_by_type-list LinkType.debt_settling id source linked found found' s h =
    rw (add_debt-list id source linked found found' h)
      (sym (append-nil (refund_list (lookup s found.refunds))))
add_by_type-list LinkType.unspecified id source linked found found' s h =
    let same : found ≡ found' = cc in
    rw (← same) (sym (append-nil (refund_list (lookup s found.refunds))))

-- A map of transactions by their own ids.
abbrev IsKeyed : Assoc ℕ Transaction → Type 0
IsKeyed m = (id : ℕ) (t : Transaction) → lookup id m ≡ some t → id_of t ≡ id

from_entries-IsKeyed :
    (all : List Transaction) (m : Assoc ℕ Transaction)
    → IsKeyed m
    → IsKeyed (from_entries (map (λ (t : Transaction). (id_of t, t)) all) m)
unfolding from_entries
from_entries-IsKeyed [] m h = h
from_entries-IsKeyed (t ∷ all) m h =
    from_entries-IsKeyed all (insert (id_of t) t m)
      (λ id u e. ground (arith, lookup-insert (id_of t) id t m, h id u))

pub by_id-IsKeyed : (all : List Transaction) → IsKeyed (by_id all)
unfolding by_id lookup
by_id-IsKeyed all = from_entries-IsKeyed all [] (λ id t e. absurd (ground arith))

find_sides :
    (l : PbTransactionLink) (m : Assoc ℕ Transaction) (source linked : Transaction)
    → find_source_and_linked l m ≡ ok (source, linked)
    → (lookup l.source_transaction_id m ≡ some source)
      × (lookup l.linked_transaction_id m ≡ some linked)
unfolding find_source_and_linked
find_sides l m source linked h =
    let (a, first, later) =
      >>=-eq-ok (or_throw (lookup l.source_transaction_id m) source_not_found) _ h in
    let (b, second, last) =
      >>=-eq-ok (or_throw (lookup l.linked_transaction_id m) linked_not_found) _ later in
    let first' = or_throw-eq-ok (lookup l.source_transaction_id m) source_not_found first in
    let second' = or_throw-eq-ok (lookup l.linked_transaction_id m) linked_not_found second in
    (cc, cc)

add_link-list :
    (superseded : List ℕ) (m : Assoc ℕ Transaction) (l : PbTransactionLink) (found found' : Found)
    (s : ℕ)
    → IsKeyed m
    → add_link superseded m l found ≡ ok found'
    → refund_list (lookup s found'.refunds)
      ≡ refund_list (lookup s found.refunds) ++ returned superseded m s l
unfolding add_link returned
add_link-list superseded m l found found' s keyed h = elim (Bool-cases (is_skipped superseded l)) [
  | inl e ↦
      let same : found ≡ found' = ok-injective (rw e at h) in
      rw (e, ← same) (sym (append-nil (refund_list (lookup s found.refunds))))
  | inr e ↦
      let ((source, linked), sides, added) = >>=-eq-ok (find_source_and_linked l m) _ (rw e at h) in
      let (at, to) = find_sides l m source linked sides in
      rw (e, to, ← keyed l.source_transaction_id source at)
        (add_by_type-list l.link_type l.id source linked found found' s added)
]

add_links-list :
    (superseded : List ℕ) (m : Assoc ℕ Transaction) (links : List PbTransactionLink)
    (found found' : Found) (s : ℕ)
    → IsKeyed m
    → add_links superseded m links found ≡ ok found'
    → refund_list (lookup s found'.refunds)
      ≡ refund_list (lookup s found.refunds) ++ all_returned superseded m s links
unfolding add_links all_returned
add_links-list superseded m [] found found' s keyed h =
    let same : found ≡ found' = cc in
    rw (← same) (sym (append-nil (refund_list (lookup s found.refunds))))
add_links-list superseded m (l ∷ links) found found' s keyed h =
    let (mid, first, later) = >>=-eq-ok (add_link superseded m l found) _ h in
    add_links-list superseded m links mid found' s keyed later
    ∙ ap (λ r. r ++ all_returned superseded m s links)
        (add_link-list superseded m l found mid s keyed first)
    ∙ append_assoc (refund_list (lookup s found.refunds)) (returned superseded m s l)
        (all_returned superseded m s links)

-- When the links can be converted, the refund of a transaction holds the incomes of its refund
-- links, in their order, but for the links that have a superseded transaction on either side.
pub transaction_link_model_refunds :
    (links : List PbTransactionLink) (all : List Transaction) (versions : List PbTransaction)
    (result : List TransactionLink)
    → transaction_link_model_from_db links all versions ≡ ok result
    → (found : Found) × (result
        ≡ map (λ r. refund r) (values found.refunds)
          ++ map (λ d. debt_settling d) (values found.debts))
      × ((source : ℕ)
          → refund_list (lookup source found.refunds)
            ≡ all_returned (superseded_ids versions) (by_id all) source links)
unfolding transaction_link_model_from_db
transaction_link_model_refunds links all versions result h =
    let (found, added, last) =
      >>=-eq-ok (add_links (superseded_ids versions) (by_id all) links nothing_found) _ h in
    (
      found,
      sym (ok-injective last),
      λ source.
          add_links-list (superseded_ids versions) (by_id all) links nothing_found found source
            (by_id-IsKeyed all) added,
    )
