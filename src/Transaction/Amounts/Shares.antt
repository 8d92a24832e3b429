-- ===== src/Transaction/Amounts/Shares.antt =====
-- The amounts of frontend/lib/model/transaction/amounts.tsx in the display currency.
use prosper.Prelude.{◌≡◌, refl, Option, List, ◌>>=◌, Result-cases, inl, inr}
use prosper.Prelude.Int.{ℤ, ◌+ℤ◌, pos, int_laws, sum, sum_from-eq-sum}
use prosper.Model.Currency.{Currency}
use prosper.Model.Stock.{Stock}
use prosper.Model.Unit.{MoneyUnit, stock, currency}
use prosper.Model.BankAccount.{BankAccount}
use prosper.Money.{Amount}
use prosper.Money.Unit.{with_unit}
use prosper.Market.{Exchange, exchange}
use prosper.Transaction.{ExpenseOrIncome}
use prosper.Transaction.Accessors.{transaction_unit}
use prosper.Transaction.Amounts.{
  amount_of, time_of, shares_of, own_share_amount_nanos_ignore_refunds, paid_total,
  own_share_amount_ignore_refunds, convert_by_unit, amount_all_parties, amount_own_share,
}

own_share_whole :
    (t : ExpenseOrIncome)
    → own_share_amount_nanos_ignore_refunds t +ℤ sum (shares_of t) ≡ amount_of t
unfolding own_share_amount_nanos_ignore_refunds
own_share_whole t = rw (sum_from-eq-sum (pos 0) (shares_of t)) (omega int_laws)

module _ (closest_to : ℤ → List ℤ → Option ℤ) where
  convert_by_unit-exchange :
      (x : Exchange) (unit : MoneyUnit) (a : Amount) (target : Currency) (when : ℤ)
      → convert_by_unit closest_to x unit a target when
        ≡ exchange closest_to x (with_unit a unit) target when
  unfolding convert_by_unit exchange
  convert_by_unit-exchange x (currency c) a target when = refl
  convert_by_unit-exchange x (stock s) a target when = refl

  -- The own share and the total in the display currency are what the exchange makes, at the time of
  -- the transaction, of the amounts in the transaction's own unit; these differ by the shares of
  -- the companions.
  pub amount_own_share_exchange :
      (t : ExpenseOrIncome) (target : Currency) (bank_accounts : List BankAccount)
      (stocks : List Stock) (x : Exchange)
      → (amount_own_share closest_to t target bank_accounts stocks x ≡ (
          own_share_amount_ignore_refunds t bank_accounts stocks >>= λ a.
          exchange closest_to x a target (time_of t)))
        × (amount_all_parties closest_to t target bank_accounts stocks x ≡ (
            paid_total t bank_accounts stocks >>= λ a. exchange closest_to x a target (time_of t)))
        × (own_share_amount_nanos_ignore_refunds t +ℤ sum (shares_of t) ≡ amount_of t)
  unfolding amount_own_share amount_all_parties own_share_amount_ignore_refunds paid_total
      own_share_amount_nanos_ignore_refunds
  amount_own_share_exchange t target bank_accounts stocks x =
      elim (Result-cases (transaction_unit t bank_accounts stocks)) [
        | inl (e, fails) ↦ (rw fails refl, rw fails refl, own_share_whole t)
        | inr (unit, found) ↦ (
          rw found (convert_by_unit-exchange x unit _ target (time_of t)),
          rw found (convert_by_unit-exchange x unit _ target (time_of t)),
          own_share_whole t,
        )
      ]
