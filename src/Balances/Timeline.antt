-- ===== src/Balances/Timeline.antt =====
-- `netWorthTimeline` of frontend/lib/model/balances.ts.
use mathlib.Core.Path.{fun_ext}
use prosper.Prelude.{
  ℕ, ◌≡◌, refl, ◌∙◌, ap, Option, none, some, List, [], ◌∷◌, ◌++◌, Result, ok, ◌>>=◌, >>=_congr, sym,
}
use prosper.Prelude.Int.{ℤ, ◌≤ℤ◌}
use prosper.Model.Currency.{Currency}
use prosper.Model.Stock.{Stock}
use prosper.Model.BankAccount.{BankAccount}
use prosper.Transaction.{Transaction}
use prosper.Money.Currency as Money_currency
use prosper.Money.Currency.{AmountWithCurrency}
use prosper.Market.{Exchange}
use prosper.Util.Spacing.{evenly_spaced_numbers}
use prosper.Util.Spacing.Order.{Climbs, IsWhole, evenly_spaced_numbers_climb}
use prosper.Balances.{
  get_or_zero, BalanceSweep, Snapshot, balance_of, account_value, sum_values, snapshot_sum,
  new_balance_sweep, advance_to, balances_as_of,
}
use prosper.Balances.Snapshots.{
  IsTracking, advance_to-Advanced, new_balance_sweep-IsTracking, IsNondecreasing,
}

pub record Point : Type 0 where
  pub timestamp : ℤ
  pub amount : AmountWithCurrency

abbrev push_point : ℤ → Option AmountWithCurrency → List Point → List Point
push_point t none points = points
push_point t (some total) points = points ++ record { timestamp = t; amount = total } ∷ []

module _ (closest_to : ℤ → List ℤ → Option ℤ) (accounts : List BankAccount) (target : Currency)
    (x : Exchange) where
  -- The loop over the sample dates.
  points_from : List ℤ → BalanceSweep → List Point → Result (List Point)
  unfolding advance_to snapshot_sum
  points_from [] sweep points = ok points
  points_from (t ∷ samples) sweep points = do
    (snapshot, sweep') ← advance_to t sweep
    total ← snapshot_sum closest_to snapshot accounts target x
    points_from samples sweep' (push_point t total points)

  unfoldable pub net_worth_timeline :
      List Transaction → List Stock → ℤ → ℤ → ℕ → Result (List Point)
  unfolding points_from new_balance_sweep evenly_spaced_numbers
  net_worth_timeline transactions stocks start end sample_count = do
    samples ← evenly_spaced_numbers start end sample_count
    points_from samples (new_balance_sweep transactions stocks) []

  -- The same points, each from a sweep of its own.
  pub fresh_points : List Transaction → List Stock → List ℤ → List Point → Result (List Point)
  fresh_points ts stocks [] points = ok points
  fresh_points ts stocks (t ∷ samples) points = do
    snapshot ← balances_as_of ts stocks t
    total ← snapshot_sum closest_to snapshot accounts target x
    fresh_points ts stocks samples (push_point t total points)

  -- The value of an account depends on the balances alone.
  account_value_congr :
      (a b : Snapshot) (account : BankAccount)
      → a.as_of ≡ b.as_of
      → a.stocks ≡ b.stocks
      → ((n : ℕ) → get_or_zero n a.nanos ≡ get_or_zero n b.nanos)
      → account_value closest_to target x a account ≡ account_value closest_to target x b account
  unfolding account_value balance_of
  account_value_congr a b account t s n = rw (t, s, n account.id)

  snapshot_sum_congr :
      (a b : Snapshot)
      → a.as_of ≡ b.as_of
      → a.stocks ≡ b.stocks
      → ((n : ℕ) → get_or_zero n a.nanos ≡ get_or_zero n b.nanos)
      → snapshot_sum closest_to a accounts target x ≡ snapshot_sum closest_to b accounts target x
  unfolding snapshot_sum
  snapshot_sum_congr a b t s n =
      ap (λ v. sum_values v accounts (Money_currency.zero target))
        (fun_ext λ account. account_value_congr a b account t s n)

  points_from-eq-fresh_points :
      (ts : List Transaction) (stocks : List Stock) (samples : List ℤ) (sweep : BalanceSweep)
      (points : List Point)
      → IsTracking ts sweep
      → sweep.stocks ≡ stocks
      → IsNondecreasing sweep.last_as_of samples
      → points_from samples sweep points ≡ fresh_points ts stocks samples points
  unfolding points_from fresh_points balances_as_of
  points_from-eq-fresh_points ts stocks [] sweep points k same h = refl
  points_from-eq-fresh_points ts stocks (t ∷ samples) sweep points k same h =
      let d = advance_to-Advanced ts t sweep k h.0 in
      let f =
        advance_to-Advanced ts t (new_balance_sweep ts stocks)
          (new_balance_sweep-IsTracking ts stocks) tt in
      let sums =
        snapshot_sum_congr d.snapshot f.snapshot (d.balances.instant ∙ sym f.balances.instant)
          (d.stocks ∙ (same ∙ sym f.stocks)) (λ a. d.balances.shows a ∙ sym (f.balances.shows a)) in
      rw (d.returns, f.returns)
        (>>=_congr sums λ total.
          points_from-eq-fresh_points ts stocks samples d.sweep (push_point t total points)
            d.tracking (d.same_stocks ∙ same) (rw d.last h.1))

  climbing :
      (last end : ℤ) (samples : List ℤ)
      → Climbs last end samples
      → IsNondecreasing (some last) samples
  climbing last end [] h = tt
  climbing last end (t ∷ samples) h = (h.0, climbing t end samples h.1)

  climbing_first :
      (start end : ℤ) (samples : List ℤ) → Climbs start end samples → IsNondecreasing none samples
  climbing_first start end [] h = tt
  climbing_first start end (t ∷ samples) h = (tt, climbing t end samples h.1)

  -- On a range of whole milliseconds that does not run backwards the timeline has, at each of the
  -- evenly spaced dates, the net worth that a sweep of its own gives at that date, and no date is
  -- refused; a date with a balance that cannot be converted is left out by both.
  pub net_worth_timeline_fresh :
      (ts : List Transaction) (stocks : List Stock) (start end : ℤ) (count : ℕ)
      → IsWhole start
      → IsWhole end
      → start ≤ℤ end
      → (samples : List ℤ) × (evenly_spaced_numbers start end count ≡ ok samples)
        × Climbs start end samples
        × (net_worth_timeline ts stocks start end count ≡ fresh_points ts stocks samples [])
  unfolding net_worth_timeline new_balance_sweep
  net_worth_timeline_fresh ts stocks start end count ws we range =
      let (samples, spaced, climbs, size) =
        evenly_spaced_numbers_climb start end count ws we range in
      (
        samples,
        spaced,
        climbs,
        rw spaced (
            points_from-eq-fresh_points ts stocks samples (new_balance_sweep ts stocks) []
              (new_balance_sweep-IsTracking ts stocks) refl
              (climbing_first start end samples climbs)),
      )
