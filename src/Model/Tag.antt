-- ===== src/Model/Tag.antt =====
-- frontend/lib/model/Tag.tsx and frontend/lib/model/Trip.tsx.
use prosper.Prelude.{
  ℕ, String, Option, none, some, List, Result, ok, or_throw, ◌>>=◌, find, ◌==◌, nat_eq,
  tag_not_found,
}
use prosper.Prelude.Int.{ℤ}
use prosper.Model.Ledger.{PbTag, PbTrip, Timestamp, timestamp_to_epoch}

pub record Tag : Type 0 where
  pub id : ℕ
  pub name : String

unfoldable pub tag_model_from_db : PbTag → Tag
tag_model_from_db init = record { id = init.id; name = init.name }

unfoldable pub must_find_tag : ℕ → List Tag → Result Tag
unfolding find
must_find_tag id tags = or_throw (find (λ (t : Tag). t.id == id) tags) tag_not_found

pub record Trip : Type 0 where
  pub id : ℕ
  pub name : String
  pub destination : Option String
  pub start_epoch : Option ℤ
  pub end_epoch : Option ℤ

-- `t ? timestampToEpoch(t) : null`
epoch_or_null : Option Timestamp → Result (Option ℤ)
unfolding timestamp_to_epoch
epoch_or_null none = ok none
epoch_or_null (some ts) = do epoch ← timestamp_to_epoch (some ts); ok (some epoch)

unfoldable pub trip_model_from_db : PbTrip → Result Trip
unfolding epoch_or_null
trip_model_from_db init = do
  start ← epoch_or_null init.start
  end_ ← epoch_or_null init.end_
  ok (record {
    id = init.id;
    name = init.name;
    destination = init.destination;
    start_epoch = start;
    end_epoch = end_;
  })
