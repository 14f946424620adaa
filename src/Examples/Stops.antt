-- ===== src/Examples/Stops.antt =====
-- Runs of the stop book at concrete inputs.
use rustbook.Prelude.{ℕ, ◌≡◌, refl, pos, none, some}
use rustbook.Prelude.HashMap
use rustbook.Types.{sell, gtc}
use rustbook.Stop.{StopOrder, StopBook, pending, fixed, new_stop_book, insert}
use rustbook.Stop.Trailing.{update_trailing_stops}
use rustbook.Stop.Tightening.{IsTighter, update_trailing_stops-IsTighter}
use rustbook.Stop.Trigger.{collect_triggered}
use rustbook.Stop.Indexed.{IsIndexed}
use rustbook.Stop.Indexing.{new_stop_book-IsIndexed, insert-IsIndexed}
use rustbook.Stop.Session
use rustbook.Stop.Session.{Reached, started, called, inserting, Reached-IsIndexed}
use rustbook.Stop.Collecting.{Collected, collect_triggered-Collected}
use rustbook.Examples.{plain}

-- A stop that sells at 95, and follows the price by 5.
abbrev trailing : StopOrder ℕ
trailing = record {
  id = 1;
  side = sell;
  stop_price = pos 95;
  limit_price = none;
  quantity = 10;
  time_in_force = gtc;
  timestamp = 1;
  status = pending;
  trail_method = some (fixed (pos 5));
  watermark = some (pos 100);
}

abbrev stops : StopBook ℕ
stops = insert new_stop_book trailing

-- A session that places the stop and sees a trade at 120.
followed : Reached plain (update_trailing_stops plain stops (pos 120))
unfolding new_stop_book HashMap.get
followed =
    called {b = stops}
      (called {b = new_stop_book} started (inserting {b = new_stop_book} trailing refl refl))
      (Session.trailing {b = stops} (pos 120))

Reached-IsIndexed_example : IsIndexed (update_trailing_stops plain stops (pos 120))
Reached-IsIndexed_example = Reached-IsIndexed plain followed

stops-IsIndexed : IsIndexed stops
stops-IsIndexed =
    insert-IsIndexed new_stop_book trailing new_stop_book-IsIndexed
      (unfold new_stop_book HashMap.get in refl) refl

-- A trade at 90 triggers the stop.
collect_triggered-Collected_example :
    Collected stops
      (pos 90)
      (collect_triggered stops (pos 90)).0
      (collect_triggered stops (pos 90)).1
collect_triggered-Collected_example = collect_triggered-Collected stops (pos 90) stops-IsIndexed

-- A trade at 120 moves it.
update_trailing_stops-IsTighter_example :
    (o' : StopOrder ℕ) × (HashMap.get (update_trailing_stops plain stops (pos 120)).orders 1
      ≡ some o')
    × IsTighter o' trailing
update_trailing_stops-IsTighter_example =
    update_trailing_stops-IsTighter plain stops (pos 120) 1 trailing
      (unfold insert new_stop_book HashMap.insert HashMap.get in refl)
