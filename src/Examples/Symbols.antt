-- ===== src/Examples/Symbols.antt =====
-- Runs of the exchanges of several symbols at concrete inputs.
use rustbook.Prelude.{ℕ, ◌≡◌, refl, sym, ◌∙◌, false, List, [], ◌∷◌, done, Bool-cases, inl, inr, pos}
use rustbook.Types.{sell, gtc}
use rustbook.Symbol.{Symbol, eqb_symbol, try_new}
use rustbook.Symbol.Text.{eqb_symbol-eq, Made, try_new-Made}
use rustbook.Event.{Event}
use rustbook.Exchange.{Exchange}
use rustbook.Exchange.Replay.{call_all}
use rustbook.MultiExchange.{MultiExchange}
use rustbook.MultiExchange.Routing.{at, route, events_of, route-events_of, apart}
use rustbook.Examples.{plain, fresh, logged, logged_run}

abbrev pub aapl : Symbol
aapl = record { buf = 65 ∷ 65 ∷ 80 ∷ 76 ∷ 0 ∷ 0 ∷ 0 ∷ 0 ∷ []; len = 4 }

abbrev pub msft : Symbol
msft = record { buf = 77 ∷ 83 ∷ 70 ∷ 84 ∷ 0 ∷ 0 ∷ 0 ∷ 0 ∷ []; len = 4 }

-- An order for each of two symbols.
abbrev asking : Event ℕ
asking = Event.submit_limit sell (pos 100) 10 gtc

abbrev orders : List (Symbol × Event ℕ)
orders = (aapl, asking) ∷ (msft, asking) ∷ []

abbrev markets : MultiExchange ℕ
markets = record { exchanges = [] }

runs :
    (s : Symbol) → (x : Exchange ℕ) × (call_all plain (at markets s) (events_of s orders) ≡ done x)
unfolding events_of
runs s = elim (Bool-cases (eqb_symbol aapl s)) [
  | inl e ↦
      let other : eqb_symbol msft s ≡ false = elim (Bool-cases (eqb_symbol msft s)) [
        | inl f ↦ absurd (
            apart aapl msft (unfold eqb_symbol in refl)
              (eqb_symbol-eq aapl s e ∙ sym (eqb_symbol-eq msft s f)))
        | inr f ↦ f
      ] in
      (logged, rw (e, other) logged_run)
  | inr e ↦ elim (Bool-cases (eqb_symbol msft s)) [
    | inl f ↦ (logged, rw (e, f) logged_run)
    | inr f ↦ (fresh, rw (e, f) (unfold call_all in refl))
  ]
]

route-events_of_example :
    (m' : MultiExchange ℕ) × (route plain markets orders ≡ done m')
    × ((s : Symbol) → call_all plain (at markets s) (events_of s orders) ≡ done (at m' s))
route-events_of_example = route-events_of plain markets orders runs

try_new-Made_example : Made (65 ∷ 65 ∷ 80 ∷ 76 ∷ []) (try_new (65 ∷ 65 ∷ 80 ∷ 76 ∷ []))
try_new-Made_example = try_new-Made (65 ∷ 65 ∷ 80 ∷ 76 ∷ [])
