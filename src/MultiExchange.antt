-- ===== src/MultiExchange.antt =====
-- src/multi_exchange.rs: one exchange for each symbol.
pub mod Routing
use rustbook.Prelude.{
  ℕ, Bool, true, false, if◌then◌else◌, List, [], ◌∷◌, Option, none, some, Run, done, ◌>>=◌, length,
  map,
}
use mathlib.Core.Option
use rustbook.Types.{Price}
use rustbook.Symbol.{Symbol, eqb_symbol}
use rustbook.Book.{best_bid, best_ask}
use rustbook.Exchange.{Exchange, new_exchange}

module _ {F : Type 0} where
  -- What the code uses of `FxHashMap<Symbol, Exchange>`.
  abbrev pub lookup : List (Symbol × Exchange F) → Symbol → Option (Exchange F)
  lookup [] s = none
  lookup ((t, x) ∷ m) s = if eqb_symbol t s then some x else lookup m s

  abbrev pub write : List (Symbol × Exchange F) → Symbol → Exchange F → List (Symbol × Exchange F)
  write [] s x = (s, x) ∷ []
  write ((t, y) ∷ m) s x = if eqb_symbol t s then (t, x) ∷ m else (t, y) ∷ write m s x

pub record MultiExchange (F : Type 0) : Type 0 where
  pub exchanges : List (Symbol × Exchange F)

module _ {F : Type 0} where
  -- `MultiExchange::new`.
  unfoldable pub new_multi : MultiExchange F
  new_multi = record { exchanges = [] }

  unfoldable pub get : MultiExchange F → Symbol → Option (Exchange F)
  get m s = lookup m.exchanges s

  -- `get_or_create`: the exchange of the symbol, which is entered if there was none.
  unfoldable pub get_or_create : MultiExchange F → Symbol → MultiExchange F × Exchange F
  unfolding get
  get_or_create m s = elim (get m s) [
    | none ↦ (record { exchanges = write m.exchanges s new_exchange }, new_exchange)
    | some x ↦ (m, x)
  ]

  -- A call through the reference that `get_or_create` gives.
  unfoldable pub through :
      Symbol
      → (Exchange F → Run (Exchange F))
      → MultiExchange F × Exchange F
      → Run (MultiExchange F)
  through s f (m, x) = f x >>= λ x'. done (record { exchanges = write m.exchanges s x' })

  unfoldable pub on :
      MultiExchange F → Symbol → (Exchange F → Run (Exchange F)) → Run (MultiExchange F)
  unfolding get_or_create through
  on m s f = through s f (get_or_create m s)

  -- A call through the reference that `get_mut` gives, if it gives one.
  unfoldable pub on_existing :
      MultiExchange F → Symbol → (Exchange F → Run (Exchange F)) → Run (Option (MultiExchange F))
  unfolding get through
  on_existing m s f = elim (get m s) [
    | none ↦ done none
    | some x ↦ through s f (m, x) >>= λ m'. done (some m')
  ]

  unfoldable pub is_empty : MultiExchange F → Bool
  is_empty m = elim m.exchanges [ [] ↦ true | e ∷ es ↦ false ]

  unfoldable pub symbols : MultiExchange F → List Symbol
  symbols m = map (λ (e : Symbol × Exchange F). e.0) m.exchanges

  unfoldable pub len : MultiExchange F → ℕ
  len m = length m.exchanges

  unfoldable pub best_prices : MultiExchange F → List (Symbol × (Option Price × Option Price))
  unfolding best_bid best_ask
  best_prices m =
      map (λ (e : Symbol × Exchange F). (e.0, (best_bid e.1.book, best_ask e.1.book))) m.exchanges
