-- ===== src/MultiExchange/Routing.antt =====
-- src/multi_exchange.rs: calls on the exchanges of several symbols, in any order.
use rustbook.Prelude.{
  true, false, if◌then◌else◌, List, [], ◌∷◌, none, some, Run, done, ◌>>=◌, ◌≡◌, ◌≢◌, refl, sym, ap,
  ◌∙◌, inl, inr, Bool-cases, Option-cases, >>=-eq-done,
}
use mathlib.Core.Option
use rustbook.Symbol.{Symbol, eqb_symbol}
use rustbook.Symbol.Text.{eqb_symbol-eq, eqb_symbol_refl}
use rustbook.Exchange.{Exchange, new_exchange}
use rustbook.Event.{Event}
use rustbook.Stop.{FloatOps}
use rustbook.Exchange.Replay.{call, call_all}
use rustbook.MultiExchange.{MultiExchange, lookup, write, get, get_or_create, through, on}

differs : (s t : Symbol) → s ≢ t → eqb_symbol s t ≡ false
differs s t n = elim (Bool-cases (eqb_symbol s t)) [
  | inl e ↦ absurd (n (eqb_symbol-eq s t e))
  | inr e ↦ e
]

pub apart : (s t : Symbol) → eqb_symbol s t ≡ false → s ≢ t
apart s t e same = clash (sym e ∙ ap (eqb_symbol s) (sym same) ∙ eqb_symbol_refl s)
  where
    clash : false ≡ true → ⊥
    clash e = cc

module _ {F : Type 0} where
  -- The exchange of a symbol, new if there is none.
  abbrev pub at : MultiExchange F → Symbol → Exchange F
  at m s = Option.get_or (lookup m.exchanges s) new_exchange

  lookup-write_same :
      (m : List (Symbol × Exchange F)) (s : Symbol) (x : Exchange F)
      → lookup (write m s x) s ≡ some x
  lookup-write_same [] s x = rw (eqb_symbol_refl s) refl
  lookup-write_same ((u, y) ∷ m) s x = elim (Bool-cases (eqb_symbol u s)) [
    | inl e ↦ rw (e, e) refl
    | inr e ↦ rw (e, e) (lookup-write_same m s x)
  ]

  lookup-write_other :
      (m : List (Symbol × Exchange F)) (s t : Symbol) (x : Exchange F)
      → s ≢ t
      → lookup (write m s x) t ≡ lookup m t
  lookup-write_other [] s t x n = rw (differs s t n) refl
  lookup-write_other ((u, y) ∷ m) s t x n = elim (Bool-cases (eqb_symbol u s)) [
    | inl e ↦
        let away : eqb_symbol u t ≡ false =
          differs u t (λ same. n (sym (eqb_symbol-eq u s e) ∙ same)) in
        rw (e, away) refl
    | inr e ↦ rw e (ap (λ z. if eqb_symbol u t then some y else z) (lookup-write_other m s t x n))
  ]

  -- A call on one symbol is its exchange's call, and leaves the other exchanges.
  record Routed (m : MultiExchange F) (s : Symbol) (x : Exchange F) (m' : MultiExchange F)
      : Type 0 where
    here : at m' s ≡ x
    others : (t : Symbol) → s ≢ t → at m' t ≡ at m t

  created :
      (m : MultiExchange F) (s : Symbol)
      → lookup m.exchanges s ≡ none
      → get_or_create m s ≡ (record { exchanges = write m.exchanges s new_exchange }, new_exchange)
  unfolding get_or_create get
  created m s e = rw (get_or_create, e) refl

  found :
      (m : MultiExchange F) (s : Symbol) (y : Exchange F)
      → lookup m.exchanges s ≡ some y
      → get_or_create m s ≡ (m, y)
  unfolding get_or_create get
  found m s y e = rw (get_or_create, e) refl

  on-Routed :
      (m : MultiExchange F) (s : Symbol) (f : Exchange F → Run (Exchange F)) (x : Exchange F)
      → f (at m s) ≡ done x
      → (m' : MultiExchange F) × (on m s f ≡ done m') × Routed m s x m'
  unfolding on through
  on-Routed m s f x h = elim (Option-cases (lookup m.exchanges s)) [
    | inl e ↦
        let there : f new_exchange ≡ done x =
          ap (λ o. f (Option.get_or o new_exchange)) (sym e) ∙ h in
        let w = write m.exchanges s new_exchange in
        (
          record { exchanges = write w s x },
          ap (through s f) (created m s e) ∙ rw there refl,
          record {
            here = ap (λ o. Option.get_or o new_exchange) (lookup-write_same w s x);
            others = λ t n.
                ap (λ o. Option.get_or o new_exchange)
                  (lookup-write_other w s t x n
                    ∙ lookup-write_other m.exchanges s t new_exchange n);
          },
        )
    | inr (y, e) ↦
        let there : f y ≡ done x = ap (λ o. f (Option.get_or o new_exchange)) (sym e) ∙ h in
        (
          record { exchanges = write m.exchanges s x },
          ap (through s f) (found m s y e) ∙ rw there refl,
          record {
            here = ap (λ o. Option.get_or o new_exchange) (lookup-write_same m.exchanges s x);
            others = λ t n.
                ap (λ o. Option.get_or o new_exchange) (lookup-write_other m.exchanges s t x n);
          },
        )
  ]

  -- The events of one symbol.
  unfoldable pub events_of : Symbol → List (Symbol × Event F) → List (Event F)
  events_of s [] = []
  events_of s ((t, e) ∷ es) = if eqb_symbol t s then e ∷ events_of s es else events_of s es

  module _ (fp : FloatOps F) where
    -- The public calls for events of several symbols, in the order in which they come.
    unfoldable pub route : MultiExchange F → List (Symbol × Event F) → Run (MultiExchange F)
    unfolding on
    route m [] = done m
    route m ((s, e) ∷ es) = on m s (λ x. call fp x e) >>= λ m'. route m' es

    -- If for every symbol the public calls for its own events, made one after the other on its
    -- exchange (a new one if it has none), return, then the calls for all events in the order in
    -- which they come return, each on the exchange of its symbol, and leave for every symbol the
    -- exchange that its own events alone give: the symbols do not interfere.
    pub route-events_of :
        (m : MultiExchange F) (es : List (Symbol × Event F))
        → ((s : Symbol) → (x : Exchange F) × (call_all fp (at m s) (events_of s es) ≡ done x))
        → (m' : MultiExchange F) × (route m es ≡ done m')
          × ((s : Symbol) → call_all fp (at m s) (events_of s es) ≡ done (at m' s))
    unfolding route events_of call_all
    route-events_of m [] h = (m, refl, λ s. refl)
    route-events_of m ((t, e) ∷ es) h =
        let (z, whole) = h t in
        let own : (call fp (at m t) e >>= λ x. call_all fp x (events_of t es)) ≡ done z =
          sym (rw (eqb_symbol_refl t) refl) ∙ whole in
        let (x, first, after) = >>=-eq-done (call fp (at m t) e) _ own in
        let (m', step, routed) = on-Routed m t (λ x. call fp x e) x first in
        let (n, rest, each) = route-events_of m' es (λ s. elim (Bool-cases (eqb_symbol t s)) [
          | inl same ↦
              let eq = eqb_symbol-eq t s same in
              (
                z,
                ap (λ w. call_all fp w (events_of s es)) (sym (ap (at m') eq) ∙ routed.here)
                    ∙ ap (λ u. call_all fp x (events_of u es)) (sym eq)
                    ∙ after,
              )
          | inr other ↦
              let (y, run) = h s in
              (
                y,
                ap (λ w. call_all fp w (events_of s es)) (routed.others s (apart t s other))
                    ∙ sym (rw other refl)
                    ∙ run,
              )
        ]) in
        (
          n,
          rw step rest,
          λ s. elim (Bool-cases (eqb_symbol t s)) [
            | inl same ↦
                let eq = eqb_symbol-eq t s same in
                let now : call fp (at m s) e ≡ done x =
                  ap (λ u. call fp (at m u) e) (sym eq) ∙ first in
                rw (same, now)
                  (ap (λ w. call_all fp w (events_of s es)) (sym routed.here ∙ ap (at m') eq)
                    ∙ each s)
            | inr other ↦ rw other (
                ap (λ w. call_all fp w (events_of s es)) (sym (routed.others s (apart t s other)))
                ∙ each s)
          ],
        )
