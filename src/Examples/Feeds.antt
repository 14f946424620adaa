-- ===== src/Examples/Feeds.antt =====
-- Runs of the reader of messages at concrete inputs.
use rustbook.Prelude.{
  ℕ, ◌≡◌, refl, sym, ◌∙◌, subst, ◌==◌, ltb, Bool, true, false, List, [], ◌∷◌, length, All, arith,
  ◌<◌, Returns, done, if◌then◌else◌, Bool-cases, inl, inr,
}
use rustbook.Types.{buy}
use rustbook.Itch.{
  ItchMessage, add_order, message, ReadResult, bytes, error, Reader, ItchParser, next_message,
}
use rustbook.Itch.Safety.{IsRead, next_message-Returns}
use rustbook.Itch.Layout.{Stock, frame, to_be, next_message-frame}

abbrev all_bytes : List ℕ → Bool
all_bytes [] = true
all_bytes (b ∷ bs) = if ltb b 256 then all_bytes bs else false

abbrev fits : ℕ → List ℕ → Bool
fits n bs = if length bs == n then all_bytes bs else false

abbrev fill_from : Bool → List ℕ → ReadResult ℕ
fill_from true bs = bytes bs
fill_from false bs = error 0

-- A source that has its bytes in pieces, and gives a piece of the length that is asked for.
abbrev read_piece : List (List ℕ) → ℕ → List (List ℕ) × ReadResult ℕ
read_piece [] n = ([], error 0)
read_piece (bs ∷ rest) n = (rest, fill_from (fits n bs) bs)

all_bytes-All : (bs : List ℕ) → all_bytes bs ≡ true → All (λ b. b < 256) bs
all_bytes-All [] h = tt
all_bytes-All (b ∷ bs) h = (ground arith, all_bytes-All bs (ground arith))

fits-exact : (n : ℕ) (bs : List ℕ) → fits n bs ≡ true → (length bs ≡ n) × All (λ b. b < 256) bs
fits-exact n bs h = elim (Bool-cases (length bs == n)) [
  | inl e ↦ (ground (arith, e), all_bytes-All bs (sym (rw e refl) ∙ h))
  | inr e ↦ absurd (clash (sym (rw e refl) ∙ h))
]
  where
    clash : false ≡ true → ⊥
    clash e = cc

fill_from-exact : (c : Bool) (bs cs : List ℕ) → fill_from c bs ≡ bytes cs → (c ≡ true) × (bs ≡ cs)
fill_from-exact true bs cs h = (refl, cc)
fill_from-exact false bs cs h = absurd cc

read_piece-exact :
    (r : List (List ℕ)) (n : ℕ) (cs : List ℕ)
    → (read_piece r n).1 ≡ bytes cs
    → (length cs ≡ n) × All (λ b. b < 256) cs
read_piece-exact [] n cs h = absurd cc
read_piece-exact (bs ∷ rest) n cs h =
    let (ok, same) = fill_from-exact (fits n bs) bs cs h in
    subst (λ xs. (length xs ≡ n) × All (λ b. b < 256) xs) same (fits-exact n bs ok)

abbrev pieces : Reader (List (List ℕ)) ℕ
pieces = record { read_exact = read_piece; exact = read_piece-exact }

-- A text that is its first byte.
abbrev first_byte : List ℕ → ℕ
first_byte [] = 0
first_byte (b ∷ bs) = b

-- An order that buys 100 shares of AAPL at 150.
abbrev aapl : Stock
aapl = record { s0 = 65; s1 = 65; s2 = 80; s3 = 76; s4 = 32; s5 = 32; s6 = 32; s7 = 32 }

abbrev added : ItchMessage Stock
added = add_order 34200000000000 7 buy 100 aapl 1500000

abbrev feed : ItchParser ℕ (List (List ℕ))
feed = record { reader = to_be 2 36 ∷ frame added ∷ []; stock_locates = [] }

next_message-Returns_example : Returns (λ r. IsRead r.1) (next_message first_byte pieces feed)
next_message-Returns_example = next_message-Returns first_byte pieces feed

next_message-frame_example :
    next_message first_byte pieces feed
    ≡ done (
      record { reader = []; stock_locates = [] },
      message (add_order 34200000000000 7 buy 100 65 1500000),
    )
next_message-frame_example =
    next_message-frame first_byte pieces feed (frame added ∷ []) [] added
      (omega arith, omega arith, omega arith, omega arith) tt refl refl
