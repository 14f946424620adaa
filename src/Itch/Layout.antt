-- ===== src/Itch/Layout.antt =====
-- src/itch.rs: the layout of the messages as bytes, written the other way, and what `parse` makes
-- of it.
use rustbook.Prelude.{
  ℕ, zero, suc, ◌+◌, ◌*◌, ◌/◌, ◌%◌, ◌==◌, ltb, Bool, true, false, List, [], ◌∷◌, ◌++◌, done, length,
  ◌≡◌, ◌<◌, ◌≤◌, ◌^◌, refl, ◌∙◌, arith,
}
use rustbook.Types.{Side, buy, sell}
use rustbook.Itch.{
  ItchMessage, add_order, order_executed, order_executed_with_price, order_cancel, order_delete,
  order_replace, trade, stock_directory, other, message, bytes, Reader, ItchParser, slice, index,
  be_loop, be_at, read_u48_be, u48_at, side_of_byte, min_payload, parse_add_order, parse_executed,
  parse_executed_with_price, parse_cancel, parse_delete, parse_replace, parse_trade,
  parse_directory, parse, note_locate, read_message, read_length, read_body, next_message,
}
use rustbook.Itch.Safety.{IsFitting}

-- The bytes of a number, the most significant first.
abbrev pub to_be : ℕ → ℕ → List ℕ
to_be zero n = []
to_be (suc k) n = to_be k (n / 256) ++ (n % 256) ∷ []

be_loop-append :
    (acc : ℕ) (bs : List ℕ) (b : ℕ) → be_loop acc (bs ++ b ∷ []) ≡ be_loop acc bs * 256 + b
be_loop-append acc [] b = refl
be_loop-append acc (c ∷ bs) b = be_loop-append (acc * 256 + c) bs b

be_loop-to_be : (k n : ℕ) → n < 256 ^ k → be_loop 0 (to_be k n) ≡ n
be_loop-to_be zero n h = omega (arith, h)
be_loop-to_be (suc k) n h =
    be_loop-append 0 (to_be k (n / 256)) (n % 256)
    ∙ rw (be_loop-to_be k (n / 256) (omega (arith, h))) (omega arith)

-- Eight bytes of a stock symbol.
pub record Stock : Type 0 where
  pub s0 : ℕ
  pub s1 : ℕ
  pub s2 : ℕ
  pub s3 : ℕ
  pub s4 : ℕ
  pub s5 : ℕ
  pub s6 : ℕ
  pub s7 : ℕ

abbrev pub stock_bytes : Stock → List ℕ
stock_bytes s = s.s0 ∷ s.s1 ∷ s.s2 ∷ s.s3 ∷ s.s4 ∷ s.s5 ∷ s.s6 ∷ s.s7 ∷ []

abbrev pub side_byte : Side → ℕ
side_byte buy = 66
side_byte sell = 83

side_of_byte-side_byte : (side : Side) → side_of_byte (side_byte side) ≡ side
unfolding side_of_byte
side_of_byte-side_byte buy = refl
side_of_byte-side_byte sell = refl

abbrev pub printable_byte : Bool → ℕ
printable_byte true = 89
printable_byte false = 78

printable_byte-test : (b : Bool) → (printable_byte b == 89) ≡ b
printable_byte-test true = refl
printable_byte-test false = refl

-- The type and the payload of a message after its first four bytes, which `parse` reads only in a
-- directory message: they are zero otherwise, and so is the reference of a trade.
abbrev pub type_byte : ItchMessage Stock → ℕ
type_byte (add_order t r side q s p) = 65
type_byte (order_executed t r q n) = 69
type_byte (order_executed_with_price t r q n b p) = 67
type_byte (order_cancel t r q) = 88
type_byte (order_delete t r) = 68
type_byte (order_replace t r r' q p) = 85
type_byte (trade t side q s p n) = 80
type_byte (stock_directory s l) = 82
type_byte (other t) = t

abbrev header : List ℕ → List ℕ
header bs = 0 ∷ 0 ∷ 0 ∷ 0 ∷ bs

abbrev pub payload : ItchMessage Stock → List ℕ
payload (add_order t r side q s p) =
    header (to_be 6 t ++ to_be 8 r ++ side_byte side ∷ to_be 4 q ++ stock_bytes s ++ to_be 4 p)
payload (order_executed t r q n) = header (to_be 6 t ++ to_be 8 r ++ to_be 4 q ++ to_be 8 n)
payload (order_executed_with_price t r q n b p) =
    header (to_be 6 t ++ to_be 8 r ++ to_be 4 q ++ to_be 8 n ++ printable_byte b ∷ to_be 4 p)
payload (order_cancel t r q) = header (to_be 6 t ++ to_be 8 r ++ to_be 4 q)
payload (order_delete t r) = header (to_be 6 t ++ to_be 8 r)
payload (order_replace t r r' q p) =
    header (to_be 6 t ++ to_be 8 r ++ to_be 8 r' ++ to_be 4 q ++ to_be 4 p)
payload (trade t side q s p n) = header (
    to_be 6 t ++ to_be 8 0 ++ side_byte side ∷ to_be 4 q ++ stock_bytes s ++ to_be 4 p ++ to_be 8 n)
payload (stock_directory s l) = to_be 2 l ++ stock_bytes s
payload (other t) = []

abbrev pub frame : ItchMessage Stock → List ℕ
frame m = type_byte m ∷ payload m

-- The message is of a kind that the code reads.
abbrev pub IsKnown : {S : Type 0} → ItchMessage S → Type 0
IsKnown (other t) = ⊥
IsKnown m = Unit

module _ {S : Type 0} (text : List ℕ → S) where
  -- The message with its stock symbol decoded.
  abbrev pub decoded : ItchMessage Stock → ItchMessage S
  decoded (add_order t r side q s p) = add_order t r side q (text (stock_bytes s)) p
  decoded (order_executed t r q n) = order_executed t r q n
  decoded (order_executed_with_price t r q n b p) = order_executed_with_price t r q n b p
  decoded (order_cancel t r q) = order_cancel t r q
  decoded (order_delete t r) = order_delete t r
  decoded (order_replace t r r' q p) = order_replace t r r' q p
  decoded (trade t side q s p n) = trade t side q (text (stock_bytes s)) p n
  decoded (stock_directory s l) = stock_directory (text (stock_bytes s)) l
  decoded (other t) = other t

  parse-payload :
      (m : ItchMessage Stock)
      → IsFitting m
      → IsKnown m
      → parse text (type_byte m) (payload m) ≡ done (decoded m)
  unfolding parse parse_add_order parse_executed parse_executed_with_price parse_cancel parse_delete
      parse_replace parse_trade parse_directory u48_at be_at index slice read_u48_be
  parse-payload (add_order t r side q s p) (ht, hr, hq, hp) u = λ i. done (
      add_order (be_loop-to_be 6 t ht i) (be_loop-to_be 8 r hr i) (side_of_byte-side_byte side i)
        (be_loop-to_be 4 q hq i) (text (stock_bytes s)) (be_loop-to_be 4 p hp i))
  parse-payload (order_executed t r q n) (ht, hr, hq, hn) u = λ i. done (
      order_executed (be_loop-to_be 6 t ht i) (be_loop-to_be 8 r hr i) (be_loop-to_be 4 q hq i)
        (be_loop-to_be 8 n hn i))
  parse-payload (order_executed_with_price t r q n b p) (ht, hr, hq, hn, hp) u = λ i. done (
      order_executed_with_price (be_loop-to_be 6 t ht i) (be_loop-to_be 8 r hr i)
        (be_loop-to_be 4 q hq i) (be_loop-to_be 8 n hn i) (printable_byte-test b i)
        (be_loop-to_be 4 p hp i))
  parse-payload (order_cancel t r q) (ht, hr, hq) u = λ i.
      done (order_cancel (be_loop-to_be 6 t ht i) (be_loop-to_be 8 r hr i) (be_loop-to_be 4 q hq i))
  parse-payload (order_delete t r) (ht, hr) u =
      λ i. done (order_delete (be_loop-to_be 6 t ht i) (be_loop-to_be 8 r hr i))
  parse-payload (order_replace t r r' q p) (ht, hr, hr', hq, hp) u = λ i. done (
      order_replace (be_loop-to_be 6 t ht i) (be_loop-to_be 8 r hr i) (be_loop-to_be 8 r' hr' i)
        (be_loop-to_be 4 q hq i) (be_loop-to_be 4 p hp i))
  parse-payload (trade t side q s p n) (ht, hq, hp, hn) u = λ i. done (
      trade (be_loop-to_be 6 t ht i) (side_of_byte-side_byte side i) (be_loop-to_be 4 q hq i)
        (text (stock_bytes s)) (be_loop-to_be 4 p hp i) (be_loop-to_be 8 n hn i))
  parse-payload (stock_directory s l) hl u =
      λ i. done (stock_directory (text (stock_bytes s)) (be_loop-to_be 2 l hl i))
  parse-payload (other t) h u = absurd u

  -- A payload is as long as its arm reads.
  length-payload :
      (m : ItchMessage Stock) → IsKnown m → length (payload m) ≡ min_payload (type_byte m)
  unfolding min_payload
  length-payload (add_order t r side q s p) u = refl
  length-payload (order_executed t r q n) u = refl
  length-payload (order_executed_with_price t r q n b p) u = refl
  length-payload (order_cancel t r q) u = refl
  length-payload (order_delete t r) u = refl
  length-payload (order_replace t r r' q p) u = refl
  length-payload (trade t side q s p n) u = refl
  length-payload (stock_directory s l) u = refl
  length-payload (other t) u = absurd u

  min_payload_le : (t : ℕ) → min_payload t ≤ 43
  unfolding min_payload
  min_payload_le t = ground arith

  module _ {R E : Type 0} (reader : Reader R E) where
    read_message-frame :
        (p : ItchParser S R) (m : ItchMessage Stock)
        → IsFitting m
        → IsKnown m
        → read_message text reader p (frame m)
          ≡ done (
            record p { stock_locates = note_locate text p.stock_locates (decoded m) },
            message (decoded m),
          )
    unfolding read_message
    read_message-frame p m fits known =
        let enough : ltb (length (payload m)) (min_payload (type_byte m)) ≡ false =
          ground (arith, length-payload m known) in
        rw (enough, parse-payload m fits known) refl

    -- When the reader gives the two bytes of a length and then as many bytes that are the layout of
    -- a message of one of the eight kinds, whose fields fit their widths and whose other bytes are
    -- zero, the next message is this message with its symbol decoded; the parser goes on from where
    -- the reader stands, and a directory message is noted.
    pub next_message-frame :
        (p : ItchParser S R) (r r' : R) (m : ItchMessage Stock)
        → IsFitting m
        → IsKnown m
        → reader.read_exact p.reader 2 ≡ (r, bytes (to_be 2 (length (frame m))))
        → reader.read_exact r (length (frame m)) ≡ (r', bytes (frame m))
        → next_message text reader p
          ≡ done (
            record { reader = r'; stock_locates = note_locate text p.stock_locates (decoded m) },
            message (decoded m),
          )
    unfolding next_message read_length read_body
    next_message-frame p r r' m fits known first second =
        let len : be_loop 0 (to_be 2 (length (frame m))) ≡ length (frame m) =
          be_loop-to_be 2 (length (frame m))
            (omega (arith, length-payload m known, min_payload_le (type_byte m))) in
        let some_len : (length (frame m) == 0) ≡ false = ground arith in
        rw (first, len, some_len, second) (read_message-frame _ m fits known)
