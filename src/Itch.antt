-- ===== src/Itch.antt =====
-- src/itch.rs: the reader of ITCH 5.0 messages, and their conversion to events. Bytes and characters
-- are numbers. The source of the bytes is a `Reader`, and `text` stands for the decoding
-- `String::from_utf8_lossy(..).trim().to_string()`, to strings of a type `S`.
pub mod Fields
pub mod Safety
pub mod Layout
use rustbook.Prelude.{
  ℕ, zero, suc, ◌+◌, ◌*◌, ◌-◌, ◌/◌, ◌==◌, leb, ltb, pos, ◌&&◌, ◌||◌, Bool, true, false,
  if◌then◌else◌, List, [], ◌∷◌, Option, none, some, Run, done, panicked, ◌>>=◌, length, get_elem?,
  take, drop, ◌≡◌, All, ◌<◌,
}
use rustbook.Prelude.HashMap
use rustbook.Prelude.HashMap.{HashMap}
use rustbook.Types.{Side, buy, sell, gtc}
use rustbook.Event
use rustbook.Event.{Event}

pub data ItchMessage (S : Type 0) : Type 0 where
  add_order : (timestamp order_ref : ℕ) → Side → (shares : ℕ) → S → (price : ℕ) → ItchMessage S
  order_executed : (timestamp order_ref shares match_number : ℕ) → ItchMessage S
  order_executed_with_price :
      (timestamp order_ref shares match_number : ℕ)
      → (printable : Bool) → (price : ℕ) → ItchMessage S
  order_cancel : (timestamp order_ref shares : ℕ) → ItchMessage S
  order_delete : (timestamp order_ref : ℕ) → ItchMessage S
  order_replace : (timestamp old_order_ref new_order_ref shares price : ℕ) → ItchMessage S
  trade : (timestamp : ℕ) → Side → (shares : ℕ) → S → (price match_number : ℕ) → ItchMessage S
  stock_directory : S → (locate : ℕ) → ItchMessage S
  other : (msg_type : ℕ) → ItchMessage S

-- Why no message is returned: the reader's own error, or the data.
pub data ItchError (E : Type 0) : Type 0 where
  read_error : E → ItchError E
  zero_length : ItchError E
  too_short : (msg_type have need : ℕ) → ItchError E

pub data ItchResult (S E : Type 0) : Type 0 where
  end_of_stream : ItchResult S E
  message : ItchMessage S → ItchResult S E
  failed : ItchError E → ItchResult S E

-- What `read_exact` gives: the bytes, or an error.
pub data ReadResult (E : Type 0) : Type 0 where
  bytes : List ℕ → ReadResult E
  error : E → ReadResult E

-- What the code uses of `std::io::Read`: `read_exact` on a buffer of a length fills it, or fails.
pub record Reader (R E : Type 0) : Type 0 where
  pub read_exact : R → ℕ → R × ReadResult E
  pub exact :
      (r : R) (n : ℕ) (bs : List ℕ)
      → (read_exact r n).1 ≡ bytes bs
      → (length bs ≡ n) × All (λ b. b < 256) bs

pub record ItchParser (S R : Type 0) : Type 0 where
  pub reader : R
  pub stock_locates : HashMap S

-- `ItchParser::new`.
unfoldable pub new_parser : {S R : Type 0} → R → ItchParser S R
new_parser reader = record { reader = reader; stock_locates = [] }

-- `buf[a..b]` and `buf[i]`, which panic out of range.
unfoldable pub slice : List ℕ → ℕ → ℕ → Run (List ℕ)
slice buf a b = if leb a b && leb b (length buf) then done (take (b - a) (drop a buf)) else panicked

unfoldable pub index : List ℕ → ℕ → Run ℕ
index buf i = elim (get_elem? buf i) [ none ↦ panicked | some b ↦ done b ]

-- `from_be_bytes`: the first byte is the most significant.
abbrev pub be_loop : ℕ → List ℕ → ℕ
be_loop acc [] = acc
be_loop acc (b ∷ bs) = be_loop (acc * 256 + b) bs

-- `from_be_bytes(buf[a..b].try_into().unwrap())` for an integer of some width in bytes.
unfoldable pub be_at : ℕ → List ℕ → ℕ → ℕ → Run ℕ
unfolding slice
be_at width buf a b =
    slice buf a b >>= λ s. if length s == width then done (be_loop 0 s) else panicked

-- `copy_from_slice` into the last six of eight zero bytes panics on another length.
unfoldable pub read_u48_be : List ℕ → Run ℕ
read_u48_be buf = if length buf == 6 then done (be_loop 0 (0 ∷ 0 ∷ buf)) else panicked

unfoldable pub u48_at : List ℕ → ℕ → ℕ → Run ℕ
unfolding slice read_u48_be
u48_at buf a b = slice buf a b >>= read_u48_be

unfoldable pub side_of_byte : ℕ → Side
side_of_byte b = if b == 66 then buy else sell

-- The bytes that the arm of a message type reads.
unfoldable pub min_payload : ℕ → ℕ
min_payload t =
    if (t == 65) || (t == 70)
    then 35
    else if t == 69
    then 30
    else if t == 67
    then 35
    else if t == 88
    then 22
    else if t == 68
    then 18
    else if t == 85
    then 34
    else if t == 80
    then 43
    else if t == 82
    then 10
    else 0

module _ {S : Type 0} (text : List ℕ → S) where
  -- The arms of the match on the message type.
  unfoldable pub parse_add_order : List ℕ → Run (ItchMessage S)
  unfolding u48_at be_at index slice side_of_byte
  parse_add_order payload = do
    timestamp ← u48_at payload 4 10
    order_ref ← be_at 8 payload 10 18
    side ← index payload 18
    shares ← be_at 4 payload 19 23
    stock ← slice payload 23 31
    price ← be_at 4 payload 31 35
    done (add_order timestamp order_ref (side_of_byte side) shares (text stock) price)

  unfoldable pub parse_executed : List ℕ → Run (ItchMessage S)
  unfolding u48_at be_at
  parse_executed payload = do
    timestamp ← u48_at payload 4 10
    order_ref ← be_at 8 payload 10 18
    shares ← be_at 4 payload 18 22
    match_number ← be_at 8 payload 22 30
    done (order_executed timestamp order_ref shares match_number)

  unfoldable pub parse_executed_with_price : List ℕ → Run (ItchMessage S)
  unfolding u48_at be_at index
  parse_executed_with_price payload = do
    timestamp ← u48_at payload 4 10
    order_ref ← be_at 8 payload 10 18
    shares ← be_at 4 payload 18 22
    match_number ← be_at 8 payload 22 30
    printable ← index payload 30
    price ← be_at 4 payload 31 35
    done (order_executed_with_price timestamp order_ref shares match_number (printable == 89) price)

  unfoldable pub parse_cancel : List ℕ → Run (ItchMessage S)
  unfolding u48_at be_at
  parse_cancel payload = do
    timestamp ← u48_at payload 4 10
    order_ref ← be_at 8 payload 10 18
    shares ← be_at 4 payload 18 22
    done (order_cancel timestamp order_ref shares)

  unfoldable pub parse_delete : List ℕ → Run (ItchMessage S)
  unfolding u48_at be_at
  parse_delete payload = do
    timestamp ← u48_at payload 4 10
    order_ref ← be_at 8 payload 10 18
    done (order_delete timestamp order_ref)

  unfoldable pub parse_replace : List ℕ → Run (ItchMessage S)
  unfolding u48_at be_at
  parse_replace payload = do
    timestamp ← u48_at payload 4 10
    old_order_ref ← be_at 8 payload 10 18
    new_order_ref ← be_at 8 payload 18 26
    shares ← be_at 4 payload 26 30
    price ← be_at 4 payload 30 34
    done (order_replace timestamp old_order_ref new_order_ref shares price)

  unfoldable pub parse_trade : List ℕ → Run (ItchMessage S)
  unfolding u48_at be_at index slice side_of_byte
  parse_trade payload = do
    timestamp ← u48_at payload 4 10
    side ← index payload 18
    shares ← be_at 4 payload 19 23
    stock ← slice payload 23 31
    price ← be_at 4 payload 31 35
    match_number ← be_at 8 payload 35 43
    done (trade timestamp (side_of_byte side) shares (text stock) price match_number)

  unfoldable pub parse_directory : List ℕ → Run (ItchMessage S)
  unfolding be_at slice
  parse_directory payload = do
    locate ← be_at 2 payload 0 2
    stock ← slice payload 2 10
    done (stock_directory (text stock) locate)

  unfoldable pub parse : ℕ → List ℕ → Run (ItchMessage S)
  unfolding parse_add_order parse_executed parse_executed_with_price parse_cancel parse_delete
      parse_replace parse_trade parse_directory
  parse t payload =
      if (t == 65) || (t == 70)
      then parse_add_order payload
      else if t == 69
      then parse_executed payload
      else if t == 67
      then parse_executed_with_price payload
      else if t == 88
      then parse_cancel payload
      else if t == 68
      then parse_delete payload
      else if t == 85
      then parse_replace payload
      else if t == 80
      then parse_trade payload
      else if t == 82
      then parse_directory payload
      else done (other t)

  -- The directory entry that a message adds to `stock_locates`.
  abbrev pub note_locate : HashMap S → ItchMessage S → HashMap S
  note_locate m (stock_directory stock locate) = HashMap.insert m locate stock
  note_locate m msg = m

  module _ {R E : Type 0} (reader : Reader R E) where
    -- The message of a buffer that was read in full.
    unfoldable pub read_message : ItchParser S R → List ℕ → Run (ItchParser S R × ItchResult S E)
    unfolding index min_payload parse
    read_message p [] = panicked
    read_message p (msg_type ∷ payload) =
        if ltb (length payload) (min_payload msg_type)
        then done (p, failed (too_short msg_type (length payload) (min_payload msg_type)))
        else (parse msg_type payload >>= λ msg.
            done (record p { stock_locates = note_locate p.stock_locates msg }, message msg))

    -- `next_message` from the read of the message, and from the read of its length.
    unfoldable pub read_body :
        ItchParser S R → R × ReadResult E → Run (ItchParser S R × ItchResult S E)
    unfolding read_message
    read_body p (r, error e) = done (record p { reader = r }, failed (read_error e))
    read_body p (r, bytes msg) = read_message (record p { reader = r }) msg

    unfoldable pub read_length :
        ItchParser S R → R × ReadResult E → Run (ItchParser S R × ItchResult S E)
    unfolding read_body
    read_length p (r, error e) = done (record p { reader = r }, end_of_stream)
    read_length p (r, bytes buf) =
        if be_loop 0 buf == 0
        then done (record p { reader = r }, failed zero_length)
        else read_body p (reader.read_exact r (be_loop 0 buf))

    unfoldable pub next_message : ItchParser S R → Run (ItchParser S R × ItchResult S E)
    unfolding read_length
    next_message p = read_length p (reader.read_exact p.reader 2)

-- The symbol, where the message names one, and the event; `unknown` is the empty string.
unfoldable pub itch_to_event : {S F : Type 0} → S → ItchMessage S → Option (S × Event F)
itch_to_event unknown (add_order timestamp order_ref side shares stock price) =
    some (stock, Event.submit_limit side (pos (price / 100)) shares gtc)
itch_to_event unknown (order_cancel timestamp order_ref shares) =
    some (unknown, Event.cancel order_ref)
itch_to_event unknown (order_delete timestamp order_ref) = some (unknown, Event.cancel order_ref)
itch_to_event unknown (order_replace timestamp old_order_ref new_order_ref shares price) =
    some (unknown, Event.modify old_order_ref (pos (price / 100)) shares)
itch_to_event unknown msg = none
