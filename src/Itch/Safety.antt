-- ===== src/Itch/Safety.antt =====
-- src/itch.rs: what a message that is read is, for every stream of bytes.
use rustbook.Prelude.{
  ℕ, ◌+◌, ◌==◌, ltb, ◌||◌, Bool, true, false, if◌then◌else◌, List, [], ◌∷◌, Run, done, ◌>>=◌,
  length, ◌≡◌, ◌<◌, ◌≤◌, ◌^◌, refl, Returns, >>=-Returns, arith, Bool-cases, inl, inr,
}
use rustbook.Itch.{
  ItchMessage, add_order, order_executed, order_executed_with_price, order_cancel, order_delete,
  order_replace, trade, stock_directory, other, ItchResult, end_of_stream, message, failed,
  too_short, read_error, zero_length, ReadResult, bytes, error, Reader, ItchParser, slice, index,
  be_loop, be_at, u48_at, min_payload, parse_add_order, parse_executed, parse_executed_with_price,
  parse_cancel, parse_delete, parse_replace, parse_trade, parse_directory, parse, read_message,
  read_length, read_body, next_message,
}
use rustbook.Itch.Fields.{AreBytes, be_at-Returns, u48_at-Returns, index-Returns, slice-Returns}

module _ {S : Type 0} where
  -- The fields of the message fit the integers of the code: a timestamp of six bytes, references
  -- and match numbers of eight, shares and prices of four, a locate code of two.
  abbrev pub IsFitting : ItchMessage S → Type 0
  IsFitting (add_order timestamp order_ref side shares stock price) =
      (timestamp < 2 ^ 48) × (order_ref < 2 ^ 64) × (shares < 2 ^ 32) × (price < 2 ^ 32)
  IsFitting (order_executed timestamp order_ref shares match_number) =
      (timestamp < 2 ^ 48) × (order_ref < 2 ^ 64) × (shares < 2 ^ 32) × (match_number < 2 ^ 64)
  IsFitting (order_executed_with_price timestamp order_ref shares match_number printable price) =
      (timestamp < 2 ^ 48)
      × (order_ref < 2 ^ 64)
      × (shares < 2 ^ 32)
      × (match_number < 2 ^ 64)
      × (price < 2 ^ 32)
  IsFitting (order_cancel timestamp order_ref shares) =
      (timestamp < 2 ^ 48) × (order_ref < 2 ^ 64) × (shares < 2 ^ 32)
  IsFitting (order_delete timestamp order_ref) = (timestamp < 2 ^ 48) × (order_ref < 2 ^ 64)
  IsFitting (order_replace timestamp old_order_ref new_order_ref shares price) =
      (timestamp < 2 ^ 48)
      × (old_order_ref < 2 ^ 64)
      × (new_order_ref < 2 ^ 64)
      × (shares < 2 ^ 32)
      × (price < 2 ^ 32)
  IsFitting (trade timestamp side shares stock price match_number) =
      (timestamp < 2 ^ 48) × (shares < 2 ^ 32) × (price < 2 ^ 32) × (match_number < 2 ^ 64)
  IsFitting (stock_directory stock locate) = locate < 2 ^ 16
  IsFitting (other msg_type) = msg_type < 2 ^ 8

  -- An arm that reads at most `need` of the bytes.
  unfoldable Arm : ℕ → ℕ → Run (ItchMessage S) → Type 0
  Arm n need m = need ≤ n → Returns IsFitting m

  if-Arm :
      (n : ℕ) (c : Bool) (need need' : ℕ) (m m' : Run (ItchMessage S))
      → Arm n need m
      → Arm n need' m'
      → Arm n (if c then need else need') (if c then m else m')
  if-Arm n true need need' m m' f g = f
  if-Arm n false need need' m m' f g = g

  module _ (text : List ℕ → S) (buf : List ℕ) (all : AreBytes buf) where
    arm :
        (need : ℕ) (m : Run (ItchMessage S))
        → (need ≤ length buf → Returns IsFitting m)
        → Arm (length buf) need m
    unfolding Arm
    arm need m h = h

    -- One more field of a message.
    then_u48 :
        (a b : ℕ) (f : ℕ → Run (ItchMessage S))
        → a + 6 ≡ b
        → b ≤ length buf
        → ((n : ℕ) → n < 2 ^ 48 → Returns IsFitting (f n))
        → Returns IsFitting (u48_at buf a b >>= f)
    then_u48 a b f fits le k =
        >>=-Returns (λ n. n < 2 ^ 48) IsFitting (u48_at buf a b) f
          (u48_at-Returns buf all a b fits le) k

    then_be :
        (width a b : ℕ) (f : ℕ → Run (ItchMessage S))
        → a + width ≡ b
        → b ≤ length buf
        → ((n : ℕ) → n < 256 ^ width → Returns IsFitting (f n))
        → Returns IsFitting (be_at width buf a b >>= f)
    then_be width a b f fits le k =
        >>=-Returns (λ n. n < 256 ^ width) IsFitting (be_at width buf a b) f
          (be_at-Returns buf all width a b fits le) k

    then_index :
        (i : ℕ) (f : ℕ → Run (ItchMessage S))
        → i < length buf
        → ((n : ℕ) → Returns IsFitting (f n))
        → Returns IsFitting (index buf i >>= f)
    then_index i f h k =
        >>=-Returns (λ n. Unit {0}) IsFitting (index buf i) f (index-Returns buf all i h)
          (λ n u. k n)

    then_slice :
        (a b : ℕ) (f : List ℕ → Run (ItchMessage S))
        → a ≤ b
        → b ≤ length buf
        → ((s : List ℕ) → Returns IsFitting (f s))
        → Returns IsFitting (slice buf a b >>= f)
    then_slice a b f le h k =
        >>=-Returns _ IsFitting (slice buf a b) f (slice-Returns buf a b all le h) (λ s u. k s)

    parse_add_order-Returns : 35 ≤ length buf → Returns IsFitting (parse_add_order text buf)
    unfolding parse_add_order
    parse_add_order-Returns h = then_u48 4 10 _ refl (omega (arith, h)) (λ t ht.
        then_be 8 10 18 _ refl (omega (arith, h)) (λ r hr.
          then_index 18 _ (omega (arith, h)) (λ side.
            then_be 4 19 23 _ refl (omega (arith, h)) (λ q hq.
              then_slice 23 31 _ (omega arith) (omega (arith, h))
                (λ stock. then_be 4 31 35 _ refl (omega (arith, h)) (λ p hp. (ht, hr, hq, hp)))))))

    parse_executed-Returns : 30 ≤ length buf → Returns IsFitting (parse_executed text buf)
    unfolding parse_executed
    parse_executed-Returns h = then_u48 4 10 _ refl (omega (arith, h)) (λ t ht.
        then_be 8 10 18 _ refl (omega (arith, h)) (λ r hr.
          then_be 4 18 22 _ refl (omega (arith, h))
            (λ q hq. then_be 8 22 30 _ refl h (λ n hn. (ht, hr, hq, hn)))))

    parse_executed_with_price-Returns :
        35 ≤ length buf → Returns IsFitting (parse_executed_with_price text buf)
    unfolding parse_executed_with_price
    parse_executed_with_price-Returns h = then_u48 4 10 _ refl (omega (arith, h)) (λ t ht.
        then_be 8 10 18 _ refl (omega (arith, h)) (λ r hr.
          then_be 4 18 22 _ refl (omega (arith, h)) (λ q hq.
            then_be 8 22 30 _ refl (omega (arith, h)) (λ n hn.
              then_index 30 _ (omega (arith, h))
                (λ shown. then_be 4 31 35 _ refl h (λ p hp. (ht, hr, hq, hn, hp)))))))

    parse_cancel-Returns : 22 ≤ length buf → Returns IsFitting (parse_cancel text buf)
    unfolding parse_cancel
    parse_cancel-Returns h = then_u48 4 10 _ refl (omega (arith, h)) (λ t ht.
        then_be 8 10 18 _ refl (omega (arith, h))
          (λ r hr. then_be 4 18 22 _ refl h (λ q hq. (ht, hr, hq))))

    parse_delete-Returns : 18 ≤ length buf → Returns IsFitting (parse_delete text buf)
    unfolding parse_delete
    parse_delete-Returns h =
        then_u48 4 10 _ refl (omega (arith, h))
          (λ t ht. then_be 8 10 18 _ refl h (λ r hr. (ht, hr)))

    parse_replace-Returns : 34 ≤ length buf → Returns IsFitting (parse_replace text buf)
    unfolding parse_replace
    parse_replace-Returns h = then_u48 4 10 _ refl (omega (arith, h)) (λ t ht.
        then_be 8 10 18 _ refl (omega (arith, h)) (λ r hr.
          then_be 8 18 26 _ refl (omega (arith, h)) (λ n hn.
            then_be 4 26 30 _ refl (omega (arith, h))
              (λ q hq. then_be 4 30 34 _ refl h (λ p hp. (ht, hr, hn, hq, hp))))))

    parse_trade-Returns : 43 ≤ length buf → Returns IsFitting (parse_trade text buf)
    unfolding parse_trade
    parse_trade-Returns h = then_u48 4 10 _ refl (omega (arith, h)) (λ t ht.
        then_index 18 _ (omega (arith, h)) (λ side.
          then_be 4 19 23 _ refl (omega (arith, h)) (λ q hq.
            then_slice 23 31 _ (omega arith) (omega (arith, h)) (λ stock.
              then_be 4 31 35 _ refl (omega (arith, h))
                (λ p hp. then_be 8 35 43 _ refl h (λ n hn. (ht, hq, hp, hn)))))))

    parse_directory-Returns : 10 ≤ length buf → Returns IsFitting (parse_directory text buf)
    unfolding parse_directory
    parse_directory-Returns h =
        then_be 2 0 2 _ refl (omega (arith, h))
          (λ l hl. then_slice 2 10 _ (omega arith) h (λ stock. hl))

    parse-Arm : (t : ℕ) → t < 256 → Arm (length buf) (min_payload t) (parse text t buf)
    unfolding parse min_payload
    parse-Arm t small =
        let n = length buf in
        if-Arm n ((t == 65) || (t == 70)) 35 _ (parse_add_order text buf) _
          (arm 35 (parse_add_order text buf) parse_add_order-Returns)
          (if-Arm n (t == 69) 30 _ (parse_executed text buf) _
            (arm 30 (parse_executed text buf) parse_executed-Returns)
            (if-Arm n (t == 67) 35 _ (parse_executed_with_price text buf) _
              (arm 35 (parse_executed_with_price text buf) parse_executed_with_price-Returns)
              (if-Arm n (t == 88) 22 _ (parse_cancel text buf) _
                (arm 22 (parse_cancel text buf) parse_cancel-Returns)
                (if-Arm n (t == 68) 18 _ (parse_delete text buf) _
                  (arm 18 (parse_delete text buf) parse_delete-Returns)
                  (if-Arm n (t == 85) 34 _ (parse_replace text buf) _
                    (arm 34 (parse_replace text buf) parse_replace-Returns)
                    (if-Arm n (t == 80) 43 _ (parse_trade text buf) _
                      (arm 43 (parse_trade text buf) parse_trade-Returns)
                      (if-Arm n (t == 82) 10 _ (parse_directory text buf) _
                        (arm 10 (parse_directory text buf) parse_directory-Returns)
                        (arm 0 (done (other t)) (λ h. small)))))))))

    pub parse-Returns :
        (t : ℕ) → t < 256 → min_payload t ≤ length buf → Returns IsFitting (parse text t buf)
    unfolding Arm
    parse-Returns t small = parse-Arm t small

module _ {S : Type 0} {E : Type 0} where
  -- A message that is returned fits, and one that is refused for its length is shorter than its arm.
  abbrev pub IsRead : ItchResult S E → Type 0
  IsRead end_of_stream = Unit
  IsRead (message msg) = IsFitting msg
  IsRead (failed (read_error e)) = Unit
  IsRead (failed zero_length) = Unit
  IsRead (failed (too_short msg_type have need)) = (need ≡ min_payload msg_type) × (have < need)

  module _ (text : List ℕ → S) {R : Type 0} (reader : Reader R E) where
    read_message-Returns :
        (p : ItchParser S R) (msg : List ℕ)
        → AreBytes msg
        → 0 < length msg
        → Returns (λ r. IsRead r.1) (read_message text reader p msg)
    unfolding read_message
    read_message-Returns p [] all h = elim h [ ]
    read_message-Returns p (t ∷ payload) all h =
        elim (Bool-cases (ltb (length payload) (min_payload t))) [
          | inl e ↦ rw (read_message, e) (refl, ground (arith, e))
          | inr e ↦
              rw (read_message, e)
                (>>=-Returns IsFitting _ (parse text t payload) _
                  (parse-Returns text payload all.1 t all.0 (ground (arith, e))) (λ msg fits. fits))
        ]

    read_body-Returns :
        (p : ItchParser S R) (x : R × ReadResult E) (n : ℕ)
        → 0 < n
        → ((bs : List ℕ) → x.1 ≡ bytes bs → (length bs ≡ n) × AreBytes bs)
        → Returns (λ r. IsRead r.1) (read_body text reader p x)
    unfolding read_body
    read_body-Returns p (r, error e) n h exact = tt
    read_body-Returns p (r, bytes msg) n h exact =
        let (size, all) = exact msg refl in read_message-Returns _ msg all (omega (arith, size, h))

    read_length-Returns :
        (p : ItchParser S R) (x : R × ReadResult E)
        → Returns (λ r. IsRead r.1) (read_length text reader p x)
    unfolding read_length
    read_length-Returns p (r, error e) = tt
    read_length-Returns p (r, bytes buf) = elim (Bool-cases (be_loop 0 buf == 0)) [
      | inl e ↦ rw (read_length, e) tt
      | inr e ↦
          rw (read_length, e)
            (read_body-Returns p (reader.read_exact r (be_loop 0 buf)) (be_loop 0 buf)
              (ground (arith, e)) (reader.exact r (be_loop 0 buf)))
    ]

    -- Whatever bytes the reader gives, reading the next message returns and never panics: no slice
    -- or index is out of range. The fields of a message that it returns fit 48 bits for a
    -- timestamp, 64 for a reference or match number, 32 for shares and prices and 16 for a locate
    -- code; a message refused for its length has fewer bytes than the arm of its type reads.
    pub next_message-Returns :
        (p : ItchParser S R) → Returns (λ r. IsRead r.1) (next_message text reader p)
    unfolding next_message
    next_message-Returns p = read_length-Returns p (reader.read_exact p.reader 2)
