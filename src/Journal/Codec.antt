-- ===== src/Journal/Codec.antt =====
-- crates/matchx-journal/src/codec.rs: commands and framed records as bytes.
use match_x.Base.{
  ℕ, ◌+◌, ◌%◌, List, [], ◌∷◌, ◌++◌, Option, none, some, ◌==◌, leb, if◌then◌else◌, length, take,
  drop, u32_mod,
}
use match_x.Types.{
  Side, bid, ask, OrderType, limit, market, post_only, stop_limit, iceberg, TimeInForce, gtc, ioc,
  fok, Command, new_order, cancel_order, modify_order,
}
use match_x.Journal.Outcome.{Result, ok, err, invalid_data, crc_mismatch, require, ◌>>=◌, ◌>>◌}
use match_x.Journal.Bytes.{to_le_bytes, from_le_bytes, read_le}

-- `as u8` of the enums
unfoldable pub side_code : Side → ℕ
side_code bid = 0
side_code ask = 1

unfoldable pub order_type_code : OrderType → ℕ
order_type_code limit = 0
order_type_code market = 1
order_type_code post_only = 2
order_type_code stop_limit = 3
order_type_code iceberg = 4

unfoldable pub tif_code : TimeInForce → ℕ
tif_code gtc = 0
tif_code ioc = 1
tif_code fok = 2

-- `push_option_u64` at width 8, `push_option_u32` at width 4
unfoldable pub option_bytes : ℕ → Option ℕ → List ℕ
option_bytes width none = 0 ∷ []
option_bytes width (some x) = 1 ∷ to_le_bytes width x

unfoldable pub encode : Command → List ℕ
encode
      (new_order id instrument_id side price qty order_type time_in_force visible_qty stop_price
        stp_group) =
    0
    ∷ (to_le_bytes 8 id
        ++ (to_le_bytes 4 instrument_id
            ++ (side_code side
                ∷ (to_le_bytes 8 price
                    ++ (to_le_bytes 8 qty
                        ++ (order_type_code order_type
                            ∷ tif_code time_in_force
                            ∷ (option_bytes 8 visible_qty
                                ++ (option_bytes 8 stop_price ++ option_bytes 4 stp_group))))))))
encode (cancel_order id) = 1 ∷ to_le_bytes 8 id
encode (modify_order id new_price new_qty) =
    2 ∷ (to_le_bytes 8 id ++ (to_le_bytes 8 new_price ++ to_le_bytes 8 new_qty))

unfoldable pub decode_side : ℕ → Result Side
decode_side b = if b == 0 then ok bid else if b == 1 then ok ask else err invalid_data

unfoldable pub decode_order_type : ℕ → Result OrderType
decode_order_type b =
    if b == 0
    then ok limit
    else if b == 1
    then ok market
    else if b == 2
    then ok post_only
    else if b == 3
    then ok stop_limit
    else if b == 4
    then ok iceberg
    else err invalid_data

unfoldable pub decode_tif : ℕ → Result TimeInForce
decode_tif b =
    if b == 0
    then ok gtc
    else if b == 1
    then ok ioc
    else if b == 2
    then ok fok
    else err invalid_data

-- a tag byte, and the value if the tag is 1
unfoldable pub read_option : ℕ → List ℕ → Result (Option ℕ × List ℕ)
read_option width bs = do
  (tag, bs) ← read_le 1 bs
  (if tag == 0
      then ok (none, bs)
      else if tag == 1
      then (do (x, bs) ← read_le width bs; ok (some x, bs))
      else err invalid_data)

unfoldable pub decode_new_order : List ℕ → Result Command
decode_new_order bs = do
  (id, bs) ← read_le 8 bs
  (instrument_id, bs) ← read_le 4 bs
  (side_byte, bs) ← read_le 1 bs
  side ← decode_side side_byte
  (price, bs) ← read_le 8 bs
  (qty, bs) ← read_le 8 bs
  (type_byte, bs) ← read_le 1 bs
  order_type ← decode_order_type type_byte
  (tif_byte, bs) ← read_le 1 bs
  time_in_force ← decode_tif tif_byte
  (visible_qty, bs) ← read_option 8 bs
  (stop_price, bs) ← read_option 8 bs
  (stp_group, bs) ← read_option 4 bs
  ok (
      new_order id instrument_id side price qty order_type time_in_force visible_qty stop_price
        stp_group)

unfoldable pub decode_modify_order : List ℕ → Result Command
decode_modify_order bs = do
  (id, bs) ← read_le 8 bs
  (new_price, bs) ← read_le 8 bs
  (new_qty, bs) ← read_le 8 bs
  ok (modify_order id new_price new_qty)

-- Bytes behind the command are ignored.
unfoldable pub decode : List ℕ → Result Command
decode bs = do
  (opcode, bs) ← read_le 1 bs
  (if opcode == 0
      then decode_new_order bs
      else if opcode == 1
      then (do (id, bs) ← read_le 8 bs; ok (cancel_order id))
      else if opcode == 2
      then decode_modify_order bs
      else err invalid_data)

-- `1 << 20`
abbrev pub max_payload : ℕ
max_payload = 1048576

-- `crc` is `crc32fast::hash`.
module _ (crc : List ℕ → ℕ) where
  unfoldable pub encode_record : ℕ → Command → List ℕ
  encode_record sequence cmd =
      to_le_bytes 4 (length (encode cmd) % u32_mod)
      ++ (to_le_bytes 8 sequence
          ++ (encode cmd ++ to_le_bytes 4 (crc (to_le_bytes 8 sequence ++ encode cmd))))

  -- The sequence number, the command and the number of bytes taken.
  unfoldable pub decode_record : List ℕ → Result (ℕ × Command × ℕ)
  decode_record bs = do
    require (leb 4 (length bs)) invalid_data
    let payload_len = from_le_bytes (take 4 bs)
    require (leb payload_len max_payload) invalid_data
    require (leb (4 + 8 + payload_len + 4) (length bs)) invalid_data
    let sequence = from_le_bytes (take 8 (drop 4 bs))
    let payload = take payload_len (drop 12 bs)
    let stored_crc = from_le_bytes (take 4 (drop (12 + payload_len) bs))
    require (crc (to_le_bytes 8 sequence ++ payload) == stored_crc) crc_mismatch
    cmd ← decode payload
    ok (sequence, cmd, 4 + 8 + payload_len + 4)
