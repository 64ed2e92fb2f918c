-- ===== src/Journal/RoundTrip.antt =====
-- The codec of crates/matchx-journal/src/codec.rs reads back what it writes.
use mathlib.Core.List.{append_assoc}
use native.Mathlib.Nat.{add-zero}
use match_x.Base.{
  ℕ, suc, ◌^◌, ◌<◌, ◌≡◌, refl, List, ◌∷◌, ◌++◌, Option, none, some, length, le→leb, arith,
}
use match_x.Types.{
  Side, bid, ask, OrderType, limit, market, post_only, stop_limit, iceberg, TimeInForce, gtc, ioc,
  fok, Command, new_order, cancel_order, modify_order,
}
use match_x.Journal.Outcome.{ok}
use match_x.Journal.Bytes.{to_le_bytes, from_le_bytes, read_le, read_le-to_le_bytes}
use match_x.Journal.Codec.{
  side_code, order_type_code, tif_code, option_bytes, encode, decode_side, decode_order_type,
  decode_tif, read_option, decode_new_order, decode_modify_order, decode,
}

-- The value fits the width of its field.
abbrev pub OptionFits : ℕ → Option ℕ → Type 0
OptionFits width none = Unit {0}
OptionFits width (some x) = x < 256 ^ width

-- The fields are in the range of their Rust types.
abbrev pub Fits : Command → Type 0
Fits
      (new_order id instrument_id side price qty order_type time_in_force visible_qty stop_price
        stp_group) =
    (id < 256 ^ 8)
    × (instrument_id < 256 ^ 4)
    × (price < 256 ^ 8)
    × (qty < 256 ^ 8)
    × OptionFits 8 visible_qty
    × OptionFits 8 stop_price
    × OptionFits 4 stp_group
Fits (cancel_order id) = id < 256 ^ 8
Fits (modify_order id new_price new_qty) =
    (id < 256 ^ 8) × (new_price < 256 ^ 8) × (new_qty < 256 ^ 8)

read_byte : (x : ℕ) (rest : List ℕ) → read_le 1 (x ∷ rest) ≡ ok (x, rest)
unfolding read_le from_le_bytes
read_byte x rest = rw (le→leb 1 (suc (length rest)) (omega arith), add-zero)

decode_side-side_code : (s : Side) → decode_side (side_code s) ≡ ok s
unfolding decode_side side_code
decode_side-side_code bid = refl
decode_side-side_code ask = refl

decode_order_type-order_type_code : (t : OrderType) → decode_order_type (order_type_code t) ≡ ok t
unfolding decode_order_type order_type_code
decode_order_type-order_type_code limit = refl
decode_order_type-order_type_code market = refl
decode_order_type-order_type_code post_only = refl
decode_order_type-order_type_code stop_limit = refl
decode_order_type-order_type_code iceberg = refl

decode_tif-tif_code : (t : TimeInForce) → decode_tif (tif_code t) ≡ ok t
unfolding decode_tif tif_code
decode_tif-tif_code gtc = refl
decode_tif-tif_code ioc = refl
decode_tif-tif_code fok = refl

read_option-option_bytes :
    (width : ℕ) (o : Option ℕ) (rest : List ℕ)
    → OptionFits width o
    → read_option width (option_bytes width o ++ rest) ≡ ok (o, rest)
unfolding read_option option_bytes
read_option-option_bytes width none rest h = rw (read_byte 0 rest)
read_option-option_bytes width (some x) rest h =
    rw (read_byte 1 (to_le_bytes width x ++ rest), read_le-to_le_bytes width x rest h)

ruleset reads = (
  append_assoc, read_byte, decode_side-side_code, decode_order_type-order_type_code,
  decode_tif-tif_code,
)

-- A command whose fields are in the range of their Rust types is read back from its bytes,
-- whatever bytes follow them.
pub decode-encode :
    (cmd : Command) (rest : List ℕ) → Fits cmd → decode (encode cmd ++ rest) ≡ ok cmd
unfolding decode encode decode_new_order decode_modify_order
decode-encode
      (new_order id instrument_id side price qty order_type time_in_force visible_qty stop_price
        stp_group)
      rest h =
    simp (
      reads,
      read_le-to_le_bytes 8 id _ h.0,
      read_le-to_le_bytes 4 instrument_id _ h.1,
      read_le-to_le_bytes 8 price _ h.2,
      read_le-to_le_bytes 8 qty _ h.3,
      read_option-option_bytes 8 visible_qty _ h.4,
      read_option-option_bytes 8 stop_price _ h.5,
      read_option-option_bytes 4 stp_group rest h.6,
    )
decode-encode (cancel_order id) rest h = simp (reads, read_le-to_le_bytes 8 id rest h)
decode-encode (modify_order id new_price new_qty) rest h = simp (
  reads,
  read_le-to_le_bytes 8 id _ h.0,
  read_le-to_le_bytes 8 new_price _ h.1,
  read_le-to_le_bytes 8 new_qty rest h.2,
)
