-- ===== src/Codec/Runs.antt =====
-- Runs of sessions, and their theorems at concrete inputs. The platform of the runs has one byte
-- for each unit of a text, and writes the whole part of a number below 256.
use bungohan.Base.{
  ℕ, ◌≡◌, refl, arith, Bool, true, false, Option, none, some, List, [], ◌∷◌, length, ◌++◌, take,
}
use bungohan.Base.Int.{pos, negsuc}
use bungohan.Numbers.{Double, nan, infinite, finite, double, is_int_of}
use bungohan.Serializer.Writer
use bungohan.Serializer.Writer.{Encoder}
use bungohan.Codec.FieldType.{units}
use bungohan.Codec.Tables
use bungohan.Codec.Tables.{Tables}
use bungohan.Codec.Platform.{Platform, IsPlatform}
use bungohan.Codec.Values.{number, text, flag}
use bungohan.Codec.Ops
use bungohan.Codec.Ops.{key, WireOp}
use bungohan.Base.Dict
use bungohan.Serializer.Text.{
  may_need_replacing, replace_units, wire_string, ascii_loop, decode_utf8,
}
use bungohan.Serializer.Varint.{write_loop, write_varint, varint_size, var_size_loop}
use bungohan.Serializer.Zigzag
use bungohan.Serializer.Zigzag.{to_uint32, to_int32}
use bungohan.Serializer.Reader
use bungohan.Codec.Ops.{all_parse}
use bungohan.Codec.FieldType.{
  parse_field_type, parse_bracketed, parse_head, index_of, int_kind, primitive_type, key_type,
}
use bungohan.Codec.Tables.{
  begin, define_class, parse_types, layout_of, set_target, bind_collections, bind, add_layout,
  defined, define, rollback, undo_all,
}
use bungohan.Codec.Values.{
  write_scalar, write_int, low_byte, read_scalar, read_int, read_int_value, sign_extend,
}
use bungohan.Codec.Encoder.{
  encode_all, encoded, encode_op, encode_define, write_defined, write_define, write_pairs,
  encode_on, encode_payload, field_of, encode_content, encode_scalar, encode_collection, encode_key,
  then_element,
}
use bungohan.Codec.Encoder.{Sink, encode_ops}
use bungohan.Codec.Encoder.Rollback.{SameTables, encode_ops_failed}
use bungohan.Codec.Decoder.{
  decode_ops, decode_all, decoded, then_more, decode_op, decode_header, decode_define,
  decode_defined, read_pairs, decode_on, decode_collection, decode_set, decode_add, decode_remove,
  decode_content, decode_scalar, decode_key, decode_index,
}
use bungohan.Codec.Decoder.Rollback.{decode_ops_failed}
use bungohan.Codec.Decoder.Progress.{decode_all_ends}
use bungohan.Codec.Decoder.Defines.{ArePlainTexts}
use bungohan.Codec.Decoder.Sent.{sent_ops, AreSendable}
use bungohan.Codec.Decoder.RoundTrip.{decode_ops-encode_ops}
use bungohan.Codec.Tables.Paired.{IsPaired}
use bungohan.Codec.Session
use bungohan.Codec.Session.Stream.{
  encode_batches, decode_frames, sent_batches, decode_frames-encode_batches,
}
use bungohan.Codec.Session.{Call, session, run, run-IsPaired}

abbrev same_bytes : List ℕ → List ℕ
same_bytes value = value

abbrev bytes_into : Encoder
bytes_into value room = value

abbrev from_same : List ℕ → Option (List ℕ)
from_same bytes = some bytes

abbrev eight_bytes : Double → List ℕ
eight_bytes (finite s n f) = n ∷ 0 ∷ 0 ∷ 0 ∷ 0 ∷ 0 ∷ 0 ∷ 0 ∷ []
eight_bytes x = 0 ∷ 0 ∷ 0 ∷ 0 ∷ 0 ∷ 0 ∷ 0 ∷ 0 ∷ []

abbrev four_bytes : Double → List ℕ
four_bytes (finite s n f) = n ∷ 0 ∷ 0 ∷ 0 ∷ []
four_bytes x = 0 ∷ 0 ∷ 0 ∷ 0 ∷ []

abbrev first_byte : List ℕ → Double
first_byte [] = nan
first_byte (n ∷ bytes) = double (pos n)

abbrev is_nan : Double → Bool
is_nan nan = true
is_nan x = false

abbrev platform : Platform Double
platform = record {
  view = λ x. x;
  of_int = double;
  is_nan = is_nan;
  put64 = eight_bytes;
  get64 = first_byte;
  put32 = four_bytes;
  get32 = first_byte;
  encode_into = bytes_into;
  decode = from_same;
}

eight : (x : Double) → length (eight_bytes x) ≡ 8
eight nan = refl
eight (infinite s) = refl
eight (finite s n f) = refl

four : (x : Double) → length (four_bytes x) ≡ 4
four nan = refl
four (infinite s) = refl
four (finite s n f) = refl

platform-IsPlatform : IsPlatform platform same_bytes
platform-IsPlatform = record {
  eight = eight;
  four = four;
  encoder = record { whole = λ value room h. refl; small = λ value. omega arith };
  decoder = record { reads = λ value h. refl; ascii = λ bytes h. refl };
}

-- A class with an integer and a map, whose instance is the root, with the map as target 1.
abbrev ops : List (WireOp Double)
ops =
    Ops.define (double (pos 0)) (units "S") (units "n" ∷ units "m" ∷ [])
      (units "int8" ∷ units "map<string,bool>" ∷ [])
    ∷ Ops.set (double (pos 0)) (double (pos 0)) (key (number (double (negsuc 4))))
    ∷ Ops.add (double (pos 1)) (text (units "k")) (key (flag true))
    ∷ Ops.remove (double (pos 1)) (text (units "k"))
    ∷ []

abbrev start : Sink
start = record { out = Writer.init; tables = Tables.init }

abbrev frame : List ℕ
frame =
    128 ∷ 0 ∷ 1 ∷ 83 ∷ 2 ∷ 1 ∷ 110 ∷ 4 ∷ 105 ∷ 110 ∷ 116 ∷ 56 ∷ 1 ∷ 109 ∷ 16 ∷ 109 ∷ 97 ∷ 112 ∷ 60
    ∷ 115 ∷ 116 ∷ 114 ∷ 105 ∷ 110 ∷ 103 ∷ 44 ∷ 98 ∷ 111 ∷ 111 ∷ 108 ∷ 62 ∷ 16 ∷ 251 ∷ 32 ∷ 1 ∷ 1
    ∷ 107 ∷ 1 ∷ 80 ∷ 1 ∷ 107 ∷ []

encoded_frame : (encode_ops platform start ops).1 ≡ some frame
unfolding encode_ops encode_all encoded encode_op encode_define write_defined write_define
    write_pairs encode_on encode_payload field_of encode_content encode_scalar encode_collection
    encode_key then_element write_scalar write_int low_byte is_int_of Tables.init begin define_class
    parse_types layout_of set_target bind_collections bind add_layout defined define
    parse_field_type parse_bracketed parse_head index_of int_kind primitive_type key_type all_parse
    Writer.init Writer.reset Writer.to_bytes Writer.double Writer.put Writer.reserve Writer.u8
    Writer.unreserved_varint Writer.varint Writer.zigzag Writer.short_string Writer.long_string
    Writer.string may_need_replacing replace_units wire_string write_loop write_varint varint_size
    var_size_loop to_uint32 Zigzag.zigzag Dict.get Dict.set
encoded_frame = refl

texts_kept :
    ArePlainTexts (units "S" ∷ units "n" ∷ units "m" ∷ units "int8" ∷ units "map<string,bool>" ∷ [])
unfolding ArePlainTexts wire_string may_need_replacing
texts_kept = (
  record { short = omega arith; kept = refl },
  (
    record { short = omega arith; kept = refl },
    (
      record { short = omega arith; kept = refl },
      (
        record { short = omega arith; kept = refl },
        (record { short = omega arith; kept = refl }, tt),
      ),
    ),
  ),
)

ops-AreSendable : AreSendable platform ops
unfolding ArePlainTexts
ops-AreSendable =
    let (name, (n, (m, (t, (u, _))))) = texts_kept in
    (
      (omega arith, omega arith, name, (n, (m, tt)), (t, (u, tt))),
      (tt, ((omega arith, tt), (omega arith, tt))),
    )

decode_ops-encode_ops_example :
    decode_ops platform Tables.init frame
    ≡ ((encode_ops platform start ops).0.tables, some (sent_ops platform start ops))
unfolding Tables.init Writer.init
decode_ops-encode_ops_example =
    decode_ops-encode_ops platform same_bytes platform-IsPlatform start Tables.init ops frame
      (record { classes = refl; layouts = refl; targets = refl }) (omega arith) ops-AreSendable
      encoded_frame

ops_arrive : (decode_ops platform Tables.init frame).1 ≡ some ops
unfolding decode_ops decode_all decoded then_more decode_op decode_header decode_define
    decode_defined read_pairs decode_on decode_collection decode_set decode_add decode_remove
    decode_content decode_scalar decode_key decode_index read_scalar read_int read_int_value
    sign_extend is_int_of Tables.init rollback undo_all begin define_class parse_types layout_of
    set_target bind_collections bind add_layout defined define parse_field_type parse_bracketed
    parse_head index_of int_kind primitive_type key_type all_parse Reader.init Reader.remaining
    Reader.fail Reader.u8 Reader.varint_loop Reader.varint Reader.count Reader.zigzag
    Reader.text_read Reader.string_body Reader.string decode_utf8 ascii_loop to_int32 Dict.get
    Dict.set Dict.delete
ops_arrive = refl

-- The last op has a target that is not there.
abbrev bad_ops : List (WireOp Double)
bad_ops = ops ++ (Ops.clear (double (pos 7)) ∷ [])

refused_ops : (encode_ops platform start bad_ops).1 ≡ none
unfolding encode_ops encode_all encoded encode_op encode_define write_defined write_define
    write_pairs encode_on encode_payload field_of encode_content encode_scalar encode_collection
    encode_key then_element write_scalar write_int low_byte is_int_of Tables.init rollback undo_all
    begin define_class parse_types layout_of set_target bind_collections bind add_layout defined
    define parse_field_type parse_bracketed parse_head index_of int_kind primitive_type key_type
    all_parse Writer.init Writer.reset Writer.to_bytes Writer.double Writer.put Writer.reserve
    Writer.u8 Writer.unreserved_varint Writer.varint Writer.zigzag Writer.short_string
    Writer.long_string Writer.string may_need_replacing replace_units wire_string write_loop
    write_varint varint_size var_size_loop to_uint32 Zigzag.zigzag Dict.get Dict.set Dict.delete
refused_ops = refl

encode_ops_failed_example : SameTables start.tables (encode_ops platform start bad_ops).0.tables
unfolding Tables.init
encode_ops_failed_example = encode_ops_failed platform start bad_ops refl refused_ops

-- A frame that ends inside its last text, behind a class and its targets.
abbrev cut_frame : List ℕ
cut_frame = take 40 frame

refused_frame : (decode_ops platform Tables.init cut_frame).1 ≡ none
unfolding decode_ops decode_all decoded then_more decode_op decode_header decode_define
    decode_defined read_pairs decode_on decode_collection decode_set decode_add decode_remove
    decode_content decode_scalar decode_key decode_index read_scalar read_int read_int_value
    sign_extend is_int_of Tables.init rollback undo_all begin define_class parse_types layout_of
    set_target bind_collections bind add_layout defined define parse_field_type parse_bracketed
    parse_head index_of int_kind primitive_type key_type all_parse Reader.init Reader.remaining
    Reader.fail Reader.u8 Reader.varint_loop Reader.varint Reader.count Reader.zigzag
    Reader.text_read Reader.string_body Reader.string decode_utf8 ascii_loop to_int32 Dict.get
    Dict.set Dict.delete
refused_frame = refl

decode_ops_failed_example : SameTables Tables.init (decode_ops platform Tables.init cut_frame).0
unfolding Tables.init
decode_ops_failed_example = decode_ops_failed platform Tables.init cut_frame refl refused_frame

decode_all_ends_example :
    decode_all platform 100 (begin Tables.init, 0) (Reader.init frame)
    ≡ decode_all platform (length frame) (begin Tables.init, 0) (Reader.init frame)
decode_all_ends_example = decode_all_ends platform Tables.init frame 100 (omega arith)

run-IsPaired_example :
    IsPaired
      (run platform
        (session Writer.init)
        (Session.encode ops ∷ Session.encode bad_ops ∷ Session.decode cut_frame ∷ [])).tables
run-IsPaired_example =
    run-IsPaired platform Writer.init
      (Session.encode ops ∷ Session.encode bad_ops ∷ Session.decode cut_frame ∷ [])

-- A second frame, for the map.
abbrev batches : List (List (WireOp Double))
batches = ops ∷ (Ops.add (double (pos 1)) (text (units "q")) (key (flag false)) ∷ []) ∷ []

abbrev frames : List (List ℕ)
frames = frame ∷ (32 ∷ 1 ∷ 1 ∷ 113 ∷ 0 ∷ []) ∷ []

encoded_frames : (encode_batches platform start batches).1 ≡ some frames
unfolding encode_ops encode_all encoded encode_op encode_define write_defined write_define
    write_pairs encode_on encode_payload field_of encode_content encode_scalar encode_collection
    encode_key then_element write_scalar write_int low_byte is_int_of Tables.init begin define_class
    parse_types layout_of set_target bind_collections bind add_layout defined define
    parse_field_type parse_bracketed parse_head index_of int_kind primitive_type key_type all_parse
    Writer.init Writer.reset Writer.to_bytes Writer.double Writer.put Writer.reserve Writer.u8
    Writer.unreserved_varint Writer.varint Writer.zigzag Writer.short_string Writer.long_string
    Writer.string may_need_replacing replace_units wire_string write_loop write_varint varint_size
    var_size_loop to_uint32 Zigzag.zigzag Dict.get Dict.set encode_batches
encoded_frames = refl

decode_frames-encode_batches_example :
    ((decode_frames platform Tables.init frames).1 ≡ sent_batches platform start batches)
    × SameTables
        (encode_batches platform start batches).0.tables
        (decode_frames platform Tables.init frames).0
unfolding Tables.init Writer.init
decode_frames-encode_batches_example =
    decode_frames-encode_batches platform same_bytes platform-IsPlatform start Tables.init batches
      frames (record { classes = refl; layouts = refl; targets = refl }) (omega arith)
      (ops-AreSendable, (((omega arith, tt), tt), tt)) encoded_frames
