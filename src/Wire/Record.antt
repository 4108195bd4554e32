-- ===== src/Wire/Record.antt =====
-- src/wire.rs, `Record`: a packed 24-bit header and a body. A method that writes into a buffer
-- returns the buffer's new content beside its result; after an error the content is not specified.
pub mod RoundTrip
use catp.Base.{
  ℕ, ◌+◌, ◌*◌, ◌/◌, ◌%◌, ◌^◌, bit_and, bit_or, Bool, ◌||◌, ltb, ◌==◌, if◌then◌else◌, List, [], ◌∷◌,
  ◌++◌, length, get_or, take, drop,
}
use catp.Base.Words.{Bytes, as_u8, shl, shr, u32_to_be}
use catp.Errors.{
  Error, framing, body_too_large, buffer_too_small, Result, ok, err, ◌>>=◌, ◌>>◌, reject_if,
}
use catp.Registry.{record_header_len, max_body}

pub record Record : Type 0 where
  pub format : ℕ
  pub schema_version : ℕ
  pub body : Bytes

abbrev pub wire_len : Record → ℕ
wire_len r = record_header_len + length r.body

-- Every shifted field stays below 2^32, so that `<<` on u32 loses nothing.
unfoldable pub header_word : Record → ℕ
header_word r =
    bit_or (bit_or (shl (bit_and r.format 0x0f) 20) (shl (bit_and r.schema_version 0xff) 12))
      (bit_and (length r.body) 0xfff)

-- `out[..3]` gets the last three bytes of the word, and `out[3..need]` the body.
unfoldable pub write_into : Record → Bytes → Result (ℕ × Bytes)
write_into r out = do
  reject_if (length r.body == 0 || ltb max_body (length r.body)) (body_too_large (length r.body))
  let need = wire_len r
  reject_if (ltb (length out) need) (buffer_too_small (length out) need)
  ok (need, take 3 (drop 1 (u32_to_be (header_word r))) ++ (r.body ++ drop need out))

unfoldable pub decode : Bytes → Result (Record × ℕ)
decode buf = do
  reject_if (ltb (length buf) record_header_len) (framing "record header truncated")
  let w = bit_or (bit_or (shl (get_or buf 0 0) 16) (shl (get_or buf 1 0) 8)) (get_or buf 2 0)
  let format = as_u8 (bit_and (shr w 20) 0x0f)
  let schema_version = as_u8 (bit_and (shr w 12) 0xff)
  let size = bit_and w 0xfff
  reject_if (format == 0) (framing "format 0x00 is invalid")
  reject_if (schema_version == 0) (framing "schema_version 0x00 is invalid")
  reject_if (size == 0) (framing "size 0 is invalid")
  let end = record_header_len + size
  reject_if (ltb (length buf) end) (framing "record body overruns payload")
  ok (
    record {
      format = format;
      schema_version = schema_version;
      body = take size (drop record_header_len buf);
    },
    end,
  )
