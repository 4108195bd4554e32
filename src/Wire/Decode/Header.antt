-- ===== src/Wire/Decode/Header.antt =====
-- The header is read back from its bytes.
use catp.Base.{ℕ, ◌+◌, ◌*◌, ◌/◌, ◌%◌, ◌≡◌, arith, bit_and, [], ◌++◌}
use catp.Base.Bits.{and_0x07, and_0x0f, and_0x1f, or_bytes}
use catp.Base.Words.{Bytes}
use catp.Wire.Datagram.{Datagram, header_bytes}
use catp.Wire.Datagram.Header.{IsHeader, header_bytes-eq}
use catp.Wire.Decode.{parse_header}

-- A datagram with no payload yet.
abbrev pub bare : Datagram → Datagram
bare d = record d { records = []; raw = [] }

fields :
    (v m c e r o s v' m' c' e' r' o' s' : ℕ)
    → v ≡ v'
    → m ≡ m'
    → c ≡ c'
    → e ≡ e'
    → r ≡ r'
    → o ≡ o'
    → s ≡ s'
    → ◌≡◌ {A = Datagram}
        (record {
          version = v;
          msg_type = m;
          cipher_id = c;
          epoch_low = e;
          reserved = r;
          datagram_offset = o;
          sender_id = s;
          records = [];
          raw = [];
        })
        (record {
          version = v';
          msg_type = m';
          cipher_id = c';
          epoch_low = e';
          reserved = r';
          datagram_offset = o';
          sender_id = s';
          records = [];
          raw = [];
        })
fields v m c e r o s v' m' c' e' r' o' s' p1 p2 p3 p4 p5 p6 p7 = rw (p1, p2, p3, p4, p5, p6, p7)

-- For a well-formed header: whatever follows its bytes, its fields are read back.
pub parse_header-header_bytes :
    (d : Datagram) (rest : Bytes) → IsHeader d → parse_header (header_bytes d ++ rest) ≡ bare d
unfolding parse_header
parse_header-header_bytes d rest v = rw (header_bytes-eq d v) (
    fields _ _ _ _ _ _ _ _ _ _ _ _ _ _
      (omega (arith, and_0x07 ((d.version * 32 + d.msg_type) / 32)))
      (omega (arith, and_0x1f (d.version * 32 + d.msg_type)))
      (omega (arith, and_0x0f ((d.cipher_id * 16 + d.epoch_low) / 16)))
      (omega (arith, and_0x0f (d.cipher_id * 16 + d.epoch_low)))
      (omega (arith, and_0x1f ((d.reserved * 8 + d.datagram_offset / 65536) / 8)))
      (omega (
        arith,
        and_0x07 (d.reserved * 8 + d.datagram_offset / 65536),
        or_bytes (bit_and (d.reserved * 8 + d.datagram_offset / 65536) 0x07)
            (d.datagram_offset / 256 % 256) (d.datagram_offset % 256) (omega arith) (omega arith),
      ))
      (omega arith))
