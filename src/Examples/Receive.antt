-- ===== src/Examples/Receive.antt =====
-- The theorems on what a receiver does, at the datagram `sent`.
use catp.Base.{
  ap, sym, ◌∙◌, ℕ, ◌+◌, ◌≡◌, refl, ◌≢◌, arith, ◌∷◌, [], All, inr, some, none, Option, ◌↔◌,
  if◌then◌else◌, ◌%◌, ◌^◌, List,
}
use catp.Base.Words.{IsByte}
use catp.Errors.{ok, ◌>>=◌}
use catp.Registry.{node_to_collector}
use catp.Registry.MsgType.{message, event}
use catp.Replay
use catp.Replay.{ReplayWindow, entries, check_and_set}
use catp.Replay.History.{is_fresh, answers}
use catp.Replay.Refines.{Refines, is_ok, new-Refines, check_and_set-Refines}
use catp.Replay.Calls.{check_all, check_all-answers}
use catp.Stats.Count.{calls}
use catp.Stats.Named.{value, step8_offset, tally, set_apart_all}
use catp.PeerState.Calls.{accept_all, results}
use catp.PeerState.Tallies.{oversized, accept_all-tallies}
use catp.Wire.Decode.Frames.{Carries, frame_iff}
use catp.Wire.Record.{Record}
use catp.Wire.Datagram.{Datagram}
use catp.Wire.Decode.{Verified, skip_unknown, frame, read_records, decode}
use catp.Wire.Decode.RoundTrip.{decode-encode}
use catp.Wire.Decode.Sent.{decode-encode-record_datagram}
use catp.Wire.Decode.Steps.{Passes}
use catp.Wire.Decode.Window.{Takes, decode_window, decode-ok}
use catp.PeerState.{accept, Slots}
use catp.PeerState.Windows.{held, IsDistinct, held-after_other, after}
use catp.PeerState.Run.{
  Arrival, accepted_pairs, Forward, stop, go, NoRepeats, accepted_pairs-NoRepeats,
}
use catp.Examples.{are_bytes, toy, peer, reading, stranger, sent, wire, received, receiver}
use catp.Examples.Send.{
  built, sealed, fresh, made, reading-IsWellFormed, stranger-IsWellFormed, sent-IsFrom, sent-Framed,
}

wire_bytes_small : All IsByte wire
wire_bytes_small = (
  omega arith,
  (
    omega arith,
    (
      omega arith,
      (
        omega arith,
        (
          omega arith,
          (
            omega arith,
            (
              omega arith,
              (
                omega arith,
                (
                  omega arith,
                  (
                    omega arith,
                    (
                      omega arith,
                      (
                        omega arith,
                        (
                          omega arith,
                          (
                            omega arith,
                            (
                              omega arith,
                              (
                                omega arith,
                                (
                                  omega arith,
                                  (
                                    omega arith,
                                    (
                                      omega arith,
                                      (
                                        omega arith,
                                        (
                                          omega arith,
                                          (
                                            omega arith,
                                            (
                                              omega arith,
                                              (omega arith, (omega arith, (omega arith, tt))),
                                            ),
                                          ),
                                        ),
                                      ),
                                    ),
                                  ),
                                ),
                              ),
                            ),
                          ),
                        ),
                      ),
                    ),
                  ),
                ),
              ),
            ),
          ),
        ),
      ),
    ),
  ),
)

abbrev arrival : Arrival
arrival = record { buf = wire; local_epoch = 22; dir = node_to_collector; now_ms = 0 }

arrivals-Forward : Forward 0 (arrival ∷ arrival ∷ [])
arrivals-Forward =
    go (omega arith) (omega arith) wire_bytes_small
      (go (omega arith) (omega arith) wire_bytes_small stop)

accepted_pairs-NoRepeats_example :
    NoRepeats (accepted_pairs toy 64 receiver (arrival ∷ arrival ∷ []))
accepted_pairs-NoRepeats_example =
    accepted_pairs-NoRepeats toy 64 (omega arith) (omega arith) peer receiver
      (arrival ∷ arrival ∷ []) made arrivals-Forward

decode-encode-record_datagram_example :
    (decode toy 64 wire peer 22 node_to_collector (Replay.new 64)).0
    ≡ ok (skip_unknown peer.layouts 21 sent)
decode-encode-record_datagram_example =
    decode-encode-record_datagram toy 64 message peer 22 21 100 (reading ∷ stranger ∷ []) sent
      node_to_collector (Replay.new 64) 512 wire (omega arith) (inr refl)
      (reading-IsWellFormed, (stranger-IsWellFormed, tt)) built sealed fresh

decode-encode_example : decode toy 64 wire peer 22 node_to_collector (Replay.new 64) ≡ (
  (check_and_set 64 (Replay.new 64) 100).0 >>= (λ u. ok (skip_unknown peer.layouts 21 sent)),
  (check_and_set 64 (Replay.new 64) 100).1,
)
decode-encode_example =
    decode-encode toy 64 peer 22 21 message sent node_to_collector (Replay.new 64) 512 wire
      sent-IsFrom sent-Framed sealed

decoded_eq : decode toy 64 wire peer 22 node_to_collector (Replay.new 64) ≡ (
  (check_and_set 64 (Replay.new 64) 100).0 >>= (λ u. ok (skip_unknown peer.layouts 21 sent)),
  (check_and_set 64 (Replay.new 64) 100).1,
)
decoded_eq =
    decode-encode toy 64 peer 22 21 message sent node_to_collector (Replay.new 64) 512 wire
      sent-IsFrom sent-Framed sealed

accepts : (decode toy 64 wire peer 22 node_to_collector (Replay.new 64)).0 ≡ ok received
unfolding check_and_set skip_unknown Replay.new catp.Wire.Decode.partition catp.Wire.Decode.holds
accepts = ap (λ x. x.0) decoded_eq

decode-ok_example :
    (v : Verified) × (out : Datagram) × Passes toy wire peer 22 node_to_collector v
    × Takes 64
        (Replay.new 64)
        v.out.datagram_offset
        (decode toy 64 wire peer 22 node_to_collector (Replay.new 64)).1
    × (frame v.kind v.out v.payload ≡ ok out)
    × (received ≡ skip_unknown peer.layouts v.epoch_id out)
decode-ok_example = decode-ok toy 64 wire peer 22 node_to_collector (Replay.new 64) received accepts

some-ne-none : (n : ℕ) → ◌≢◌ {A = Option ℕ} (some n) none
some-ne-none n h = cc

changes : (decode toy 64 wire peer 22 node_to_collector (Replay.new 64)).1 ≢ Replay.new 64
unfolding check_and_set Replay.new
changes h =
    some-ne-none 100 (ap (λ (w : ReplayWindow). w.high) (sym (ap (λ x. x.1) decoded_eq) ∙ h))

decode_window_example :
    (v : Verified) × Passes toy wire peer 22 node_to_collector v
    × Takes 64
        (Replay.new 64)
        v.out.datagram_offset
        (decode toy 64 wire peer 22 node_to_collector (Replay.new 64)).1
decode_window_example = decode_window toy 64 wire peer 22 node_to_collector (Replay.new 64) changes

check_and_set-Refines_example :
    (is_ok (check_and_set 64 (Replay.new 64) 100).0 ≡ is_fresh (entries 64) [] 100)
    × Refines 64
        (check_and_set 64 (Replay.new 64) 100).1
        (if is_fresh (entries 64) [] 100 then 100 ∷ [] else [])
check_and_set-Refines_example =
    check_and_set-Refines 64 (omega arith) (omega arith) (Replay.new 64) [] 100
      (new-Refines 64 (omega arith) (omega arith)) (omega arith)

check_all-answers_example :
    check_all 64 (Replay.new 64) (100 ∷ 90 ∷ 100 ∷ 5000 ∷ 900 ∷ [])
    ≡ answers (entries 64) [] (100 ∷ 90 ∷ 100 ∷ 5000 ∷ 900 ∷ [])
check_all-answers_example =
    check_all-answers 64 (omega arith) (omega arith) (100 ∷ 90 ∷ 100 ∷ 5000 ∷ 900 ∷ [])
      (omega arith, (omega arith, (omega arith, (omega arith, (omega arith, tt)))))

abbrev two_windows : Slots
two_windows = record {
  slot0 = some (record { epoch = 21; window = Replay.new 64 });
  slot1 = some (record { epoch = 22; window = Replay.new 64 });
}

two_windows-IsDistinct : IsDistinct two_windows
unfolding catp.PeerState.Windows.apart
two_windows-IsDistinct = refl

held-after_other_example :
    held 22 (
      after 64 22 21 two_windows
        (omega arith)
        (omega arith, omega arith)
        two_windows-IsDistinct
        (Replay.new 64))
    ≡ held 22 two_windows
held-after_other_example =
    held-after_other 64 22 21 two_windows (omega arith) (omega arith, omega arith)
      two_windows-IsDistinct 22 (Replay.new 64) (omega arith, omega arith) (λ h. ground arith)

accept_all-tallies_example :
    (value step8_offset (accept_all toy 64 receiver (arrival ∷ arrival ∷ [])).stats
      ≡ tally step8_offset (results toy 64 receiver (arrival ∷ arrival ∷ [])))
    × (calls (accept_all toy 64 receiver (arrival ∷ arrival ∷ [])).stats
          + oversized (results toy 64 receiver (arrival ∷ arrival ∷ []))
        ≡ 2)
    × ((accept_all toy 64 receiver (arrival ∷ arrival ∷ [])).stats.skipped_records
        ≡ set_apart_all (results toy 64 receiver (arrival ∷ arrival ∷ [])) % 2 ^ 64)
accept_all-tallies_example =
    accept_all-tallies toy 64 peer receiver (arrival ∷ arrival ∷ []) step8_offset made (omega arith)

frame_iff_example :
    (frame event sent (16 ∷ 16 ∷ 2 ∷ 10 ∷ 20 ∷ []) ≡ ok (record sent { records = reading ∷ [] }))
    ↔ ((rs : List Record) × Carries event (16 ∷ 16 ∷ 2 ∷ 10 ∷ 20 ∷ []) rs
        × (record sent { records = reading ∷ [] } ≡ record sent { records = rs }))
frame_iff_example =
    frame_iff event sent (16 ∷ 16 ∷ 2 ∷ 10 ∷ 20 ∷ []) (record sent { records = reading ∷ [] }) refl
      (are_bytes (16 ∷ 16 ∷ 2 ∷ 10 ∷ 20 ∷ []) refl)
