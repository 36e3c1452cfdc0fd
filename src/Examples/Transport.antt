-- ===== src/Examples/Transport.antt =====
-- An instance of a frame (bloc-node/internal/app/transport_libp2p_frame.go) with a two-byte prefix.
use bloc.Prelude.{ℕ, zero, suc, ◌≡◌, refl, some, [], ◌∷◌, ◌++◌, arith, leb, if◌then◌else◌, length}
use bloc.Prelude.Bytes.{Bytes}
use bloc.Transport.Frame.{
  payload, refused, too_large, put_uvarint, write_envelope_frame, read_envelope_frame,
}
use bloc.Transport.Frame.RoundTrip.{read-write}

abbrev filled : ℕ → Bytes
filled zero = []
filled (suc n) = 5 ∷ filled n

abbrev envelope : Bytes
envelope = filled 130

envelope-length : length envelope ≡ 130
envelope-length = refl

envelope-written : write_envelope_frame envelope ≡ some (130 ∷ 1 ∷ envelope)
unfolding write_envelope_frame put_uvarint
envelope-written = refl

read-write_example :
    read_envelope_frame 1000 ((130 ∷ 1 ∷ envelope) ++ 9 ∷ [])
    ≡ (if leb (length envelope) 1000 then payload envelope (9 ∷ []) else refused too_large)
read-write_example =
    read-write 1000 envelope (130 ∷ 1 ∷ envelope) (9 ∷ []) (omega arith)
      (omega (arith, envelope-length)) (omega (arith, envelope-length)) envelope-written
