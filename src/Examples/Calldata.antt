-- ===== src/Examples/Calldata.antt =====
-- An instance of the calldata round trip (mempool-il/internal/mempool).
use bloc.Prelude.{ℕ, zero, suc, ◌+◌, ◌≡◌, refl, [], ◌∷◌, arith, length}
use bloc.Prelude.Bytes.{Bytes}
use bloc.Mempool.Calldata.{
  parsed, hex_encode, prefixed, parse_placeholder_calldata, build_placeholder_calldata,
}
use bloc.Mempool.Calldata.RoundTrip.{parse-build}

abbrev repeated : ℕ → Bytes
repeated zero = []
repeated (suc n) = 171 ∷ repeated n

abbrev target : Bytes
target = repeated 32

abbrev payload : Bytes
payload = 222 ∷ 173 ∷ []

parse-build_example :
    parse_placeholder_calldata
      (λ b. b)
      (prefixed (hex_encode (build_placeholder_calldata target 21000 payload)))
    ≡ parsed (record {
      commitment_hex = prefixed (hex_encode target);
      requested_gas = 21000;
      encrypted_payload_hex = prefixed (hex_encode payload);
      encrypted_payload_hash = prefixed payload;
      calldata_bytes = 68 + length payload;
    })
parse-build_example =
    parse-build (λ b. b) target payload 21000 refl (omega arith) (omega arith) (omega arith)
      (omega arith)
