-- ===== src/Uuid/Tests.antt =====
-- An id from concrete draws.
use zmq_pubsub_testing.Base.{◌≡◌, refl, codes, arith}
use zmq_pubsub_testing.Uuid.{
  generate_uuid, set_hexes, set_at, spaces, hex_char, Fits, version_4, generate_uuid-version_4,
}

zeros : generate_uuid (λ k. 0) 9 ≡ codes "00000000-0000-4000-9000-000000000000"
unfolding generate_uuid set_hexes set_at spaces hex_char
zeros = refl

generate_uuid-version_4_example : Fits version_4 (generate_uuid (λ k. 15) 9)
generate_uuid-version_4_example =
    generate_uuid-version_4 (λ k. 15) 9 (λ k. omega arith) (omega arith) (omega arith)
