-- ===== src/Join/Meta.antt =====
-- The metadata block of a tuple, which volePSI/MpJoinExpander.cpp packs and unpacks.
use psa_for_multiparty.Common.{ℕ, ◌^◌, ◌<◌, ◌≡◌, refl, Bool, true, false, some, arith}
use psa_for_multiparty.Join.{to_bytes, of_bytes, pack_tuple_meta, unpack_tuple_meta}

of_bytes-to_bytes : (v : ℕ) → v < 2 ^ 32 → of_bytes (to_bytes 4 v) ≡ v
of_bytes-to_bytes v h = omega arith

-- For indices below 2^32, unpacking the packed metadata of a tuple returns its indices and its flag.
pub unpack_tuple_meta-pack_tuple_meta :
    (party row : ℕ) (real : Bool)
    → party < 2 ^ 32
    → row < 2 ^ 32
    → unpack_tuple_meta (pack_tuple_meta party row real)
      ≡ some (record { party_idx = party; row_idx = row; is_real = real })
unfolding unpack_tuple_meta pack_tuple_meta
unpack_tuple_meta-pack_tuple_meta party row true hp hr =
    rw (of_bytes-to_bytes party hp, of_bytes-to_bytes row hr) refl
unpack_tuple_meta-pack_tuple_meta party row false hp hr =
    rw (of_bytes-to_bytes party hp, of_bytes-to_bytes row hr) refl
