-- ===== src/Join/Shared/Encoding.antt =====
-- Shared rows as elements of the shared sort, and back: what the elements stand for.
use psa_for_multiparty.Common.{
  ℕ, zero, suc, ◌+◌, ◌*◌, ◌/◌, ◌%◌, ◌<◌, ◌≡◌, refl, sym, ap, ◌∙◌, Bool, true, false, not, Option,
  some, List, [], ◌∷◌, ◌++◌, map, length, get_elem?, take, drop, replicate, ◌==◌, if◌then◌else◌,
  arith, length-append, length-replicate, take_all,
}
use psa_for_multiparty.Common.Fail
use psa_for_multiparty.Common.Bits.{bit}
use psa_for_multiparty.Share.{zero_bit}
use psa_for_multiparty.Share.Bit.{zero_bit_lem}
use psa_for_multiparty.Bag.{not_shared}
use psa_for_multiparty.Bag.Cost.{not_shared_lem}
use psa_for_multiparty.Compare.Word.{SharesAll-length, value_of}
use psa_for_multiparty.Sort.{SharedSortElement}
use psa_for_multiparty.Sort.Swap.{Stands}
use psa_for_multiparty.Sort.Elements.{Clear, StandsAll}
use psa_for_multiparty.Join.Shared.{
  MpcJoinRow, encode_shared, encode_all, decode_shared, decode_all_shared,
}
use psa_for_multiparty.Join.Shared.Words.{
  SharesAll-append, SharesAll-drop, SharesAll-replicate, SharesAll-get_elem?, first_bits_lem,
  length-drop,
}
use psa_for_multiparty.Join.Shared.Rows.{ClearRow, StandsRow}
use psa_for_multiparty.Join.Shared.Expand.{StandsRows}

-- `count` bits of a number, the lowest first.
unfoldable pub bits_of : ℕ → ℕ → List Bool
bits_of zero v = []
bits_of (suc count) v = not (v % 2 == 0) ∷ bits_of count (v / 2)

pub bits_of-value_of : (ps : List Bool) → bits_of (length ps) (value_of ps) ≡ ps
unfolding bits_of
bits_of-value_of [] = refl
bits_of-value_of (p ∷ ps) =
    let half : (bit p + 2 * value_of ps) / 2 ≡ value_of ps = halves p (value_of ps) in
    rw (half, lowest p (value_of ps)) (ap (λ t. p ∷ t) (bits_of-value_of ps))
  where
    halves : (q : Bool) (v : ℕ) → (bit q + 2 * v) / 2 ≡ v
    halves true v = omega arith
    halves false v = omega arith

    lowest : (q : Bool) (v : ℕ) → not ((bit q + 2 * v) % 2 == 0) ≡ q
    lowest true v = ground arith
    lowest false v = ground arith

same_test : {a b : ℕ} → a ≡ b → (a == b) ≡ true
same_test h = ground arith

abbrev pub clear_key : ClearRow → ℕ
clear_key c = if c.is_intersection then 0 else 1

-- The row in the clear as the sort gets it.
unfoldable pub encode_clear : ClearRow → Clear
encode_clear c = record {
  key = clear_key c;
  payload = bits_of 64 c.id ++ (c.joined_payload ++ (c.is_intersection ∷ []));
}

unfoldable pub decode_clear : ℕ → Clear → Option ClearRow
decode_clear blocks e = Fail.◌>>=◌ (get_elem? e.payload (64 + blocks)) λ flag. some (record {
  id = value_of (take 64 e.payload);
  joined_payload = take blocks (drop 64 e.payload);
  is_intersection = flag;
})

-- The rows that the elements in the clear decode to.
abbrev pub Decodes : ℕ → List Clear → List ClearRow → Type 0
Decodes blocks [] [] = Unit {0}
Decodes blocks [] (c ∷ cs) = ⊥
Decodes blocks (e ∷ es) [] = ⊥
Decodes blocks (e ∷ es) (c ∷ cs) = (decode_clear blocks e ≡ some c) × Decodes blocks es cs

module _ {n : ℕ} (pos : 0 < n) (blocks : ℕ) where
  encode_shared_lem :
      (row : MpcJoinRow) (c : ClearRow)
      → StandsRow n blocks row c
      → (x : SharedSortElement) × (encode_shared n blocks row ≡ some x)
        × Stands n (64 + blocks + 1) x (encode_clear c)
  unfolding encode_shared encode_clear
  encode_shared_lem row c h =
      let whole = SharesAll-length n row.id.bits h.id.bools h.id.shared ∙ h.id.width in
      let (ids, ids_eq, ids_h, ids_n) =
        first_bits_lem n 64 row.id.bits h.id.bools h.id.shared (omega (arith, h.id.width)) in
      let digits : take 64 h.id.bools ≡ bits_of 64 c.id =
        take_all 64 h.id.bools (omega (arith, whole))
        ∙ sym (bits_of-value_of h.id.bools)
        ∙ rw (whole, h.id.value) refl in
      let wide : (length row.joined_payload == blocks) ≡ true = same_test h.width in
      (
        record {
          key = record { bits = not_shared row.is_intersection ∷ replicate 63 (zero_bit n) };
          payload = ids ++ (row.joined_payload ++ (row.is_intersection ∷ []));
        },
        rw (wide, ids_eq) refl,
        record {
          key = record {
            bools = not c.is_intersection ∷ replicate 63 false;
            shared = (not_shared_lem pos h.flag, SharesAll-replicate n 63 zero_bit_lem);
            width = ap suc (length-replicate 63 (zero_bit n));
            value = key_value c.is_intersection;
          };
          payload =
              SharesAll-append n ids _ (bits_of 64 c.id) _ (rw digits at ids_h)
                (SharesAll-append n row.joined_payload _ c.joined_payload _ h.payload (h.flag, tt));
          width = omega (
            arith,
            length-append ids (row.joined_payload ++ (row.is_intersection ∷ [])),
            length-append row.joined_payload (row.is_intersection ∷ []),
            ids_n,
            h.width,
          );
        },
      )
    where
      key_value :
          (p : Bool) → bit (not p) + 2 * value_of (replicate 63 false) ≡ (if p then 0 else 1)
      key_value true = refl
      key_value false = refl

  pub encode_all_lem :
      (rows : List MpcJoinRow) (cs : List ClearRow)
      → StandsRows n blocks rows cs
      → (xs : List SharedSortElement) × (encode_all n blocks rows ≡ some xs)
        × StandsAll n (64 + blocks + 1) xs (map encode_clear cs)
        × (length xs ≡ length rows)
  unfolding encode_all
  encode_all_lem [] [] h = ([], refl, tt, refl)
  encode_all_lem [] (c ∷ cs) h = absurd h
  encode_all_lem (row ∷ rows) [] h = absurd h
  encode_all_lem (row ∷ rows) (c ∷ cs) (first, h) =
      let (x, x_eq, x_h) = encode_shared_lem row c first in
      let (xs, xs_eq, xs_h, xs_n) = encode_all_lem rows cs h in
      (x ∷ xs, rw (x_eq, xs_eq) refl, (x_h, xs_h), ap suc xs_n)

  decode_shared_lem :
      (x : SharedSortElement) (e : Clear)
      → Stands n (64 + blocks + 1) x e
      → (row : MpcJoinRow) × (c : ClearRow) × (decode_shared blocks x ≡ some row)
        × (decode_clear blocks e ≡ some c)
        × StandsRow n blocks row c
  unfolding decode_shared decode_clear
  decode_shared_lem x e h =
      let (ids, ids_eq, ids_h, ids_n) =
        first_bits_lem n 64 x.payload e.payload h.payload (omega (arith, h.width)) in
      let (joined, joined_eq, joined_h, joined_n) =
        first_bits_lem n blocks (drop 64 x.payload) (drop 64 e.payload)
          (SharesAll-drop n 64 x.payload e.payload h.payload)
          (omega (arith, h.width, length-drop 64 x.payload)) in
      let (flag, p, flag_eq, p_eq, flag_h) =
        SharesAll-get_elem? n (64 + blocks) x.payload e.payload h.payload
          (omega (arith, h.width)) in
      (
        record { id = record { bits = ids }; joined_payload = joined; is_intersection = flag },
        record {
          id = value_of (take 64 e.payload);
          joined_payload = take blocks (drop 64 e.payload);
          is_intersection = p;
        },
        rw (ids_eq, joined_eq, flag_eq) refl,
        rw p_eq refl,
        record {
          id = record { bools = take 64 e.payload; shared = ids_h; width = ids_n; value = refl };
          payload = joined_h;
          width = joined_n;
          flag = flag_h;
        },
      )

  pub decode_all_shared_lem :
      (xs : List SharedSortElement) (es : List Clear)
      → StandsAll n (64 + blocks + 1) xs es
      → (rows : List MpcJoinRow) × (cs : List ClearRow) × (decode_all_shared blocks xs ≡ some rows)
        × Decodes blocks es cs
        × StandsRows n blocks rows cs
  unfolding decode_all_shared
  decode_all_shared_lem [] [] h = ([], [], refl, tt, tt)
  decode_all_shared_lem [] (e ∷ es) h = absurd h
  decode_all_shared_lem (x ∷ xs) [] h = absurd h
  decode_all_shared_lem (x ∷ xs) (e ∷ es) (first, h) =
      let (row, c, row_eq, c_eq, stands) = decode_shared_lem x e first in
      let (rows, cs, rows_eq, cs_eq, all) = decode_all_shared_lem xs es h in
      (row ∷ rows, c ∷ cs, rw (row_eq, rows_eq) refl, (c_eq, cs_eq), (stands, all))
