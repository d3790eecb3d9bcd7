-- ===== src/Join/Shared/Kept.antt =====
-- Rows in the clear encoded for the sort and decoded after it, whatever their order.
use psa_for_multiparty.Common.{
  ℕ, zero, suc, ◌+◌, ◌/◌, ◌^◌, ◌<◌, ◌≡◌, refl, ap, ◌∙◌, subst, Bool, true, Option, some, none, List,
  [], ◌∷◌, ◌++◌, map, length, get_elem?, take, drop, ◌==◌, if◌then◌else◌, arith, All, length-append,
}
use mathlib.Core.List.{append_assoc}
use native.Mathlib.Nat.{pow-suc}
use psa_for_multiparty.Bitonic.Network.{total}
use psa_for_multiparty.Compare.Word.{SharesAll-length, value_of, value_of-lt}
use psa_for_multiparty.Sort.Elements.{Clear}
use psa_for_multiparty.Join.Shared.{MpcJoinRow}
use psa_for_multiparty.Join.Shared.Words.{bit_test}
use psa_for_multiparty.Join.Shared.Rows.{ClearRow, StandsRow}
use psa_for_multiparty.Join.Shared.Expand.{StandsRows}
use psa_for_multiparty.Join.Shared.Encoding.{
  bits_of, clear_key, encode_clear, decode_clear, Decodes,
}

module _ {A : Type 0} where
  take-append : (xs ys : List A) → take (length xs) (xs ++ ys) ≡ xs
  take-append [] ys = refl
  take-append (x ∷ xs) ys = ap (λ t. x ∷ t) (take-append xs ys)

  drop-append : (xs ys : List A) → drop (length xs) (xs ++ ys) ≡ ys
  drop-append [] ys = refl
  drop-append (x ∷ xs) ys = drop-append xs ys

  get_elem?-append :
      (xs : List A) (y : A) (ys : List A) → get_elem? (xs ++ (y ∷ ys)) (length xs) ≡ some y
  get_elem?-append [] y ys = refl
  get_elem?-append (x ∷ xs) y ys = get_elem?-append xs y ys

length-bits_of : (k v : ℕ) → length (bits_of k v) ≡ k
unfolding bits_of
length-bits_of zero v = refl
length-bits_of (suc k) v = ap suc (length-bits_of k (v / 2))

value_of-bits_of : (k v : ℕ) → v < 2 ^ k → value_of (bits_of k v) ≡ v
unfolding bits_of
value_of-bits_of zero v lt = omega (arith, lt)
value_of-bits_of (suc k) v lt =
    omega (arith, bit_test v, value_of-bits_of k (v / 2) (omega (arith, lt, pow-suc 2 k)))

-- A row in the clear that a shared row stands for.
pub record IsClearRow (blocks : ℕ) (c : ClearRow) : Type 0 where
  pub id : c.id < 2 ^ 64
  pub payload : length c.joined_payload ≡ blocks

StandsRow-IsClearRow :
    (n blocks : ℕ) (row : MpcJoinRow) (c : ClearRow)
    → StandsRow n blocks row c
    → IsClearRow blocks c
StandsRow-IsClearRow n blocks row c h = record {
  id =
      subst (λ t. t < 2 ^ 64) h.id.value
        (subst (λ k. value_of h.id.bools < 2 ^ k)
          (SharesAll-length n row.id.bits h.id.bools h.id.shared ∙ h.id.width)
          (value_of-lt h.id.bools));
  payload = SharesAll-length n row.joined_payload c.joined_payload h.payload ∙ h.width;
}

pub StandsRows-IsClearRow :
    (n blocks : ℕ) (rows : List MpcJoinRow) (cs : List ClearRow)
    → StandsRows n blocks rows cs
    → All (IsClearRow blocks) cs
StandsRows-IsClearRow n blocks [] [] h = tt
StandsRows-IsClearRow n blocks [] (c ∷ cs) h = absurd h
StandsRows-IsClearRow n blocks (row ∷ rows) [] h = absurd h
StandsRows-IsClearRow n blocks (row ∷ rows) (c ∷ cs) (first, h) =
    (StandsRow-IsClearRow n blocks row c first, StandsRows-IsClearRow n blocks rows cs h)

decode_clear_parts :
    (blocks key : ℕ) (ids joined : List Bool) (flag : Bool)
    → length ids ≡ 64
    → length joined ≡ blocks
    → decode_clear blocks (record { key = key; payload = ids ++ (joined ++ (flag ∷ [])) })
      ≡ some (record { id = value_of ids; joined_payload = joined; is_intersection = flag })
unfolding decode_clear
decode_clear_parts blocks key ids joined flag wide size =
    let all = ids ++ (joined ++ (flag ∷ [])) in
    let low : take 64 all ≡ ids =
      subst (λ k. take k all ≡ ids) wide (take-append ids (joined ++ (flag ∷ []))) in
    let high : drop 64 all ≡ joined ++ (flag ∷ []) =
      subst (λ k. drop k all ≡ joined ++ (flag ∷ [])) wide
        (drop-append ids (joined ++ (flag ∷ []))) in
    let middle : take blocks (joined ++ (flag ∷ [])) ≡ joined =
      subst (λ k. take k (joined ++ (flag ∷ [])) ≡ joined) size (take-append joined (flag ∷ [])) in
    let last : get_elem? all (64 + blocks) ≡ some flag =
      subst (λ k. get_elem? all k ≡ some flag)
        (length-append ids joined ∙ omega (arith, wide, size))
        (rw (append_assoc ids joined (flag ∷ [])) at (get_elem?-append (ids ++ joined) flag [])) in
    rw (last, low, high, middle) refl

pub decode_clear-encode_clear :
    (blocks : ℕ) (c : ClearRow)
    → IsClearRow blocks c
    → decode_clear blocks (encode_clear c) ≡ some c
unfolding encode_clear
decode_clear-encode_clear blocks c h =
    decode_clear_parts blocks (clear_key c) (bits_of 64 c.id) c.joined_payload c.is_intersection
      (length-bits_of 64 c.id) h.payload
    ∙ ap
        (λ v. some (record {
          id = v;
          joined_payload = c.joined_payload;
          is_intersection = c.is_intersection;
        }))
        (value_of-bits_of 64 c.id (omega (arith, h.id)))

abbrev pub decoded : Option ClearRow → (ClearRow → ℕ) → ℕ
decoded none f = 0
decoded (some c) f = f c

abbrev pub misfit : Option ClearRow → Clear → ℕ
misfit none e = 1
misfit (some c) e = if e.key == clear_key c then 0 else 1

module _ (blocks : ℕ) where
  pub Decodes-total :
      (f : ClearRow → ℕ) (es : List Clear) (cs : List ClearRow)
      → Decodes blocks es cs
      → total f cs ≡ total (λ e. decoded (decode_clear blocks e) f) es
  Decodes-total f [] [] h = refl
  Decodes-total f [] (c ∷ cs) h = absurd h
  Decodes-total f (e ∷ es) [] h = absurd h
  Decodes-total f (e ∷ es) (c ∷ cs) (eq, h) = rw eq (ap (λ t. f c + t) (Decodes-total f es cs h))

  pub Decodes-keys :
      (es : List Clear) (cs : List ClearRow)
      → Decodes blocks es cs
      → total (λ e. misfit (decode_clear blocks e) e) es ≡ 0
      → map clear_key cs ≡ map (λ e. e.key) es
  Decodes-keys [] [] h fits = refl
  Decodes-keys [] (c ∷ cs) h fits = absurd h
  Decodes-keys (e ∷ es) [] h fits = absurd h
  Decodes-keys (e ∷ es) (c ∷ cs) (eq, h) fits =
      let key : clear_key c ≡ e.key = ground (arith, fits, eq) in
      let rest = Decodes-keys es cs h (ground (arith, fits, eq)) in rw (key, rest) refl

  pub misfit-encode_clear :
      (c : ClearRow)
      → IsClearRow blocks c
      → misfit (decode_clear blocks (encode_clear c)) (encode_clear c) ≡ 0
  unfolding encode_clear
  misfit-encode_clear c h =
      let same : (clear_key c == clear_key c) ≡ true = ground arith in
      rw (decode_clear-encode_clear blocks c h, same) refl
