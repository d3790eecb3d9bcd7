-- ===== src/Join/Shared/Front.antt =====
-- The filter of shared rows against the rows in the clear: the rows of the intersection come first.
use psa_for_multiparty.Common.{
  ℕ, ◌+◌, ◌*◌, ◌^◌, ◌-◌, ◌≤◌, ◌<◌, ◌≡◌, refl, sym, ap, ◌∙◌, subst, Bool, true, false, some, List,
  [], ◌∷◌, map, length, if◌then◌else◌, arith, All,
}
use native.Mathlib.Nat.{add-zero}
use psa_for_multiparty.Bag.{Bag}
use psa_for_multiparty.Bag.Cost.{
  Outcome, IsGoodBag, Outcome-cost, Outcome-pure, Outcome-bind, Outcome-lift, Outcome-end,
}
use psa_for_multiparty.Bitonic.Network.{total}
use psa_for_multiparty.Bitonic.Increasing.{Increasing}
use psa_for_multiparty.Bitonic.Ordered.{HasRealKey}
use psa_for_multiparty.Compare.{bin_parties}
use psa_for_multiparty.Compare.Word.{Holds-parties}
use psa_for_multiparty.Sort.{mpc_bitonic_sort_triple_cost}
use psa_for_multiparty.Sort.Elements.{Clear}
use psa_for_multiparty.Sort.Whole.{mpc_bitonic_sort-any}
use psa_for_multiparty.Join.Filter.Encoding.{total-map, total-All, total-zero}
use psa_for_multiparty.Join.Shared.{
  MpcJoinRow, encode_all, mpc_filter_intersection, mpc_filter_intersection_triple_cost,
}
use psa_for_multiparty.Join.Shared.Rows.{ClearRow}
use psa_for_multiparty.Join.Shared.Expand.{StandsRows}
use psa_for_multiparty.Join.Shared.Encoding.{
  clear_key, encode_clear, decode_clear, Decodes, encode_all_lem, decode_all_shared_lem,
}
use psa_for_multiparty.Join.Shared.Kept.{
  IsClearRow, StandsRows-IsClearRow, decode_clear-encode_clear, decoded, misfit, Decodes-total,
  Decodes-keys, misfit-encode_clear,
}

abbrev pub IsDummy : ClearRow → Type 0
IsDummy c = c.is_intersection ≡ false

-- Behind a row that is not of the intersection there is none of it.
abbrev pub IntersectionFirst : List ClearRow → Type 0
IntersectionFirst [] = Unit {0}
IntersectionFirst (c ∷ cs) = (IsDummy c → All IsDummy cs) × IntersectionFirst cs

-- Rows that stand for those of `cs`, all of them and no other, with the intersection in front.
pub record FilteredRows (n blocks : ℕ) (cs : List ClearRow) (out : List MpcJoinRow) : Type 0 where
  pub clear : List ClearRow
  pub stands : StandsRows n blocks out clear
  pub totals : (f : ClearRow → ℕ) → total f clear ≡ total f cs
  pub front : IntersectionFirst clear

dummies :
    (cs : List ClearRow) (es : List Clear)
    → map clear_key cs ≡ map (λ e. e.key) es
    → All (λ e. 1 ≤ e.key) es
    → All IsDummy cs
dummies [] es k h = tt
dummies (c ∷ cs) [] k h = absurd (ground (arith, k))
dummies (c ∷ cs) (e ∷ es) k (le, h) =
    let key : clear_key c ≡ e.key = cc k in
    let rest : map clear_key cs ≡ map (λ (x : Clear). x.key) es = cc k in
    (ground (arith, key, le), dummies cs es rest h)

keys-IntersectionFirst :
    (cs : List ClearRow) (es : List Clear)
    → map clear_key cs ≡ map (λ e. e.key) es
    → Increasing es
    → IntersectionFirst cs
keys-IntersectionFirst [] es k h = tt
keys-IntersectionFirst (c ∷ cs) [] k h = absurd (ground (arith, k))
keys-IntersectionFirst (c ∷ cs) (e ∷ es) k (above, h) =
    let key : clear_key c ≡ e.key = cc k in
    let rest : map clear_key cs ≡ map (λ (x : Clear). x.key) es = cc k in
    (
      λ dummy.
          let one : e.key ≡ 1 = sym key ∙ rw dummy refl in
          dummies cs es rest (subst (λ t. All (λ x. t ≤ x.key) es) one above),
      keys-IntersectionFirst cs es rest h,
    )

encoded-HasRealKey : (cs : List ClearRow) → All HasRealKey (map encode_clear cs)
unfolding encode_clear
encoded-HasRealKey [] = tt
encoded-HasRealKey (c ∷ cs) = (small c.is_intersection, encoded-HasRealKey cs)
  where
    small : (b : Bool) → (if b then 0 else 1) < 2 ^ 64 - 1
    small true = omega arith
    small false = omega arith

module _ {n : ℕ} (pos : 0 < n) (blocks : ℕ) where
  filtered :
      (cs : List ClearRow) (es : List Clear) (out : List MpcJoinRow) (ds : List ClearRow)
      → All (IsClearRow blocks) cs
      → ((f : Clear → ℕ) → total f es ≡ total f (map encode_clear cs))
      → Increasing es
      → Decodes blocks es ds
      → StandsRows n blocks out ds
      → FilteredRows n blocks cs out
  filtered cs es out ds ok sums increasing decodes stands =
      let fits : total (λ e. misfit (decode_clear blocks e) e) es ≡ 0 =
        sums (λ e. misfit (decode_clear blocks e) e)
        ∙ total-map (λ e. misfit (decode_clear blocks e) e) encode_clear cs
        ∙ total-All _ (λ c. 0) cs (misfit-encode_clear blocks) ok
        ∙ total-zero cs in
      record {
        clear = ds;
        stands = stands;
        totals = λ f.
            Decodes-total blocks f es ds decodes
            ∙ sums (λ e. decoded (decode_clear blocks e) f)
            ∙ total-map (λ e. decoded (decode_clear blocks e) f) encode_clear cs
            ∙ total-All _ f cs (λ c h. ap (λ o. decoded o f) (decode_clear-encode_clear blocks c h))
                ok;
        front = keys-IntersectionFirst ds es (Decodes-keys blocks es ds decodes fits) increasing;
      }

module _ {n : ℕ} (pos : 0 < n) {bag : Bag} (good : IsGoodBag n bag) (parties r : ℕ) where
  -- For at least one sharing party, a bag of triples for them, and rows that stand for rows of N * W
  -- bits in the clear: the filter started inside the bag either consumes exactly
  -- `mpcFilterIntersectionTripleCost` triples and returns rows that stand for the same rows,
  -- rearranged, with those of the intersection in front; or it finds fewer triples left and throws.
  pub mpc_filter_intersection_lem :
      (rows : List MpcJoinRow) (cs : List ClearRow) {i : ℕ}
      → i ≤ length bag
      → StandsRows n (parties * r) rows cs
      → Outcome bag i
          (mpc_filter_intersection_triple_cost (length rows) parties r)
          (FilteredRows n (parties * r) cs)
          (mpc_filter_intersection rows parties r)
  unfolding mpc_filter_intersection mpc_filter_intersection_triple_cost mpc_bitonic_sort_triple_cost
  mpc_filter_intersection_lem [] [] fits h =
      Outcome-pure [] fits (record { clear = []; stands = tt; totals = λ f. refl; front = tt })
  mpc_filter_intersection_lem [] (c ∷ cs) fits h = absurd h
  mpc_filter_intersection_lem (row ∷ rows) [] fits h = absurd h
  mpc_filter_intersection_lem (row ∷ rows) (c ∷ cs) fits h =
      let blocks = parties * r in
      let (xs, xs_eq, xs_h, xs_n) = encode_all_lem pos blocks (row ∷ rows) (c ∷ cs) h in
      let encoded : encode_all (bin_parties row.id) blocks (row ∷ rows) ≡ some xs =
        subst (λ k. encode_all k blocks (row ∷ rows) ≡ some xs) (sym (Holds-parties row.id h.0.id))
          xs_eq in
      Outcome-lift _ encoded (
        Outcome-cost (add-zero _ ∙ ap (λ k. mpc_bitonic_sort_triple_cost k (64 + blocks + 1)) xs_n)
          (Outcome-bind
            (mpc_bitonic_sort-any pos (64 + blocks + 1) good xs (map encode_clear (c ∷ cs)) fits
              xs_h)
            λ ys fits' s.
              let (out, ds, out_eq, decodes, stands) =
                decode_all_shared_lem pos blocks ys s.clear s.stands in
              Outcome-end out_eq fits' (
                filtered pos blocks (c ∷ cs) s.clear out ds
                  (StandsRows-IsClearRow n blocks (row ∷ rows) (c ∷ cs) h)
                  (s.rearranged (encoded-HasRealKey (c ∷ cs))).1 s.increasing decodes stands)))
