-- ===== src/Gate/Release.antt =====
-- What the gate releases of the cells of two parties.
use psa_for_multiparty.Common.{
  ℕ, ◌+◌, ◌*◌, ◌%◌, ◌^◌, ◌<◌, ◌≤◌, ◌≡◌, refl, ◌∙◌, Bool, true, false, ◌&&◌, some, List, [], ◌∷◌,
  map, length, All, ltb, leb, if◌then◌else◌, arith,
}
use psa_for_multiparty.Common.Bits.{bit}
use psa_for_multiparty.Common.Fail.{◌>>=◌}
use psa_for_multiparty.Random.{Prng}
use psa_for_multiparty.Share.{u64, SharedU64, SharedBit, parties, reconstruct, reconstruct_bit}
use psa_for_multiparty.Share.Bit.{Shares}
use psa_for_multiparty.Beaver.Multiply.{secure_multiply_lem, generate_beaver_triple-IsTriple}
use psa_for_multiparty.Bag.{Bag}
use psa_for_multiparty.Bag.Cost.{
  Outcome, IsGoodBag, Outcome-cost, Outcome-end, Outcome-pure, Outcome-bind, Outcome-lift,
}
use psa_for_multiparty.Compare.{secure_less_than_triple_cost}
use psa_for_multiparty.Compare.Sharing.{reconstruct_bin-share_u64_bin}
use psa_for_multiparty.Compare.Reconstruct.{secure_less_than-reconstruct}
use psa_for_multiparty.Sector.{SharedSectorHistogram}
use psa_for_multiparty.Gate.{
  KAnonConfig, GatedCell, PlainGatedCell, gated, reconstruct_gated_cell, mux_cell, gate_cell,
  thresh_minus_one, apply_k_anon_gate, apply_k_anon_gate_batch,
}
use psa_for_multiparty.Gate.Convert.{reconstruct-lt, bit_to_arith_single_lem, arith_to_bit_lem}

-- The fields of a cell are shared between two parties.
pub record IsCell (c : SharedSectorHistogram) : Type 0 where
  pub num_count : parties c.sum_num ≡ 2
  pub den_count : parties c.sum_den ≡ 2
  pub valid_count : parties c.n_valid ≡ 2

-- The cell in the clear, or zeros, by a bit.
abbrev shown : Bool → SharedSectorHistogram → PlainGatedCell
shown v c = record {
  key = c.key;
  metric = c.metric;
  sum_num = if v then reconstruct c.sum_num else 0;
  sum_den = if v then reconstruct c.sum_den else 0;
  n_valid = if v then reconstruct c.n_valid else 0;
  pass = bit v;
}

-- A cell is released when it counts at least one firm and at least k.
abbrev pub released : ℕ → SharedSectorHistogram → PlainGatedCell
released k c = shown (ltb 0 (reconstruct c.n_valid) && leb k (reconstruct c.n_valid)) c

mux_value :
    (v : Bool) (x : SharedU64) → bit v * reconstruct x % u64 ≡ (if v then reconstruct x else 0)
mux_value true x = omega (arith, reconstruct-lt x)
mux_value false x = omega arith

reconstruct-gated :
    (c : SharedSectorHistogram) (v : Bool) (pass : SharedBit) (num den valid : SharedU64)
    → reconstruct_bit pass ≡ bit v
    → reconstruct num ≡ (if v then reconstruct c.sum_num else 0)
    → reconstruct den ≡ (if v then reconstruct c.sum_den else 0)
    → reconstruct valid ≡ (if v then reconstruct c.n_valid else 0)
    → reconstruct_gated_cell (gated c pass num den valid) ≡ shown v c
unfolding reconstruct_gated_cell
reconstruct-gated c v pass num den valid h0 h1 h2 h3 = rw (h0, h1, h2, h3)

threshold :
    (cfg : KAnonConfig) (n : ℕ)
    → cfg.k_thresh < 2 ^ 32
    → ltb (thresh_minus_one cfg % u64) n ≡ (ltb 0 n && leb cfg.k_thresh n)
threshold cfg n h = ground arith

module _ (p : Prng) where
  mux_cell_lem :
      (c : SharedSectorHistogram) {v : Bool} (pass : SharedBit) (w : SharedU64) (g : p.State)
      → IsCell c
      → Shares 2 pass v
      → parties w ≡ 2
      → reconstruct w ≡ bit v
      → (r : GatedCell × p.State) × (mux_cell p c pass w g ≡ some r)
        × (reconstruct_gated_cell r.0 ≡ shown v c)
  unfolding mux_cell reconstruct_gated_cell
  mux_cell_lem c {v} pass w g hc hp nw vw =
      let (t0, g0, e0, h0) = generate_beaver_triple-IsTriple p 2 g (omega arith) in
      let (t1, g1, e1, h1) = generate_beaver_triple-IsTriple p 2 g0 (omega arith) in
      let (t2, g2, e2, h2) = generate_beaver_triple-IsTriple p 2 g1 (omega arith) in
      let (num, e3, _, v3) = secure_multiply_lem w c.sum_num t0 (omega arith) nw hc.num_count h0 in
      let (den, e4, _, v4) = secure_multiply_lem w c.sum_den t1 (omega arith) nw hc.den_count h1 in
      let (valid, e5, _, v5) =
        secure_multiply_lem w c.n_valid t2 (omega arith) nw hc.valid_count h2 in
      (
        (gated c pass num den valid, g2),
        rw (hc.valid_count, e0, e1, e2, e3, e4, e5),
        reconstruct-gated c v pass num den valid hp.value (muxed num c.sum_num v3)
            (muxed den c.sum_den v4) (muxed valid c.n_valid v5),
      )
    where
      muxed :
          (r x : SharedU64)
          → reconstruct r ≡ reconstruct w * reconstruct x % u64
          → reconstruct r ≡ (if v then reconstruct x else 0)
      muxed r x e = e ∙ rw vw (mux_value v x)

  gate_cell_lem :
      (c : SharedSectorHistogram) {v : Bool} (pass : SharedBit) (g : p.State)
      → IsCell c
      → Shares 2 pass v
      → (r : GatedCell × p.State) × (gate_cell p c pass g ≡ some r)
        × (reconstruct_gated_cell r.0 ≡ shown v c)
  unfolding gate_cell
  gate_cell_lem c pass g hc hp =
      let (t, g0, e0, ht) = generate_beaver_triple-IsTriple p 2 g (omega arith) in
      let (w, g1, e1, nw, vw) = bit_to_arith_single_lem p g0 hp ht in
      let (r, e2, h) = mux_cell_lem c pass w g1 hc hp nw vw in
      (r, rw (hc.valid_count, e0, e1, ◌>>=◌, e2), h)

  module _ {bag : Bag} (good : IsGoodBag 2 bag) (cfg : KAnonConfig)
      (small : cfg.k_thresh < 2 ^ 32) where
    apply_k_anon_gate_lem :
        {i : ℕ} (c : SharedSectorHistogram) (g : p.State)
        → i ≤ length bag
        → IsCell c
        → Outcome bag i secure_less_than_triple_cost
            (λ (r : GatedCell × p.State). reconstruct_gated_cell r.0 ≡ released cfg.k_thresh c)
            (apply_k_anon_gate p c cfg g)
    unfolding apply_k_anon_gate
    apply_k_anon_gate_lem c g fits hc =
        let (x, g1, e1, x_word, x_value) =
          arith_to_bit_lem p c.n_valid g (omega (arith, hc.valid_count)) in
        let (k, g2, e2, k_word, k_value) =
          reconstruct_bin-share_u64_bin p (parties c.n_valid) (thresh_minus_one cfg) g1
            (omega (arith, hc.valid_count)) in
        Outcome-lift _ e1 (
          Outcome-lift _ e2 (
            Outcome-cost {c = secure_less_than_triple_cost + 0} (omega arith) (
              Outcome-bind
                (secure_less_than-reconstruct (omega arith) good k x fits
                  (rw hc.valid_count at k_word) (rw hc.valid_count at x_word))
                λ pass fits' h.
                  let (r, e3, hr) =
                    gate_cell_lem c pass g2 hc
                      (rw (k_value, x_value, threshold cfg (reconstruct c.n_valid) small) at h) in
                  Outcome-end e3 fits' hr)))

    -- For two parties, a bag of triples for them, cells shared between them and a threshold of 32
    -- bits, the gate started inside the bag either consumes exactly `secureLessThanTripleCost()`
    -- triples for each cell and returns, for every state of the generator, as many cells, each of
    -- which reconstructs to the cell's totals and the bit 1 when it counts at least one firm and at
    -- least `k_thresh`, and to zeros otherwise; or it finds fewer triples left and throws.
    pub apply_k_anon_gate_batch_lem :
        (cells : List SharedSectorHistogram) (g : p.State) {i : ℕ}
        → i ≤ length bag
        → All IsCell cells
        → Outcome bag i
            (length cells * secure_less_than_triple_cost)
            (λ (r : List GatedCell × p.State).
              map reconstruct_gated_cell r.0 ≡ map (released cfg.k_thresh) cells)
            (apply_k_anon_gate_batch p cells cfg g)
    unfolding apply_k_anon_gate_batch secure_less_than_triple_cost
    apply_k_anon_gate_batch_lem [] g fits h =
        Outcome-cost {c = 0} (omega arith) (Outcome-pure ([], g) fits refl)
    apply_k_anon_gate_batch_lem (c ∷ cells) g fits h =
        Outcome-cost
          {c = secure_less_than_triple_cost + (length cells * secure_less_than_triple_cost + 0)}
          (omega arith)
          (Outcome-bind (apply_k_anon_gate_lem c g fits h.0) λ r fits1 h1.
            Outcome-bind (apply_k_anon_gate_batch_lem cells r.1 fits1 h.1)
              λ rest fits2 h2. Outcome-pure (r.0 ∷ rest.0, rest.1) fits2 (rw (h1, h2)))
