-- ===== src/Gate.antt =====
-- volePSI/MpsvsKAnonGate.h and volePSI/MpsvsKAnonGate.cpp: the gate that releases a shared sector cell
-- when it counts at least `k_thresh` firms, and zeros otherwise. It reads the bag of bit triples and
-- draws from the generator, whose state it returns. Reading the share of a missing party is undefined
-- in the source, and `none` here.
pub mod Convert
pub mod Release
use psa_for_multiparty.Common.{
  ℕ, ◌+◌, ◌-◌, Option, none, some, List, [], ◌∷◌, get_elem?, ◌==◌, if◌then◌else◌, bit_and,
}
use psa_for_multiparty.Common.Fail
use psa_for_multiparty.Random.{Prng}
use psa_for_multiparty.Share.{
  SharedU64, SharedBit, parties, bit_parties, reconstruct, reconstruct_bit, add_shared, sub_shared,
  mul_const, share_u64,
}
use psa_for_multiparty.Beaver.{BeaverTripleU64, secure_multiply, generate_beaver_triple}
use psa_for_multiparty.Bag.{M, ◌>>=◌, ◌>>◌, pure, lift}
use psa_for_multiparty.Compare.{
  SharedU64Bin, share_u64_bin, secure_less_than, secure_less_than_triple_cost,
}
use psa_for_multiparty.Inclusion.{Metric}
use psa_for_multiparty.Sector.{SectorKey, SharedSectorHistogram}

pub record KAnonConfig : Type 0 where
  pub k_thresh : ℕ

pub record GatedCell : Type 0 where
  pub key : SectorKey
  pub metric : Metric
  pub sum_num_gated : SharedU64
  pub sum_den_gated : SharedU64
  pub n_valid_gated : SharedU64
  pub pass : SharedBit

pub record PlainGatedCell : Type 0 where
  pub key : SectorKey
  pub metric : Metric
  pub sum_num : ℕ
  pub sum_den : ℕ
  pub n_valid : ℕ
  pub pass : ℕ

unfoldable pub k_anon_triple_budget_per_cell : ℕ
k_anon_triple_budget_per_cell = secure_less_than_triple_cost + 100

unfoldable pub reconstruct_gated_cell : GatedCell → PlainGatedCell
reconstruct_gated_cell g = record {
  key = g.key;
  metric = g.metric;
  sum_num = reconstruct g.sum_num_gated;
  sum_den = reconstruct g.sum_den_gated;
  n_valid = reconstruct g.n_valid_gated;
  pass = reconstruct_bit g.pass;
}

abbrev pub thresh_minus_one : KAnonConfig → ℕ
thresh_minus_one cfg = if cfg.k_thresh == 0 then 0 else cfg.k_thresh - 1

-- the cell that the last step returns
abbrev pub gated : SharedSectorHistogram → SharedBit → SharedU64 → SharedU64 → SharedU64 → GatedCell
gated cell pass num den valid = record {
  key = cell.key;
  metric = cell.metric;
  sum_num_gated = num;
  sum_den_gated = den;
  n_valid_gated = valid;
  pass = pass;
}

module _ (p : Prng) where
  open p use {State}

  unfoldable pub arith_to_bit : SharedU64 → State → Option (SharedU64Bin × State)
  arith_to_bit x g = share_u64_bin p (parties x) (reconstruct x) g

  -- a0 + a1 - 2·a0·a1, for the shares of parties 0 and 1
  unfoldable pub bit_to_arith_single :
      SharedBit → BeaverTripleU64 → State → Option (SharedU64 × State)
  bit_to_arith_single b triple g = Fail.◌>>=◌ (get_elem? b.shares 0) λ s0.
      Fail.◌>>=◌ (share_u64 p (bit_parties b) (bit_and s0 1) g) λ a0.
        Fail.◌>>=◌ (get_elem? b.shares 1) λ s1.
          Fail.◌>>=◌ (share_u64 p (bit_parties b) (bit_and s1 1) a0.1) λ a1.
            Fail.◌>>=◌ (secure_multiply a0.0 a1.0 triple) λ prod.
              Fail.◌>>=◌ (add_shared a0.0 a1.0)
                λ sum. Fail.◌>>=◌ (sub_shared sum (mul_const prod 2)) λ r. some (r, a1.1)

  -- step 4, with its three triples
  unfoldable pub mux_cell :
      SharedSectorHistogram → SharedBit → SharedU64 → State → Option (GatedCell × State)
  mux_cell cell pass pass_arith g =
      Fail.◌>>=◌ (generate_beaver_triple p (parties cell.n_valid) g) λ t_num.
        Fail.◌>>=◌ (generate_beaver_triple p (parties cell.n_valid) t_num.1) λ t_den.
          Fail.◌>>=◌ (generate_beaver_triple p (parties cell.n_valid) t_den.1) λ t_n.
            Fail.◌>>=◌ (secure_multiply pass_arith cell.sum_num t_num.0) λ num.
              Fail.◌>>=◌ (secure_multiply pass_arith cell.sum_den t_den.0) λ den.
                Fail.◌>>=◌ (secure_multiply pass_arith cell.n_valid t_n.0)
                  λ valid. some (gated cell pass num den valid, t_n.1)

  -- steps 3 and 4: the pass bit as a word, and the fields times that word
  unfoldable pub gate_cell : SharedSectorHistogram → SharedBit → State → Option (GatedCell × State)
  gate_cell cell pass g = Fail.◌>>=◌ (generate_beaver_triple p (parties cell.n_valid) g) λ t_b2a.
      Fail.◌>>=◌ (bit_to_arith_single pass t_b2a.0 t_b2a.1)
        λ pass_arith. mux_cell cell pass pass_arith.0 pass_arith.1

  unfoldable pub apply_k_anon_gate :
      SharedSectorHistogram → KAnonConfig → State → M (GatedCell × State)
  apply_k_anon_gate cell cfg g = do
    n_valid_bin ← lift (arith_to_bit cell.n_valid g)
    thresh_bin ← lift (share_u64_bin p (parties cell.n_valid) (thresh_minus_one cfg) n_valid_bin.1)
    pass ← secure_less_than thresh_bin.0 n_valid_bin.0
    lift (gate_cell cell pass thresh_bin.1)

  unfoldable pub apply_k_anon_gate_batch :
      List SharedSectorHistogram → KAnonConfig → State → M (List GatedCell × State)
  apply_k_anon_gate_batch [] cfg g = pure ([], g)
  apply_k_anon_gate_batch (c ∷ cells) cfg g = do
    r ← apply_k_anon_gate c cfg g
    rest ← apply_k_anon_gate_batch cells cfg r.1
    pure (r.0 ∷ rest.0, rest.1)
