-- ===== src/Alignment/Shape.antt =====
-- `packBins` on the rows of a source that keep its conditions: the bins have a fixed shape.
use psa_for_multiparty.Common.{
  ℕ, zero, suc, ◌+◌, ◌-◌, ◌^◌, ◌≤◌, ◌<◌, true, some, List, [], ◌∷◌, length, replicate, All, leb,
  ◌==◌, if◌then◌else◌, ◌≡◌, refl, ap, ◌∙◌, lt→ltb, length-append, length-replicate, arith,
}
use psa_for_multiparty.Random.{Prng}
use psa_for_multiparty.Alignment.{
  Row, BinParams, BinnedTable, no_duplicate, push_at, place_rows, fits, dummies, fill_bins,
  pack_bins,
}

-- The number of rows of a bin among some rows.
abbrev pub load : ℕ → List Row → ℕ
load b [] = 0
load b (r ∷ rows) = (if r.bin == b then 1 else 0) + load b rows

-- What `packBins` asks of a row.
pub record IsRowOf (source num_bins : ℕ) (r : Row) : Type 0 where
  pub in_bins : r.bin < num_bins
  pub of_source : r.source ≡ source
  pub real : r.memb ≡ 1

-- The rows of a source that `packBins` accepts.
pub record IsInput (source : ℕ) (params : BinParams) (rows : List Row) : Type 0 where
  pub distinct : no_duplicate [] rows ≡ true
  pub each : All (IsRowOf source (2 ^ params.beta)) rows
  pub loads : (b : ℕ) → load b rows ≤ params.cap_p

bin_size : List (List Row) → ℕ → ℕ
bin_size [] i = 0
bin_size (bin ∷ bins) zero = length bin
bin_size (bin ∷ bins) (suc i) = bin_size bins i

length-push_at :
    (bins : List (List Row)) (b : ℕ) (r : Row) → length (push_at bins b r) ≡ length bins
length-push_at [] b r = refl
length-push_at (bin ∷ bins) zero r = refl
length-push_at (bin ∷ bins) (suc b) r = ap suc (length-push_at bins b r)

bin_size-push_at :
    (bins : List (List Row)) (b i : ℕ) (r : Row)
    → b < length bins
    → bin_size (push_at bins b r) i ≡ bin_size bins i + (if b == i then 1 else 0)
unfolding bin_size
bin_size-push_at [] b i r lt = absurd (omega arith)
bin_size-push_at (bin ∷ bins) zero zero r lt = length-append bin (r ∷ [])
bin_size-push_at (bin ∷ bins) zero (suc i) r lt = ground arith
bin_size-push_at (bin ∷ bins) (suc b) zero r lt = ground arith
bin_size-push_at (bin ∷ bins) (suc b) (suc i) r lt =
    ground (arith, bin_size-push_at bins b i r (omega arith))

bin_size-replicate : (n i : ℕ) → bin_size (replicate n []) i ≡ 0
unfolding bin_size
bin_size-replicate zero i = refl
bin_size-replicate (suc n) zero = refl
bin_size-replicate (suc n) (suc i) = bin_size-replicate n i

same_number : (a b : ℕ) → a ≡ b → (a == b) ≡ true
same_number a b h = ground (arith, h)

place_rows_lem :
    (num_bins source : ℕ) (rows : List Row) (bins : List (List Row))
    → length bins ≡ num_bins
    → All (IsRowOf source num_bins) rows
    → (placed : List (List Row)) × (place_rows num_bins source rows bins ≡ some placed)
      × (length placed ≡ num_bins)
      × ((i : ℕ) → bin_size placed i ≡ bin_size bins i + load i rows)
unfolding place_rows
place_rows_lem num_bins source [] bins len h = (bins, refl, len, λ i. omega arith)
place_rows_lem num_bins source (r ∷ rows) bins len h =
    let row = h.0 in
    let (placed, eq, len', sizes) =
      place_rows_lem num_bins source rows (push_at bins r.bin r) (length-push_at bins r.bin r ∙ len)
        h.1 in
    (
      placed,
      rw
          (
            lt→ltb r.bin num_bins row.in_bins,
            same_number r.source source row.of_source,
            same_number r.memb 1 row.real,
          )
          eq,
      len',
      λ i.
          omega (arith, sizes i, bin_size-push_at bins r.bin i r (omega (arith, row.in_bins, len))),
    )

fits-true :
    (cap : ℕ) (bins : List (List Row)) → ((i : ℕ) → bin_size bins i ≤ cap) → fits cap bins ≡ true
unfolding bin_size
fits-true cap [] h = refl
fits-true cap (bin ∷ bins) h =
    rw (le_leb (length bin) cap (h 0)) (fits-true cap bins (λ i. h (suc i)))
  where
    le_leb : (a b : ℕ) → a ≤ b → leb a b ≡ true
    le_leb a b k = ground (arith, k)

module _ (p : Prng) where
  open p use {State}

  length-dummies :
      (b source tau_bits count : ℕ) (g : State)
      → length (dummies p b source tau_bits count g).0 ≡ count
  unfolding dummies
  length-dummies b source tau_bits zero g = refl
  length-dummies b source tau_bits (suc count) g = ap suc (length-dummies b source tau_bits count _)

  fill_bins_lem :
      (b source tau_bits cap : ℕ) (bins : List (List Row)) (g : State)
      → ((i : ℕ) → bin_size bins i ≤ cap)
      → (length (fill_bins p b source tau_bits cap bins g).0 ≡ length bins)
        × All (λ bin. length bin ≡ cap) (fill_bins p b source tau_bits cap bins g).0
  unfolding fill_bins bin_size
  fill_bins_lem b source tau_bits cap [] g h = (refl, tt)
  fill_bins_lem b source tau_bits cap (bin ∷ bins) g h =
      let filled = dummies p b source tau_bits (cap - length bin) g in
      let (len, each) = fill_bins_lem (b + 1) source tau_bits cap bins filled.1 (λ i. h (suc i)) in
      (
        ap suc len,
        (
          omega (
            arith,
            length-append bin filled.0,
            length-dummies b source tau_bits (cap - length bin) g,
            h 0,
          ),
          each,
        ),
      )

  -- For rows without a duplicate entity and period, all real, of the source, in the bins, and no more
  -- of them in any bin than its capacity: `pack_bins` succeeds for every state of the generator, and
  -- its table has 2^beta bins of exactly that capacity, dummies included.
  pub pack_bins_lem :
      (source : ℕ) (params : BinParams) (rows : List Row) (g : State)
      → IsInput source params rows
      → (t : BinnedTable) × (g' : State) × (pack_bins p source rows params g ≡ some (t, g'))
        × (length t.rows ≡ 2 ^ params.beta)
        × All (λ bin. length bin ≡ params.cap_p) t.rows
  unfolding pack_bins
  pack_bins_lem source params rows g h =
      let n = 2 ^ params.beta in
      let (placed, eq, len, sizes) =
        place_rows_lem n source rows (replicate n []) (length-replicate n []) h.each in
      let small : (i : ℕ) → bin_size placed i ≤ params.cap_p =
        λ i. omega (arith, sizes i, bin_size-replicate n i, h.loads i) in
      let (len', each) = fill_bins_lem 0 source params.tau_bits params.cap_p placed g small in
      let filled = fill_bins p 0 source params.tau_bits params.cap_p placed g in
      (
        record { beta = params.beta; cap_p = params.cap_p; rows = filled.0 },
        filled.1,
        rw (h.distinct, eq, fits-true params.cap_p placed small) refl,
        len' ∙ len,
        each,
      )
