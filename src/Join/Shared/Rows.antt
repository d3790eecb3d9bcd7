-- ===== src/Join/Shared/Rows.antt =====
-- The expansion in the clear, as the digits of the number of a combination pick its tuples, and one
-- row of the shared expansion against it.
use psa_for_multiparty.Common.{
  ℕ, suc, ◌+◌, ◌-◌, ◌*◌, ◌/◌, ◌^◌, ◌≤◌, ◌<◌, ◌≡◌, refl, ap, ◌∙◌, Bool, true, Option, some, List, [],
  ◌∷◌, ◌++◌, length, get_elem?, take, drop, All, arith, length-append, take_all,
}
use psa_for_multiparty.Common.Fail
use psa_for_multiparty.Share.{SharedBit}
use psa_for_multiparty.Share.Bit.{Shares}
use psa_for_multiparty.Bag.{Bag}
use psa_for_multiparty.Bag.Cost.{
  Outcome, IsGoodBag, Outcome-cost, Outcome-pure, Outcome-bind, Outcome-lift,
}
use psa_for_multiparty.Compare.Word.{SharesAll, SharesAll-length, Holds}
use psa_for_multiparty.Sort.{SharedSortElement}
use psa_for_multiparty.Sort.Elements.{Clear, StandsAll, StandsAll-get}
use psa_for_multiparty.Join.Shared.{
  MpcJoinRow, pick_shared, first_digit, secure_and_chain, shared_row,
}
use psa_for_multiparty.Join.Shared.Words.{
  SharesAll-append, SharesAll-drop, SharesAll-get_elem?, first_bits_lem, length-drop,
  extract_id_from_composite_lem,
}
use psa_for_multiparty.Join.Shared.Windows.{all_of, secure_and_chain_lem}

pub record ClearRow : Type 0 where
  pub id : ℕ
  pub joined_payload : List Bool
  pub is_intersection : Bool

-- A shared row stands for a row in the clear, with `blocks` bits of payload.
pub record StandsRow (n blocks : ℕ) (row : MpcJoinRow) (c : ClearRow) : Type 0 where
  pub id : Holds n row.id c.id
  pub payload : SharesAll n row.joined_payload c.joined_payload
  pub width : length row.joined_payload ≡ blocks
  pub flag : Shares n row.is_intersection c.is_intersection

-- The tuples at the digits, one in each block of `m` tuples: their data and their flags.
unfoldable pub pick_clear : List Clear → ℕ → ℕ → List ℕ → Option (List Bool × List Bool)
pick_clear es m base [] = some ([], [])
pick_clear es m base (d ∷ ds) = Fail.◌>>=◌ (get_elem? es (base + d)) λ e.
    Fail.◌>>=◌ (get_elem? e.payload 0) λ flag.
      Fail.◌>>=◌ (pick_clear es m (base + m) ds)
        λ others. some (drop 1 e.payload ++ others.0, flag ∷ others.1)

abbrev pub conjunction : List Bool → Bool
conjunction [] = true
conjunction (p ∷ ps) = all_of p ps

-- The row at the digits: the id of the first tuple picked, the data of all, and whether all are real.
abbrev pub clear_row : List Clear → ℕ → ℕ → ℕ → List ℕ → Option ClearRow
clear_row es m b base ds = Fail.◌>>=◌ (first_digit ds) λ d.
    Fail.◌>>=◌ (get_elem? es (base + d)) λ e. Fail.◌>>=◌ (pick_clear es m base ds) λ picked.
      some (record {
        id = e.key / 2 ^ b;
        joined_payload = picked.0;
        is_intersection = conjunction picked.1;
      })

module _ (n r m : ℕ) where
  -- What a shared pick is.
  record Picks (bag : List SharedSortElement) (es : List Clear) (base : ℕ) (ds : List ℕ)
      : Type 0 where
    shared : List SharedBit × List SharedBit
    clear : List Bool × List Bool
    shared_eq : pick_shared bag m r base ds ≡ some shared
    clear_eq : pick_clear es m base ds ≡ some clear
    payload : SharesAll n shared.0 clear.0
    width : length shared.0 ≡ length ds * r
    flags : SharesAll n shared.1 clear.1
    count : length shared.1 ≡ length ds

  pick_shared_lem :
      (bag : List SharedSortElement) (es : List Clear) (base : ℕ) (ds : List ℕ)
      → StandsAll n (1 + r) bag es
      → All (λ d. d < m) ds
      → base + length ds * m ≤ length bag
      → Picks bag es base ds
  unfolding pick_shared pick_clear
  pick_shared_lem bag es base [] h digits fits = record {
    shared = ([], []);
    clear = ([], []);
    shared_eq = refl;
    clear_eq = refl;
    payload = tt;
    width = omega arith;
    flags = tt;
    count = refl;
  }
  pick_shared_lem bag es base (d ∷ ds) h (lt, digits) fits =
      let (x, e, ex, ee, stands) =
        StandsAll-get n (1 + r) bag es (base + d) h (omega (arith, fits, lt)) in
      let (flag, p, flag_eq, p_eq, flag_h) =
        SharesAll-get_elem? n 0 x.payload e.payload stands.payload (omega (arith, stands.width)) in
      let (bits, bits_eq, bits_h, bits_n) =
        first_bits_lem n r (drop 1 x.payload) (drop 1 e.payload)
          (SharesAll-drop n 1 x.payload e.payload stands.payload)
          (omega (arith, stands.width, length-drop 1 x.payload)) in
      let whole : take r (drop 1 e.payload) ≡ drop 1 e.payload = take_all r (drop 1 e.payload) (
        omega (
          arith,
          stands.width,
          SharesAll-length n x.payload e.payload stands.payload,
          length-drop 1 e.payload,
        )) in
      let rest = pick_shared_lem bag es (base + m) ds h digits (omega (arith, fits)) in
      record {
        shared = (bits ++ rest.shared.0, flag ∷ rest.shared.1);
        clear = (drop 1 e.payload ++ rest.clear.0, p ∷ rest.clear.1);
        shared_eq = rw (ex, flag_eq, bits_eq, rest.shared_eq) refl;
        clear_eq = rw (ee, p_eq, rest.clear_eq) refl;
        payload =
            SharesAll-append n bits rest.shared.0 _ rest.clear.0 (rw whole at bits_h) rest.payload;
        width = length-append bits rest.shared.0 ∙ omega (arith, bits_n, rest.width);
        flags = (flag_h, rest.flags);
        count = ap suc rest.count;
      }

abbrev pub RowAt : ℕ → ℕ → List Clear → ℕ → ℕ → ℕ → List ℕ → MpcJoinRow → Type 0
RowAt n blocks es m b base ds row =
    (c : ClearRow) × (clear_row es m b base ds ≡ some c) × StandsRow n blocks row c

module _ {n : ℕ} (pos : 0 < n) {bag : Bag} (good : IsGoodBag n bag) (r m b : ℕ)
    (small : b ≤ 64) where
  chain_lem :
      (xs : List SharedBit) (ps : List Bool) {i : ℕ}
      → i ≤ length bag
      → SharesAll n xs ps
      → 1 ≤ length xs
      → Outcome bag i (length xs - 1) (λ x. Shares n x (conjunction ps)) (secure_and_chain xs)
  chain_lem [] ps fits h le = absurd (omega arith)
  chain_lem (x ∷ xs) [] fits h le = absurd h
  chain_lem (x ∷ xs) (p ∷ ps) fits h le =
      Outcome-cost (omega arith) (secure_and_chain_lem pos good x xs p ps fits h.0 h.1)

  pub shared_row_lem :
      (sorted : List SharedSortElement) (es : List Clear) (base d : ℕ) (ds : List ℕ) {i : ℕ}
      → i ≤ length bag
      → StandsAll n (1 + r) sorted es
      → All (λ t. t < m) (d ∷ ds)
      → base + length (d ∷ ds) * m ≤ length sorted
      → Outcome bag i
          (length ds)
          (RowAt n (length (d ∷ ds) * r) es m b base (d ∷ ds))
          (shared_row sorted m b r base (d ∷ ds))
  unfolding shared_row
  shared_row_lem sorted es base d ds fits h digits inside =
      let (x, e, ex, ee, stands) =
        StandsAll-get n (1 + r) sorted es (base + d) h (omega (arith, inside, digits.0)) in
      let (id, id_eq, id_h) = extract_id_from_composite_lem x.key b small stands.key in
      let picks = pick_shared_lem n r m sorted es base (d ∷ ds) h digits inside in
      Outcome-lift _ ex (
        Outcome-lift _ id_eq (
          Outcome-lift _ picks.shared_eq (
            Outcome-cost (omega (arith, picks.count)) (
              Outcome-bind
                (chain_lem picks.shared.1 picks.clear.1 fits picks.flags
                  (omega (arith, picks.count)))
                λ flag fits' flag_h. Outcome-pure _ fits' (
                  record {
                    id = e.key / 2 ^ b;
                    joined_payload = picks.clear.0;
                    is_intersection = conjunction picks.clear.1;
                  },
                  rw (ee, picks.clear_eq) refl,
                  record { id = id_h; payload = picks.payload; width = picks.width; flag = flag_h },
                )))))
