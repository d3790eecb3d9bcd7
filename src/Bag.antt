-- ===== src/Bag.antt =====
-- The bag of bit triples that the secure operations share: the arguments `triples` and
-- `tripleIndex` of volePSI/MpSecureCompare.cpp, volePSI/MpMpcArithmetic.cpp and
-- volePSI/MpMpcSort.cpp. An operation reads the triples, moves the index on, and returns a result
-- or throws; the index of a call that throws is not used again. The index does not reach 2^64.
pub mod Cost
use psa_for_multiparty.Common.{
  ℕ, suc, ◌+◌, Bool, Option, none, some, List, length, get_elem?, leb, if◌then◌else◌,
}
use psa_for_multiparty.Common.Fail
use psa_for_multiparty.Share.{SharedBit, xor_const}
use psa_for_multiparty.Beaver.{BeaverTripleBit, secure_and}

abbrev pub Bag : Type 0
Bag = List BeaverTripleBit

abbrev pub M : Type 0 → Type 0
M A = Bag → ℕ → Option (A × ℕ)

infixl 5 ◌>>=◌ ◌>>◌
abbrev pub ◌>>=◌ : {A B : Type 0} → M A → (A → M B) → M B
◌>>=◌ m f bag i = elim (m bag i) [ none ↦ none | some (a, j) ↦ f a bag j ]

abbrev pub ◌>>◌ : {B : Type 0} → M (Unit {0}) → M B → M B
m >> k = m >>= λ _. k

abbrev pub pure : {A : Type 0} → A → M A
pure a bag i = some (a, i)

-- A step that reads no triple; `none` is an exception.
abbrev pub lift : {A : Type 0} → Option A → M A
lift none bag i = none
lift (some a) bag i = some (a, i)

-- `takeTriple`: throws when the bag is exhausted.
unfoldable pub take_triple : M BeaverTripleBit
take_triple bag i =
    if leb (length bag) i
    then none
    else elim (get_elem? bag i) [ none ↦ none | some t ↦ some (t, i + 1) ]

-- `secureAnd(a, b, takeTriple(triples, tripleIndex))`
unfoldable pub and_next : SharedBit → SharedBit → M SharedBit
unfolding take_triple
and_next a b = do t ← take_triple; lift (secure_and a b t)

-- `notShared`: party 0 flips its share.
unfoldable pub not_shared : SharedBit → SharedBit
not_shared a = xor_const a 1
