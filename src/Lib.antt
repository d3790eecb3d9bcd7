-- ===== src/Lib.antt =====
-- A model of the in-memory protocols of this repository for computing on data that several parties
-- hold: values are split into shares, multiplied with Beaver triples, compared and divided bit by
-- bit, and the joint table of the parties is turned into ratios, inclusion bits, totals and buckets.
--
-- The parts, from the bottom up, with the files of the repository that they model:
--   * Share: volePSI/MpSecretShare.h and .cpp. Words are shared additively modulo 2^64 and bits by
--     XOR; `share_u64` is `shareU64`, `reconstruct` the method of `SharedU64`, and so on. A machine
--     word is a number below 2^64 with its wrap-around written out. A mismatch of party counts, which
--     throws in the code, is `none`.
--   * Beaver: volePSI/MpBeaverTriple.h and .cpp. The trusted dealer and the two operations that use
--     up a triple.
--   * Bag: the vector of bit triples and the index into it that the bit-decomposed operations pass
--     by reference. An operation is a state transformer on the index that fails when the bag is
--     exhausted; Bag.Cost states what an operation of a known cost does.
--   * Compare: volePSI/MpSecureCompare.h and .cpp, words shared bit by bit.
--   * Arithmetic: volePSI/MpMpcArithmetic.h and .cpp.
--   * Inclusion: volePSI/MpsvsInclusion.h and .cpp and the rows of volePSI/MpsvsAlignment.h.
--   * Alignment: volePSI/MpsvsAlignment.h and .cpp. Three sources fill bins of a fixed size with
--     their rows and with dummies; each bin is sorted and merged into the rows that Inclusion reads.
--   * Mac: volePSI/MpMac.h and .cpp. The block type of cryptoTools and its GF(2^128) product are a
--     parameter; Mac.Laws says what the theorems assume of them.
--   * Bitonic: volePSI/MpObliviousSort.h and .cpp, the network on a vector in place.
--   * Bucket: volePSI/MpsvsRatioBucket.h and .cpp; Bucket.Recip is the fixed-point reciprocal.
--   * Rank: volePSI/MpsvsRank.h and .cpp, with the scores in Rank.Score, and volePSI/MpsvsPercentiles.h
--     and .cpp with the floating point rank of a percentile as a parameter.
--   * AuthShare: volePSI/MpsvsAuthShare.h and .cpp. A word goes with a tag, the word times a key, both
--     shared; openings check the tag. AuthShare.Shared has the openings under a key that two parties
--     share, with SHA-256 and the comparison of libsodium as the parameter Sodium, and
--     AuthShare.Sacrifice the check of a triple by a second one.
--   * Sector: the histograms, sums and ratios per sector of volePSI/MpsvsSectorAgg.h and .cpp, with the
--     reciprocal of Bucket.Recip and, in Sector.Audit, the audit against the totals of Inclusion; and
--     the shared cell of volePSI/MpsvsSectorAggWire.h.
--   * Gate: volePSI/MpsvsKAnonGate.h and .cpp, which releases a shared cell or blanks it; it uses
--     Compare on the Bag, then Beaver.
--   * Sort: volePSI/MpMpcSort.h and .cpp, the network of Bitonic on elements whose keys and payloads
--     are shared bit by bit, over Compare and the Bag.
--   * Join: volePSI/MpJoinExpander.h and .cpp, the windows of a sorted vector and their expansion, with
--     volePSI/MpJoinFilter.h and .cpp in Join.Filter; Join.Shared is the join of volePSI/MpMpcJoin.h
--     and .cpp on shared tuples, which sorts by Sort, expands by windows of N * M and filters by Sort.
--   * Shuffle: volePSI/MpCgpShuffle.h and .cpp. Party B permutes a table of rows that is shared between
--     A and B, over the blocks of Mac; Shuffle.Dealer is about the correlation dealt for it, and
--     Shuffle.Round about one round of the cascade.
-- Random is the generator of cryptoTools, which is not in the repository: a parameter with an
-- arbitrary state. Nothing is assumed of what it returns, since the code reduces it. Tests holds runs and
-- applications of the theorems at concrete inputs.
--
-- Fuel: `Compare.and_tree` takes the number of leaves, one level each being enough; the binary
-- searches of Bucket and of Rank.Percentile take the number of buckets. Alignment.padded_size
-- takes the number of rows; the bitonic networks of Bitonic and Sort take the padded size, which
-- exceeds the depth; `Bucket.Recip.range_power` takes 64, beyond which a shift is out of range;
-- the draw of a nonzero key in AuthShare takes the number of draws that are allowed. The theorems
-- are about the code with this fuel.
--
-- Not modelled: the wire protocols, the cryptographic primitives and the drivers, which call
-- libraries that are not in the repository; differential privacy, the midpoints and the default edges
-- of buckets, which are in floating point; the vendored libraries under volePSI/upstream.
pub mod Common
pub mod Random
pub mod Share
pub mod Beaver
pub mod Bag
pub mod Compare
pub mod Arithmetic
pub mod Inclusion
pub mod Bucket
pub mod Alignment
pub mod Mac
pub mod Bitonic
pub mod Rank
pub mod AuthShare
pub mod Sector
pub mod Gate
pub mod Sort
pub mod Join
pub mod Shuffle
mod Tests
