-- ===== src/Mac/Batched.antt =====
-- What the batched check of the tags accepts.
use psa_for_multiparty.Common.{true, List, [], ◌∷◌, length, ◌==◌, ◌≡◌, ◌↔◌, sym, ap, ◌∙◌, arith}
use psa_for_multiparty.Mac.{BlockOps, AuthShare, size, dot, verify_auth_shares_batched}
use psa_for_multiparty.Mac.Laws.{IsRing}
use psa_for_multiparty.Mac.Verify.{both, same_size, xor-interchange, zero-mul}

module _ (ops : BlockOps) where
  open ops use {Block, zero_block, xor_block, gf128_mul, same_block}

  -- How far the tag at each position is from the product of the key and the data.
  abbrev pub errors : Block → List Block → List Block → List Block → List Block → List Block
  errors alpha (d1 ∷ ds1) (t1 ∷ ts1) (d2 ∷ ds2) (t2 ∷ ts2) =
      xor_block (xor_block t1 t2) (gf128_mul alpha (xor_block d1 d2)) ∷ errors alpha ds1 ts1 ds2 ts2
  errors alpha _ _ _ _ = []

  abbrev pub weighted : List Block → List Block → Block
  weighted (c ∷ cs) (e ∷ es) = xor_block (gf128_mul c e) (weighted cs es)
  weighted _ _ = zero_block

  module _ (laws : IsRing ops) where
    open laws use {xor_comm, xor_assoc, xor_self, xor_zero, mul_comm, mul_assoc, mul_xor, same_iff}

    add_zero : (a : Block) → xor_block a zero_block ≡ a
    add_zero a = xor_comm a zero_block ∙ xor_zero a

    -- Two blocks are equal exactly when they differ by zero.
    same_difference : (a b : Block) → (a ≡ b) ↔ (xor_block a b ≡ zero_block)
    same_difference a b = (
      λ e. ap (λ z. xor_block z b) e ∙ xor_self b,
      λ e.
          sym (add_zero a)
          ∙ ap (xor_block a) (sym (xor_self b))
          ∙ sym (xor_assoc a b b)
          ∙ ap (λ z. xor_block z b) e
          ∙ xor_zero b,
    )

    dot-errors :
        (alpha : Block) (cs ds1 ts1 ds2 ts2 : List Block) (x y : Block)
        → length ds1 ≡ length cs
        → length ts1 ≡ length cs
        → length ds2 ≡ length cs
        → length ts2 ≡ length cs
        → xor_block (dot ops x cs ts1 ts2) (gf128_mul alpha (dot ops y cs ds1 ds2))
          ≡ xor_block (xor_block x (gf128_mul alpha y)) (weighted cs (errors alpha ds1 ts1 ds2 ts2))
    unfolding dot
    dot-errors alpha [] [] [] [] [] x y a b c d = sym (add_zero _)
    dot-errors alpha [] (z ∷ zs) ts1 ds2 ts2 x y a b c d = absurd (omega arith)
    dot-errors alpha [] [] (z ∷ zs) ds2 ts2 x y a b c d = absurd (omega arith)
    dot-errors alpha [] [] [] (z ∷ zs) ts2 x y a b c d = absurd (omega arith)
    dot-errors alpha [] [] [] [] (z ∷ zs) x y a b c d = absurd (omega arith)
    dot-errors alpha (k ∷ cs) [] ts1 ds2 ts2 x y a b c d = absurd (omega arith)
    dot-errors alpha (k ∷ cs) (d1 ∷ ds1) [] ds2 ts2 x y a b c d = absurd (omega arith)
    dot-errors alpha (k ∷ cs) (d1 ∷ ds1) (t1 ∷ ts1) [] ts2 x y a b c d = absurd (omega arith)
    dot-errors alpha (k ∷ cs) (d1 ∷ ds1) (t1 ∷ ts1) (d2 ∷ ds2) [] x y a b c d = absurd (omega arith)
    dot-errors alpha (k ∷ cs) (d1 ∷ ds1) (t1 ∷ ts1) (d2 ∷ ds2) (t2 ∷ ts2) x y a b c d =
        let t = xor_block t1 t2 in
        let e = xor_block d1 d2 in
        dot-errors alpha cs ds1 ts1 ds2 ts2 _ _ (omega arith) (omega arith) (omega arith)
          (omega arith)
        ∙ ap (λ z. xor_block z (weighted cs (errors alpha ds1 ts1 ds2 ts2)))
            (ap (xor_block (xor_block x (gf128_mul k t))) (mul_xor alpha y (gf128_mul k e))
              ∙ xor-interchange ops laws x (gf128_mul k t) (gf128_mul alpha y)
                  (gf128_mul alpha (gf128_mul k e))
              ∙ ap (xor_block (xor_block x (gf128_mul alpha y))) (
                  ap (xor_block (gf128_mul k t)) (
                    sym (mul_assoc alpha k e)
                    ∙ ap (λ z. gf128_mul z e) (mul_comm alpha k)
                    ∙ mul_assoc k alpha e)
                  ∙ sym (mul_xor k t (gf128_mul alpha e))))
        ∙ xor_assoc _ _ _

    -- For shares of as many tags as blocks and every key: the batched check accepts exactly when both
    -- shares and the challenge have one size, and the errors of the tags, weighted by the challenge,
    -- sum to zero. So it accepts valid tags, whose errors are zero, and misses an error only when the
    -- challenge cancels it.
    pub verify_auth_shares_batched-errors :
        (alpha : Block) (a1 a2 : AuthShare Block) (challenge : List Block)
        → length a1.tag ≡ length a1.data_blocks
        → length a2.tag ≡ length a2.data_blocks
        → (verify_auth_shares_batched ops a1 a2 alpha challenge ≡ true) ↔ (
            (size ops a1 ≡ size ops a2)
            × (size ops a1 ≡ length challenge)
            × (weighted challenge (errors alpha a1.data_blocks a1.tag a2.data_blocks a2.tag)
                ≡ zero_block))
    unfolding verify_auth_shares_batched
    verify_auth_shares_batched-errors alpha a1 a2 challenge h k = (
      λ v.
          let (first, rest) = both (size ops a1 == size ops a2) _ v in
          let (second, equal) = both (size ops a1 == length challenge) _ rest in
          let n : size ops a1 ≡ size ops a2 = ground (arith, first) in
          let m : size ops a1 ≡ length challenge = ground (arith, second) in
          (n, m, sym (summed n m) ∙ (same_difference _ _).0 ((same_iff _ _).0 equal)),
      λ e.
          rw (same_size _ _ e.0, same_size _ _ e.1)
            ((same_iff _ _).1 ((same_difference _ _).1 (summed e.0 e.1 ∙ e.2))),
    )
      where
        summed :
            size ops a1 ≡ size ops a2
            → size ops a1 ≡ length challenge
            → xor_block
                (dot ops zero_block challenge a1.tag a2.tag)
                (gf128_mul alpha (dot ops zero_block challenge a1.data_blocks a2.data_blocks))
              ≡ weighted challenge (errors alpha a1.data_blocks a1.tag a2.data_blocks a2.tag)
        summed n m =
            dot-errors alpha challenge a1.data_blocks a1.tag a2.data_blocks a2.tag zero_block
              zero_block m (omega arith) (omega arith) (omega arith)
            ∙ ap
                (λ z.
                  xor_block z
                    (weighted challenge (errors alpha a1.data_blocks a1.tag a2.data_blocks a2.tag)))
                (ap (xor_block zero_block) (sym (zero-mul ops laws alpha)) ∙ xor_zero zero_block)
            ∙ xor_zero _
