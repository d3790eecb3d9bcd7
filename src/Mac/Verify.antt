-- ===== src/Mac/Verify.antt =====
-- The tags of two shares under a key, and the two checks of them.
use psa_for_multiparty.Common.{
  ℕ, suc, Bool, true, false, some, List, [], ◌∷◌, length, ◌==◌, if◌then◌else◌, ◌≡◌, ◌↔◌, refl, sym,
  ap, ◌∙◌, arith,
}
use psa_for_multiparty.Mac.{
  BlockOps, AuthShare, size, zip_blocks, xor_auth, check_tags, verify_auth_shares, dot,
  verify_auth_shares_batched,
}
use psa_for_multiparty.Mac.Laws.{IsRing}

-- A conjunction written with `if`.
pub both : (p q : Bool) → (if p then q else false) ≡ true → (p ≡ true) × (q ≡ true)
both true q h = (refl, h)
both false q h = absurd (ground (arith, h))

pub same_size : (n m : ℕ) → n ≡ m → (n == m) ≡ true
same_size n m h = ground (arith, h)

module _ (ops : BlockOps) where
  open ops use {Block, zero_block, xor_block, gf128_mul, same_block}

  -- At each position the tags differ by the product of `alpha` and what the data differ by.
  pub data Tagged (alpha : Block) : List Block → List Block → List Block → List Block → Type 0 where
    no_more : Tagged alpha [] [] [] []
    tagged :
        {d1 t1 d2 t2 : Block} {ds1 ts1 ds2 ts2 : List Block}
        → xor_block t1 t2 ≡ gf128_mul alpha (xor_block d1 d2)
        → Tagged alpha ds1 ts1 ds2 ts2
        → Tagged alpha (d1 ∷ ds1) (t1 ∷ ts1) (d2 ∷ ds2) (t2 ∷ ts2)

  -- Two shares of one vector, with valid tags.
  abbrev pub IsTagged : Block → AuthShare Block → AuthShare Block → Type 0
  IsTagged alpha a1 a2 = Tagged alpha a1.data_blocks a1.tag a2.data_blocks a2.tag

  Tagged-length :
      {alpha : Block} {ds1 ts1 ds2 ts2 : List Block}
      → Tagged alpha ds1 ts1 ds2 ts2
      → (length ts1 ≡ length ds1) × (length ds2 ≡ length ds1) × (length ts2 ≡ length ds1)
  Tagged-length no_more = (refl, refl, refl)
  Tagged-length (tagged h rest) =
      let (a, b, c) = Tagged-length rest in (ap suc a, ap suc b, ap suc c)

  module _ (laws : IsRing ops) where
    open laws use {xor_comm, xor_assoc, xor_self, xor_zero, mul_comm, mul_assoc, mul_xor, same_iff}

    pub xor-interchange :
        (a b c d : Block)
        → xor_block (xor_block a b) (xor_block c d) ≡ xor_block (xor_block a c) (xor_block b d)
    xor-interchange a b c d =
        xor_assoc a b (xor_block c d)
        ∙ ap (xor_block a)
            (sym (xor_assoc b c d) ∙ ap (λ x. xor_block x d) (xor_comm b c) ∙ xor_assoc c b d)
        ∙ sym (xor_assoc a c (xor_block b d))

    xor-Tagged :
        {alpha : Block} {ds1 ts1 ds2 ts2 es1 us1 es2 us2 : List Block}
        → Tagged alpha ds1 ts1 ds2 ts2
        → Tagged alpha es1 us1 es2 us2
        → length ds1 ≡ length es1
        → Tagged alpha
            (zip_blocks xor_block ds1 es1)
            (zip_blocks xor_block ts1 us1)
            (zip_blocks xor_block ds2 es2)
            (zip_blocks xor_block ts2 us2)
    xor-Tagged no_more no_more e = no_more
    xor-Tagged no_more (tagged k ks) e = absurd (omega arith)
    xor-Tagged (tagged h hs) no_more e = absurd (omega arith)
    xor-Tagged {alpha} (tagged {d1} {t1} {d2} {t2} h hs)
          (tagged {d1 = e1} {t1 = u1} {d2 = e2} {t2 = u2} k ks) e =
        tagged
          (xor-interchange t1 u1 t2 u2
            ∙ ap (λ x. xor_block x (xor_block u1 u2)) h
            ∙ ap (xor_block _) k
            ∙ sym (mul_xor alpha (xor_block d1 d2) (xor_block e1 e2))
            ∙ ap (gf128_mul alpha) (xor-interchange d1 d2 e1 e2))
          (xor-Tagged hs ks (omega arith))

    check_tags_sound :
        (alpha : Block) (ds1 ts1 ds2 ts2 : List Block)
        → length ts1 ≡ length ds1
        → length ds2 ≡ length ds1
        → length ts2 ≡ length ds1
        → check_tags ops alpha ds1 ts1 ds2 ts2 ≡ true
        → Tagged alpha ds1 ts1 ds2 ts2
    unfolding check_tags
    check_tags_sound alpha [] [] [] [] a b c h = no_more
    check_tags_sound alpha [] [] [] (t2 ∷ ts2) a b c h = absurd (omega arith)
    check_tags_sound alpha [] [] (d2 ∷ ds2) ts2 a b c h = absurd (omega arith)
    check_tags_sound alpha [] (t1 ∷ ts1) ds2 ts2 a b c h = absurd (omega arith)
    check_tags_sound alpha (d1 ∷ ds1) [] ds2 ts2 a b c h = absurd (omega arith)
    check_tags_sound alpha (d1 ∷ ds1) (t1 ∷ ts1) [] ts2 a b c h = absurd (omega arith)
    check_tags_sound alpha (d1 ∷ ds1) (t1 ∷ ts1) (d2 ∷ ds2) [] a b c h = absurd (omega arith)
    check_tags_sound alpha (d1 ∷ ds1) (t1 ∷ ts1) (d2 ∷ ds2) (t2 ∷ ts2) a b c h =
        let (first, rest) = both _ _ h in
        tagged ((same_iff _ _).0 first)
          (check_tags_sound alpha ds1 ts1 ds2 ts2 (omega arith) (omega arith) (omega arith) rest)

    check_tags_complete :
        {alpha : Block} {ds1 ts1 ds2 ts2 : List Block}
        → Tagged alpha ds1 ts1 ds2 ts2
        → check_tags ops alpha ds1 ts1 ds2 ts2 ≡ true
    unfolding check_tags
    check_tags_complete no_more = refl
    check_tags_complete (tagged h hs) = rw ((same_iff _ _).1 h) (check_tags_complete hs)

    dot-Tagged :
        {alpha : Block} (cs : List Block) {ds1 ts1 ds2 ts2 : List Block} (acc_tag acc : Block)
        → acc_tag ≡ gf128_mul alpha acc
        → Tagged alpha ds1 ts1 ds2 ts2
        → dot ops acc_tag cs ts1 ts2 ≡ gf128_mul alpha (dot ops acc cs ds1 ds2)
    unfolding dot
    dot-Tagged [] x y e h = e
    dot-Tagged (c ∷ cs) x y e no_more = e
    dot-Tagged {alpha} (c ∷ cs) x y e (tagged {d1} {t1} {d2} {t2} h hs) =
        dot-Tagged cs _ _
          (ap (λ z. xor_block z (gf128_mul c (xor_block t1 t2))) e
            ∙ ap (λ z. xor_block (gf128_mul alpha y) (gf128_mul c z)) h
            ∙ ap (xor_block (gf128_mul alpha y)) (
                sym (mul_assoc c alpha (xor_block d1 d2))
                ∙ ap (λ z. gf128_mul z (xor_block d1 d2)) (mul_comm c alpha)
                ∙ mul_assoc alpha c (xor_block d1 d2))
            ∙ sym (mul_xor alpha y (gf128_mul c (xor_block d1 d2))))
          hs

    pub zero-mul : (alpha : Block) → zero_block ≡ gf128_mul alpha zero_block
    zero-mul alpha =
        sym (xor_self (gf128_mul alpha zero_block))
        ∙ sym (mul_xor alpha zero_block zero_block)
        ∙ ap (gf128_mul alpha) (xor_self zero_block)

    -- Shares whose tags are valid under a key pass `verify_auth_shares`; and two shares of as many
    -- tags as blocks that pass it have the same size and valid tags.
    pub verify_auth_shares_lem :
        (alpha : Block) (a1 a2 : AuthShare Block)
        → length a1.tag ≡ length a1.data_blocks
        → length a2.tag ≡ length a2.data_blocks
        → (verify_auth_shares ops a1 a2 alpha ≡ true) ↔ IsTagged alpha a1 a2
    unfolding verify_auth_shares
    verify_auth_shares_lem alpha a1 a2 h k = (
      λ v.
          let (same, rest) = both (size ops a1 == size ops a2) _ v in
          check_tags_sound alpha a1.data_blocks a1.tag a2.data_blocks a2.tag (omega arith)
            (ground (arith, same)) (ground (arith, same)) rest,
      λ t.
          let (a, b, c) = Tagged-length t in
          rw (same_size (size ops a1) (size ops a2) (sym b)) (check_tags_complete t),
    )

    -- The XOR of two pairs of shares of the same size with valid tags under a key succeeds at both
    -- parties, and the results have valid tags under that key.
    pub xor_auth-IsTagged :
        (alpha : Block) (a1 a2 b1 b2 : AuthShare Block)
        → IsTagged alpha a1 a2
        → IsTagged alpha b1 b2
        → size ops a1 ≡ size ops b1
        → (s1 : AuthShare Block) × (s2 : AuthShare Block) × (xor_auth ops a1 b1 ≡ some s1)
          × (xor_auth ops a2 b2 ≡ some s2)
          × IsTagged alpha s1 s2
    unfolding xor_auth
    xor_auth-IsTagged alpha a1 a2 b1 b2 h k e =
        let (_, ha, _) = Tagged-length h in
        let (_, hb, _) = Tagged-length k in
        (
          _,
          _,
          rw (same_size (size ops a1) (size ops b1) e) refl,
          rw (same_size (size ops a2) (size ops b2) (omega arith)) refl,
          xor-Tagged h k e,
        )

    -- Shares whose tags are valid under a key pass the batched check for every challenge of their
    -- size.
    pub verify_auth_shares_batched_lem :
        (alpha : Block) (a1 a2 : AuthShare Block) (challenge : List Block)
        → IsTagged alpha a1 a2
        → length challenge ≡ size ops a1
        → verify_auth_shares_batched ops a1 a2 alpha challenge ≡ true
    unfolding verify_auth_shares_batched
    verify_auth_shares_batched_lem alpha a1 a2 challenge h e =
        let (a, b, c) = Tagged-length h in
        rw
          (
            same_size (size ops a1) (size ops a2) (sym b),
            same_size (size ops a1) (length challenge) (sym e),
          )
          ((same_iff _ _).1 (dot-Tagged challenge zero_block zero_block (zero-mul alpha) h))
