-- ===== src/BlockAnalysis/Claims/Extended.antt =====
-- What `extended_claim` returns: the claim at the top of the tree, with the way to it.
use brewblox_devcon_spark.Base.{
  ℕ, zero, suc, ◌+◌, ◌≤◌, ◌≡◌, refl, ◌∙◌, ap, ◌⊎◌, inl, inr, String, true, false, ◌||◌, List, [],
  ◌∷◌, ◌++◌, none, some, length, length-append, arith, str_eq, eq_iff, Bool-cases, Option-cases,
}
use brewblox_devcon_spark.Base.Dict.{
  Dict, lookup, elem, keys, elem-append, elem-keys, length-keys, Within, Distinct, length-Distinct,
  Distinct-concat,
}
use brewblox_devcon_spark.BlockAnalysis.{BlockClaim}
use brewblox_devcon_spark.BlockAnalysis.Claims.{extended_claim}

-- `Path claims a names b`: from block `a` through the blocks `names` to `b`, each claimed by the next.
pub data ClaimPath (claims : Dict BlockClaim) : String → List String → String → Type 0 where
  here : (a : String) → ClaimPath claims a [] a
  up :
      (a b : String) (c : BlockClaim) (names : List String)
      → lookup a claims ≡ some c
      → ClaimPath claims c.source names b
      → ClaimPath claims a (a ∷ names) b

ClaimPath-concat :
    {claims : Dict BlockClaim} {a b : String} {names : List String} (c : BlockClaim)
    → ClaimPath claims a names b
    → lookup b claims ≡ some c
    → ClaimPath claims a (names ++ b ∷ []) c.source
ClaimPath-concat c (here a) h = up a c.source c [] h (here c.source)
ClaimPath-concat c (up a b d names h p) k =
    up a c.source d (names ++ b ∷ []) h (ClaimPath-concat c p k)

-- The top of the tree is not claimed; in a cycle, its own claim leads back to a block on the way.
pub IsTop : Dict BlockClaim → BlockClaim → Type 0
IsTop claims r =
    (lookup r.source claims ≡ none)
    ⊎ ((c : BlockClaim) × (lookup r.source claims ≡ some c) × (elem c.source r.intermediate ≡ true))

-- What holds of the claim at each level of the recursion.
record IsClimbing (claims : Dict BlockClaim) (c : BlockClaim) : Type 0 where
  distinct : Distinct c.intermediate
  within : Within c.intermediate (keys claims)
  fresh :
      (d : BlockClaim)
      → lookup c.source claims ≡ some d
      → elem d.source c.intermediate ≡ false
      → elem c.source c.intermediate ≡ false

abbrev shifted : BlockClaim → BlockClaim → BlockClaim
shifted c d = record {
  source = d.source;
  target = c.target;
  intermediate = c.intermediate ++ c.source ∷ [];
}

elem-concat : (x y : String) (xs : List String) → elem x (xs ++ y ∷ []) ≡ (elem x xs || str_eq y x)
unfolding elem
elem-concat x y xs = elem-append x xs (y ∷ []) ∙ ground arith

shifted-Within :
    (claims : Dict BlockClaim) (names : List String) (a : String) (d : BlockClaim)
    → Within names (keys claims)
    → lookup a claims ≡ some d
    → Within (names ++ a ∷ []) (keys claims)
shifted-Within claims names a d w h x m = elim (Bool-cases (elem x names)) [
  | inl old ↦ w x old
  | inr new ↦
      let same : a ≡ x = ground (arith, elem-concat x a names, eq_iff a x) in
      elem-keys x d claims (rw (← same) h)
]

shifted-fresh :
    (claims : Dict BlockClaim) (names : List String) (a : String) (d e : BlockClaim)
    → lookup a claims ≡ some d
    → elem d.source names ≡ false
    → lookup d.source claims ≡ some e
    → elem e.source (names ++ a ∷ []) ≡ false
    → elem d.source (names ++ a ∷ []) ≡ false
shifted-fresh claims names a d e h k g n =
    elem-concat d.source a names ∙ elim (Bool-cases (str_eq a d.source)) [
      | inr ne ↦ rw (k, ne)
      | inl eq ↦
          let same : a ≡ d.source = (eq_iff a d.source).0 eq in
          let e_same : e ≡ d = cc (ap (λ x. lookup x claims) same) in
          absurd (ground (arith, elem-concat e.source a names, e_same, eq_iff a d.source))
    ]

shifted-IsClimbing :
    (claims : Dict BlockClaim) (c d : BlockClaim)
    → IsClimbing claims c
    → lookup c.source claims ≡ some d
    → elem d.source c.intermediate ≡ false
    → IsClimbing claims (shifted c d)
shifted-IsClimbing claims c d i h k =
    let new = i.fresh d h k in
    record {
      distinct = Distinct-concat c.intermediate c.source i.distinct new;
      within = shifted-Within claims c.intermediate c.source d i.within h;
      fresh = λ e g n. shifted-fresh claims c.intermediate c.source d e h k g n;
    }

climb :
    (fuel : ℕ) (claims : Dict BlockClaim) (start : String) (c : BlockClaim)
    → IsClimbing claims c
    → ClaimPath claims start c.intermediate c.source
    → suc (length claims) ≤ fuel + length c.intermediate
    → (r : BlockClaim) × (extended_claim fuel claims c ≡ some r)
      × (r.target ≡ c.target)
      × ClaimPath claims start r.intermediate r.source
      × IsTop claims r
unfolding extended_claim IsTop
climb zero claims start c i p e = absurd (
    omega
      (arith, length-Distinct c.intermediate (keys claims) i.distinct i.within, length-keys claims))
climb (suc fuel) claims start c i p e = elim (Option-cases (lookup c.source claims)) [
  | inl n ↦ (c, rw (n, extended_claim) refl, refl, p, inl n)
  | inr (d, h) ↦ elim (Bool-cases (elem d.source c.intermediate)) [
    | inl b ↦ (c, ground arith, refl, p, inr (d, h, b))
    | inr b ↦
        let (r, q, t, path, top) =
          climb fuel claims start (shifted c d) (shifted-IsClimbing claims c d i h b)
            (ClaimPath-concat d p h)
            (omega (arith, length-append c.intermediate (c.source ∷ []))) in
        (r, ground (arith, q), t, path, top)
  ]
]

-- The recursion ends within one more level than there are claimed blocks, for any claim that starts
-- with no intermediate blocks. The result has the same target; its source is reached from the
-- original source through exactly its intermediate blocks, each claimed by the next; and that source
-- is not claimed, or is in a cycle and claimed by one of the intermediate blocks.
pub extended_claim_total :
    (claims : Dict BlockClaim) (c : BlockClaim)
    → c.intermediate ≡ []
    → (r : BlockClaim) × (extended_claim (suc (length claims)) claims c ≡ some r)
      × (r.target ≡ c.target)
      × ClaimPath claims c.source r.intermediate r.source
      × IsTop claims r
extended_claim_total claims c h =
    climb (suc (length claims)) claims c.source c
      (record {
        distinct = rw h tt;
        within = rw h (unfold elem in λ x m. cc);
        fresh = λ d g n. rw h (unfold elem in refl);
      })
      (rw h (here c.source)) (omega arith)
