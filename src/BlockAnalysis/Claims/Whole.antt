-- ===== src/BlockAnalysis/Claims/Whole.antt =====
-- The claims that `calculate_claims` returns.
use brewblox_devcon_spark.Base.{
  ◌≡◌, refl, ap, sym, subst, true, false, String, List, [], ◌∷◌, ◌++◌, Option, none, some, All,
  All-both, arith, str_eq, if◌then◌else◌,
}
use brewblox_devcon_spark.Base.Exn.{ok, >>=-eq-ok}
use brewblox_devcon_spark.Base.Dict.{Dict, insert, values}
use brewblox_devcon_spark.Base.Json.{
  Json, array, object, Items, nil, item, end, get, get_or_null, subscript,
}
use brewblox_devcon_spark.BlockAnalysis.{Block, BlockClaim}
use brewblox_devcon_spark.BlockAnalysis.Claims.{
  Claims, source_of, claimed_block, claimed_channel, claim_channels, over_channels, collect_claims,
  extend_all, or_claim, calculate_claims, no_intermediate,
}
use brewblox_devcon_spark.BlockAnalysis.Claims.Collected.{
  put_claims, block_claims, channel_claims, collect_claims-puts,
}
use brewblox_devcon_spark.BlockAnalysis.Claims.Extended.{ClaimPath, IsTop, extended_claim_total}

abbrev IsFresh : BlockClaim → Type 0
IsFresh c = c.intermediate ≡ []

record AreFresh (c : Claims) : Type 0 where
  dict : All IsFresh (values c.claim_dict)
  channel : All IsFresh c.channel_claims

All-if :
    (k : String) (v : BlockClaim) (d : Dict BlockClaim)
    → IsFresh v
    → All IsFresh (values d)
    → All IsFresh (values (insert k v d))
unfolding insert values
All-if k v [] h a = (h, tt)
All-if k v ((j, w) ∷ d) h a =
    elim (str_eq j k)
      as (λ b. All IsFresh (values (if b then (j, v) ∷ d else (j, w) ∷ insert k v d))) [
        | true ↦ (h, a.1)
        | false ↦ (a.0, All-if k v d h a.1)
      ]

claimed_block-AreFresh :
    (id : String) (o : Option String) (c : Claims) → AreFresh c → AreFresh (claimed_block id o c)
unfolding claimed_block no_intermediate
claimed_block-AreFresh id none c h = h
claimed_block-AreFresh id (some s) c h = record {
  dict = All-if id _ c.claim_dict refl h.dict;
  channel = h.channel;
}

claimed_channel-AreFresh :
    (id : String) (o : Option String) (c : Claims) → AreFresh c → AreFresh (claimed_channel id o c)
unfolding claimed_channel no_intermediate
claimed_channel-AreFresh id none c h = h
claimed_channel-AreFresh id (some s) c h = record {
  dict = h.dict;
  channel = All-both IsFresh c.channel_claims _ h.channel (refl, tt);
}

claim_channels-AreFresh :
    (id : String) (xs : Items) (c c' : Claims)
    → AreFresh c
    → claim_channels id xs c ≡ ok c'
    → AreFresh c'
unfolding claim_channels
claim_channels-AreFresh id nil c c' h e = let same : c ≡ c' = cc in rw (← same) h
claim_channels-AreFresh id (item channel xs) c c' h e =
    let (link, p, e1) = >>=-eq-ok (subscript channel "claimedBy") _ e in
    let (source, q, e2) = >>=-eq-ok (source_of link) _ e1 in
    claim_channels-AreFresh id xs (claimed_channel id source c) c'
      (claimed_channel-AreFresh id source c h) e2

over_channels-AreFresh :
    (id : String) (o : Option Json) (c c' : Claims)
    → AreFresh c
    → over_channels id o c ≡ ok c'
    → AreFresh c'
unfolding over_channels
over_channels-AreFresh id none c c' h e = let same : c ≡ c' = cc in rw (← same) h
over_channels-AreFresh id (some (array xs)) c c' h e = claim_channels-AreFresh id xs c c' h e
over_channels-AreFresh id (some (object end)) c c' h e = let same : c ≡ c' = cc in rw (← same) h
over_channels-AreFresh id (some (Json.text s)) c c' h e =
    let same : c ≡ c' = ground arith in rw (← same) h
over_channels-AreFresh id (some _) c c' h e = cc

collect_claims-AreFresh :
    (blocks : List Block) (c c' : Claims)
    → AreFresh c
    → collect_claims blocks c ≡ ok c'
    → AreFresh c'
unfolding collect_claims
collect_claims-AreFresh [] c c' h e = let same : c ≡ c' = cc in rw (← same) h
collect_claims-AreFresh (block ∷ blocks) c c' h e =
    let (source, p, e1) = >>=-eq-ok (source_of (get_or_null "claimedBy" block.content)) _ e in
    let (all, q, e2) =
      >>=-eq-ok
        (over_channels block.id (get "channels" block.content) (claimed_block block.id source c)) _
        e1 in
    collect_claims-AreFresh blocks all c'
      (over_channels-AreFresh block.id (get "channels" block.content)
        (claimed_block block.id source c) all (claimed_block-AreFresh block.id source c h) q)
      e2

-- Each claim of the second list is the one at the top of the tree of the first list's claim.
abbrev pub Extensions : Dict BlockClaim → List BlockClaim → List BlockClaim → Type 0
Extensions claims [] [] = Unit
Extensions claims (c ∷ cs) (r ∷ rs) =
    ((r.target ≡ c.target) × ClaimPath claims c.source r.intermediate r.source × IsTop claims r)
    × Extensions claims cs rs
Extensions claims _ _ = ⊥

extend_all-Extensions :
    (claims : Dict BlockClaim) (cs : List BlockClaim)
    → All IsFresh cs
    → Extensions claims cs (extend_all claims cs)
unfolding extend_all
extend_all-Extensions claims [] h = tt
extend_all-Extensions claims (c ∷ cs) h =
    let (r, e, t, path, top) = extended_claim_total claims c h.0 in
    (
      subst
          (λ x.
            (x.target ≡ c.target)
            × ClaimPath claims c.source x.intermediate x.source
            × IsTop claims x)
          (ap (or_claim c) (sym e)) (t, path, top),
      extend_all-Extensions claims cs h.1,
    )

-- If no error is raised, the claims of the result are those of the blocks that are linked under
-- `claimedBy`, one for each block ID, and then those of the linked channels of all blocks, in order,
-- each followed up the tree to a block that is not claimed itself, or around a cycle. The recursion
-- bound of the model is never the reason for an answer.
pub calculate_claims-Extensions :
    (blocks : List Block) (rs : List BlockClaim)
    → calculate_claims blocks ≡ ok rs
    → let claims = put_claims (block_claims blocks) [] in
      Extensions claims (values claims ++ channel_claims blocks) rs
unfolding calculate_claims
calculate_claims-Extensions blocks rs h =
    let (c, p, e) =
      >>=-eq-ok (collect_claims blocks (record { claim_dict = []; channel_claims = [] })) _ h in
    let fresh = collect_claims-AreFresh blocks _ c (record { dict = tt; channel = tt }) p in
    let all : extend_all c.claim_dict (values c.claim_dict ++ c.channel_claims) ≡ rs = cc e in
    let (own, channels) = collect_claims-puts blocks _ c p in
    rw (← own, ← channels, ← all)
      (extend_all-Extensions c.claim_dict (values c.claim_dict ++ c.channel_claims)
        (All-both IsFresh (values c.claim_dict) c.channel_claims fresh.dict fresh.channel))
