-- ===== src/BlockAnalysis/Claims.antt =====
-- `calculate_claims` of block_analysis.py
pub mod Extended
pub mod Collected
pub mod Whole
use brewblox_devcon_spark.Base.{
  ℕ, zero, suc, String, true, false, List, [], ◌∷◌, ◌++◌, Option, none, some, length, str_eq,
  if◌then◌else◌,
}
use brewblox_devcon_spark.Base.Exn.{Result, ok, err, type_error, ◌>>=◌}
use brewblox_devcon_spark.Base.Dict.{Dict, lookup, insert, values, elem}
use brewblox_devcon_spark.Base.Json.{
  Json, array, object, Items, nil, item, end, truthy, get, get_or_null, subscript, as_text,
}
use brewblox_devcon_spark.BlockAnalysis.{Block, BlockClaim}

-- What the loop of `calculate_claims` fills.
pub record Claims : Type 0 where
  pub claim_dict : Dict BlockClaim
  pub channel_claims : List BlockClaim

no_intermediate : String → String → BlockClaim
no_intermediate source target = record { source = source; target = target; intermediate = [] }

-- A link of which the ID is empty claims nothing.
source_of : Json → Result (Option String)
unfolding truthy subscript as_text
source_of link =
    if truthy link
    then subscript link "id"
      >>= (λ source. if truthy source then as_text source >>= (λ s. ok (some s)) else ok none)
    else ok none

claimed_block : String → Option String → Claims → Claims
unfolding no_intermediate insert
claimed_block id none c = c
claimed_block id (some s) c = record c {
  claim_dict = insert id (no_intermediate s id) c.claim_dict;
}

claimed_channel : String → Option String → Claims → Claims
unfolding no_intermediate
claimed_channel id none c = c
claimed_channel id (some s) c = record c {
  channel_claims = c.channel_claims ++ no_intermediate s id ∷ [];
}

claim_channels : String → Items → Claims → Result Claims
unfolding claimed_channel source_of subscript
claim_channels id nil c = ok c
claim_channels id (item channel xs) c = do
  link ← subscript channel "claimedBy"
  source ← source_of link
  claim_channels id xs (claimed_channel id source c)

-- `for c in block.data.get('channels', [])`
over_channels : String → Option Json → Claims → Result Claims
unfolding claim_channels
over_channels id none c = ok c
over_channels id (some (array xs)) c = claim_channels id xs c
over_channels id (some (object end)) c = ok c
over_channels id (some (Json.text s)) c = if str_eq s "" then ok c else err type_error
over_channels id (some _) c = err type_error

unfoldable pub collect_claims : List Block → Claims → Result Claims
unfolding claimed_block source_of over_channels get_or_null get
collect_claims [] c = ok c
collect_claims (block ∷ blocks) c = do
  source ← source_of (get_or_null "claimedBy" block.content)
  all ← over_channels block.id (get "channels" block.content) (claimed_block block.id source c)
  collect_claims blocks all

-- `extended_claim`, with a bound on the recursion: `none` is a recursion deeper than that.
unfoldable pub extended_claim : ℕ → Dict BlockClaim → BlockClaim → Option BlockClaim
unfolding lookup elem
extended_claim zero claims claim = none
extended_claim (suc fuel) claims claim = elim (lookup claim.source claims) [
  | none ↦ some claim
  | some source_claim ↦ elim (elem source_claim.source claim.intermediate) [
    | true ↦ some claim
    | false ↦ extended_claim fuel claims (record {
      source = source_claim.source;
      target = claim.target;
      intermediate = claim.intermediate ++ claim.source ∷ [];
    })
  ]
]

abbrev pub or_claim : BlockClaim → Option BlockClaim → BlockClaim
or_claim claim none = claim
or_claim claim (some extended) = extended

-- The bound is one more than the number of claimed blocks, which `extended_claim_total` shows to be
-- enough for each claim of the result.
unfoldable pub extend_all : Dict BlockClaim → List BlockClaim → List BlockClaim
unfolding extended_claim
extend_all claims [] = []
extend_all claims (claim ∷ rest) =
    or_claim claim (extended_claim (suc (length claims)) claims claim) ∷ extend_all claims rest

unfoldable pub calculate_claims : List Block → Result (List BlockClaim)
unfolding collect_claims extend_all values
calculate_claims blocks = do
  c ← collect_claims blocks (record { claim_dict = []; channel_claims = [] })
  ok (extend_all c.claim_dict (values c.claim_dict ++ c.channel_claims))
