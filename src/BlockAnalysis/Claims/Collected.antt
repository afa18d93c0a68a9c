-- ===== src/BlockAnalysis/Claims/Collected.antt =====
-- The claims of the blocks and of their channels, as a plain list of them.
use brewblox_devcon_spark.Base.{
  ◌≡◌, refl, ap, sym, ◌∙◌, String, List, [], ◌∷◌, ◌++◌, Option, none, some, arith, str_eq,
  if◌then◌else◌, append_assoc, append-nil,
}
use brewblox_devcon_spark.Base.Exn.{ok, ◌>>=◌, >>=-eq-ok}
use brewblox_devcon_spark.Base.Dict.{Dict, insert}
use brewblox_devcon_spark.Base.Json.{
  Json, null, boolean, number, negative, float, text, array, object, Items, nil, item, Fields, end,
  field, get, get_or_null, subscript, truthy, as_text,
}
use brewblox_devcon_spark.BlockAnalysis.{Block, BlockClaim}
use brewblox_devcon_spark.BlockAnalysis.Claims.{
  Claims, source_of, claimed_block, claimed_channel, claim_channels, over_channels, collect_claims,
  no_intermediate,
}

-- The block that a link names: a text that is not empty.
unfoldable pub named_source : Option Json → Option String
named_source (some (text s)) = if str_eq s "" then none else some s
named_source _ = none

unfoldable pub linked_source : Option Json → Option String
unfolding named_source get
linked_source (some (object fs)) = named_source (get "id" fs)
linked_source _ = none

unfoldable pub claims_of : Option String → String → List BlockClaim
claims_of none target = []
claims_of (some source) target = record { source = source; target = target; intermediate = [] } ∷ []

-- The claims of the blocks, in order, where a later block of the same ID counts.
unfoldable pub put_claims : List BlockClaim → Dict BlockClaim → Dict BlockClaim
unfolding insert
put_claims [] claims = claims
put_claims (c ∷ cs) claims = put_claims cs (insert c.target c claims)

unfoldable pub block_claims : List Block → List BlockClaim
unfolding claims_of linked_source get
block_claims [] = []
block_claims (block ∷ blocks) =
    claims_of (linked_source (get "claimedBy" block.content)) block.id ++ block_claims blocks

unfoldable pub item_claims : String → Items → List BlockClaim
unfolding claims_of linked_source get
item_claims target nil = []
item_claims target (item (object fs) xs) =
    claims_of (linked_source (get "claimedBy" fs)) target ++ item_claims target xs
item_claims target (item _ xs) = item_claims target xs

unfoldable pub list_claims : String → Option Json → List BlockClaim
unfolding item_claims
list_claims target (some (array xs)) = item_claims target xs
list_claims target _ = []

-- The claims of the channels, in order.
unfoldable pub channel_claims : List Block → List BlockClaim
unfolding list_claims get
channel_claims [] = []
channel_claims (block ∷ blocks) =
    list_claims block.id (get "channels" block.content) ++ channel_claims blocks

subscript-object :
    (k : String) (fs : Fields) (w : Json) → subscript (object fs) k ≡ ok w → get k fs ≡ some w
unfolding subscript get
subscript-object k end w h = cc
subscript-object k (field j v fs) w h = ground (arith, subscript-object k fs w)

text_source :
    (w : Json) (o : Option String)
    → (if truthy w then as_text w >>= (λ s. ok (some s)) else ok none) ≡ ok o
    → o ≡ named_source (some w)
unfolding truthy as_text named_source
text_source null o h = ground arith
text_source (boolean b) o h = ground arith
text_source (number n) o h = ground arith
text_source (negative n) o h = ground arith
text_source (float n) o h = ground arith
text_source (text s) o h = ground arith
text_source (array nil) o h = ground arith
text_source (array (item v xs)) o h = ground arith
text_source (object end) o h = ground arith
text_source (object (field k v fs)) o h = ground arith

no_id : named_source (get "id" end) ≡ none
unfolding named_source get
no_id = refl

source_of-linked :
    (link : Json) (o : Option String) → source_of link ≡ ok o → o ≡ linked_source (some link)
unfolding source_of linked_source truthy subscript
source_of-linked null o h = ground arith
source_of-linked (boolean b) o h = ground arith
source_of-linked (number n) o h = ground arith
source_of-linked (negative n) o h = ground arith
source_of-linked (float n) o h = ground arith
source_of-linked (text s) o h = ground arith
source_of-linked (array nil) o h = ground arith
source_of-linked (array (item v xs)) o h = ground arith
source_of-linked (object end) o h = ground (arith, no_id)
source_of-linked (object (field k v fs)) o h =
    let (w, there, h) = >>=-eq-ok (subscript (object (field k v fs)) "id") _ h in
    text_source w o h ∙ ap named_source (sym (subscript-object "id" (field k v fs) w there))

get_or_null-linked :
    (k : String) (fs : Fields) → linked_source (some (get_or_null k fs)) ≡ linked_source (get k fs)
unfolding get_or_null get linked_source
get_or_null-linked k end = refl
get_or_null-linked k (field j v fs) = ground (arith, get_or_null-linked k fs)

null_source : linked_source (some null) ≡ linked_source none
unfolding linked_source
null_source = refl

claimed_block-puts :
    (id : String) (o : Option String) (c : Claims)
    → (claimed_block id o c).claim_dict ≡ put_claims (claims_of o id) c.claim_dict
unfolding claimed_block no_intermediate put_claims claims_of
claimed_block-puts id none c = refl
claimed_block-puts id (some s) c = refl

claimed_block-channel :
    (id : String) (o : Option String) (c : Claims)
    → (claimed_block id o c).channel_claims ≡ c.channel_claims
unfolding claimed_block
claimed_block-channel id none c = refl
claimed_block-channel id (some s) c = refl

claimed_channel-adds :
    (id : String) (o : Option String) (c : Claims)
    → ((claimed_channel id o c).claim_dict ≡ c.claim_dict)
      × ((claimed_channel id o c).channel_claims ≡ c.channel_claims ++ claims_of o id)
unfolding claimed_channel no_intermediate claims_of
claimed_channel-adds id none c = (refl, sym (append-nil c.channel_claims))
claimed_channel-adds id (some s) c = (refl, refl)

-- The channel claims are longer by these, and the others are the same.
abbrev Adds : List BlockClaim → Claims → Claims → Type 0
Adds more c c' = (c'.claim_dict ≡ c.claim_dict) × (c'.channel_claims ≡ c.channel_claims ++ more)

Adds-none : (c c' : Claims) → c ≡ c' → Adds [] c c'
Adds-none c c' same = rw (← same) (refl, sym (append-nil c.channel_claims))

Adds-trans :
    (xs ys : List BlockClaim) (c d e : Claims) → Adds xs c d → Adds ys d e → Adds (xs ++ ys) c e
Adds-trans xs ys c d e (p, q) (r, s) =
    (r ∙ p, s ∙ ap (λ l. l ++ ys) q ∙ append_assoc c.channel_claims xs ys)

claim_channels-Adds :
    (id : String) (xs : Items) (c c' : Claims)
    → claim_channels id xs c ≡ ok c'
    → Adds (item_claims id xs) c c'
unfolding claim_channels item_claims
claim_channels-Adds id nil c c' h = Adds-none c c' (cc)
claim_channels-Adds id (item (object fs) xs) c c' h =
    let (link, there, h) = >>=-eq-ok (subscript (object fs) "claimedBy") _ h in
    let (source, is, h) = >>=-eq-ok (source_of link) _ h in
    let named : source ≡ linked_source (get "claimedBy" fs) =
      source_of-linked link source is
      ∙ ap linked_source (sym (subscript-object "claimedBy" fs link there)) in
    rw (← named) (
      Adds-trans (claims_of source id) (item_claims id xs) c (claimed_channel id source c) c'
        (claimed_channel-adds id source c)
        (claim_channels-Adds id xs (claimed_channel id source c) c' h))
claim_channels-Adds id (item v xs) c c' h = unfold subscript in cc h

over_channels-Adds :
    (id : String) (o : Option Json) (c c' : Claims)
    → over_channels id o c ≡ ok c'
    → Adds (list_claims id o) c c'
unfolding over_channels list_claims
over_channels-Adds id none c c' h = Adds-none c c' (cc)
over_channels-Adds id (some (array xs)) c c' h = claim_channels-Adds id xs c c' h
over_channels-Adds id (some (object end)) c c' h = Adds-none c c' (cc)
over_channels-Adds id (some (text s)) c c' h = Adds-none c c' (ground arith)
over_channels-Adds id (some _) c c' h = cc

put_claims-append :
    (xs ys : List BlockClaim) (d : Dict BlockClaim)
    → put_claims (xs ++ ys) d ≡ put_claims ys (put_claims xs d)
unfolding put_claims
put_claims-append [] ys d = refl
put_claims-append (x ∷ xs) ys d = put_claims-append xs ys (insert x.target x d)

-- What the loop collects.
pub collect_claims-puts :
    (blocks : List Block) (c c' : Claims)
    → collect_claims blocks c ≡ ok c'
    → (c'.claim_dict ≡ put_claims (block_claims blocks) c.claim_dict)
      × (c'.channel_claims ≡ c.channel_claims ++ channel_claims blocks)
unfolding collect_claims block_claims channel_claims
collect_claims-puts [] c c' h =
    let same : c ≡ c' = cc in
    rw (← same) (unfold put_claims in refl, sym (append-nil c.channel_claims))
collect_claims-puts (block ∷ blocks) c c' h =
    let (source, is, h) = >>=-eq-ok (source_of (get_or_null "claimedBy" block.content)) _ h in
    let own = claimed_block block.id source c in
    let (all, over, h) =
      >>=-eq-ok (over_channels block.id (get "channels" block.content) own) _ h in
    let linked : source ≡ linked_source (get "claimedBy" block.content) =
      source_of-linked (get_or_null "claimedBy" block.content) source is
      ∙ get_or_null-linked "claimedBy" block.content in
    let (d, e) = over_channels-Adds block.id (get "channels" block.content) own all over in
    let (p, q) = collect_claims-puts blocks all c' h in
    let mine = claims_of source block.id in
    let listed = list_claims block.id (get "channels" block.content) in
    rw (← linked) (
      p
          ∙ ap (put_claims (block_claims blocks)) (d ∙ claimed_block-puts block.id source c)
          ∙ sym (put_claims-append mine (block_claims blocks) c.claim_dict),
      q
          ∙ ap (λ l. l ++ channel_claims blocks)
              (e ∙ ap (λ l. l ++ listed) (claimed_block-channel block.id source c))
          ∙ append_assoc c.channel_claims listed (channel_claims blocks),
    )
