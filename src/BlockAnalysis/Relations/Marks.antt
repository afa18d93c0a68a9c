-- ===== src/BlockAnalysis/Relations/Marks.antt =====
-- Which relations are marked as claimed.
use brewblox_devcon_spark.Base.{
  ◌≡◌, refl, ◌∙◌, String, Bool, true, false, not, ◌&&◌, ◌||◌, List, [], ◌∷◌, Option, none, some,
  arith, str_eq, eq_iff, eq_refl, if◌then◌else◌, Bool-cases, inl, inr, ap, sym,
}
use brewblox_devcon_spark.Base.Exn.{Result, ok, err, ◌>>=◌}
use brewblox_devcon_spark.Base.Json.{Json, truthy, get_or_null, subscript}
use brewblox_devcon_spark.BlockAnalysis.{Block, BlockRelation}
use brewblox_devcon_spark.BlockAnalysis.Relations.{
  collect, mark, mark_by, mark_claims, calculate_relations,
}

-- The ends of a relation, target first.
abbrev pub Ends : Type 0
Ends = String × String

abbrev same_ends : Ends → Ends → Bool
same_ends (t, s) (u, r) = str_eq t u && str_eq s r

pub is_among : Ends → List Ends → Bool
is_among e [] = false
is_among e (f ∷ es) = same_ends e f || is_among e es

-- The ID of a link, where it is a text; an empty one is none.
name_of : Json → Option String
name_of (Json.text s) = if truthy (Json.text s) then some s else none
name_of _ = none

claimant_at : Json → Result (Option String)
claimant_at raw_claim =
    if truthy raw_claim
    then subscript raw_claim "id" >>= (λ source. ok (name_of source))
    else ok none

-- The block that claims a block.
claimant : Block → Result (Option String)
unfolding claimant_at
claimant block = claimant_at (get_or_null "claimedBy" block.content)

add_ends : Block → Option String → List Ends → List Ends
add_ends block none es = es
add_ends block (some source) es = (block.id, source) ∷ es

-- All pairs of a claimed block and its claimant.
pub claimed_ends : List Block → List Ends → Result (List Ends)
claimed_ends [] es = ok es
claimed_ends (block ∷ blocks) es =
    claimant block >>= (λ source. claimed_ends blocks (add_ends block source es))

-- The first relation between each pair of `claims` is marked; `seen` are the earlier pairs.
unfoldable pub annotate : List Ends → List Ends → List BlockRelation → List BlockRelation
annotate seen claims [] = []
annotate seen claims (r ∷ rs) =
    let e : Ends = (r.target, r.source) in
    record r { claimed = r.claimed || (is_among e claims && not (is_among e seen)) }
    ∷ annotate (e ∷ seen) claims rs

annotate-nil : (seen : List Ends) (rs : List BlockRelation) → annotate seen [] rs ≡ rs
unfolding annotate is_among
annotate-nil seen [] = refl
annotate-nil seen (r ∷ rs) = ground (arith, annotate-nil ((r.target, r.source) ∷ seen) rs)

same_ends→eq : (e f : Ends) → same_ends e f ≡ true → e ≡ f
same_ends→eq (t, s) (u, r) h = ground (arith, eq_iff t u, eq_iff s r)

-- A pair that was seen marks nothing more.
annotate_seen :
    (t s : String) (seen claims : List Ends) (rs : List BlockRelation)
    → is_among (t, s) seen ≡ true
    → annotate seen ((t, s) ∷ claims) rs ≡ annotate seen claims rs
unfolding annotate is_among
annotate_seen t s seen claims [] h = refl
annotate_seen t s seen claims (r ∷ rs) h = ground (
  arith,
  eq_iff r.target t,
  eq_iff r.source s,
  annotate_seen t s ((r.target, r.source) ∷ seen) claims rs,
  ap (λ (u : String). is_among (u, r.source) seen),
)

mark-annotate :
    (t s : String) (seen claims : List Ends) (rs : List BlockRelation)
    → is_among (t, s) seen ≡ false
    → mark t s (annotate seen claims rs) ≡ annotate seen ((t, s) ∷ claims) rs
unfolding annotate mark is_among
mark-annotate t s seen claims [] h = refl
mark-annotate t s seen claims (r ∷ rs) h =
    elim (Bool-cases (str_eq r.target t && str_eq r.source s)) [
      | inl e ↦ ground (
        arith,
        eq_iff r.target t,
        eq_iff r.source s,
        eq_refl t,
        eq_refl s,
        annotate_seen t s ((r.target, r.source) ∷ seen) claims rs,
        ap (λ (u : String). is_among (u, r.source) seen),
      )
      | inr e ↦ ground (
        arith,
        eq_iff r.target t,
        eq_iff r.source s,
        eq_iff t r.target,
        eq_iff s r.source,
        mark-annotate t s ((r.target, r.source) ∷ seen) claims rs,
      )
    ]

mark_by-annotate :
    (block : Block) (source : Json) (claims : List Ends) (rs : List BlockRelation)
    → (if truthy source
        then mark_by block.id source (annotate [] claims rs)
        else annotate [] claims rs)
      ≡ annotate [] (add_ends block (name_of source) claims) rs
unfolding mark_by name_of add_ends
mark_by-annotate block (Json.text s) claims rs = elim (Bool-cases (truthy (Json.text s))) [
  | inl e ↦ rw e (mark-annotate block.id s [] claims rs (unfold is_among in refl))
  | inr e ↦ rw e
]
mark_by-annotate block (Json.object fs) claims rs =
    elim (truthy (Json.object fs))
      as (λ b.
        (if b then annotate [] claims rs else annotate [] claims rs) ≡ annotate [] claims rs) [
          | true ↦ refl
          | false ↦ refl
        ]
mark_by-annotate block v claims rs =
    elim (truthy v)
      as (λ b.
        (if b then annotate [] claims rs else annotate [] claims rs) ≡ annotate [] claims rs) [
          | true ↦ refl
          | false ↦ refl
        ]

-- One round of the second loop.
module _ (block : Block) (blocks : List Block) (claims : List Ends) (rs : List BlockRelation) where
  round : (raw : Json) → Result (List BlockRelation)
  round raw =
      if truthy raw
      then subscript raw "id" >>= (λ source.
        if truthy source
        then mark_claims blocks (mark_by block.id source (annotate [] claims rs))
        else mark_claims blocks (annotate [] claims rs))
      else mark_claims blocks (annotate [] claims rs)

  round-claimant_at :
      (raw : Json)
      → round raw
        ≡ (claimant_at raw >>= λ o. mark_claims blocks (annotate [] (add_ends block o claims) rs))
  unfolding round claimant_at add_ends
  round-claimant_at raw = elim (Bool-cases (truthy raw)) [
    | inr e ↦ rw e
    | inl e ↦ rw e (inner (subscript raw "id"))
  ]
    where
      inner :
          (m : Result Json)
          → (m >>= (λ source.
              if truthy source
              then mark_claims blocks (mark_by block.id source (annotate [] claims rs))
              else mark_claims blocks (annotate [] claims rs)))
            ≡ (m >>= (λ source. ok (name_of source)) >>= λ o.
                mark_claims blocks (annotate [] (add_ends block o claims) rs))
      inner (err x) = refl
      inner (ok source) =
          rw (← mark_by-annotate block source claims rs)
            (elim (truthy source)
              as (λ b.
                (if b
                  then mark_claims blocks (mark_by block.id source (annotate [] claims rs))
                  else mark_claims blocks (annotate [] claims rs))
                ≡ mark_claims blocks (
                    if b
                    then mark_by block.id source (annotate [] claims rs)
                    else annotate [] claims rs)) [ true ↦ refl | false ↦ refl ])

bind_cong :
    {A B : Type 0} (m : Result A) (f g : A → Result B)
    → ((a : A) → f a ≡ g a)
    → (m >>= f) ≡ (m >>= g)
bind_cong (ok a) f g h = h a
bind_cong (err e) f g h = refl

bind_assoc :
    {A B C : Type 0} (m : Result A) (f : A → Result B) (g : B → Result C)
    → (m >>= f >>= g) ≡ (m >>= λ a. f a >>= g)
bind_assoc (ok a) f g = refl
bind_assoc (err e) f g = refl

mark_claims-annotate :
    (blocks : List Block) (claims : List Ends) (rs : List BlockRelation)
    → mark_claims blocks (annotate [] claims rs)
      ≡ (claimed_ends blocks claims >>= λ all. ok (annotate [] all rs))
unfolding mark_claims claimed_ends claimant round
mark_claims-annotate [] claims rs = refl
mark_claims-annotate (block ∷ blocks) claims rs =
    round-claimant_at block blocks claims rs (get_or_null "claimedBy" block.content)
    ∙ bind_cong (claimant_at (get_or_null "claimedBy" block.content)) _ _
        (λ o. mark_claims-annotate blocks (add_ends block o claims) rs)
    ∙ sym (bind_assoc (claimant_at (get_or_null "claimedBy" block.content)) _ _)

-- The relations are those that the first pass collects, in the same order and with the same ends;
-- of all relations between two blocks the first is marked as claimed, exactly when its target's
-- `claimedBy` names its source. An error in the block data is raised as it is met.
pub calculate_relations-annotate :
    (blocks : List Block)
    → calculate_relations blocks
      ≡ (collect blocks >>= λ rs. claimed_ends blocks [] >>= λ claims. ok (annotate [] claims rs))
unfolding calculate_relations
calculate_relations-annotate blocks =
    bind_cong (collect blocks) _ _
      (λ rs. ap (mark_claims blocks) (sym (annotate-nil [] rs)) ∙ mark_claims-annotate blocks [] rs)
