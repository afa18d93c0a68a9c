-- ===== src/BlockAnalysis.antt =====
-- block_analysis.py: the relations between blocks, and which block claims which. A block of the
-- analysis has its ID.
pub mod Relations
pub mod Claims
use brewblox_devcon_spark.Base.{String, Bool, List, [], ◌∷◌}
use brewblox_devcon_spark.Base.Json.{Fields}

-- The part of a block that the analysis reads.
pub record Block : Type 0 where
  pub id : String
  pub type : String
  pub content : Fields

pub record BlockRelation : Type 0 where
  pub source : String
  pub target : String
  pub claimed : Bool
  pub relation : List String

pub record BlockClaim : Type 0 where
  pub source : String
  pub target : String
  pub intermediate : List String

abbrev pub ignored_relation_types : List String
ignored_relation_types = "DisplaySettings" ∷ []

abbrev pub ignored_relation_fields : List String
ignored_relation_fields = "claimedBy" ∷ "oneWireBusId" ∷ "clients" ∷ []

abbrev pub inverted_relation_fields : List String
inverted_relation_fields = "inputId" ∷ "referenceId" ∷ "sensorId" ∷ "analog" ∷ "digital" ∷ []
