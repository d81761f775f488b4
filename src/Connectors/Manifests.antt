-- ===== src/Connectors/Manifests.antt =====
-- The manifests of internal/connectors/connectors.go, `check`, and the maturity of an action.
use Prim.Native.String.{String}
use text.Mathlib.Text.{◌==◌ as str_eq}
use workforce_platform.Base.{List, [], ◌∷◌, ◌++◌, if◌then◌else◌}
use workforce_platform.Schema.{Operation}
use workforce_platform.Errors.{Result, ok, err, err_unknown}
use workforce_platform.Connectors.Payloads.{listed}

pub data Maturity : Type 0 where
  unsupported read_only prepare_preview governed_apply verified_apply : Maturity

pub record OperationMaturity : Type 0 where
  pub action : String
  pub maturity : Maturity
  pub evidence : String

pub record Manifest : Type 0 where
  pub id : String
  pub actions : List String
  pub maturities : List OperationMaturity

-- check
unfoldable pub check : Manifest → Operation → Result (Unit {0})
check m op =
    if str_eq op.integration m.id
    then if listed op.action m.actions then ok tt else err err_unknown
    else err err_unknown

abbrev simulated : String
simulated =
    "simulated: the effect is a row in the platform database, and no external provider is contacted"

abbrev pub manifest_of : String → String → Manifest
manifest_of id action = record {
  id = id;
  actions = action ∷ [];
  maturities = record { action = action; maturity = prepare_preview; evidence = simulated } ∷ [];
}

abbrev pub inventory_manifest : Manifest
inventory_manifest = manifest_of "inventory" "adjust"

abbrev pub mail_manifest : Manifest
mail_manifest = manifest_of "mail" "send"

abbrev pub document_manifest : Manifest
document_manifest = manifest_of "documents" "update"

-- Manifest.MaturityOf
unfoldable pub certified : List OperationMaturity → String → OperationMaturity
certified [] action = record { action = action; maturity = unsupported; evidence = "" }
certified (om ∷ oms) action = if str_eq om.action action then om else certified oms action

unfoldable pub maturity_of : Manifest → String → OperationMaturity
maturity_of m action = certified m.maturities action

-- Manifest.AllMaturities: every listed action, then what is certified beside the list.
unfoldable pub listed_maturities : Manifest → List String → List OperationMaturity
listed_maturities m [] = []
listed_maturities m (a ∷ as') = maturity_of m a ∷ listed_maturities m as'

unfoldable pub unlisted_maturities : List String → List OperationMaturity → List OperationMaturity
unlisted_maturities seen [] = []
unlisted_maturities seen (om ∷ oms) =
    let rest = unlisted_maturities seen oms in if listed om.action seen then rest else om ∷ rest

unfoldable pub all_maturities : Manifest → List OperationMaturity
all_maturities m = listed_maturities m m.actions ++ unlisted_maturities m.actions m.maturities
