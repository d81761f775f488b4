-- ===== src/Connectors/Preparing.antt =====
-- What a prepared record looks like, for each connector.
use Prim.Native.String.{String}
use text.Mathlib.Text.{◌==◌ as str_eq}
use text.Mathlib.TextEquality.{eq_iff}
use workforce_platform.Base.{◌+◌, some, ◌≡◌, refl, arith, if◌then◌else◌}
use workforce_platform.Schema.{Operation}
use workforce_platform.Schema.Values.{Json, Fields, end, field}
use workforce_platform.Errors.{Result, ok}
use workforce_platform.Connectors.Payloads.{get_field, set_field}
use workforce_platform.Connectors.Manifests.{Manifest, check}
use workforce_platform.Connectors.{
  Record, Connector, inventory, mail, documents, prep, prepare, validate, manifest, adjust, send,
  update,
}

-- A write changes the member that it names and no other.
pub get_field-set_field :
    (k j : String) (v : Json) (fs : Fields)
    → get_field j (set_field k v fs) ≡ (if str_eq k j then some v else get_field j fs)
unfolding get_field set_field
get_field-set_field k j v end = refl
get_field-set_field k j v (field i w rest) =
    ground (arith, eq_iff k j, eq_iff i k, eq_iff i j, get_field-set_field k j v rest)

module _ (m : Manifest) (change : Fields → Result Fields) (cur next : Record) (op : Operation) where
  pub prep-eq-ok :
      prep m change cur op ≡ ok next
      → (check m op ≡ ok tt)
        × (cur.id ≡ op.target_id)
        × (op.expected_version ≡ cur.version)
        × (next.id ≡ cur.id)
        × (next.version ≡ cur.version + 1)
        × (change cur.fields ≡ ok next.fields)
  unfolding prep
  prep-eq-ok e = ground arith

-- Every connector prepares only an operation that its manifest lists, on the record and at the version
-- that the operation names, and gives that record the next version.
prepare_record :
    (c : Connector) (cur next : Record) (op : Operation)
    → prepare c cur op ≡ ok next
    → (validate c op ≡ ok tt)
      × (cur.id ≡ op.target_id)
      × (op.expected_version ≡ cur.version)
      × (next.id ≡ cur.id)
      × (next.version ≡ cur.version + 1)
unfolding prepare validate manifest
prepare_record inventory cur next op e =
    let (v, t, x, i, n, _) = prep-eq-ok _ (adjust op.payload) cur next op e in (v, t, x, i, n)
prepare_record mail cur next op e =
    let (v, t, x, i, n, _) = prep-eq-ok _ (send op.payload) cur next op e in (v, t, x, i, n)
prepare_record documents cur next op e =
    let (v, t, x, i, n, _) = prep-eq-ok _ (update op.payload) cur next op e in (v, t, x, i, n)
