-- ===== src/Connectors.antt =====
-- internal/connectors/connectors.go: the three simulator connectors and the registry. `Prepare` is
-- pure there (it works on a clone), so here it is a function.
pub mod Payloads
pub mod Manifests
pub mod Preparing
pub mod Inventory
use Prim.Native.String.{String}
use text.Mathlib.Text.{◌==◌ as str_eq}
use workforce_platform.Base.{
  ℕ, ◌+◌, ◌-◌, Bool, true, false, not, ◌&&◌, ◌||◌, Option, none, some, List, [], ◌∷◌, ◌++◌, ◌==◌,
  if◌then◌else◌,
}
use workforce_platform.Base.Int.{ℤ, pos, ◌+ℤ◌, ◌-ℤ◌, ltz, neg, negate}
use workforce_platform.Schema.{Ident, Operation}
use workforce_platform.Schema.Values.{
  Json, Items, Fields, Number, Float64, Payload, null, boolean, number, string, array, object, nil,
  cons, end, field, int64, float64, json_number, whole, fractional, not_finite, blank, no_object,
  members,
}
use workforce_platform.Errors.{Error, Result, ok, err, err_stale, err_invalid, err_unknown}
use Payloads.{
  get_field, set_field, parse, integer, max_safe, as_string, as_strings, as_pointer, is_nil,
}
use Manifests.{Manifest, check, inventory_manifest, mail_manifest, document_manifest}

-- connectors.Record
pub record Record : Type 0 where
  pub id : Ident
  pub version : ℕ
  pub fields : Fields

-- prep
module _ (m : Manifest) (change : Fields → Result Fields) where
  next_record : Record → Result Fields → Result Record
  next_record cur (ok fs) = ok (record { id = cur.id; version = cur.version + 1; fields = fs })
  next_record cur (err e) = err e

  after_check : Record → Operation → Result (Unit {0}) → Result Record
  after_check cur op (err e) = err e
  after_check cur op (ok _) =
      if op.target_id == 0
        || (not (cur.id == op.target_id) || not (op.expected_version == cur.version))
      then err err_stale
      else next_record cur (change cur.fields)

  unfoldable pub prep : Record → Operation → Result Record
  unfolding next_record after_check
  prep cur op = after_check cur op (check m op)

-- The bounds that inventoryConnector.Prepare asks of the two integers before it adds them.
abbrev pub fits_quantity : ℤ → ℤ → Bool
fits_quantity delta q = not (
    ltz q (pos 0)
    || (ltz (pos max_safe) q || (ltz (pos max_safe -ℤ q) delta || ltz delta (negate q))))

unfoldable pub add_quantity : ℤ → Option ℤ → Fields → Result Fields
add_quantity delta none fs = err err_invalid
add_quantity delta (some q) fs =
    if fits_quantity delta q
    then ok (set_field "quantity" (number (int64 (q +ℤ delta))) fs)
    else err err_invalid

abbrev pub then_with : Result Fields → (Fields → Result Fields) → Result Fields
then_with (ok p) f = f p
then_with (err e) f = err e

unfoldable pub adjust_by : Option ℤ → Fields → Result Fields
adjust_by none fs = err err_invalid
adjust_by (some delta) fs = add_quantity delta (integer (get_field "quantity" fs)) fs

unfoldable pub adjust : Payload → Fields → Result Fields
adjust payload fs =
    then_with (parse payload ("delta" ∷ [])) (λ p. adjust_by (integer (get_field "delta" p)) fs)

-- The payload struct of mailConnector.Prepare.
pub record Mail : Type 0 where
  pub recipients : Items
  pub subject : ℕ
  pub body : ℕ
  pub bcc : Items
  pub attachments : Items

infixl 10 ◌>>=◌
abbrev ◌>>=◌ {ℓ κ} : {A : Type ℓ} {B : Type κ} → Result A → (A → Result B) → Result B
ok a >>= f = f a
err e >>= f = err e

unfoldable pub read_mail : Fields → Result Mail
read_mail p = do
  recipients ← as_strings (get_field "recipients" p)
  subject ← as_string (get_field "subject" p)
  body ← as_string (get_field "body" p)
  bcc ← as_strings (get_field "bcc" p)
  attachments ← as_strings (get_field "attachments" p)
  ok (record {
    recipients = recipients;
    subject = subject;
    body = body;
    bcc = bcc;
    attachments = attachments;
  })

unfoldable pub write_mail : Mail → Fields → Result Fields
write_mail m fs =
    if is_nil m.recipients || (m.subject == 0 || m.body == 0)
    then err err_invalid
    else ok (
        set_field "attachments" (array m.attachments) (
          set_field "bcc" (array m.bcc) (
            set_field "body" (string m.body) (
              set_field "subject" (string m.subject)
                (set_field "recipients" (array m.recipients) fs)))))

abbrev pub mail_fields : List String
mail_fields = "recipients" ∷ "subject" ∷ "body" ∷ "bcc" ∷ "attachments" ∷ []

unfoldable pub send : Payload → Fields → Result Fields
send payload fs = do p ← parse payload mail_fields; m ← read_mail p; write_mail m fs

unfoldable pub write_document : Option ℕ → Option ℕ → Fields → Result Fields
write_document none none fs = err err_invalid
write_document (some t) none fs = ok (set_field "title" (string t) fs)
write_document none (some c) fs = ok (set_field "content" (string c) fs)
write_document (some t) (some c) fs =
    ok (set_field "content" (string c) (set_field "title" (string t) fs))

unfoldable pub update : Payload → Fields → Result Fields
update payload fs = do
  p ← parse payload ("title" ∷ "content" ∷ [])
  title ← as_pointer (get_field "title" p)
  content ← as_pointer (get_field "content" p)
  write_document title content fs

pub data Connector : Type 0 where
  inventory mail documents : Connector

unfoldable pub manifest : Connector → Manifest
manifest inventory = inventory_manifest
manifest mail = mail_manifest
manifest documents = document_manifest

unfoldable pub validate : Connector → Operation → Result (Unit {0})
validate c op = check (manifest c) op

unfoldable pub prepare : Connector → Record → Operation → Result Record
prepare inventory cur op = prep inventory_manifest (adjust op.payload) cur op
prepare mail cur op = prep mail_manifest (send op.payload) cur op
prepare documents cur op = prep document_manifest (update op.payload) cur op

-- Registry.Get on NewRegistry().
unfoldable pub get : String → Option Connector
get id =
    if str_eq id "inventory"
    then some inventory
    else if str_eq id "mail"
    then some mail
    else if str_eq id "documents"
    then some documents
    else none
