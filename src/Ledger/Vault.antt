-- ===== src/Ledger/Vault.antt =====
-- `VaultTransitSigner` (adapters/ledger/vault_signer.py). base64, the public key's constructor and
-- Python's `int` of a text are parameters. Bytes are lists of numbers.
use Prim.Native.Char.{code}
use Prim.Native.String.{[] as nothing, ◌∷◌ as char_cons}
use openagent_control.Prelude.{
  ◌≡◌, refl, ℕ, String, Option, none, some, List, [], ◌∷◌, max, eqb, if◌then◌else◌, get_or,
}
use openagent_control.Text.{◌<>◌, strip_end, decimal}
use openagent_control.Json.{Json, str, obj, Fields, end, field}
use openagent_control.Exec.{Result, ok, err, uncaught, bind, Exec}
use openagent_control.Ledger.Encoding.{Bytes}
use openagent_control.Access.{subscript, body_of}
use openagent_control.Http.{Response, Sent, received, http_error, broken, json_body, HttpClient}

pub record Codec (K : Type 0) : Type 0 where
  pub b64encode : Bytes → String
  pub b64decode : Json → Result Bytes
  pub from_public_bytes : Bytes → Result K
  -- `int(v)` of a key's version
  pub int_of : String → Result ℕ

-- `_base`, `_key_name` and `_public_key`
pub record VaultTransitSigner (K : Type 0) : Type 0 where
  pub base : String
  pub key_name : String
  pub key : K

-- `s.rsplit(":", 1)[-1]`: what follows the last colon, or the whole text
unfoldable pub after_colon : String → Option String
after_colon nothing = none
after_colon (char_cons c s) =
    let rest = after_colon s in
    elim rest [ some t ↦ some t | none ↦ if eqb (code c) 58 then some s else none ]

unfoldable pub last_part : Json → Result Json
unfolding after_colon
last_part (str s) = ok (str (get_or (after_colon s) s))
last_part _ = err (uncaught "AttributeError: object has no attribute 'rsplit'")

unfoldable pub keys_of : Fields → List String
keys_of end = []
keys_of (field k v d) = k ∷ keys_of d

-- `max(int(v) for v in keys)`, which raises on no keys
unfoldable pub max_of : (String → Result ℕ) → List String → Result ℕ
max_of int_of [] = err (uncaught "ValueError: max() iterable argument is empty")
max_of int_of (k ∷ []) = int_of k
max_of int_of (k ∷ j ∷ ks) =
    let rest = max_of int_of (j ∷ ks) in bind (int_of k) λ n. bind rest λ m. ok (max n m)

unfoldable pub latest_of : {K : Type 0} → Codec K → Json → Result Json
unfolding keys_of max_of
latest_of c (obj keys) =
    bind (max_of c.int_of (keys_of keys)) λ version. subscript (decimal version) (obj keys)
latest_of c _ = err (uncaught "TypeError: not a dict")

module _ {K : Type 0} (c : Codec K) where
  -- The public key in the body of an answer.
  unfoldable pub read_key : Json → Result K
  unfolding latest_of
  read_key body = bind (subscript "data" body) λ details. bind (subscript "keys" details) λ keys.
      bind (latest_of c keys) λ latest.
        bind (subscript "public_key" latest)
          λ encoded. bind (c.b64decode encoded) c.from_public_bytes

  abbrev checked : {E : Type 0} → HttpClient E → Response → (Json → Result K) → Result K
  checked http r read = elim (http.raise_for_status r) [
    | none ↦ bind (body_of r) read
    | some message ↦ err (uncaught message)
  ]

  unfoldable pub read_key_answer : {E : Type 0} → HttpClient E → String → Sent → Result K
  unfolding read_key body_of
  read_key_answer http key_name (received r) =
      if eqb r.status_code 404
      then err (
          uncaught (
            "VaultSignerError: transit key '" <> key_name
            <> "' does not exist — create it with: vault write -f transit/keys/" <> key_name
            <> " type=ed25519"))
      else checked http r read_key
  read_key_answer http key_name (http_error message) = err (uncaught message)
  read_key_answer http key_name (broken message) = err (uncaught message)

  -- `_fetch_public_key`
  unfoldable pub fetch_public_key : {E : Type 0} → HttpClient E → String → String → Exec E K
  unfolding read_key_answer
  fetch_public_key http base key_name w =
      let (sent, w') = http.get (base <> "/v1/transit/keys/" <> key_name) w in
      (read_key_answer http key_name sent, w')

  -- `__init__`: a client that the signer made is closed when the key cannot be had.
  unfoldable pub create_signer :
      {E : Type 0}
      → HttpClient E
      → Option (HttpClient E)
      → String
      → String
      → Exec E (VaultTransitSigner K)
  unfolding fetch_public_key
  create_signer made given vault_url key_name w =
      let http = get_or given made in
      let base = strip_end (λ ch. eqb (code ch) 47) vault_url in
      let (r, w') = fetch_public_key http base key_name w in
      elim r [
        | ok key ↦ (ok (record { base = base; key_name = key_name; key = key }), w')
        | err e ↦ (err e, elim given [ none ↦ http.close w' | some client ↦ w' ])
      ]

  -- The signature in the body of an answer.
  unfoldable pub read_signature : Json → Result Bytes
  unfolding last_part
  read_signature body = bind (subscript "data" body) λ details.
      bind (subscript "signature" details) λ signature. bind (last_part signature) c.b64decode

  unfoldable pub read_signed : {E : Type 0} → HttpClient E → Sent → Result Bytes
  unfolding read_signature body_of
  read_signed http (received r) = elim (http.raise_for_status r) [
    | none ↦ bind (body_of r) read_signature
    | some message ↦ err (uncaught message)
  ]
  read_signed http (http_error message) = err (uncaught message)
  read_signed http (broken message) = err (uncaught message)

  -- `sign`
  unfoldable pub sign : {E : Type 0} → HttpClient E → VaultTransitSigner K → Bytes → Exec E Bytes
  unfolding read_signed
  sign http s unsigned_bytes w =
      let input = json_body (obj (field "input" (str (c.b64encode unsigned_bytes)) end)) in
      let (sent, w') = http.post (s.base <> "/v1/transit/sign/" <> s.key_name) input [] w in
      (read_signed http sent, w')

-- `public_key`
unfoldable pub public_key : {K : Type 0} → VaultTransitSigner K → K
public_key s = s.key

signature_part : last_part (str "vault:v3:c2ln") ≡ ok (str "c2ln")
unfolding last_part
signature_part = refl
