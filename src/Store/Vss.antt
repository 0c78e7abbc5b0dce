-- ===== src/Store/Vss.antt =====
-- `VssStore` of `libs/sdk-core/src/ldk/store/vss_store.rs`, which stores values encrypted under obfuscated keys.
-- The client of the server, the obfuscation of keys, the encryption and the encoding of messages are parameters;
-- the two derived keys are fixed in them, and so is the id of the store in the client.
pub mod Kept
pub mod Pages
mod Tests
use breez_sdk.Prelude.{
  ◌≡◌, ℕ, zero, suc, Bool, true, false, Option, none, some, List, [], ◌∷◌, ◌++◌, Text, Bytes,
  Result, ok, err, ◌>>=◌, ◌>>◌, ensure, ok_or, map,
}
use breez_sdk.Prelude.Int.{ℤ, pos, negsuc, ◌+ℤ◌, eq_ℤ}
use breez_sdk.Store.Versioned.{Error, conflict, internal, Versioned}

-- `VssError`; the other kinds are one.
pub data VssError : Type 0 where
  no_such_key conflict_error other_error : VssError

pub record KeyValue : Type 0 where
  pub key : Text
  pub version : ℤ
  pub value : Bytes

-- `From<VssError> for Error`
abbrev pub from_vss : VssError → Error
from_vss no_such_key = internal
from_vss conflict_error = conflict
from_vss other_error = internal

pub record Page : Type 0 where
  pub key_versions : List (Text × ℤ)
  pub next_page_token : Option Text

pub record VssClient : Type 1 where
  pub State : Type 0
  pub get_object : Text → State → Result VssError (Option KeyValue) × State
  pub put_object : KeyValue → State → Result VssError (Unit {0}) × State
  pub delete_object : KeyValue → State → Result VssError (Unit {0}) × State
  pub list_key_versions : Option Text → State → Result VssError Page × State

-- `KeyObfuscator` and `StorableBuilder`, whose text that is authenticated with the value is the obfuscated key.
pub record Sealing : Type 0 where
  pub obfuscate : Text → Text
  pub deobfuscate : Text → Option Text
  pub build : Bytes → ℤ → Text → Bytes
  pub deconstruct : Bytes → Text → Option (Bytes × ℤ)

-- `unwrap_or_default().is_empty()`
abbrev pub last_page : Option Text → Bool
last_page none = true
last_page (some []) = true
last_page (some (c ∷ t)) = false

module _ (sealing : Sealing) where
  unfoldable pub construct_storable : Text → Bytes → ℤ → Bytes
  construct_storable obfuscated_key value version =
      sealing.build value (version +ℤ pos 1) obfuscated_key

  unfoldable pub deconstruct_storable : Text → Bytes → Result Error Versioned
  deconstruct_storable obfuscated_key bytes =
      ok_or (sealing.deconstruct bytes obfuscated_key) internal

  -- The version that was encrypted with the value is the one of the server.
  unfoldable pub opened : Text → KeyValue → Result Error (Option Versioned)
  unfolding deconstruct_storable
  opened obfuscated_key kv = deconstruct_storable obfuscated_key kv.value >>= λ stored.
      ensure (eq_ℤ stored.1 kv.version) internal >> ok (some (stored.0, kv.version))

  unfoldable pub deobfuscate_all : List (Text × ℤ) → Result Error (List (Text × ℤ))
  deobfuscate_all [] = ok []
  deobfuscate_all ((key, version) ∷ rest) = ok_or (sealing.deobfuscate key) internal >>= λ plain.
      deobfuscate_all rest >>= λ versions. ok ((plain, version) ∷ versions)

module _ (client : VssClient) (sealing : Sealing) where
  unfoldable pub vss_get : Text → client.State → Result Error (Option Versioned) × client.State
  unfolding opened
  vss_get key st =
      let (answer, st1) = client.get_object (sealing.obfuscate key) st in
      (
        elim answer [
          | ok (some kv) ↦ opened sealing (sealing.obfuscate key) kv
          | ok none ↦ ok none
          | err no_such_key ↦ ok none
          | err conflict_error ↦ err conflict
          | err other_error ↦ err internal
        ],
        st1,
      )

  abbrev pub converted {ℓ} : {A : Type ℓ} → Result VssError A → Result Error A
  converted (ok a) = ok a
  converted (err e) = err (from_vss e)

  unfoldable pub vss_put : Text → Bytes → ℤ → client.State → Result Error (Unit {0}) × client.State
  unfolding construct_storable
  vss_put key value version st =
      let obfuscated_key = sealing.obfuscate key in
      let (answer, st1) =
        client.put_object
          (record {
            key = obfuscated_key;
            version = version;
            value = construct_storable sealing obfuscated_key value version;
          })
          st in
      (converted answer, st1)

  -- The version -1 asks for no check.
  unfoldable pub vss_delete : Text → client.State → Result Error (Unit {0}) × client.State
  vss_delete key st =
      let (answer, st1) =
        client.delete_object
          (record { key = sealing.obfuscate key; version = negsuc 0; value = [] }) st in
      (converted answer, st1)

  -- The loop over the pages; none when the fuel has run out.
  unfoldable pub list_pages :
      ℕ
      → Option Text
      → List (Text × ℤ)
      → client.State
      → Option (Result Error (List (Text × ℤ))) × client.State
  list_pages zero token versions st = (none, st)
  list_pages (suc fuel) token versions st =
      let (answer, st1) = client.list_key_versions token st in
      elim answer [
        | err e ↦ (some (err (from_vss e)), st1)
        | ok page ↦ elim (last_page page.next_page_token) [
          | true ↦ (some (deobfuscate_all sealing (versions ++ page.key_versions)), st1)
          | false ↦ list_pages fuel page.next_page_token (versions ++ page.key_versions) st1
        ]
      ]

  unfoldable pub vss_list :
      ℕ → client.State → Option (Result Error (List (Text × ℤ))) × client.State
  unfolding list_pages
  vss_list fuel st = list_pages fuel none [] st
