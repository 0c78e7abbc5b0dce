-- ===== src/Store/TimeLock/Encoding.antt =====
-- `LockData::encode` and `decode` of `libs/sdk-core/src/ldk/store/time_lock.rs`, over `serde_json`.
use breez_sdk.Prelude.{◌≡◌, some, none, [], ◌∷◌, Bytes, ok, arith}
use breez_sdk.Store.TimeLock.{LockData, Json, decode, encode}

-- What the code relies on of `serde_json`: it reads back what it wrote, and no text is not JSON.
pub record IsJson (json : Json) : Type 0 where
  pub from_slice-to_vec :
      (d : LockData) (b : Bytes) → json.to_vec d ≡ some b → json.from_slice b ≡ some d
  pub from_slice_empty : json.from_slice [] ≡ none

-- A lock that was encoded decodes to itself.
pub decode-encode :
    (json : Json) (d : LockData) (b : Bytes)
    → IsJson json
    → encode json d ≡ some b
    → decode json b ≡ ok d
unfolding decode encode
decode-encode json d [] j e = ground (arith, j.from_slice-to_vec d [] e, j.from_slice_empty)
decode-encode json d (x ∷ b) j e = ground (arith, j.from_slice-to_vec d (x ∷ b) e)
