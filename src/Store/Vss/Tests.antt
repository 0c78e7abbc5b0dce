-- ===== src/Store/Vss/Tests.antt =====
-- A `VssStore` over a server in memory.
use breez_sdk.Prelude.{
  ◌≡◌, refl, ℕ, zero, suc, false, Option, none, some, [], ◌∷◌, Text, Bytes, Result, ok, err, codes,
  if◌then◌else◌, eq_text, arith,
}
use breez_sdk.Prelude.Int.{ℤ, pos, negsuc, ◌+ℤ◌, eq_ℤ_iff}
use breez_sdk.Prelude.TextMap.{TextMap, lookup, insert, erase, lookup-insert}
use breez_sdk.Store.Versioned.{Accepts, conflict}
use breez_sdk.Store.Mock.{mismatch}
use breez_sdk.Store.Vss.{
  VssClient, VssError, no_such_key, conflict_error, KeyValue, Sealing, Page, vss_get, vss_put,
}
use breez_sdk.Store.Vss.Kept.{
  IsVss, IsSealing, vss_get-vss_put, vss_get-others, vss_get-sealed, vss_view,
}

abbrev found : Text → Option (Bytes × ℤ) → Result VssError (Option KeyValue)
found k none = err no_such_key
found k (some (b, v)) = ok (some (record { key = k; version = v; value = b }))

unfoldable put_object :
    KeyValue → TextMap (Bytes × ℤ) → Result VssError (Unit {0}) × TextMap (Bytes × ℤ)
unfolding mismatch
put_object kv m =
    if mismatch (lookup kv.key m) kv.version
    then (err conflict_error, m)
    else (ok tt, insert kv.key (kv.value, kv.version +ℤ pos 1) m)

abbrev one_page : Page
one_page = record { key_versions = []; next_page_token = none }

abbrev client : VssClient
client = record {
  State = TextMap (Bytes × ℤ);
  get_object = λ k m. (found k (lookup k m), m);
  put_object = put_object;
  delete_object = λ kv m. (ok tt, erase kv.key m);
  list_key_versions = λ token m. (ok one_page, m);
}

found-some :
    (k : Text) (o : Option (Bytes × ℤ)) (kv : KeyValue)
    → found k o ≡ ok (some kv)
    → o ≡ some (kv.value, kv.version)
found-some k none kv h = absurd (ground (arith, h))
found-some k (some (b, v)) kv h = ground (arith, h)

found-none : (k : Text) (o : Option (Bytes × ℤ)) → found k o ≡ ok none → o ≡ none
found-none k none h = refl
found-none k (some (b, v)) h = absurd (ground (arith, h))

found-missing : (k : Text) (o : Option (Bytes × ℤ)) → found k o ≡ err no_such_key → o ≡ none
found-missing k none h = refl
found-missing k (some (b, v)) h = absurd (ground (arith, h))

agrees : (o : Option (Bytes × ℤ)) (v : ℤ) → mismatch o v ≡ false → Accepts v o
unfolding mismatch
agrees none v h = tt
agrees (some (b, c)) v h = ground (arith, h, eq_ℤ_iff c v)

put_object-ok :
    (k : Text) (b : Bytes) (n : ℕ) (m : TextMap (Bytes × ℤ))
    → (put_object (record { key = k; version = pos n; value = b }) m).0 ≡ ok tt
    → Accepts (pos n) (lookup k m)
      × ((j : Text)
          → lookup j (put_object (record { key = k; version = pos n; value = b }) m).1
            ≡ (if eq_text k j then some (b, pos n +ℤ pos 1) else lookup j m))
unfolding put_object
put_object-ok k b n m h = (
  agrees (lookup k m) (pos n) (ground (arith, h)),
  λ j. ground (arith, h, lookup-insert k j (b, pos n +ℤ pos 1) m),
)

abbrev server : IsVss client
server = record {
  view = λ m k. lookup k m;
  get_found = λ k m kv h. found-some k (lookup k m) kv h;
  get_missing = λ k m h. found-none k (lookup k m) h;
  get_no_such_key = λ k m h. found-missing k (lookup k m) h;
  put_ok = put_object-ok;
}

abbrev seal : Bytes → ℤ → Text → Bytes
seal b (pos n) k = 0 ∷ n ∷ b
seal b (negsuc n) k = 1 ∷ n ∷ b

abbrev unseal : Bytes → Text → Option (Bytes × ℤ)
unseal [] k = none
unseal (sign ∷ []) k = none
unseal (zero ∷ n ∷ b) k = some (b, pos n)
unseal (suc s ∷ n ∷ b) k = some (b, negsuc n)

unseal-seal : (b : Bytes) (v : ℤ) (k : Text) → unseal (seal b v k) k ≡ some (b, v)
unseal-seal b (pos n) k = refl
unseal-seal b (negsuc n) k = refl

abbrev sealing : Sealing
sealing = record {
  obfuscate = λ k. 9 ∷ k;
  deobfuscate = λ k. elim k [ [] ↦ none | _ ∷ rest ↦ some rest ];
  build = seal;
  deconstruct = unseal;
}

abbrev seals : IsSealing sealing
seals = record { deobfuscate-obfuscate = λ k. refl; deconstruct-build = unseal-seal }

abbrev stored : TextMap (Bytes × ℤ)
stored = (9 ∷ codes "a", (0 ∷ 3 ∷ codes "old", pos 3)) ∷ []

vss_get-vss_put_example :
    Accepts (pos 3) (vss_view client server sealing seals stored (codes "a"))
    × ((vss_get client sealing
          (codes "a")
          (vss_put client sealing (codes "a") (codes "new") (pos 3) stored).1).0
        ≡ ok (some (codes "new", pos 3 +ℤ pos 1)))
unfolding vss_put put_object lookup eq_text insert ◌+ℤ◌
vss_get-vss_put_example =
    vss_get-vss_put client server sealing seals (codes "a") (codes "new") 3 stored
      (some (record { key = 9 ∷ codes "a"; version = pos 4; value = 0 ∷ 4 ∷ codes "new" })) refl
      refl

vss_get-others_example : none ≡ vss_view client server sealing seals stored (codes "b")
unfolding vss_put put_object lookup eq_text vss_get insert
vss_get-others_example =
    vss_get-others client server sealing seals (codes "a") (codes "b") (codes "new") 3 stored none
      refl refl refl

vss_get-sealed_example :
    (bytes : Bytes) × ((lookup (9 ∷ codes "a") stored ≡ some (bytes, pos 3))
      × (unseal bytes (9 ∷ codes "a") ≡ some (codes "old", pos 3)))
unfolding vss_get lookup eq_text
vss_get-sealed_example =
    vss_get-sealed client server sealing seals (codes "a") stored (codes "old") (pos 3) refl

-- A write that names an old version is refused.
old_version : (vss_put client sealing (codes "a") (codes "new") (pos 2) stored).0 ≡ err conflict
unfolding vss_put put_object lookup eq_text
old_version = refl
