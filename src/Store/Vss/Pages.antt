-- ===== src/Store/Vss/Pages.antt =====
-- The loop over the pages of keys of a `VssStore` ends (`list` of `libs/sdk-core/src/ldk/store/vss_store.rs`).
use breez_sdk.Prelude.{
  ◌≡◌, ◌<◌, ℕ, zero, suc, true, false, Option, none, List, [], Text, ok, arith, inl, inr, ◌++◌,
  Bool-cases, Result-cases, is_some, refl,
}
use breez_sdk.Prelude.Int.{ℤ}
use breez_sdk.Store.Vss.{VssClient, Sealing, Page, last_page, list_pages, vss_list}

module _ (client : VssClient) (sealing : Sealing) (rank : Option Text → ℕ)
    (advances : (token : Option Text) (st : client.State) (page : Page)
      → (client.list_key_versions token st).0 ≡ ok page
      → last_page page.next_page_token ≡ false
      → rank page.next_page_token < rank token) where
  list_pages-returns :
      (fuel : ℕ) (token : Option Text) (versions : List (Text × ℤ)) (st : client.State)
      → rank token < fuel
      → is_some (list_pages client sealing fuel token versions st).0 ≡ true
  unfolding list_pages
  list_pages-returns zero token versions st h = absurd (ground (arith, h))
  list_pages-returns (suc fuel) token versions st h =
      elim (Result-cases (client.list_key_versions token st).0) [
        | inr (e, fails) ↦ rw (fails, list_pages) refl
        | inl (page, got) ↦ elim (Bool-cases (last_page page.next_page_token)) [
          | inl last ↦ rw (got, last, list_pages) refl
          | inr more ↦
              let later =
                list_pages-returns fuel page.next_page_token (versions ++ page.key_versions)
                  (client.list_key_versions token st).1
                  (ground (arith, h, advances token st page got more)) in
              rw (got, more, list_pages) later
        ]
      ]

  -- Where the tokens that the server hands out come to an end, fuel above the rank of the start is enough.
  pub vss_list-returns :
      (fuel : ℕ) (st : client.State)
      → rank none < fuel
      → is_some (vss_list client sealing fuel st).0 ≡ true
  unfolding vss_list
  vss_list-returns fuel st h = list_pages-returns fuel none [] st h
