-- ===== src/VaultAmm/Requests.antt =====
-- An account with parameters, for src/vault_amm.rs: which adapter they name.
use Prim.Native.String.{String}
use drfraudsworth_jupiter_ad.Prelude.{
  ◌≡◌, ◌↔◌, refl, sym, ap, ◌∙◌, Option, some, ok, Error, ok_or, ok_or_ok, ok_inj, >>=-eq-ok,
}
use drfraudsworth_jupiter_ad.Pubkey.{Pubkey}
use drfraudsworth_jupiter_ad.Solana.{Derivation}
use drfraudsworth_jupiter_ad.Jupiter.{Account, Params, KeyedAccount}
use drfraudsworth_jupiter_ad.VaultAmm.{
  VaultAmm, conversion_output_vault, derive_synthetic_key, instance_of, from_params,
  from_keyed_account, keyed,
}
use drfraudsworth_jupiter_ad.VaultAmm.Labels.{format_label}
use drfraudsworth_jupiter_ad.VaultAmm.Edges.{
  IsEdge, HasDistinctKeys, bare, conversion_output_vault_iff, known_key_resolves,
}

module _ (d : Derivation) (parse_pubkey : String → Option Pubkey) where
  -- The parameter of this name is the text of a mint.
  abbrev pub NamesMint : Params → String → Pubkey → Type 0
  NamesMint params name mint =
      (text : String) × (params name ≡ some text) × (parse_pubkey text ≡ some mint)

  -- The parameters name the mints of an edge.
  pub record Requests (params : Params) (input output vault : Pubkey) : Type 0 where
    pub input_named : NamesMint params "input_mint" input
    pub output_named : NamesMint params "output_mint" output
    pub edge : IsEdge input output vault

  -- The adapter of an edge at a key, with the balance uncapped.
  abbrev pub conversion_at : Pubkey → Pubkey → Pubkey → Pubkey → VaultAmm
  conversion_at key input output vault =
      record (instance_of d input output (format_label input output) vault) { key = key }

  abbrev pub with_params : Pubkey → Account → Params → KeyedAccount
  with_params key account params = record { key = key; account = account; params = some params }

  -- What an adapter of a request is.
  abbrev pub IsRequested : Pubkey → Params → VaultAmm → Type 0
  IsRequested key params amm =
      (input : Pubkey) × (output : Pubkey) × (vault : Pubkey) × Requests params input output vault
      × (amm ≡ conversion_at key input output vault)

  pub from_params-IsRequested :
      (key : Pubkey) (params : Params) {amm : VaultAmm}
      → from_params d parse_pubkey key params ≡ ok amm
      → IsRequested key params amm
  unfolding from_params instance_of
  from_params-IsRequested key params h =
      let (input_text, hi, rest) =
        >>=-eq-ok (ok_or (params "input_mint") Error.missing_input_mint) _ h in
      let (output_text, ho, rest) =
        >>=-eq-ok (ok_or (params "output_mint") Error.missing_output_mint) _ rest in
      let (input, pi, rest) =
        >>=-eq-ok (ok_or (parse_pubkey input_text) Error.invalid_input_mint) _ rest in
      let (output, po, rest) =
        >>=-eq-ok (ok_or (parse_pubkey output_text) Error.invalid_output_mint) _ rest in
      let (vault, supported, done) =
        >>=-eq-ok (ok_or (conversion_output_vault input output) Error.unsupported_direction) _
          rest in
      (
        input,
        output,
        vault,
        record {
          input_named = (input_text, ok_or_ok _ _ hi, ok_or_ok _ _ pi);
          output_named = (output_text, ok_or_ok _ _ ho, ok_or_ok _ _ po);
          edge = (conversion_output_vault_iff input output vault).0 (ok_or_ok _ _ supported);
        },
        sym (ok_inj done),
      )

  IsRequested-from_params :
      (key : Pubkey) (params : Params) (amm : VaultAmm)
      → IsRequested key params amm
      → from_params d parse_pubkey key params ≡ ok amm
  unfolding from_params instance_of
  IsRequested-from_params key params amm (input, output, vault, r, eq) =
      let (input_text, hi, pi) = r.input_named in
      let (output_text, ho, po) = r.output_named in
      rw (hi, ho, pi, po, (conversion_output_vault_iff input output vault).1 r.edge, eq) refl

  -- An account with parameters becomes an adapter exactly where they name two mints by texts that
  -- parse, and these are an edge of the vault: then it is the adapter of that edge at the account's
  -- key, whatever the key and the account are.
  pub IsRequested-iff :
      (key : Pubkey) (account : Account) (params : Params) (amm : VaultAmm)
      → (from_keyed_account d parse_pubkey (with_params key account params) ≡ some (ok amm))
        ↔ IsRequested key params amm
  unfolding from_keyed_account keyed
  IsRequested-iff key account params amm = (
    (λ h. from_params-IsRequested key params cc),
    λ r. ap some (IsRequested-from_params key params amm r),
  )

  -- Where the keys of the four pairs differ, parameters that name an edge and the synthetic key of
  -- that edge without parameters lead to the same adapter.
  pub requested_same :
      (account account' : Account) (params : Params) (input output vault : Pubkey)
      → HasDistinctKeys d
      → Requests params input output vault
      → from_keyed_account d parse_pubkey
          (with_params (derive_synthetic_key d input output) account params)
        ≡ from_keyed_account d parse_pubkey
            (bare d parse_pubkey (derive_synthetic_key d input output) account')
  unfolding instance_of
  requested_same account account' params input output vault k r =
      (IsRequested-iff (derive_synthetic_key d input output) account params _).1
        (input, output, vault, r, refl)
      ∙ sym (known_key_resolves d parse_pubkey account' input output vault k r.edge)
