-- ===== src/Addresses/Texts.antt =====
-- The texts of src/accounts/addresses.rs, decoded from base58, are the constants of the parent's
-- sibling declarations.
use Prim.Native.Char.{code}
use Prim.Native.String.{String}
use mathlib.Core.Bool.{◌&&◌}
use drfraudsworth_jupiter_ad.Prelude.{
  ℕ, ◌+◌, ◌-◌, ◌*◌, ◌≡◌, refl, Bool, true, List, [], ◌∷◌, ltb, ◌==◌, if◌then◌else◌,
}
use drfraudsworth_jupiter_ad.Addresses.{
  amm_program_id, transfer_hook_program_id, tax_program_id, epoch_program_id, staking_program_id,
  conversion_vault_program_id, crime_mint, fraud_mint, profit_mint, native_mint, epoch_state_pda,
  swap_authority_pda, tax_authority_pda, stake_pool_pda, escrow_vault_pda, carnage_sol_vault_pda,
  treasury, wsol_intermediary_pda, vault_config_pda, vault_crime, vault_fraud, vault_profit,
  whitelist_authority, crime_sol_pool, crime_sol_vault_a, crime_sol_vault_b, fraud_sol_pool,
  fraud_sol_vault_a, fraud_sol_vault_b, crime_hook_meta, fraud_hook_meta, profit_hook_meta,
  spl_token_program_id, token_2022_program_id, system_program_id,
}

-- The value of a digit of the base58 alphabet: 1-9, A-Z without I and O, a-z without l.
digit : ℕ → ℕ
digit c =
    if ltb c b'A'
    then c - 49
    else if ltb c b'I'
    then c - 56
    else if ltb c b'O'
    then c - 57
    else if ltb c b'a'
    then c - 58
    else if ltb c b'l'
    then c - 64
    else c - 65

base58 : ℕ → String → ℕ
unfolding digit
base58 acc String.[] = acc
base58 acc (String.◌∷◌ c s) = base58 (acc * 58 + digit (code c)) s

all_equal : List (ℕ × String) → Bool
unfolding base58
all_equal [] = true
all_equal ((key, text) ∷ rest) = (key == base58 0 text) && all_equal rest

texts_decode :
    all_equal (
      (amm_program_id, "5JsSAL3kJDUWD4ZveYXYZmgm1eVqueesTZVdAvtZg8cR")
      ∷ (transfer_hook_program_id, "CiQPQrmQh6BPhb9k7dFnsEs5gKPgdrvNKFc5xie5xVGd")
      ∷ (tax_program_id, "43fZGRtmEsP7ExnJE1dbTbNjaP1ncvVmMPusSeksWGEj")
      ∷ (epoch_program_id, "4Heqc8QEjJCspHR8y96wgZBnBfbe3Qb8N6JBZMQt9iw2")
      ∷ (staking_program_id, "12b3t1cNiAUoYLiWFEnFa4w6qYxVAiqCWU7KZuzLPYtH")
      ∷ (conversion_vault_program_id, "5uawA6ehYTu69Ggvm3LSK84qFawPKxbWgfngwj15NRJ")
      ∷ (crime_mint, "cRiMEhAxoDhcEuh3Yf7Z2QkXUXUMKbakhcVqmDsqPXc")
      ∷ (fraud_mint, "FraUdp6YhtVJYPxC2w255yAbpTsPqd8Bfhy9rC56jau5")
      ∷ (profit_mint, "pRoFiTj36haRD5sG2Neqib9KoSrtdYMGrM7SEkZetfR")
      ∷ (native_mint, "So11111111111111111111111111111111111111112")
      ∷ (epoch_state_pda, "FjJrLcmDjA8FtavGWdhJq3pdirAH889oWXc2bhEAMbDU")
      ∷ (swap_authority_pda, "CoCdbornGtiZ8tLxF5HD2TdGidfgfwbbiDX79BaZGJ2D")
      ∷ (tax_authority_pda, "8zijSBnoiGQzwccQkdNuAwbZCieDZsxdn2GgKDErCemQ")
      ∷ (stake_pool_pda, "5BdRPPwEDpHEtRgdp4MfywbwmZnrf6u23bXMnG1w8ViN")
      ∷ (escrow_vault_pda, "E68zPDgzMqnycj23g9T74ioHbDdvq3Npj5tT2yPd1SY")
      ∷ (carnage_sol_vault_pda, "5988CYMcvJpNtGbtCDnAMxrjrLxRCq3qPME7w2v36aNT")
      ∷ (treasury, "GDY4Qu3xGNGZxXdLs1h6eoMXZgJ9aPpv7jtCaqzMoDcN")
      ∷ (wsol_intermediary_pda, "2HPNULWVVdTcRiAm2DkghLA6frXxA2Nsu4VRu8a4qQ1s")
      ∷ (vault_config_pda, "8vFpSBnCVt8dfX57FKrsGwy39TEo1TjVzrj9QYGxCkcD")
      ∷ (vault_crime, "Gh9QHMY3J2NGyaHFH2XQCWxedf4G7kBfyu7Jonwn1bHA")
      ∷ (vault_fraud, "DLciB9t3qEuRcndGyjRmu1Z34NCwTPvNwbv7eUsFxTZG")
      ∷ (vault_profit, "DBMaWgfUW8WBb8VVvqDFkrMpEkPkCPTcLpSpyzHAiwp3")
      ∷ (whitelist_authority, "J3cjg1HFPda9tfCFEUx1vqKqmeDeda8s76RVweLeYpJe")
      ∷ (crime_sol_pool, "ZWUZ3PzGk6bg6g3BS3WdXKbdAecUgZxnruKXQkte7wf")
      ∷ (crime_sol_vault_a, "14rFLiXzXk7aXLnwAz2kwQUjG9vauS84AQLu6LH9idUM")
      ∷ (crime_sol_vault_b, "6s6cprCGxTAYCk9LiwCpCsdHzReW7CLZKqy3ZSCtmV1b")
      ∷ (fraud_sol_pool, "AngvViTVGd2zxP8KoFUjGU3TyrQjqeM1idRWiKM8p3mq")
      ∷ (fraud_sol_vault_a, "3sUDyw1k61NSKgn2EA9CaS3FbSZAApGeCRNwNFQPwg8o")
      ∷ (fraud_sol_vault_b, "2nzqXn6FivXjPSgrUGTA58eeVUDjGhvn4QLfhXK1jbjP")
      ∷ (crime_hook_meta, "CStTzemevJvk8vnjw57Wjzk5EFwN12Nmniz6R7qXWykr")
      ∷ (fraud_hook_meta, "7QGodnZAYGgastQMXcitcQjraYCMMNDgbp2uL73qjGkd")
      ∷ (profit_hook_meta, "J4dubfKw7vnZLhpPfMHqz8PcYWaChugnnSGUgGDzQ9AB")
      ∷ (spl_token_program_id, "TokenkegQfeZyiNwAJbNbGKPFXCWuBvf9Ss623VQ5DA")
      ∷ (token_2022_program_id, "TokenzQdBNbLqP5VEhdkAS6EPFLC1PHnBqCXEpPxuEb")
      ∷ (system_program_id, "11111111111111111111111111111111")
      ∷ [])
    ≡ true
unfolding all_equal
texts_decode = refl
