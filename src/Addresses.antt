-- ===== src/Addresses.antt =====
-- src/accounts/addresses.rs: the hardcoded mainnet addresses. `pubkey!` decodes base58; each
-- constant is the decoded 32 bytes, read as one big-endian number. `Texts` decodes the source's
-- texts again.
mod Texts
use drfraudsworth_jupiter_ad.Pubkey.{Pubkey}

abbrev pub amm_program_id : Pubkey
amm_program_id = 0x4002a5ab775b3b4d931b2b47c03c77f2df865dc81c36c4abd9ba1d7e1f8ac6ba

abbrev pub transfer_hook_program_id : Pubkey
transfer_hook_program_id = 0xae0bcffcd3713fec674533285e5f5f0c910d67e5105f9cd8f11f6ad730ec1232

abbrev pub tax_program_id : Pubkey
tax_program_id = 0x2d41d172b79e0e2e60af8fd5ae07ea87419ef81e2ef2f126cd1e0a1df5528d80

abbrev pub epoch_program_id : Pubkey
epoch_program_id = 0x30d723275cfffcb1ff3bd70e8a0ffc2ae0fb7c3fe753e296bc67f2cd301be0d1

abbrev pub staking_program_id : Pubkey
staking_program_id = 0x006814b3b3448f00f1e25951f8e16bdf9208537372afd64a4945955d65fc723a

abbrev pub conversion_vault_program_id : Pubkey
conversion_vault_program_id = 0x0141c80718067aad1be9b80dbade7b216147413502949a7b6ff1eb1348b4c655

abbrev pub crime_mint : Pubkey
crime_mint = 0x09134573ad65aad688e3a59dbac1022ea9152f3e64e6753c6c8b8f4c88d85d27

abbrev pub fraud_mint : Pubkey
fraud_mint = 0xdcb6edb69e6c5568401b5cbe4ef39fb349f28a21600af3ff6570c64ec4158f10

abbrev pub profit_mint : Pubkey
profit_mint = 0x0c26562cfbeefda2f08c5e444fad4b64a5720f5f098bd1d378ea5240f1ab3448

abbrev pub native_mint : Pubkey
native_mint = 0x069b8857feab8184fb687f634618c035dac439dc1aeb3b5598a0f00000000001

abbrev pub epoch_state_pda : Pubkey
epoch_state_pda = 0xdada31db6dc7d8b167006c7c129474bcc88a94c5c400de9a158d5a52b436e96b

abbrev pub swap_authority_pda : Pubkey
swap_authority_pda = 0xaf466cb6b02c83736d3f102539673ee904373dab334530797198bc2dade9f022

abbrev pub tax_authority_pda : Pubkey
tax_authority_pda = 0x76cb19c780735fce3c8d3efda6b17dbe72e57e2bf45b034c39bab39af270ca2b

abbrev pub stake_pool_pda : Pubkey
stake_pool_pda = 0x3e27bc8d487a43056c15382951fc25da899960c95accdbd0658afc707526d007

abbrev pub escrow_vault_pda : Pubkey
escrow_vault_pda = 0x035a5c1b0cf4d9c397ae7c9c8a402125de53a88cabe5e83ab025bc57be0e9009

abbrev pub carnage_sol_vault_pda : Pubkey
carnage_sol_vault_pda = 0x3d83730eecce3d612497c0a4cebac7c750760fba61787f39b9a2fecc5bb222c8

abbrev pub treasury : Pubkey
treasury = 0xe2156455b8382840ca37be0a1c5849e52921b3867978380d8e7bda635a44f643

abbrev pub wsol_intermediary_pda : Pubkey
wsol_intermediary_pda = 0x130e4620650a130f65502a94a1d13c7b75a8cf1dc5d2c82eb9fb62e1c050307e

abbrev pub vault_config_pda : Pubkey
vault_config_pda = 0x75a6588f99a6750637cb0f663e04b031851c0026796d263c3650ea5ba8321ace

abbrev pub vault_crime : Pubkey
vault_crime = 0xe9280927fe32c1c537486e7c2caaa7a0a2a8565c2a4f2e7f63f5be2b8d37d741

abbrev pub vault_fraud : Pubkey
vault_fraud = 0xb752a7e3af63e6229cb228ba74fb045efd069692aafefa943543881adb71e8ef

abbrev pub vault_profit : Pubkey
vault_profit = 0xb4f3518ef73efe2b343fc2677708309ca234b4cab3791ad2a7299e6b8d061d78

abbrev pub whitelist_authority : Pubkey
whitelist_authority = 0xfd423ef282f0b7e7610ac1a8ffb6d3b02f7033f825654cac66fa27c8cc4824e3

abbrev pub crime_sol_pool : Pubkey
crime_sol_pool = 0x0853e9d654356c34aa5ff52c93f646bd2c4edeb14007e28cf9da857bb5719fd2

abbrev pub crime_sol_vault_a : Pubkey
crime_sol_vault_a = 0x00fc6d2c6f43b2c0024d48a5403929af7eedecf8aab6a1aaae0c6972d120936a

abbrev pub crime_sol_vault_b : Pubkey
crime_sol_vault_b = 0x571fd3b6c0f3e3ff9e8a33dd5196c7d9d0d5e04608be2397293746594a086542

abbrev pub fraud_sol_pool : Pubkey
fraud_sol_pool = 0x916d758567eb73aadc0052130d25300aea2fd2a5493410dd07c8a21bab86e1b8

abbrev pub fraud_sol_vault_a : Pubkey
fraud_sol_vault_a = 0x2aa53245d63de0e5354ee107fbe3c25b196b14d292a9e924780cd442f5888b70

abbrev pub fraud_sol_vault_b : Pubkey
fraud_sol_vault_b = 0x1aa43833c243b98db7ea60a5cec425bfee39436c07cede06f7ad893b37974fb2

abbrev pub crime_hook_meta : Pubkey
crime_hook_meta = 0xaa1244bf63da29cfbe06b89216114ebcc3479ba46fb7b318d7310ac8f41c32b7

abbrev pub fraud_hook_meta : Pubkey
fraud_hook_meta = 0x5f1c598fc6e2139dabb04aafe3d1d73b9aea92ab64897fe8cb52bb8a57ac0ece

abbrev pub profit_hook_meta : Pubkey
profit_hook_meta = 0xfd8526a0b0095aa2b795408145eee1fe302aa3df540129b6cc0e35eb050e851c

abbrev pub spl_token_program_id : Pubkey
spl_token_program_id = 0x06ddf6e1d765a193d9cbe146ceeb79ac1cb485ed5f5b37913a8cf5857eff00a9

abbrev pub token_2022_program_id : Pubkey
token_2022_program_id = 0x06ddf6e1ee758fde18425dbce46ccddab61afc4d83b90d27febdf928d8a18bfc

abbrev pub system_program_id : Pubkey
system_program_id = 0x0000000000000000000000000000000000000000000000000000000000000000
