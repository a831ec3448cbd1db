-- ===== src/Types/Constants.antt =====
-- src/config/constants.rs: the constants that the modelled code reads.
use Prim.Native.Nat.{ℕ}

abbrev pub max_transfers_in_one_tx : ℕ
max_transfers_in_one_tx = 12

abbrev pub cached_tx_signatures_buffer_capacity : ℕ
cached_tx_signatures_buffer_capacity = 1024

abbrev pub timeout_for_action_execution_hbs : ℕ
timeout_for_action_execution_hbs = 200

abbrev pub retries_if_error_or_timeout : ℕ
retries_if_error_or_timeout = 2

abbrev pub base_tx_fee_sol : ℕ
base_tx_fee_sol = 5000

abbrev pub transfer_priority_fee_sol : ℕ
transfer_priority_fee_sol = 10000

abbrev pub rent_exemption_threshold_sol : ℕ
rent_exemption_threshold_sol = 2039280

abbrev pub new_account_threshold_sol : ℕ
new_account_threshold_sol = 890880

abbrev pub u64_mod : ℕ
u64_mod = 0x10000000000000000

abbrev pub u128_mod : ℕ
u128_mod = 0x100000000000000000000000000000000

-- The number whose base 58 digits are `WSOL_MINT_ADDRESS`.
abbrev pub wsol_mint_pubkey : ℕ
wsol_mint_pubkey = 0x069b8857feab8184fb687f634618c035dac439dc1aeb3b5598a0f00000000001

abbrev pub action_expiry_s : ℕ
action_expiry_s = 1000

abbrev pub simulation_retries : ℕ
simulation_retries = 1

abbrev pub u32_mod : ℕ
u32_mod = 0x100000000

abbrev pub balance_change_threshold_sol : ℕ
balance_change_threshold_sol = 1000
