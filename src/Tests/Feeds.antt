-- ===== src/Tests/Feeds.antt =====
-- Runs of src/solana/tx_parser.rs, src/collectors/realtime_feed_events_collector.rs and
-- src/strategies/deposit/strategy.rs, over whole prices.
use foxfire_sniper.Base.{
  ℕ, ◌+◌, ◌^◌, ◌≡◌, ◌⊎◌, refl, true, false, none, some, List, [], ◌∷◌, ◌==◌, if◌then◌else◌, done,
  contains, arith,
}
use foxfire_sniper.Types.{
  Pubkey, RaydiumPoolPriceUpdate, BotEvent, blockchain_event, raydium_swap_event,
}
use foxfire_sniper.Accounts.{Accounts}
use foxfire_sniper.Cache.Operational
use foxfire_sniper.Cache.Operational.{
  Signatures, add_agent_tx, if_agent_signature, is_signature_processed, mark_signature_as_processed,
  get_uuid_by_signature,
}
use foxfire_sniper.Cache.LookupByValue.{contains_value, get_by_value, insert}
use foxfire_sniper.Tests.Agents.{env_at}
use foxfire_sniper.Tests.Snipes.{whole}
use foxfire_sniper.Feed.Transactions.{
  UiInstruction, compiled, partially_decoded, UiPartiallyDecodedInstruction, parsed_message, read,
  parse_ui_instruction,
}
use foxfire_sniper.Feed.Swaps.{Swap, sell, Meta, transfer, Chain, parse_tx_for_swaps}
use foxfire_sniper.Feed.Directions.{IsTransfer, parse_tx_for_swaps-user_first}
use foxfire_sniper.Feed.Updates.{AccountPretty, parse_account, prev_balance}
use foxfire_sniper.Feed.State.{TransactionPretty, TargetPool, Libraries, FeedCache, receipt}
use foxfire_sniper.Feed.Stream.{parse_transaction}
use foxfire_sniper.Feed.Receipts.{parse_transaction-confirms}
use foxfire_sniper.Utils.FeeMetrics
use foxfire_sniper.Deposit.{Engine, process_events, fee_action, process_events-charged}

-- The data 50 is a transfer of 700, the data 51 one of 40. The program of tokens is 60, Raydium 61
-- with the authority 62.
abbrev chain : Chain
chain = record {
  associated_token_address = λ wallet mint. 200 + wallet;
  base58_bytes = λ text. some (3 ∷ text ∷ []);
  unpack = λ bytes. elim bytes [
    | [] ↦ none
    | x ∷ rest ↦ elim rest [
      | [] ↦ none
      | text ∷ _ ↦ some (transfer (if text == 50 then 700 else 40))
    ]
  ];
  token_program_id = 60;
  raydium_v4_program_id = 61;
  raydium_v4_authority = 62;
}

-- The keys of the message, which compiled instructions name by their places.
abbrev keys : List Pubkey
keys = 60 ∷ 17 ∷ 91 ∷ 7 ∷ 90 ∷ 207 ∷ 62 ∷ []

-- The user 7 pays from 17, and the pool pays from 90 to the user's wrapped SOL 207.
abbrev user_pays : UiInstruction
user_pays =
    compiled (record { program_id_index = 0; account_indices = 1 ∷ 2 ∷ 3 ∷ []; compiled_data = 50 })

abbrev pool_pays : UiInstruction
pool_pays =
    compiled (record { program_id_index = 0; account_indices = 4 ∷ 5 ∷ 6 ∷ []; compiled_data = 51 })

user_moves : IsTransfer chain keys user_pays 17 91 7 700
unfolding parse_ui_instruction
user_moves = record {
  pd = record { program_id = 60; accounts = 17 ∷ 91 ∷ 7 ∷ []; encoded_data = 50 };
  resolved = refl;
  bytes = 50 ∷ [];
  decodes = refl;
  unpacks = refl;
  programmed = refl;
  accounted = refl;
}

pool_moves : IsTransfer chain keys pool_pays 90 207 62 40
unfolding parse_ui_instruction
pool_moves = record {
  pd = record { program_id = 60; accounts = 90 ∷ 207 ∷ 62 ∷ []; encoded_data = 51 };
  resolved = refl;
  bytes = 51 ∷ [];
  decodes = refl;
  unpacks = refl;
  programmed = refl;
  accounted = refl;
}

abbrev raydium : UiPartiallyDecodedInstruction
raydium = record { program_id = 61; accounts = 60 ∷ 80 ∷ 7 ∷ []; encoded_data = 52 }

abbrev sale : Swap
sale = record {
  signature = 99;
  pool_id = 80;
  quote_amount = 40;
  base_amount = 700;
  trade_direction = sell;
}

abbrev meta : Meta
meta = record { failed = false; inner_instructions = some ((user_pays ∷ pool_pays ∷ []) ∷ []) }

parse_tx_for_swaps-user_first_example :
    parse_tx_for_swaps chain (record {
      decoded = some (record {
        signatures = 99 ∷ [];
        message = some (parsed_message keys (partially_decoded raydium ∷ []));
      });
      meta = some meta;
    })
    ≡ read (sale ∷ [])
parse_tx_for_swaps-user_first_example =
    parse_tx_for_swaps-user_first chain raydium user_pays pool_pays 17 91 7 90 207 62 700 40 7 80 99
      [] keys refl refl refl user_moves pool_moves (λ e. absurd (omega (arith, e))) refl

abbrev account : AccountPretty
account = record {
  pubkey = 7;
  account = record { lamports = 60000; token_amount = none };
  txn_signature = 99;
}

abbrev accounts : Accounts
accounts = (7, some (record { lamports = 20000; token_amount = none })) ∷ []

abbrev signatures : Signatures
unfolding Operational.new
signatures = Operational.new

abbrev engine : Engine whole
engine = record {
  bot_wallet = some (some 4);
  bot_fee = some 2;
  users = λ wallet. some true;
  has_bot = true;
}

process_events-charged_example :
    process_events whole engine (env_at 10 8) (parse_account account signatures accounts).1
    ≡ done (fee_action whole engine (env_at 10 8) 7 40000 4 2 ∷ [])
unfolding signatures if_agent_signature prev_balance contains_value
process_events-charged_example =
    process_events-charged whole engine (env_at 10 8) account signatures accounts 4 2 refl
      (omega arith) refl refl refl refl refl

abbrev pub libraries : Libraries
libraries = record {
  Mints = List Pubkey;
  has_mint = contains;
  put_mint = λ mint pool mints. mint ∷ mints;
  checked_pow = λ base exponent. some (base ^ exponent);
}

-- The pool 80 has 5,000 tokens and 300 lamports; the price 1 is from before.
abbrev price : RaydiumPoolPriceUpdate ℕ
price = record { pool = 80; price = 1; base_reserve = 5000; quote_reserve = 300 }

abbrev followed : TargetPool
followed = record { id = 80; base_decimals = 0; quote_decimals = 0 }

abbrev cache : FeedCache whole libraries
unfolding signatures FeeMetrics.new add_agent_tx
cache = record {
  signatures = add_agent_tx 5 99 signatures;
  optimal_fee = FeeMetrics.new 4 4;
  target_pools = (80, followed) ∷ [];
  target_pools_prices = (80, price) ∷ [];
  target_tokens = [];
}

abbrev sold : RaydiumPoolPriceUpdate ℕ
sold = record { pool = 80; price = 0; base_reserve = 5700; quote_reserve = 260 }

abbrev sold_event : BotEvent ℕ
sold_event = blockchain_event (raydium_swap_event sold)

abbrev repriced : FeedCache whole libraries
unfolding cache
repriced = record cache {
  target_pools_prices = (80, record price { base_reserve = 5700; quote_reserve = 260 }) ∷ [];
}

-- The sale, sent by the bot for the order 5.
abbrev seen : TransactionPretty
seen = record {
  is_vote = false;
  signature = 99;
  status = none;
  tx = record { decoded = some (record { signatures = 99 ∷ []; message = none }); meta = none };
}

abbrev confirmed : FeedCache whole libraries
unfolding cache mark_signature_as_processed
confirmed = record cache { signatures = mark_signature_as_processed 5 99 cache.signatures }

parse_transaction-confirms_example :
    (is_signature_processed 99 confirmed.signatures ≡ true)
    × ((some (receipt whole libraries 5 99 none ∷ []) ≡ none)
        ⊎ ((more : List (BotEvent ℕ)) × (some (receipt whole libraries 5 99 none ∷ [])
              ≡ some (receipt whole libraries 5 99 none ∷ more))))
unfolding parse_transaction cache confirmed get_uuid_by_signature get_by_value insert
    parse_tx_for_swaps mark_signature_as_processed
parse_transaction-confirms_example =
    parse_transaction-confirms whole libraries chain none seen cache confirmed 5
      (some (receipt whole libraries 5 99 none ∷ [])) refl refl refl
