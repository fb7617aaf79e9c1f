-- ===== src/Deposits/Store.antt =====
-- src/coinWallets.ts: how deposits read and write their tables.
use mpulse.Common.{
  ℕ, ◌+◌, ◌-◌, Bool, true, false, ◌&&◌, Option, none, some, List, [], ◌∷◌, ◌++◌, map, max, ok,
  if◌then◌else◌, ◌==◌,
}
use mpulse.Common.Text.{Text, codes, text_eq}
use mpulse.Coins.Types.{Entry}
use mpulse.Wallets.Types.{RateSnapshot, Wallet, WalletHost, OutboxInsert}
use mpulse.Wallets.Store.{find_coin_entry}
use mpulse.Wallets.Quotes.{find_snapshot}
use mpulse.Deposits.Types.{
  DepositStatus, Deposit, IntentStatus, Intent, ProviderEvent, Event, DepositDb,
}

-- `calculateNetUsdt`
unfoldable pub calculate_net_usdt : Event → ℕ
calculate_net_usdt e = e.gross - (e.network_fee + e.provider_fee)

-- What the insert of an event gives: its id, the hash that is stored, and whether it was there.
pub record StoredEvent : Type 0 where
  pub stored_id : ℕ
  pub stored_hash : Text
  pub was_there : Bool

unfoldable pub find_event : Text → List ProviderEvent → Option ProviderEvent
find_event name [] = none
find_event name (e ∷ events) = if text_eq e.event_name name then some e else find_event name events

unfoldable pub store_found :
    Option ProviderEvent → ℕ → Text → Text → List ProviderEvent → StoredEvent × List ProviderEvent
store_found (some e) id name hash events =
    (record { stored_id = e.event_uuid; stored_hash = e.event_hash; was_there = true }, events)
store_found none id name hash events = (
  record { stored_id = id; stored_hash = hash; was_there = false },
  record { event_uuid = id; event_name = name; event_hash = hash } ∷ events,
)

-- `on conflict (provider, provider_event_id) do nothing`, and the row that stands there then.
unfoldable pub store_provider_event :
    ℕ → Text → Text → List ProviderEvent → StoredEvent × List ProviderEvent
unfolding find_event store_found
store_provider_event id name hash events = store_found (find_event name events) id name hash events

unfoldable pub update_deposit : ℕ → (Deposit → Deposit) → List Deposit → List Deposit
update_deposit id change deposits = map (λ d. if d.deposit_id == id then change d else d) deposits

unfoldable pub find_deposit : ℕ → List Deposit → Option Deposit
find_deposit id [] = none
find_deposit id (d ∷ deposits) = if d.deposit_id == id then some d else find_deposit id deposits

unfoldable pub find_intent : ℕ → List Intent → Option Intent
find_intent id [] = none
find_intent id (i ∷ intents) = if i.intent_id == id then some i else find_intent id intents

-- The statuses `waiting` and `detected`.
abbrev pub is_open_intent : IntentStatus → Bool
is_open_intent IntentStatus.waiting = true
is_open_intent IntentStatus.intent_detected = true
is_open_intent _ = false

unfoldable pub set_detected : Option ℕ → List Intent → List Intent
set_detected none intents = intents
set_detected (some id) intents =
    map
      (λ i.
        if i.intent_id == id && is_open_intent i.intent_status
        then record i { intent_status = IntentStatus.intent_detected }
        else i)
      intents

unfoldable pub set_credited : ℕ → List Intent → List Intent
set_credited id intents =
    map
      (λ i.
        if i.intent_id == id then record i { intent_status = IntentStatus.intent_credited } else i)
      intents

abbrev pub coalesce_text : Option Text → Option Text → Option Text
coalesce_text none new = new
coalesce_text (some old) new = some old

-- `updateDepositState`
unfoldable pub with_state : DepositStatus → ℕ → Option Text → Option Text → Deposit → Deposit
with_state status confirmations reason confirmed d = record d {
  deposit_status = status;
  actual_confirmations = max d.actual_confirmations confirmations;
  manual_review_reason = reason;
  confirmed_at = coalesce_text d.confirmed_at confirmed;
}

unfoldable pub find_rate : Option ℕ → DepositDb → Option RateSnapshot
find_rate none db = none
find_rate (some id) db = find_snapshot id db.snapshots

unfoldable pub find_entry_of : Option ℕ → DepositDb → Wallet (Option Entry)
find_entry_of none db = ok none
find_entry_of (some id) db = find_coin_entry id db.coins

-- `crypto-deposit:${id}:${suffix}`
unfoldable pub deposit_key : WalletHost → ℕ → Text → Text
deposit_key host id suffix = codes "crypto-deposit:" ++ (host.uuid_text id ++ (codes ":" ++ suffix))

abbrev pub deposit_row_event : WalletHost → ℕ → Text → Text → OutboxInsert
deposit_row_event host id kind suffix = record {
  aggregate_type = codes "crypto_deposit";
  aggregate_id = host.uuid_text id;
  event_type = kind;
  event_key = deposit_key host id suffix;
}
