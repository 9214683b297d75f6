-- ===== src/Extractor.antt =====
-- src/crp/pltExtractor.ts: the transfers of one token in the summaries of a block. A raw amount is a
-- natural number; `BigInt` of a value is a parameter.
use xcf_concordium_facilitat.Base.{
  ℕ, ◌-◌, ◌/◌, ◌%◌, ◌^◌, ◌++◌, Bool, true, false, ◌||◌, ◌&&◌, Option, none, some, List, [], ◌∷◌,
  if◌then◌else◌, length, Text, codes, text_eq, Value, Runtime, get, coalesce, is_falsy, to_string,
  to_number, as_natural,
}
use xcf_concordium_facilitat.Base.Js.{
  undefined, null, num, str, arr, obj, whole, pos, Fields, end, field,
}
use xcf_concordium_facilitat.Decimals.{prepend_zeros}
use xcf_concordium_facilitat.Source.{items}

pub record IndexedPltEvent : Type 0 where
  pub network : Text
  pub block_hash : Text
  pub block_height : ℕ
  pub tx_hash : Text
  pub token_id : Text
  pub amount : Text
  pub from : Option Text
  pub to : Option Text

-- `typeof v.toString === "function" ? v.toString() : String(v ?? "")`
unfoldable pub shown_text : Runtime → Value → Text
unfolding to_string
shown_text rt v = to_string rt (coalesce v (str []))

abbrev has_field : Text → Fields → Bool
unfolding text_eq
has_field k end = false
has_field k (field j v fs) = text_eq j k || has_field k fs

-- `${whole}.${frac}`, the fraction padded to the decimals
unfoldable pub scaled_text : Runtime → ℕ → ℕ → Text
unfolding prepend_zeros
scaled_text rt raw decimals =
    let frac = rt.text_of_number (whole (pos (raw % 10 ^ decimals))) in
    rt.text_of_number (whole (pos (raw / 10 ^ decimals)))
    ++ b'.' ∷ prepend_zeros (decimals - length frac) frac

abbrev scaled_amount : Runtime → Option ℕ → Option ℕ → Option Text
unfolding scaled_text
scaled_amount rt none decimals = none
scaled_amount rt (some raw) none = none
scaled_amount rt (some raw) (some d) = some (scaled_text rt raw d)

-- `amountStr`; `none` where `BigInt` throws
unfoldable pub amount_text : Runtime → (Value → Option ℕ) → Value → Option Text
unfolding codes has_field scaled_amount shown_text to_number
amount_text rt big_int (obj fs) =
    if has_field (codes "value") fs && has_field (codes "decimals") fs
    then scaled_amount rt (big_int (get (obj fs) (codes "value"))) (
        as_natural
          (to_number rt (coalesce (get (obj fs) (codes "decimals")) (num (whole (pos 0))))))
    else some (shown_text rt (obj fs))
amount_text rt big_int v = some (shown_text rt v)

-- `fromStr` and `toStr`
abbrev party : Runtime → Value → Option Text
unfolding to_string
party rt v = if is_falsy v then none else some (to_string rt v)

-- Whether an event is a transfer of the token
unfoldable pub is_token_event : Runtime → Text → Value → Bool
unfolding codes text_eq shown_text
is_token_event rt token ev = elim (get ev (codes "tag")) [
  | str tag ↦
      text_eq tag (codes "TokenTransfer")
      && text_eq (shown_text rt (get ev (codes "tokenId"))) token
  | _ ↦ false
]

-- The place of the block, and the token that is looked for
pub record BlockRef : Type 0 where
  pub network : Text
  pub block_hash : Text
  pub block_height : ℕ
  pub token_id : Text

-- The loop over the events of one transaction, before the events of the later ones
unfoldable pub events_of_tx :
    Runtime
    → (Value → Option ℕ)
    → BlockRef
    → Value
    → List Value
    → Option (List IndexedPltEvent)
    → Option (List IndexedPltEvent)
unfolding codes is_token_event amount_text shown_text party
events_of_tx rt big_int b tx [] later = later
events_of_tx rt big_int b tx (ev ∷ evs) later =
    let rest = events_of_tx rt big_int b tx evs later in
    if is_token_event rt b.token_id ev
    then elim (amount_text rt big_int (get ev (codes "amount"))) [
      | none ↦ none
      | some amount ↦ elim rest [
        | none ↦ none
        | some es ↦ some (
            record {
              network = b.network;
              block_hash = b.block_hash;
              block_height = b.block_height;
              tx_hash = shown_text rt (get tx (codes "hash"));
              token_id = b.token_id;
              amount = amount;
              from = party rt (get ev (codes "from"));
              to = party rt (get ev (codes "to"));
            }
            ∷ es)
      ]
    ]
    else rest

abbrev is_update_name : Value → Bool
unfolding codes text_eq
is_update_name (str s) = text_eq s (codes "tokenUpdate") || text_eq s (codes "TokenUpdate")
is_update_name v = false

-- `txType` is that of a token update.
unfoldable pub is_token_update : Value → Bool
unfolding codes is_update_name
is_token_update tx =
    is_update_name (coalesce (get tx (codes "transactionType")) (get tx (codes "type")))

abbrev array_or_empty : Value → List Value
array_or_empty (arr vs) = items vs
array_or_empty v = []

abbrev is_nullish : Value → Bool
is_nullish undefined = true
is_nullish null = true
is_nullish v = false

-- `extractPltEventsFromBlockSummaries`; `none` where it throws
unfoldable pub extract_plt_events :
    Runtime → (Value → Option ℕ) → BlockRef → List Value → Option (List IndexedPltEvent)
unfolding codes is_token_update events_of_tx
extract_plt_events rt big_int b [] = some []
extract_plt_events rt big_int b (tx ∷ txs) =
    let rest = extract_plt_events rt big_int b txs in
    if is_nullish tx
    then none
    else if is_token_update tx
    then events_of_tx rt big_int b tx (array_or_empty (get tx (codes "events"))) rest
    else rest
