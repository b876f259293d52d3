-- ===== src/Web/GoatFarm.antt =====
-- frontend/src/features/goat-farm: the marker that opens the farm's popup, its countdown to the
-- restock, and what can be bought there. `clock` is what `Date.now()` gives.
use Prim.Native.String.{◌++◌ as append}
use faf_hackathon_challenge.Prelude.{
  ℕ, ◌+◌, ◌-◌, ◌/◌, ◌%◌, String, Bool, true, false, not, ◌&&◌, Option, none, some, List, [], ◌∷◌,
  any, if◌then◌else◌, ◌==◌, ltb, leb, str_eq,
}
use faf_hackathon_challenge.Prelude.Int.{ℤ, pos, negsuc, leb_int, pos_part, neg_part}

pub record GoatStockItem : Type 0 where
  pub id : String
  pub stock : ℤ
  pub max_stock : ℤ

-- The answer that the query has, and when it came (`dataUpdatedAt`).
pub record GoatStock : Type 0 where
  pub items : List GoatStockItem
  pub seconds_until_restock : ℤ
  pub data_updated_at : ℕ

pub record Farm : Type 0 where
  pub clock : ℕ
  pub opened : Bool
  pub now_ms : ℕ
  pub stock_data : Option GoatStock
  -- the timeout of 250 ms, and the calls of `refetch`
  pub refetch_pending : Bool
  pub refetched : ℕ
  -- the purchases: the one under way, those sent and those answered
  pub purchasing : Bool
  pub sent : List String
  pub answered : ℕ

-- `Math.floor((nowMs - dataUpdatedAt) / 1000)`
unfoldable pub seconds_passed : ℕ → ℕ → ℤ
seconds_passed now_ms data_updated_at =
    if leb data_updated_at now_ms
    then pos ((now_ms - data_updated_at) / 1000)
    else negsuc ((data_updated_at - now_ms - 1) / 1000)

-- `Math.max(0, a - b)`
abbrev pub minus_or_zero : ℤ → ℤ → ℕ
minus_or_zero a b = (pos_part a + neg_part b) - (pos_part b + neg_part a)

abbrev pub seconds_of : ℕ → Option GoatStock → Option ℕ
seconds_of now_ms none = none
seconds_of now_ms (some s) =
    if ltb 0 s.data_updated_at
    then some (minus_or_zero s.seconds_until_restock (seconds_passed now_ms s.data_updated_at))
    else none

unfoldable pub seconds_until_restock : Farm → Option ℕ
seconds_until_restock f = seconds_of f.now_ms f.stock_data

-- The rest below ten takes a zero in front.
unfoldable pub format_restock : (ℕ → String) → ℕ → String
format_restock print seconds =
    let rest = seconds % 60 in
    append (print (seconds / 60))
      (append ":" (if ltb rest 10 then append "0" (print rest) else print rest))

-- The body of the effect, and its guard: it runs where `open` or the seconds are not as before.
abbrev pub is_zero : Option ℕ → Bool
is_zero none = false
is_zero (some n) = n == 0

abbrev pub same_seconds : Option ℕ → Option ℕ → Bool
same_seconds none none = true
same_seconds none (some n) = false
same_seconds (some m) none = false
same_seconds (some m) (some n) = m == n

abbrev pub same_bool : Bool → Bool → Bool
same_bool true b = b
same_bool false b = not b

abbrev pub same_deps : Farm → Farm → Bool
same_deps before f =
    same_bool before.opened f.opened
    && same_seconds (seconds_until_restock before) (seconds_until_restock f)

abbrev pub rendered : Farm → Farm → Farm
rendered before f = record f {
  refetch_pending =
      if same_deps before f
      then f.refetch_pending
      else f.opened && is_zero (seconds_until_restock f);
}

abbrev pub sold_out : GoatStockItem → Bool
sold_out item = leb_int item.stock (pos 0)

abbrev pub items_of : Option GoatStock → List GoatStockItem
items_of none = []
items_of (some s) = s.items

-- Whether an item's button can be pressed: `guest` is whether there is one.
abbrev pub can_buy : Bool → String → Farm → Bool
can_buy guest id f =
    f.opened
    && guest
    && not f.purchasing
    && any (λ (item : GoatStockItem). str_eq item.id id && not (sold_out item))
        (items_of f.stock_data)

pub data FarmEvent : Type 0 where
  -- the clock goes on, by milliseconds
  passes : ℕ → FarmEvent
  -- the marker, the button of the popup, and the interval
  toggles closes ticks : FarmEvent
  -- the query's answer, with the items and the seconds, or its failure
  loads : List GoatStockItem → ℤ → FarmEvent
  load_fails : FarmEvent
  -- the timeout
  refetches : FarmEvent
  -- a button, by whether there is a guest, and the answer of the purchase
  buys : Bool → String → FarmEvent
  purchase_ends : FarmEvent

abbrev pub after_event : FarmEvent → Farm → Farm
after_event (passes d) f = record f { clock = f.clock + d }
after_event toggles f = record f { opened = not f.opened }
after_event closes f = record f { opened = false }
after_event ticks f = record f { now_ms = if f.opened then f.clock else f.now_ms }
after_event (loads items seconds) f = record f {
  stock_data =
      some (record { items = items; seconds_until_restock = seconds; data_updated_at = f.clock });
}
after_event load_fails f = f
after_event refetches f = record f {
  refetch_pending = false;
  refetched = if f.refetch_pending then f.refetched + 1 else f.refetched;
}
after_event (buys guest id) f =
    if can_buy guest id f then record f { purchasing = true; sent = id ∷ f.sent } else f
after_event purchase_ends f = record f {
  purchasing = false;
  answered = if f.purchasing then f.answered + 1 else f.answered;
}

unfoldable pub farm_step : FarmEvent → Farm → Farm
farm_step e f = rendered f (after_event e f)

unfoldable pub farm_run : List FarmEvent → Farm → Farm
unfolding farm_step
farm_run [] f = f
farm_run (e ∷ es) f = farm_run es (farm_step e f)

-- The marker is mounted at a time, with the popup closed.
abbrev pub mount_farm : ℕ → Farm
mount_farm now = record {
  clock = now;
  opened = false;
  now_ms = now;
  stock_data = none;
  refetch_pending = false;
  refetched = 0;
  purchasing = false;
  sent = [];
  answered = 0;
}
